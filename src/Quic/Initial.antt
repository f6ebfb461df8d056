-- ===== src/Quic/Initial.antt =====
-- ExtractCryptoFramesFromPacket, deriveInitialKeys, hkdfExpandLabel, decryptInitialPacket and
-- DecryptWithCachedCrypto of internal/proxy/parser.go: an Initial packet of a client is decrypted,
-- and its CRYPTO frames are read. HKDF, AES and GCM are the record `Crypto`.
pub mod Safety
pub mod Protection
pub mod Opening
pub mod Opens
use Prim.Native.Char.{code}
use Prim.Native.String.{String}
use quic_relay.Prelude.{
  ℕ, zero, suc, ◌+◌, ◌-◌, ◌*◌, ◌/◌, ◌%◌, ◌^◌, Bool, true, false, not, bit_and, bit_or, bit_xor, ltb,
  leb, ◌==◌, Option, none, some, List, [], ◌∷◌, ◌++◌, length, set, replicate, if◌then◌else◌,
}
use quic_relay.Go.{
  Go, ok, err, panic, stuck, ◌>>=◌, ◌>>◌, fail_if, Bytes, index, slice, slice_from, overwrite,
  copy_at,
}
use quic_relay.Quic.{
  PacketType, unknown, initial, zero_rtt, handshake, retry, short_header, Error, packet_too_short,
  packet_type_error, unsupported_version, too_short_for_dcid_len, too_short_for_dcid,
  too_short_for_scid_len, token_length, payload_length, too_short_for_payload,
  failed_to_derive_keys, failed_to_decrypt, failed_cipher, encrypted_too_short, decryption_failed,
}
use quic_relay.Quic.Varint.{read_varint}
use quic_relay.Quic.Header.{classify_packet}
use quic_relay.Quic.Frames.{CryptoFrame, extract_crypto_frames}

-- crypto/aes, crypto/cipher and golang.org/x/crypto/hkdf over SHA-256. `none` is an error.
pub record Crypto : Type 1 where
  pub Block : Type 0
  pub Aead : Type 0
  pub hkdf_extract : Bytes → Bytes → Bytes
  pub hkdf_expand : Bytes → Bytes → ℕ → Option Bytes
  pub new_cipher : Bytes → Option Block
  pub new_gcm : Block → Option Aead
  pub encrypt : Block → Bytes → Bytes
  pub open_sealed : Aead → Bytes → Bytes → Bytes → Option Bytes

-- The bytes of an ASCII text.
abbrev codes : String → Bytes
codes String.[] = []
codes (String.◌∷◌ c s) = code c ∷ codes s

abbrev pub or_fail : {A : Type 0} → Option A → Error → Go Error A
or_fail none e = err e
or_fail (some a) e = ok a

abbrev quic_v1_initial_salt : Bytes
quic_v1_initial_salt =
    0x38 ∷ 0x76 ∷ 0x2c ∷ 0xf7 ∷ 0xf5 ∷ 0x59 ∷ 0x34 ∷ 0xb3 ∷ 0x4d ∷ 0x17 ∷ 0x9a ∷ 0xe6 ∷ 0xa4 ∷ 0xc8
    ∷ 0x0c ∷ 0xad ∷ 0xcc ∷ 0xbb ∷ 0x7f ∷ 0x0a ∷ []

-- The HkdfLabel structure, written into a buffer of its size.
unfoldable pub hkdf_label : Bytes → Bytes → ℕ → Bytes
hkdf_label label context size =
    let full_label = codes "tls13 " ++ label in
    let n = length full_label in
    let buffer = replicate (2 + 1 + n + 1 + length context) 0 in
    let sized = set (set buffer 0 (size / 2 ^ 8 % 2 ^ 8)) 1 (size % 2 ^ 8) in
    let labelled = copy_at (set sized 2 (n % 2 ^ 8)) 3 full_label in
    let counted = set labelled (3 + n) (length context % 2 ^ 8) in
    if ltb 0 (length context) then copy_at counted (4 + n) context else counted

-- `for i := 0; i < int(pnLen); i++ { packetCopy[pnOffset+i] ^= mask[1+i] }`
unfoldable pub unmask : ℕ → ℕ → ℕ → Bytes → Bytes → Go Error Bytes
unmask zero i pn_offset mask packet = ok packet
unmask (suc k) i pn_offset mask packet = index packet (pn_offset + i) >>= λ c.
    index mask (1 + i) >>= λ m.
    unmask k (i + 1) pn_offset mask (set packet (pn_offset + i) (bit_xor c m))

-- `pn = (pn << 8) | uint64(packetCopy[pnOffset+i])`
unfoldable pub read_packet_number : ℕ → ℕ → ℕ → Bytes → ℕ → Go Error ℕ
read_packet_number zero i pn_offset packet pn = ok pn
read_packet_number (suc k) i pn_offset packet pn = index packet (pn_offset + i) >>= λ c.
    read_packet_number k (i + 1) pn_offset packet (bit_or (pn * 2 ^ 8 % 2 ^ 64) c)

-- `for i := 0; i < 8; i++ { nonce[4+i] ^= byte(pn >> (56 - 8*i)) }`
unfoldable pub mix_nonce : ℕ → ℕ → ℕ → Bytes → Go Error Bytes
mix_nonce zero i pn nonce = ok nonce
mix_nonce (suc k) i pn nonce = index nonce (4 + i) >>= λ c.
    mix_nonce k (i + 1) pn (set nonce (4 + i) (bit_xor c (pn / 2 ^ (56 - 8 * i) % 2 ^ 8)))

-- The first byte with its header protection removed.
abbrev pub unprotect : ℕ → ℕ → ℕ
unprotect first m =
    bit_xor first (if bit_and first 0x80 == 0x80 then bit_and m 0x0f else bit_and m 0x1f)

abbrev pub buffer_size : ℕ
buffer_size = 65535

-- `(*bufPtr)[:len(packet)]` of a pooled buffer, with the packet copied into it.
unfoldable pub copy_packet : Bytes → Go Error Bytes
copy_packet packet = if leb (length packet) buffer_size then ok packet else panic

-- `binary.BigEndian.Uint32`
abbrev pub big_endian_u32 : Bytes → Go Error ℕ
big_endian_u32 b = do
  x0 ← index b 0
  x1 ← index b 1
  x2 ← index b 2
  x3 ← index b 3
  ok (((x0 * 2 ^ 8 + x1) * 2 ^ 8 + x2) * 2 ^ 8 + x3)

-- `if pktType != PacketInitial`
abbrev pub check_initial : PacketType → Go Error (Unit {0})
check_initial initial = ok tt
check_initial other = err (packet_type_error initial other)

-- `fmt.Errorf("...: %w", err)`
abbrev pub wrap : {A : Type 0} → (Error → Error) → Go Error A → Go Error A
wrap f (ok a) = ok a
wrap f (err e) = err (f e)
wrap f panic = panic
wrap f stuck = stuck

-- Up to the SCID, which is skipped: the DCID and the offset behind the SCID.
unfoldable pub find_dcid : Bytes → Go Error (Bytes × ℕ)
find_dcid packet = do
  fail_if (ltb (length packet) 5) packet_too_short
  kind ← classify_packet packet
  check_initial kind
  version ← slice packet 1 5 >>= big_endian_u32
  fail_if (not (version == 1)) unsupported_version
  fail_if (leb (length packet) 5) too_short_for_dcid_len
  dcid_len ← index packet 5
  fail_if (ltb (length packet) (6 + dcid_len)) too_short_for_dcid
  dcid ← slice packet 6 (6 + dcid_len)
  fail_if (leb (length packet) (6 + dcid_len)) too_short_for_scid_len
  scid_len ← index packet (6 + dcid_len)
  ok (dcid, 6 + dcid_len + 1 + scid_len)

-- The offset behind the token, which is skipped too. Neither offset is compared with the length of
-- the packet before the packet is sliced there. A length is below 2^62, so no `int` sum wraps.
unfoldable pub find_token_end : Bytes → ℕ → Go Error ℕ
find_token_end packet offset = do
  behind_scid ← slice_from packet offset
  (token_len, n) ← wrap token_length (read_varint behind_scid)
  ok (offset + n + token_len)

-- The protected payload, and the offset at which it begins.
unfoldable pub find_payload : Bytes → ℕ → Go Error (Bytes × ℕ)
find_payload packet offset = do
  behind_token ← slice_from packet offset
  (payload_len, n) ← wrap payload_length (read_varint behind_token)
  let pn_offset = offset + n
  fail_if (ltb (length packet) (pn_offset + payload_len)) too_short_for_payload
  encrypted ← slice packet pn_offset (pn_offset + payload_len)
  ok (encrypted, pn_offset)

module _ (c : Crypto) where
  open c use {Block, Aead, hkdf_extract, hkdf_expand, new_cipher, new_gcm, encrypt, open_sealed}

  unfoldable pub hkdf_expand_label : Bytes → Bytes → Bytes → ℕ → Option Bytes
  hkdf_expand_label secret label context size =
      hkdf_expand secret (hkdf_label label context size) size

  -- The key, the IV and the header protection key of the client.
  unfoldable pub derive_initial_keys : Bytes → Go Error (Bytes × Bytes × Bytes)
  unfolding hkdf_expand_label
  derive_initial_keys dcid = do
    let initial_secret = hkdf_extract dcid quic_v1_initial_salt
    secret ←
        or_fail (hkdf_expand_label initial_secret (codes "client in") [] 32) failed_to_derive_keys
    key ← or_fail (hkdf_expand_label secret (codes "quic key") [] 16) failed_to_derive_keys
    iv ← or_fail (hkdf_expand_label secret (codes "quic iv") [] 12) failed_to_derive_keys
    hp ← or_fail (hkdf_expand_label secret (codes "quic hp") [] 16) failed_to_derive_keys
    ok (key, iv, hp)

  -- The part behind the mask: `opened` is the first byte with its protection removed.
  unfoldable pub open_payload : Bytes → Bytes → ℕ → Bytes → ℕ → Aead → Bytes → Go Error Bytes
  open_payload packet encrypted pn_offset mask opened aead iv = do
    let pn_len = bit_and opened 0x03 + 1
    unmasked ← unmask pn_len 0 pn_offset mask (set packet 0 opened)
    pn ← read_packet_number pn_len 0 pn_offset unmasked 0
    nonce ← mix_nonce 8 0 pn (overwrite (replicate 12 0) iv)
    ciphertext ← slice_from encrypted pn_len
    aad ← slice unmasked 0 (pn_offset + pn_len)
    or_fail (open_sealed aead nonce ciphertext aad) decryption_failed

  unfoldable pub decrypt_with_cached_crypto :
      Bytes → Bytes → ℕ → Block → Aead → Bytes → Go Error Bytes
  decrypt_with_cached_crypto packet encrypted pn_offset hp_cipher aead iv = do
    fail_if (ltb (length encrypted) 20) encrypted_too_short
    sample ← slice encrypted 4 20
    let mask = encrypt hp_cipher sample
    packet_copy ← copy_packet packet
    first ← index packet_copy 0
    m ← index mask 0
    open_payload packet_copy encrypted pn_offset mask (unprotect first m) aead iv

  unfoldable pub decrypt_initial_packet : Bytes → Bytes → ℕ → Bytes → Bytes → Bytes → Go Error Bytes
  decrypt_initial_packet packet encrypted pn_offset key iv hp = do
    fail_if (ltb (length encrypted) 20) encrypted_too_short
    hp_cipher ← or_fail (new_cipher hp) failed_cipher
    aes_cipher ← or_fail (new_cipher key) failed_cipher
    aead ← or_fail (new_gcm aes_cipher) failed_cipher
    decrypt_with_cached_crypto packet encrypted pn_offset hp_cipher aead iv

  unfoldable pub extract_crypto_frames_from_packet : Bytes → Go Error (List CryptoFrame)
  extract_crypto_frames_from_packet packet = do
    (dcid, scid_end) ← find_dcid packet
    token_end ← find_token_end packet scid_end
    (encrypted, pn_offset) ← find_payload packet token_end
    (key, iv, hp) ← derive_initial_keys dcid
    decrypted ← wrap failed_to_decrypt (decrypt_initial_packet packet encrypted pn_offset key iv hp)
    extract_crypto_frames decrypted
