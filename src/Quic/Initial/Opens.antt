-- ===== src/Quic/Initial/Opens.antt =====
-- ExtractCryptoFramesFromPacket of internal/proxy/parser.go on a client's Initial packet that is
-- protected as RFC 9001 says.
use quic_relay.Prelude.{
  ℕ, suc, ◌+◌, ◌≤◌, ◌<◌, ◌≡◌, ◌∙◌, refl, sym, ap, arith, false, some, ◌∷◌, ◌++◌, append_assoc,
  length, length-append, ltb, Bool-cases, inl, inr,
}
use quic_relay.Go.{ok, Bytes, slice, slice_from}
use quic_relay.Go.Slices.{slice-append, slice_from-append}
use quic_relay.Quic.{Error, initial}
use quic_relay.Quic.Varint.Encode.{
  width, limit, encode_varint, length-encode_varint, read_varint-encode_varint,
}
use quic_relay.Quic.Header.{is_short, long_type}
use quic_relay.Quic.Frames.{extract_crypto_frames}
use quic_relay.Quic.Initial.{
  Crypto, buffer_size, derive_initial_keys, decrypt_with_cached_crypto, decrypt_initial_packet,
  find_dcid, find_token_end, find_payload, extract_crypto_frames_from_packet,
}
use quic_relay.Quic.Initial.Safety.{initial_packet, find_dcid-initial}
use quic_relay.Quic.Initial.Opening.{masked_short, masked_type, decrypt_with_cached_crypto-opens}
use quic_relay.Quic.Initial.Protection.{
  Header, IsHeader, front, nonce_of, mask_number, mask_first, sample_of, length-mask_number,
}

-- What a client derives from its DCID, as deriveInitialKeys and the constructors of the ciphers do.
pub record Keys (c : Crypto) (dcid : Bytes) : Type 0 where
  pub key : Bytes
  pub iv : Bytes
  pub hp : Bytes
  pub hp_cipher : c.Block
  pub aes_cipher : c.Block
  pub aead : c.Aead
  pub derived : derive_initial_keys c dcid ≡ ok (key, iv, hp)
  pub hp_made : c.new_cipher hp ≡ some hp_cipher
  pub aes_made : c.new_cipher key ≡ some aes_cipher
  pub aead_made : c.new_gcm aes_cipher ≡ some aead
  pub wide : length iv ≡ 12

-- The client's half of GCM: it adds a tag of 16 bytes, and what it seals is opened.
pub record Seals (c : Crypto) (aead : c.Aead) (seal : Bytes → Bytes → Bytes → Bytes) : Type 0 where
  pub size : (nonce plain aad : Bytes) → length (seal nonce plain aad) ≡ length plain + 16
  pub opens :
      (nonce plain aad : Bytes) → c.open_sealed aead nonce (seal nonce plain aad) aad ≡ some plain

-- What stands behind the packet number's offset, as the length field counts it.
abbrev pub size_of : Header → Bytes → ℕ
size_of h plain = length h.number + (length plain + 16)

-- The protected packet, with what follows it in its datagram.
abbrev pub protect :
    (c : Crypto) (h : Header)
    → Keys c h.dcid
    → (Bytes → Bytes → Bytes → Bytes)
    → Bytes
    → Bytes
    → Bytes
protect c h k seal plain behind =
    let before = front h (size_of h plain) in
    let sealed = seal (nonce_of k.iv h.number) plain (h.first ∷ (before ++ h.number)) in
    let mask = c.encrypt k.hp_cipher (sample_of h.number sealed) in
    mask_first mask h.first ∷ (before ++ (mask_number mask 0 h.number ++ (sealed ++ behind)))

module _ (h : Header) (masked size : ℕ) (rest : Bytes) where
  abbrev packet : Bytes
  packet = masked ∷ (front h size ++ rest)

  abbrev up_to_scid : Bytes
  up_to_scid = masked ∷ 0 ∷ 0 ∷ 0 ∷ 1 ∷ length h.dcid ∷ (h.dcid ++ (length h.scid ∷ h.scid))

  abbrev up_to_token : Bytes
  up_to_token = up_to_scid ++ (encode_varint h.token_size (length h.token) ++ h.token)

  packet-dcid :
      packet
      ≡ initial_packet masked h.dcid (length h.scid) (
          h.scid
          ++ (encode_varint h.token_size (length h.token)
              ++ (h.token ++ (encode_varint h.length_size size ++ rest))))
  packet-dcid = simp append_assoc

  packet-scid :
      packet
      ≡ up_to_scid
        ++ (encode_varint h.token_size (length h.token)
            ++ (h.token ++ (encode_varint h.length_size size ++ rest)))
  packet-scid = simp append_assoc

  packet-token : packet ≡ up_to_token ++ (encode_varint h.length_size size ++ rest)
  packet-token = simp append_assoc

  scid_end-lem : length up_to_scid ≡ 6 + length h.dcid + 1 + length h.scid
  scid_end-lem = omega (arith, length-append h.dcid (length h.scid ∷ h.scid))

  token_end-lem : length up_to_token ≡ length up_to_scid + width h.token_size + length h.token
  token_end-lem = omega (
    arith,
    length-append up_to_scid (encode_varint h.token_size (length h.token) ++ h.token),
    length-append (encode_varint h.token_size (length h.token)) h.token,
    length-encode_varint h.token_size (length h.token),
  )

  found_dcid :
      is_short masked ≡ false
      → long_type masked ≡ initial
      → find_dcid packet ≡ ok (h.dcid, length up_to_scid)
  found_dcid long kind =
      rw (packet-dcid, scid_end-lem) (find_dcid-initial masked (length h.scid) h.dcid _ long kind)

  found_token_end :
      length h.token < limit h.token_size
      → find_token_end packet (length up_to_scid) ≡ ok (length up_to_token)
  unfolding find_token_end
  found_token_end t =
      let behind = h.token ++ (encode_varint h.length_size size ++ rest) in
      rw
        (
          packet-scid,
          slice_from-append {E = Error} up_to_scid
              (encode_varint h.token_size (length h.token) ++ behind) (length up_to_scid) refl,
          read_varint-encode_varint h.token_size (length h.token) behind t,
          token_end-lem,
        )
        refl

  front-token : masked ∷ front h size ≡ up_to_token ++ encode_varint h.length_size size
  front-token = simp append_assoc

  found_payload :
      (encrypted behind : Bytes)
      → rest ≡ encrypted ++ behind
      → size ≡ length encrypted
      → size < limit h.length_size
      → find_payload packet (length up_to_token) ≡ ok (encrypted, suc (length (front h size)))
  unfolding find_payload
  found_payload encrypted behind e w small =
      let at = suc (length (front h size)) in
      let read : slice_from {E = Error} packet (length up_to_token)
          ≡ ok (encode_varint h.length_size size ++ rest) =
        rw packet-token (
          slice_from-append {E = Error} up_to_token (encode_varint h.length_size size ++ rest)
            (length up_to_token) refl) in
      let offset : length up_to_token + width h.length_size ≡ at = omega (
        arith,
        length-append up_to_token (encode_varint h.length_size size),
        length-encode_varint h.length_size size,
        ap length front-token,
      ) in
      let fits : ltb (length packet) (at + size) ≡ false =
        ground
          (arith, length-append (front h size) rest, ap length e, length-append encrypted behind) in
      let sliced : slice {E = Error} packet at (at + size) ≡ ok encrypted = rw e (
        slice-append {E = Error} (masked ∷ front h size) encrypted behind at (at + size) refl
          (omega arith)) in
      rw (read, read_varint-encode_varint h.length_size size rest small, offset, fits, sliced) refl

module _ (c : Crypto) where
  pub decrypt_initial_packet-cached :
      (dcid : Bytes) (k : Keys c dcid) (packet encrypted : Bytes) (at : ℕ)
      → decrypt_initial_packet c packet encrypted at k.key k.iv k.hp
        ≡ decrypt_with_cached_crypto c packet encrypted at k.hp_cipher k.aead k.iv
  unfolding decrypt_initial_packet decrypt_with_cached_crypto
  decrypt_initial_packet-cached dcid k packet encrypted at =
      elim (Bool-cases (ltb (length encrypted) 20)) [
        | inl short ↦ rw short refl
        | inr enough ↦ rw (enough, k.hp_made, k.aes_made, k.aead_made) refl
      ]

module _ (c : Crypto) (block : (b : c.Block) (s : Bytes) → length (c.encrypt b s) ≡ 16) where
  -- A version 1 Initial packet that a client protects as RFC 9001 says, with a packet number of the
  -- length that its first byte says, a payload that is long enough for the sample, the lengths of its
  -- token and of its rest each in a varint of any of the four sizes that can hold it, in a datagram of
  -- at most 65535 bytes and before whatever follows it there, with the keys that deriveInitialKeys
  -- derives from its DCID, an AES whose blocks have 16 bytes and a GCM that opens what it sealed:
  -- ExtractCryptoFramesFromPacket returns what extractCryptoFrames finds in its payload.
  pub extract_crypto_frames_from_packet-protect :
      (h : Header) (k : Keys c h.dcid) (seal : Bytes → Bytes → Bytes → Bytes) (plain behind : Bytes)
      → IsHeader h
      → Seals c k.aead seal
      → 4 ≤ length h.number + length plain
      → size_of h plain < limit h.length_size
      → length (protect c h k seal plain behind) ≤ buffer_size
      → extract_crypto_frames_from_packet c (protect c h k seal plain behind)
        ≡ extract_crypto_frames plain
  unfolding extract_crypto_frames_from_packet
  extract_crypto_frames_from_packet-protect h k seal plain behind v s big small fits =
      let before = front h (size_of h plain) in
      let nonce = nonce_of k.iv h.number in
      let aad : Bytes = h.first ∷ (before ++ h.number) in
      let sealed = seal nonce plain aad in
      let mask = c.encrypt k.hp_cipher (sample_of h.number sealed) in
      let masked = mask_first mask h.first in
      let number = mask_number mask 0 h.number in
      let rest = number ++ (sealed ++ behind) in
      let size = s.size nonce plain aad in
      let same = length-mask_number mask 0 h.number in
      let counted : size_of h plain ≡ length (number ++ sealed) =
        omega (arith, length-append number sealed, size, same) in
      let long = masked_short mask h.first v.byte ∙ v.long in
      let kind = masked_type mask h.first v.byte ∙ v.kind in
      let cached =
        decrypt_initial_packet-cached c h.dcid k (masked ∷ (before ++ rest)) (number ++ sealed)
          (suc (length before)) in
      let plainly =
        decrypt_with_cached_crypto-opens c k.aead k.iv k.wide k.hp_cipher before h.number sealed
          behind h.first block v.byte v.long v.size v.number (omega (arith, size))
          (omega (
            arith,
            fits,
            length-append before rest,
            length-append number (sealed ++ behind),
            length-append sealed behind,
            same,
          )) in
      rw
        (
          found_dcid h masked (size_of h plain) rest long kind,
          found_token_end h masked (size_of h plain) rest v.token,
          found_payload h masked (size_of h plain) rest (number ++ sealed) behind
              (sym (append_assoc number sealed behind)) counted small,
          k.derived,
          cached,
          plainly,
          s.opens nonce plain aad,
        )
        refl
