-- ===== src/Quic/Initial/Safety.antt =====
-- Panics of ExtractCryptoFramesFromPacket and of the decryption below it.
use quic_relay.Prelude.{
  ℕ, zero, suc, ◌+◌, ◌-◌, ◌*◌, ◌/◌, ◌%◌, ◌^◌, ◌≤◌, ◌<◌, ◌≡◌, refl, arith, false, none, some, Option,
  List, [], ◌∷◌, ◌++◌, All, bit_and, bit_or, bit_xor, length, length-append, length-set, replicate,
  set, drop, get_or, ltb,
}
use quic_relay.Prelude.Bits.{low_two}
use quic_relay.Go.{
  Go, ok, err, panic, stuck, Ensures, Ensures-bind, Ensures-bind_Returns, Ensures-fail_if, Returns,
  Returns-eq, Bytes, index, slice, slice_from, overwrite, length-overwrite,
}
use quic_relay.Go.Slices.{
  index-append, slice-append, index-Ensures, slice-Ensures, slice_from-Ensures,
}
use quic_relay.Quic.{
  Error, initial, payload_length, decryption_failed, failed_cipher, failed_to_decrypt,
}
use quic_relay.Quic.Varint.{read_varint}
use quic_relay.Quic.Varint.Reference.{IsByte, All-drop, read_varint-Ensures}
use quic_relay.Quic.Header.{is_short, long_type, classify_packet}
use quic_relay.Quic.Frames.{CryptoFrame, extract_crypto_frames}
use quic_relay.Quic.Frames.Total.{IsFrame, extract_crypto_frames-AreFrames}
use quic_relay.Quic.Initial.{
  Crypto, unmask, read_packet_number, mix_nonce, copy_packet, buffer_size, unprotect, open_payload,
  or_fail, decrypt_with_cached_crypto, decrypt_initial_packet, derive_initial_keys, find_dcid,
  find_token_end, find_payload, wrap, big_endian_u32, extract_crypto_frames_from_packet,
}

unmask-Returns :
    (k i pn_offset : ℕ) (mask packet : Bytes)
    → pn_offset + i + k ≤ length packet
    → 1 + i + k ≤ length mask
    → Returns (λ r. length r ≡ length packet) (unmask k i pn_offset mask packet)
unfolding unmask index
unmask-Returns zero i pn_offset mask packet h l = refl
unmask-Returns (suc k) i pn_offset mask packet h l =
    let at = pn_offset + i in
    let x = bit_xor (get_or packet at 0) (get_or mask (1 + i) 0) in
    ground
      (arith, length-set packet at x, unmask-Returns k (i + 1) pn_offset mask (set packet at x))

read_packet_number-Returns :
    (k i pn_offset : ℕ) (packet : Bytes) (pn : ℕ)
    → pn_offset + i + k ≤ length packet
    → Returns (λ r. Unit) (read_packet_number k i pn_offset packet pn)
unfolding read_packet_number index
read_packet_number-Returns zero i pn_offset packet pn h = tt
read_packet_number-Returns (suc k) i pn_offset packet pn h = ground (
  arith,
  read_packet_number-Returns k (i + 1) pn_offset packet
      (bit_or (pn * 2 ^ 8 % 2 ^ 64) (get_or packet (pn_offset + i) 0)),
)

mix_nonce-Returns :
    (k i pn : ℕ) (nonce : Bytes)
    → 4 + i + k ≤ length nonce
    → Returns (λ r. length r ≡ length nonce) (mix_nonce k i pn nonce)
unfolding mix_nonce index
mix_nonce-Returns zero i pn nonce h = refl
mix_nonce-Returns (suc k) i pn nonce h =
    let x = bit_xor (get_or nonce (4 + i) 0) (pn / 2 ^ (56 - 8 * i) % 2 ^ 8) in
    ground (arith, length-set nonce (4 + i) x, mix_nonce-Returns k (i + 1) pn (set nonce (4 + i) x))

-- What the code relies on: AES writes a block of 16 bytes, and GCM opens to bytes.
pub record CryptoLaws (c : Crypto) : Type 0 where
  pub encrypt_size : (b : c.Block) (s : Bytes) → length (c.encrypt b s) ≡ 16
  pub open_bytes :
      (a : c.Aead) (nonce text data' plain : Bytes)
      → c.open_sealed a nonce text data' ≡ some plain
      → All IsByte plain

module _ (c : Crypto) (laws : CryptoLaws c) where
  opened-Ensures :
      (aead : c.Aead) (nonce text aad : Bytes)
      → Ensures (All IsByte) (or_fail (c.open_sealed aead nonce text aad) decryption_failed)
  opened-Ensures aead nonce text aad = go (c.open_sealed aead nonce text aad) refl
    where
      go :
          (r : Option Bytes)
          → c.open_sealed aead nonce text aad ≡ r
          → Ensures (All IsByte) (or_fail r decryption_failed)
      go none e = tt
      go (some plain) e = laws.open_bytes aead nonce text aad plain e

  open_payload-Ensures :
      (packet encrypted : Bytes) (pn_offset : ℕ) (mask : Bytes) (opened : ℕ) (aead : c.Aead)
      (iv : Bytes)
      → 20 ≤ length encrypted
      → pn_offset + length encrypted ≤ length packet
      → length mask ≡ 16
      → Ensures (All IsByte) (open_payload c packet encrypted pn_offset mask opened aead iv)
  unfolding open_payload
  open_payload-Ensures packet encrypted pn_offset mask opened aead iv big inside wide =
      let n = bit_and opened 0x03 + 1 in
      let short : n ≤ 4 = omega (arith, low_two opened) in
      let start = overwrite (replicate 12 0) iv in
      Ensures-bind_Returns (λ r. length r ≡ length (set packet 0 opened)) Q
        (unmask n 0 pn_offset mask (set packet 0 opened)) _
        (unmask-Returns n 0 pn_offset mask (set packet 0 opened)
          (omega (arith, length-set packet 0 opened)) (omega arith))
        λ unmasked u.
          Ensures-bind_Returns (λ r. Unit {0}) Q (read_packet_number n 0 pn_offset unmasked 0) _
            (read_packet_number-Returns n 0 pn_offset unmasked 0
              (omega (arith, u, length-set packet 0 opened)))
            λ pn _.
              Ensures-bind_Returns (λ r. length r ≡ length start) Q (mix_nonce 8 0 pn start) _
                (mix_nonce-Returns 8 0 pn start
                  (omega (arith, length-overwrite (replicate 12 0) iv)))
                λ nonce _.
                  Ensures-bind _ Q (slice_from encrypted n) _
                    (slice_from-Ensures Error encrypted n (omega arith))
                    λ text _.
                      Ensures-bind _ Q (slice unmasked 0 (pn_offset + n)) _
                        (slice-Ensures Error unmasked 0 (pn_offset + n) (omega arith)
                          (omega (arith, u, length-set packet 0 opened)))
                        λ aad _. opened-Ensures aead nonce text aad
    where
      Q : Bytes → Type 0
      Q = All IsByte

  decrypt_with_cached_crypto-Ensures :
      (packet encrypted : Bytes) (pn_offset : ℕ) (hp : c.Block) (aead : c.Aead) (iv : Bytes)
      → length packet ≤ buffer_size
      → pn_offset + length encrypted ≤ length packet
      → Ensures (All IsByte) (decrypt_with_cached_crypto c packet encrypted pn_offset hp aead iv)
  unfolding decrypt_with_cached_crypto copy_packet
  decrypt_with_cached_crypto-Ensures packet encrypted pn_offset hp aead iv small inside =
      Ensures-fail_if Q (ltb (length encrypted) 20) _ _ λ t.
        let big : 20 ≤ length encrypted = ground arith in
        Ensures-bind _ Q (slice encrypted 4 20) _
          (slice-Ensures Error encrypted 4 20 (omega arith) big)
          λ sample _.
            Ensures-bind (λ p. p ≡ packet) Q (copy_packet packet) _ (ground arith)
              λ copied same.
                Ensures-bind _ Q (index copied 0) _
                  (index-Ensures Error copied 0 (rw same (omega arith)))
                  λ first _.
                    let mask = c.encrypt hp sample in
                    let wide = laws.encrypt_size hp sample in
                    Ensures-bind _ Q (index mask 0) _ (index-Ensures Error mask 0 (omega arith))
                      λ m _.
                        open_payload-Ensures copied encrypted pn_offset mask (unprotect first m)
                          aead iv big (rw same inside) wide
    where
      Q : Bytes → Type 0
      Q = All IsByte

-- The offset behind the SCID, and the one behind the token, as the header's length fields say.
abbrev pub scid_end : Bytes → ℕ
scid_end p = let at = 6 + get_or p 5 0 in at + 1 + get_or p at 0

abbrev pub token_end : Bytes → ℕ
token_end p = elim (read_varint (drop (scid_end p) p)) [
  | ok (token_len, n) ↦ scid_end p + n + token_len
  | err e ↦ 0
  | panic ↦ 0
  | stuck ↦ 0
]

wrap-Ensures :
    {A : Type 0} (P : A → Type 0) (f : Error → Error) (m : Go Error A)
    → Ensures P m
    → Ensures P (wrap f m)
wrap-Ensures P f (ok a) h = h
wrap-Ensures P f (err e) h = tt
wrap-Ensures P f panic h = h
wrap-Ensures P f stuck h = h

module _ (p : Bytes) (bytes : All IsByte p) where
  find_dcid-Ensures : Ensures (λ r. r.1 ≡ scid_end p) (find_dcid p)
  unfolding find_dcid slice index classify_packet
  find_dcid-Ensures = ground arith

  find_token_end-Ensures :
      scid_end p ≤ length p → Ensures (λ r. r ≡ token_end p) (find_token_end p (scid_end p))
  unfolding find_token_end slice_from
  find_token_end-Ensures h =
      ground (arith, read_varint-Ensures (drop (scid_end p) p) (All-drop (scid_end p) p bytes))

  find_payload-Ensures :
      (o : ℕ) → o ≤ length p → Ensures (λ r. r.1 + length r.0 ≤ length p) (find_payload p o)
  unfolding find_payload
  find_payload-Ensures o h =
      Ensures-bind _ Q (slice_from p o) _ (slice_from-Ensures Error p o h) λ behind same.
        Ensures-bind IsRead Q (wrap payload_length (read_varint behind)) _
          (wrap-Ensures IsRead payload_length (read_varint behind)
            (rw same (read_varint-Ensures (drop o p) (All-drop o p bytes))))
          λ r _.
            let (size, n) = r in
            Ensures-fail_if Q (ltb (length p) (o + n + size)) _ _ λ fits.
              Ensures-bind _ Q (slice p (o + n) (o + n + size)) _
                (slice-Ensures Error p (o + n) (o + n + size) (omega arith) (ground arith))
                λ encrypted e. ground arith
    where
      Q : Bytes × ℕ → Type 0
      Q r = r.1 + length r.0 ≤ length p

      IsRead : ℕ × ℕ → Type 0
      IsRead r = (r.0 < 2 ^ 62) × (1 ≤ r.1) × (r.1 ≤ 8) × (r.1 ≤ length (drop o p))

-- A version 1 packet up to its SCID length, and whatever follows that.
abbrev pub initial_packet : ℕ → Bytes → ℕ → Bytes → Bytes
initial_packet first dcid scid_len rest =
    first ∷ 0 ∷ 0 ∷ 0 ∷ 1 ∷ length dcid ∷ (dcid ++ (scid_len ∷ rest))

classify_packet-initial :
    (first : ℕ) (b : Bytes)
    → is_short first ≡ false
    → long_type first ≡ initial
    → classify_packet (first ∷ b) ≡ ok initial
unfolding classify_packet index
classify_packet-initial first b long kind = ground arith

version_one : big_endian_u32 (0 ∷ 0 ∷ 0 ∷ 1 ∷ []) ≡ ok 1
unfolding index
version_one = refl

pub find_dcid-initial :
    (first scid_len : ℕ) (dcid rest : Bytes)
    → is_short first ≡ false
    → long_type first ≡ initial
    → find_dcid (initial_packet first dcid scid_len rest)
      ≡ ok (dcid, 6 + length dcid + 1 + scid_len)
unfolding find_dcid
find_dcid-initial first scid_len dcid rest long kind =
    let front : Bytes = first ∷ 0 ∷ 0 ∷ 0 ∷ 1 ∷ length dcid ∷ [] in
    rw
      (
        classify_packet-initial first _ long kind,
        slice-append {E = Error} (first ∷ []) (0 ∷ 0 ∷ 0 ∷ 1 ∷ [])
            (length dcid ∷ (dcid ++ (scid_len ∷ rest))) 1 5 refl refl,
        version_one,
        index-append {E = Error} (first ∷ 0 ∷ 0 ∷ 0 ∷ 1 ∷ []) (dcid ++ (scid_len ∷ rest))
            (length dcid) 5 refl,
        slice-append {E = Error} front dcid (scid_len ∷ rest) 6 (6 + length dcid) refl refl,
        index-append {E = Error} (front ++ dcid) rest scid_len (6 + length dcid) (omega arith),
      )
      (ground (arith, length-append dcid (scid_len ∷ rest)))

module _ (c : Crypto) (laws : CryptoLaws c) where
  or_fail-Ensures : {A : Type 0} (r : Option A) (e : Error) → Ensures (λ a. Unit {0}) (or_fail r e)
  or_fail-Ensures none e = tt
  or_fail-Ensures (some a) e = tt

  derive_initial_keys-Ensures :
      (dcid : Bytes) → Ensures (λ k. Unit {0}) (derive_initial_keys c dcid)
  unfolding derive_initial_keys
  derive_initial_keys-Ensures dcid = ground arith

  decrypt_initial_packet-Ensures :
      (packet encrypted : Bytes) (pn_offset : ℕ) (key iv hp : Bytes)
      → length packet ≤ buffer_size
      → pn_offset + length encrypted ≤ length packet
      → Ensures (All IsByte) (decrypt_initial_packet c packet encrypted pn_offset key iv hp)
  unfolding decrypt_initial_packet
  decrypt_initial_packet-Ensures packet encrypted pn_offset key iv hp small inside =
      Ensures-fail_if Q (ltb (length encrypted) 20) _ _ λ t.
        Ensures-bind (λ b. Unit {0}) Q (or_fail (c.new_cipher hp) failed_cipher) _
          (or_fail-Ensures _ _)
          λ hp_cipher _.
            Ensures-bind (λ b. Unit {0}) Q (or_fail (c.new_cipher key) failed_cipher) _
              (or_fail-Ensures _ _)
              λ aes_cipher _.
                Ensures-bind (λ b. Unit {0}) Q (or_fail (c.new_gcm aes_cipher) failed_cipher) _
                  (or_fail-Ensures _ _)
                  λ aead _.
                    decrypt_with_cached_crypto-Ensures c laws packet encrypted pn_offset hp_cipher
                      aead iv small inside
    where
      Q : Bytes → Type 0
      Q = All IsByte

  -- ExtractCryptoFramesFromPacket does not panic, and its loops end, on a packet of at most 65535
  -- bytes in which neither the SCID nor the token reaches beyond the end. Its frames have offsets below
  -- 2^62.
  pub extract_crypto_frames_from_packet-Ensures :
      (packet : Bytes)
      → All IsByte packet
      → length packet ≤ buffer_size
      → scid_end packet ≤ length packet
      → token_end packet ≤ length packet
      → Ensures (All (λ f. f.offset < 2 ^ 62)) (extract_crypto_frames_from_packet c packet)
  unfolding extract_crypto_frames_from_packet
  extract_crypto_frames_from_packet-Ensures packet bytes small inside inside' =
      Ensures-bind _ Q (find_dcid packet) _ (find_dcid-Ensures packet bytes) λ r1 e1.
        Ensures-bind (λ r. r ≡ token_end packet) Q (find_token_end packet r1.1) _
          (rw e1 (find_token_end-Ensures packet bytes inside))
          λ r2 e2.
            Ensures-bind _ Q (find_payload packet r2) _
              (find_payload-Ensures packet bytes r2 (rw e2 inside'))
              λ r3 e3.
                Ensures-bind _ Q (derive_initial_keys c r1.0) _ (derive_initial_keys-Ensures r1.0)
                  λ k _.
                    let m = decrypt_initial_packet c packet r3.0 r3.1 k.0 k.1 k.2 in
                    Ensures-bind (All IsByte) Q (wrap failed_to_decrypt m) _
                      (wrap-Ensures (All IsByte) failed_to_decrypt m
                        (decrypt_initial_packet-Ensures packet r3.0 r3.1 k.0 k.1 k.2 small e3))
                      λ plain h. offsets plain h
    where
      Q : List CryptoFrame → Type 0
      Q = All (λ f. f.offset < 2 ^ 62)

      weaken : (n : ℕ) (fs : List CryptoFrame) → All (IsFrame n) fs → Q fs
      weaken n [] h = tt
      weaken n (f ∷ fs) h = (h.0.0, weaken n fs h.1)

      offsets : (plain : Bytes) → All IsByte plain → Ensures Q (extract_crypto_frames plain)
      offsets plain h =
          let (fs, e, g) =
            Returns-eq (All (IsFrame (length plain))) (extract_crypto_frames plain)
              (extract_crypto_frames-AreFrames plain h) in
          rw e (weaken (length plain) fs g)

  -- A version 1 Initial whose SCID length reaches beyond the end of the packet makes
  -- ExtractCryptoFramesFromPacket panic, whatever else the packet holds.
  pub extract_crypto_frames_from_packet-panic :
      (first scid_len : ℕ) (dcid rest : Bytes)
      → is_short first ≡ false
      → long_type first ≡ initial
      → length rest < scid_len
      → extract_crypto_frames_from_packet c (initial_packet first dcid scid_len rest) ≡ panic
  unfolding extract_crypto_frames_from_packet find_token_end slice_from
  extract_crypto_frames_from_packet-panic first scid_len dcid rest long kind over =
      rw (find_dcid-initial first scid_len dcid rest long kind)
        (ground (arith, length-append dcid (scid_len ∷ rest)))
