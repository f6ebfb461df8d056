-- ===== src/Quic/Initial/Opening.antt =====
-- DecryptWithCachedCrypto of internal/proxy/parser.go on a packet that RFC 9001's protection was put on.
use quic_relay.Prelude.{
  ℕ, zero, suc, ◌+◌, ◌-◌, ◌%◌, ◌≤◌, ◌<◌, ◌≡◌, ◌∙◌, refl, ap, arith, true, false, ◌==◌, [], ◌∷◌,
  ◌++◌, All, append_assoc, bit_and, length, length-append, replicate, get_or, take, drop, ltb, leb,
}
use quic_relay.Prelude.Bits.{low_two, top_bit}
use quic_relay.Prelude.Bits.Xor.{bit_xor-bit_xor, low_four, upper_bits}
use quic_relay.Go.{ok, Bytes, slice, overwrite}
use quic_relay.Go.Slices.{index-append, slice-append, slice_from-append}
use quic_relay.Quic.{Error, decryption_failed}
use quic_relay.Quic.Varint.Reference.{IsByte}
use quic_relay.Quic.Header.{is_short, long_type}
use quic_relay.Quic.Initial.{
  Crypto, unprotect, copy_packet, buffer_size, open_payload, or_fail, decrypt_with_cached_crypto,
}
use quic_relay.Quic.Initial.Protection.{
  index_inside, nonce_of, mask_number, mask_first, sample_of, length-mask_number,
  unmask-mask_number, read_packet_number-number_of, mix_nonce-nonce_of,
}

pub masked_short :
    (mask : Bytes) (first : ℕ) → first < 256 → is_short (mask_first mask first) ≡ is_short first
masked_short mask first h =
    let m = get_or mask 0 0 in
    ap (λ b. b == 0) (upper_bits first (bit_and m 0x0f) h (omega (arith, low_four m))).0

pub masked_type :
    (mask : Bytes) (first : ℕ) → first < 256 → long_type (mask_first mask first) ≡ long_type first
unfolding long_type
masked_type mask first h =
    let m = get_or mask 0 0 in
    rw (upper_bits first (bit_and m 0x0f) h (omega (arith, low_four m))).1

unmasked_first :
    (mask : Bytes) (first : ℕ)
    → first < 256
    → is_short first ≡ false
    → unprotect (mask_first mask first) (get_or mask 0 0) ≡ first
unmasked_first mask first h long =
    let m = get_or mask 0 0 in
    let top : bit_and (mask_first mask first) 0x80 ≡ 128 =
      (upper_bits first (bit_and m 0x0f) h (omega (arith, low_four m))).0
      ∙ ground (arith, top_bit first) in
    rw top (bit_xor-bit_xor first (bit_and m 0x0f))

overwrite_all : (dst src : Bytes) → length dst ≡ length src → overwrite dst src ≡ src
overwrite_all [] [] e = refl
overwrite_all [] (y ∷ src) e = absurd (omega arith)
overwrite_all (x ∷ dst) [] e = absurd (omega arith)
overwrite_all (x ∷ dst) (y ∷ src) e = ap (λ l. y ∷ l) (overwrite_all dst src (omega arith))

drop_beyond : (n : ℕ) (xs ys : Bytes) → length xs ≤ n → drop n (xs ++ ys) ≡ drop (n - length xs) ys
drop_beyond n [] ys h = let e : n - 0 ≡ n = omega arith in rw e refl
drop_beyond zero (x ∷ xs) ys h = absurd (omega arith)
drop_beyond (suc n) (x ∷ xs) ys h =
    let e : suc n - suc (length xs) ≡ n - length xs = omega arith in
    rw e (drop_beyond n xs ys (omega arith))

slice_inside :
    (b : Bytes) (i j : ℕ)
    → i ≤ j
    → j ≤ length b
    → slice {E = Error} b i j ≡ ok (take (j - i) (drop i b))
unfolding slice
slice_inside b i j p q = ground arith

module _ (c : Crypto) (aead : c.Aead) (iv : Bytes) (wide : length iv ≡ 12) where
  open_payload-opens :
      (before number sealed behind mask : Bytes) (masked first : ℕ)
      → length mask ≡ 16
      → length number ≡ first % 4 + 1
      → All IsByte number
      → open_payload c
          (masked ∷ (before ++ (mask_number mask 0 number ++ (sealed ++ behind))))
          (mask_number mask 0 number ++ sealed)
          (suc (length before))
          mask
          first
          aead
          iv
        ≡ or_fail
            (c.open_sealed aead (nonce_of iv number) sealed (first ∷ (before ++ number)))
            decryption_failed
  unfolding open_payload
  open_payload-opens before number sealed behind mask masked first m n b =
      let size : bit_and first 0x03 + 1 ≡ length number = omega (arith, low_two first) in
      rw
        (
          size,
          unmask-mask_number (first ∷ before) number (sealed ++ behind) mask 0 (suc (length before))
              (omega arith) (omega arith),
          read_packet_number-number_of (first ∷ before) number (sealed ++ behind) 0
              (suc (length before)) 0 (omega arith),
          overwrite_all (replicate 12 0) iv (omega arith),
          mix_nonce-nonce_of iv number wide (omega arith) (omega arith) b,
          slice_from-append {E = Error} (mask_number mask 0 number) sealed (length number)
              (omega (arith, length-mask_number mask 0 number)),
        )
        (rw
          (
            ← append_assoc before number (sealed ++ behind),
            slice-append {E = Error} [] (first ∷ (before ++ number)) (sealed ++ behind) 0
                (suc (length before) + length number) refl
                (omega (arith, length-append before number)),
          )
          refl)

  pub decrypt_with_cached_crypto-opens :
      (hp : c.Block) (before number sealed behind : Bytes) (first : ℕ)
      → ((b : c.Block) (s : Bytes) → length (c.encrypt b s) ≡ 16)
      → first < 256
      → is_short first ≡ false
      → length number ≡ first % 4 + 1
      → All IsByte number
      → 20 ≤ length number + length sealed
      → suc (length before) + length number + length sealed + length behind ≤ buffer_size
      → let mask = c.encrypt hp (sample_of number sealed) in
        decrypt_with_cached_crypto c
          (mask_first mask first ∷ (before ++ (mask_number mask 0 number ++ (sealed ++ behind))))
          (mask_number mask 0 number ++ sealed)
          (suc (length before))
          hp
          aead
          iv
        ≡ or_fail
            (c.open_sealed aead (nonce_of iv number) sealed (first ∷ (before ++ number)))
            decryption_failed
  unfolding decrypt_with_cached_crypto copy_packet
  decrypt_with_cached_crypto-opens hp before number sealed behind first size byte long n b big
        small =
      let mask = c.encrypt hp (sample_of number sealed) in
      let xs = mask_number mask 0 number in
      let same : length xs ≡ length number = length-mask_number mask 0 number in
      let all : length (xs ++ sealed) ≡ length number + length sealed =
        omega (arith, length-append xs sealed) in
      let enough : ltb (length (xs ++ sealed)) 20 ≡ false = ground (arith, all) in
      let sampled : take 16 (drop 4 (xs ++ sealed)) ≡ sample_of number sealed =
        rw (drop_beyond 4 xs sealed (omega arith), same) refl in
      let fits : leb (length (mask_first mask first ∷ (before ++ (xs ++ (sealed ++ behind)))))
            buffer_size
          ≡ true =
        ground (
          arith,
          length-append before (xs ++ (sealed ++ behind)),
          length-append xs (sealed ++ behind),
          length-append sealed behind,
        ) in
      rw
        (
          enough,
          slice_inside (xs ++ sealed) 4 20 (omega arith) (omega arith),
          sampled,
          fits,
          index-append {E = Error} [] (before ++ (xs ++ (sealed ++ behind))) (mask_first mask first)
              0 refl,
          index_inside mask 0 (omega (arith, size hp (sample_of number sealed))),
          unmasked_first mask first byte long,
        )
        (open_payload-opens before number sealed behind mask (mask_first mask first) first
          (size hp (sample_of number sealed)) n b)
