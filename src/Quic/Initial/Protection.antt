-- ===== src/Quic/Initial/Protection.antt =====
-- A client's Initial packet as RFC 9001, sections 5.3 and 5.4, protects it, and how the steps of
-- DecryptWithCachedCrypto of internal/proxy/parser.go undo this.
use quic_relay.Prelude.{
  ℕ, zero, suc, ap, ◌+◌, ◌-◌, ◌*◌, ◌/◌, ◌%◌, ◌^◌, ◌≤◌, ◌<◌, ◌≡◌, ◌∙◌, refl, sym, subst, arith,
  false, [], ◌∷◌, ◌++◌, All, append_assoc, bit_and, bit_or, bit_xor, length, length-append,
  take-append-drop, length-take, length-drop, replicate, set, get_or, take, drop,
}
use quic_relay.Prelude.Bits.{bit_or_disjoint}
use quic_relay.Prelude.Bits.Xor.{bit_xor-bit_xor, bit_xor-zero}
use quic_relay.Go.{ok, Bytes, index}
use quic_relay.Go.Slices.{index-append}
use quic_relay.Quic.{Error, initial}
use quic_relay.Quic.Varint.Reference.{IsByte}
use quic_relay.Quic.Header.{is_short, long_type}
use quic_relay.Quic.Varint.Encode.{VarintSize, limit, encode_varint}
use quic_relay.Quic.Initial.{unmask, read_packet_number, mix_nonce}

-- What a client chooses, its first byte before the protection. The packet number is kept as its bytes,
-- and the sizes of the token's length and of the packet's length are free.
pub record Header : Type 0 where
  pub first : ℕ
  pub dcid : Bytes
  pub scid : Bytes
  pub token : Bytes
  pub number : Bytes
  pub token_size : VarintSize
  pub length_size : VarintSize

-- The token's length fits the size of its varint.
pub record IsHeader (h : Header) : Type 0 where
  pub byte : h.first < 256
  pub long : is_short h.first ≡ false
  pub kind : long_type h.first ≡ initial
  pub token : length h.token < limit h.token_size
  pub size : length h.number ≡ h.first % 4 + 1
  pub number : All IsByte h.number

-- The header behind its first byte and up to the packet number, where `size` bytes follow.
abbrev pub front : Header → ℕ → Bytes
front h size =
    0
    ∷ 0
    ∷ 0
    ∷ 1
    ∷ length h.dcid
    ∷ (h.dcid
        ++ (length h.scid
            ∷ (h.scid
                ++ (encode_varint h.token_size (length h.token)
                    ++ (h.token ++ encode_varint h.length_size size)))))

abbrev pub xor_bytes : Bytes → Bytes → Bytes
xor_bytes (x ∷ xs) (y ∷ ys) = bit_xor x y ∷ xor_bytes xs ys
xor_bytes _ _ = []

-- The IV with the packet number, padded on the left, xored in.
abbrev pub nonce_of : Bytes → Bytes → Bytes
nonce_of iv number = xor_bytes iv (replicate (12 - length number) 0 ++ number)

-- The packet number's bytes from the i-th on, with the mask's bytes from the i-th behind its first.
abbrev pub mask_number : Bytes → ℕ → Bytes → Bytes
mask_number mask i [] = []
mask_number mask i (x ∷ xs) = bit_xor x (get_or mask (1 + i) 0) ∷ mask_number mask (i + 1) xs

abbrev pub mask_first : Bytes → ℕ → ℕ
mask_first mask first = bit_xor first (bit_and (get_or mask 0 0) 0x0f)

-- A mask is taken from 16 bytes that begin four bytes behind the start of the packet number.
abbrev pub sample_of : Bytes → Bytes → Bytes
sample_of number sealed = take 16 (drop (4 - length number) sealed)

pub length-mask_number :
    (mask : Bytes) (i : ℕ) (xs : Bytes) → length (mask_number mask i xs) ≡ length xs
length-mask_number mask i [] = refl
length-mask_number mask i (x ∷ xs) = omega (arith, length-mask_number mask (i + 1) xs)

set-append : (xs ys : Bytes) (y v : ℕ) → set (xs ++ (y ∷ ys)) (length xs) v ≡ xs ++ (v ∷ ys)
set-append [] ys y v = refl
set-append (x ∷ xs) ys y v = λ i. x ∷ set-append xs ys y v i

pub index_inside : (b : Bytes) (i : ℕ) → i < length b → index {E = Error} b i ≡ ok (get_or b i 0)
unfolding index
index_inside b i h = ground arith

-- `before` is the packet up to the byte that the loop is at.
pub unmask-mask_number :
    (before xs behind mask : Bytes) (i at : ℕ)
    → at + i ≡ length before
    → 1 + i + length xs ≤ length mask
    → unmask (length xs) i at mask (before ++ (mask_number mask i xs ++ behind))
      ≡ ok (before ++ (xs ++ behind))
unfolding unmask
unmask-mask_number before [] behind mask i at e h = refl
unmask-mask_number before (x ∷ xs) behind mask i at e h =
    let m = get_or mask (1 + i) 0 in
    let rest = mask_number mask (i + 1) xs ++ behind in
    let moved : Bytes = before ++ (x ∷ []) in
    rw
      (
        e,
        index-append {E = Error} before rest (bit_xor x m) (length before) refl,
        index_inside mask (1 + i) (omega arith),
        set-append before rest (bit_xor x m) (bit_xor (bit_xor x m) m),
        bit_xor-bit_xor x m,
        ← append_assoc before (x ∷ []) rest,
        ← append_assoc before (x ∷ []) (xs ++ behind),
      )
      (unmask-mask_number moved xs behind mask (i + 1) at
        (omega (arith, length-append before (x ∷ []))) (omega arith))

abbrev pub number_of : ℕ → Bytes → ℕ
number_of pn [] = pn
number_of pn (x ∷ xs) = number_of (bit_or (pn * 2 ^ 8 % 2 ^ 64) x) xs

pub read_packet_number-number_of :
    (before xs behind : Bytes) (i at pn : ℕ)
    → at + i ≡ length before
    → read_packet_number (length xs) i at (before ++ (xs ++ behind)) pn ≡ ok (number_of pn xs)
unfolding read_packet_number
read_packet_number-number_of before [] behind i at pn e = refl
read_packet_number-number_of before (x ∷ xs) behind i at pn e =
    rw
      (
        e,
        index-append {E = Error} before (xs ++ behind) x (length before) refl,
        ← append_assoc before (x ∷ []) (xs ++ behind),
      )
      (read_packet_number-number_of (before ++ (x ∷ [])) xs behind (i + 1) at _
        (omega (arith, length-append before (x ∷ []))))

shift_in : (pn x : ℕ) → pn < 2 ^ 56 → x < 256 → bit_or (pn * 2 ^ 8 % 2 ^ 64) x ≡ pn * 256 + x
shift_in pn x p h =
    let small : pn * 2 ^ 8 % 2 ^ 64 ≡ pn * 2 ^ 8 = omega arith in
    rw small (bit_or_disjoint 8 pn x h ∙ omega arith)

-- The bytes of the number that the rounds from the i-th on take.
abbrev bytes_of : ℕ → ℕ → ℕ → Bytes
bytes_of pn i zero = []
bytes_of pn i (suc k) = (pn / 2 ^ (56 - 8 * i) % 2 ^ 8) ∷ bytes_of pn (i + 1) k

mix_nonce-bytes_of :
    (before xs : Bytes) (i pn : ℕ)
    → 4 + i ≡ length before
    → mix_nonce (length xs) i pn (before ++ xs)
      ≡ ok (before ++ xor_bytes xs (bytes_of pn i (length xs)))
unfolding mix_nonce
mix_nonce-bytes_of before [] i pn e = refl
mix_nonce-bytes_of before (x ∷ xs) i pn e =
    let b = pn / 2 ^ (56 - 8 * i) % 2 ^ 8 in
    rw
      (
        e,
        index-append {E = Error} before xs x (length before) refl,
        set-append before xs x (bit_xor x b),
        ← append_assoc before (bit_xor x b ∷ []) xs,
        ← append_assoc before (bit_xor x b ∷ []) (xor_bytes xs (bytes_of pn (i + 1) (length xs))),
      )
      (mix_nonce-bytes_of (before ++ (bit_xor x b ∷ [])) xs (i + 1) pn
        (omega (arith, length-append before (bit_xor x b ∷ []))))

xor_bytes-append :
    (ks bs cs ds : Bytes)
    → length ks ≡ length cs
    → xor_bytes (ks ++ bs) (cs ++ ds) ≡ xor_bytes ks cs ++ xor_bytes bs ds
xor_bytes-append [] bs [] ds e = refl
xor_bytes-append [] bs (c ∷ cs) ds e = absurd (omega arith)
xor_bytes-append (k ∷ ks) bs [] ds e = absurd (omega arith)
xor_bytes-append (k ∷ ks) bs (c ∷ cs) ds e =
    ap (λ l. bit_xor k c ∷ l) (xor_bytes-append ks bs cs ds (omega arith))

xor_bytes-replicate : (xs : Bytes) → xor_bytes xs (replicate (length xs) 0) ≡ xs
xor_bytes-replicate [] = refl
xor_bytes-replicate (x ∷ xs) = rw (bit_xor-zero x, xor_bytes-replicate xs)

padded :
    (number : Bytes)
    → 1 ≤ length number
    → length number ≤ 4
    → All IsByte number
    → replicate (12 - length number) 0 ++ number
      ≡ replicate 4 0 ++ bytes_of (number_of 0 number) 0 8
padded [] l n b = absurd (omega arith)
padded (w ∷ []) l n b = rw (shift_in 0 w (omega arith) b.0) (ground arith)
padded (w ∷ x ∷ []) l n b =
    rw (shift_in 0 w (omega arith) b.0, shift_in (0 * 256 + w) x (omega arith) b.1.0) (ground arith)
padded (w ∷ x ∷ y ∷ []) l n b =
    rw
      (
        shift_in 0 w (omega arith) b.0,
        shift_in (0 * 256 + w) x (omega arith) b.1.0,
        shift_in ((0 * 256 + w) * 256 + x) y (omega arith) b.1.1.0,
      )
      (ground arith)
padded (w ∷ x ∷ y ∷ z ∷ []) l n b =
    rw
      (
        shift_in 0 w (omega arith) b.0,
        shift_in (0 * 256 + w) x (omega arith) b.1.0,
        shift_in ((0 * 256 + w) * 256 + x) y (omega arith) b.1.1.0,
        shift_in (((0 * 256 + w) * 256 + x) * 256 + y) z (omega arith) b.1.1.1.0,
      )
      (ground arith)
padded (w ∷ x ∷ y ∷ z ∷ u ∷ v) l n b = absurd (omega arith)

mix_nonce-split :
    (head tail number : Bytes)
    → 4 ≡ length head
    → 8 ≡ length tail
    → 1 ≤ length number
    → length number ≤ 4
    → All IsByte number
    → mix_nonce 8 0 (number_of 0 number) (head ++ tail) ≡ ok (nonce_of (head ++ tail) number)
mix_nonce-split head tail number four eight l n b =
    let pn = number_of 0 number in
    let run : mix_nonce 8 0 pn (head ++ tail) ≡ ok (head ++ xor_bytes tail (bytes_of pn 0 8)) =
      subst (λ k. mix_nonce k 0 pn (head ++ tail) ≡ ok (head ++ xor_bytes tail (bytes_of pn 0 k)))
        (sym eight) (mix_nonce-bytes_of head tail 0 pn four) in
    let same : xor_bytes head (replicate 4 0) ≡ head =
      subst (λ k. xor_bytes head (replicate k 0) ≡ head) (sym four) (xor_bytes-replicate head) in
    run
    ∙ rw
        (
          padded number l n b,
          xor_bytes-append head tail (replicate 4 0) (bytes_of pn 0 8) (sym four),
          same,
        )
        refl

-- The eight rounds of the nonce, on an IV of 12 bytes.
pub mix_nonce-nonce_of :
    (iv number : Bytes)
    → length iv ≡ 12
    → 1 ≤ length number
    → length number ≤ 4
    → All IsByte number
    → mix_nonce 8 0 (number_of 0 number) iv ≡ ok (nonce_of iv number)
mix_nonce-nonce_of iv number w l n b =
    let e = take-append-drop 4 iv in
    subst (λ v. mix_nonce 8 0 (number_of 0 number) v ≡ ok (nonce_of v number)) e
      (mix_nonce-split (take 4 iv) (drop 4 iv) number (omega (arith, length-take 4 iv))
        (omega (arith, length-drop 4 iv)) l n b)
