-- ===== src/Quic/Varint/Reference.antt =====
-- readVarInt against the wire format of RFC 9000, section 16: the big-endian number of the bytes,
-- less its two top bits.
use quic_relay.Prelude.{
  ℕ, zero, suc, ◌+◌, ◌-◌, ◌*◌, ◌/◌, ◌%◌, ◌^◌, ◌≤◌, ◌<◌, ◌≡◌, ◌≢◌, ◌⊎◌, inl, inr, refl, ◌∙◌, arith,
  bit_and, bit_or, [], ◌∷◌, All, ltb, length, take, drop, if◌then◌else◌,
}
use quic_relay.Prelude.Bits.{low_six, bit_or_disjoint}
use quic_relay.Go.{Go, ok, err, ◌>>=◌, ◌>>◌, fail_if, Ensures, Bytes, index}
use quic_relay.Quic.{Error, empty_data, too_short_for_varint}
use quic_relay.Quic.Varint.{
  varint_value, value_two, value_four, value_eight, value_eight_or, read_varint,
}

abbrev pub IsByte : ℕ → Type 0
IsByte x = x < 256

pub All-drop : (n : ℕ) (b : Bytes) → All IsByte b → All IsByte (drop n b)
All-drop zero b h = h
All-drop (suc n) [] h = tt
All-drop (suc n) (x ∷ b) h = All-drop n b h.1

-- The number that the bytes write, highest first, behind the digits `acc`.
abbrev pub big_endian : ℕ → Bytes → ℕ
big_endian acc [] = acc
big_endian acc (x ∷ xs) = big_endian (acc * 256 + x) xs

abbrev pub reference : Bytes → Go Error (ℕ × ℕ)
reference [] = err empty_data
reference (x ∷ xs) =
    let n = 2 ^ (x / 64) in
    if ltb (length (x ∷ xs)) n
    then err too_short_for_varint
    else ok (big_endian 0 (take n (x ∷ xs)) % 2 ^ (8 * n - 2), n)

-- `p` holds digits from bit k on, `x` the bits below.
or_step : (k high p x : ℕ) → x < 2 ^ k → p ≡ high * 2 ^ k → bit_or p x ≡ high * 2 ^ k + x
or_step k high p x h e = rw e (bit_or_disjoint k high x h)

two : (a b : ℕ) → a < 256 → b < 256 → bit_or (bit_and a 0x3f * 2 ^ 8) b ≡ (a * 256 + b) % 2 ^ 14
two a b pa pb = or_step 8 (bit_and a 0x3f) _ b pb refl ∙ omega (arith, low_six a pa)

four :
    (a b c d : ℕ)
    → a < 256
    → b < 256
    → c < 256
    → d < 256
    → bit_or (bit_or (bit_or (bit_and a 0x3f * 2 ^ 24) (b * 2 ^ 16)) (c * 2 ^ 8)) d
      ≡ (((a * 256 + b) * 256 + c) * 256 + d) % 2 ^ 30
four a b c d pa pb pc pd =
    let m = bit_and a 0x3f in
    let h1 = or_step 24 m _ (b * 2 ^ 16) (omega arith) refl in
    let h2 = or_step 16 (m * 256 + b) _ (c * 2 ^ 8) (omega arith) (h1 ∙ omega arith) in
    let h3 = or_step 8 ((m * 256 + b) * 256 + c) _ d pd (h2 ∙ omega arith) in
    h3 ∙ omega (arith, low_six a pa)

prefix-cases : (x : ℕ) → x < 256 → (x / 64 ≡ 0) ⊎ ((x / 64 ≡ 1) ⊎ ((x / 64 ≡ 2) ⊎ (x / 64 ≡ 3)))
prefix-cases x h = grind arith

read_sized : ℕ → Bytes → Go Error (ℕ × ℕ)
unfolding varint_value
read_sized n b = do
  fail_if (ltb (length b) n) too_short_for_varint
  value ← varint_value b n
  ok (value, n)

read_varint_sized : (x : ℕ) (xs : Bytes) → read_varint (x ∷ xs) ≡ read_sized (2 ^ (x / 64)) (x ∷ xs)
unfolding read_varint read_sized index
read_varint_sized x xs = ground arith

reference_sized : ℕ → Bytes → Go Error (ℕ × ℕ)
reference_sized n b =
    if ltb (length b) n
    then err too_short_for_varint
    else ok (big_endian 0 (take n b) % 2 ^ (8 * n - 2), n)

read_sized_one : (b : Bytes) → All IsByte b → b ≢ [] → read_sized 1 b ≡ reference_sized 1 b
unfolding read_sized reference_sized index
read_sized_one [] h ne = absurd (ne refl)
read_sized_one (x ∷ xs) h ne = ground (arith, low_six x)

read_sized_two : (b : Bytes) → All IsByte b → read_sized 2 b ≡ reference_sized 2 b
unfolding read_sized reference_sized value_two index
read_sized_two (x ∷ y ∷ xs) h = ground (arith, two x y)
read_sized_two _ h = ground arith

read_sized_four : (b : Bytes) → All IsByte b → read_sized 4 b ≡ reference_sized 4 b
unfolding read_sized reference_sized value_four index
read_sized_four (x ∷ y ∷ z ∷ w ∷ xs) h = ground (arith, four x y z w)
read_sized_four _ h = ground arith

module _ (a b c d e f g h : ℕ) where
  eight :
      a < 256
      → b < 256
      → c < 256
      → d < 256
      → e < 256
      → f < 256
      → g < 256
      → h < 256
      → value_eight_or a b c d e f g h ≡ big_endian 0 (a ∷ b ∷ c ∷ d ∷ e ∷ f ∷ g ∷ h ∷ []) % 2 ^ 62
  unfolding value_eight_or
  eight pa pb pc pd pe pf pg ph =
      let m = bit_and a 0x3f in
      let m1 = m * 256 + b in
      let m2 = m1 * 256 + c in
      let m3 = m2 * 256 + d in
      let m4 = m3 * 256 + e in
      let m5 = m4 * 256 + f in
      let h1 = or_step 56 m _ (b * 2 ^ 48) (omega arith) refl in
      let h2 = or_step 48 m1 _ (c * 2 ^ 40) (omega arith) (h1 ∙ omega arith) in
      let h3 = or_step 40 m2 _ (d * 2 ^ 32) (omega arith) (h2 ∙ omega arith) in
      let h4 = or_step 32 m3 _ (e * 2 ^ 24) (omega arith) (h3 ∙ omega arith) in
      let h5 = or_step 24 m4 _ (f * 2 ^ 16) (omega arith) (h4 ∙ omega arith) in
      let h6 = or_step 16 m5 _ (g * 2 ^ 8) (omega arith) (h5 ∙ omega arith) in
      let h7 = or_step 8 (m5 * 256 + g) _ h ph (h6 ∙ omega arith) in
      h7 ∙ omega (arith, low_six a pa)

read_sized_eight : (b : Bytes) → All IsByte b → read_sized 8 b ≡ reference_sized 8 b
unfolding read_sized reference_sized value_eight index
read_sized_eight (x0 ∷ x1 ∷ x2 ∷ x3 ∷ x4 ∷ x5 ∷ x6 ∷ x7 ∷ xs) h =
    ground (arith, eight x0 x1 x2 x3 x4 x5 x6 x7)
read_sized_eight _ h = ground arith

read_sized-reference_sized :
    (x : ℕ) (xs : Bytes)
    → All IsByte (x ∷ xs)
    → read_sized (2 ^ (x / 64)) (x ∷ xs) ≡ reference_sized (2 ^ (x / 64)) (x ∷ xs)
read_sized-reference_sized x xs h = elim (prefix-cases x h.0) [
  | inl e ↦ rw e (read_sized_one (x ∷ xs) h (λ p. cc))
  | inr (inl e) ↦ rw e (read_sized_two (x ∷ xs) h)
  | inr (inr (inl e)) ↦ rw e (read_sized_four (x ∷ xs) h)
  | inr (inr (inr e)) ↦ rw e (read_sized_eight (x ∷ xs) h)
]

-- On every byte slice readVarInt is the reference: the big-endian number of as many bytes as the
-- two top bits say, less these bits, or the error for an empty slice or one that is cut short.
pub read_varint-reference : (b : Bytes) → All IsByte b → read_varint b ≡ reference b
unfolding read_varint reference_sized
read_varint-reference [] h = refl
read_varint-reference (x ∷ xs) h = read_varint_sized x xs ∙ read_sized-reference_sized x xs h

-- Every value read fits 62 bits, and takes 1 to 8 bytes, no more than there are.
pub read_varint-Ensures :
    (b : Bytes)
    → All IsByte b
    → Ensures (λ r. (r.0 < 2 ^ 62) × (1 ≤ r.1) × (r.1 ≤ 8) × (r.1 ≤ length b)) (read_varint b)
read_varint-Ensures [] h = rw (read_varint-reference [] h) tt
read_varint-Ensures (x ∷ xs) h = rw (read_varint-reference (x ∷ xs) h) (elim (prefix-cases x h.0) [
  | inl e ↦ rw e (ground arith)
  | inr (inl e) ↦ rw e (ground arith)
  | inr (inr (inl e)) ↦ rw e (ground arith)
  | inr (inr (inr e)) ↦ rw e (ground arith)
])

-- A number below 2^14 in two bytes is read back, whatever follows.
pub read_varint_two :
    (v : ℕ) (rest : Bytes)
    → v < 2 ^ 14
    → read_varint ((64 + v / 256) ∷ (v % 256) ∷ rest) ≡ ok (v, 2)
unfolding read_sized value_two index
read_varint_two v rest h =
    let e : (64 + v / 256) / 64 ≡ 1 = omega arith in
    read_varint_sized (64 + v / 256) ((v % 256) ∷ rest)
    ∙ rw e (ground (arith, two (64 + v / 256) (v % 256)))

pub read_varint_one : (v : ℕ) (rest : Bytes) → v < 64 → read_varint (v ∷ rest) ≡ ok (v, 1)
unfolding read_sized index
read_varint_one v rest h =
    let e : v / 64 ≡ 0 = omega arith in read_varint_sized v rest ∙ rw e (ground (arith, low_six v))

pub read_varint_four :
    (a b c d : ℕ) (rest : Bytes)
    → All IsByte (a ∷ b ∷ c ∷ d ∷ [])
    → a / 64 ≡ 2
    → read_varint (a ∷ b ∷ c ∷ d ∷ rest) ≡ ok (big_endian 0 (a ∷ b ∷ c ∷ d ∷ []) % 2 ^ 30, 4)
unfolding read_sized value_four index
read_varint_four a b c d rest h e =
    read_varint_sized a (b ∷ c ∷ d ∷ rest)
    ∙ rw e (ground (arith, four a b c d h.0 h.1.0 h.1.1.0 h.1.1.1.0))

pub read_varint_eight :
    (a b c d e f g h : ℕ) (rest : Bytes)
    → All IsByte (a ∷ b ∷ c ∷ d ∷ e ∷ f ∷ g ∷ h ∷ [])
    → a / 64 ≡ 3
    → read_varint (a ∷ b ∷ c ∷ d ∷ e ∷ f ∷ g ∷ h ∷ rest)
      ≡ ok (big_endian 0 (a ∷ b ∷ c ∷ d ∷ e ∷ f ∷ g ∷ h ∷ []) % 2 ^ 62, 8)
unfolding read_sized value_eight index
read_varint_eight a b c d e f g h rest v three =
    read_varint_sized a (b ∷ c ∷ d ∷ e ∷ f ∷ g ∷ h ∷ rest)
    ∙ rw three (
        ground (
          arith,
          eight a b c d e f g h v.0 v.1.0 v.1.1.0 v.1.1.1.0 v.1.1.1.1.0 v.1.1.1.1.1.0
              v.1.1.1.1.1.1.0 v.1.1.1.1.1.1.1.0,
        ))
