-- ===== src/Hytale/Values/RoundTrip.antt =====
-- What WriteVarInt and WriteString write, ReadVarInt and ReadString read.
use quic_relay.Prelude.{
  ℕ, zero, suc, ◌+◌, ◌*◌, ◌/◌, ◌%◌, ◌^◌, ◌≤◌, ◌<◌, ◌≡◌, ◌∙◌, refl, sym, ap, arith, true, false, ltb,
  leb, ◌==◌, bit_and, bit_or, [], ◌∷◌, ◌++◌, append_assoc, length, length-append, Bool-cases, inl,
  inr, if◌then◌else◌,
}
use native.Mathlib.Nat.{add-mul, mul_assoc, mul-le-mul_right}
use quic_relay.Prelude.Bits.{pow_suc, low_127, top_bit, set_top_bit, bit_or_disjoint_right}
use quic_relay.Go.{Go, ok, Bytes, slice}
use quic_relay.Go.Slices.{index-append, slice-append}
use quic_relay.Hytale.{Error}
use quic_relay.Hytale.Values.{
  read_from, read_var_int, write_bytes, write_var_int, var_int_size, max_string_length, read_string,
  write_string,
}

-- Seven bits for each byte.
abbrev pub limit : ℕ → ℕ
limit zero = 1
limit (suc k) = 128 * limit k

-- The bytes of a value.
abbrev pub encoded : ℕ → ℕ → Bytes
encoded zero value = []
encoded (suc k) value =
    let more = encoded k (value / 128) in
    if value / 128 == 0 then (value % 128) ∷ [] else (value % 128 + 128) ∷ more

write_bytes-encoded :
    (k value : ℕ) → value < limit k → 0 < k + value → write_bytes k value ≡ ok (encoded k value)
unfolding write_bytes
write_bytes-encoded zero value h pos = absurd (omega (arith, h, pos))
write_bytes-encoded (suc k) value h pos = elim (Bool-cases (value / 128 == 0)) [
  | inl last ↦ rw (write_bytes, last, low_127 value) refl
  | inr more ↦
      let left : 0 < k + value / 128 = ground (arith, more) in
      rw
        (
          write_bytes,
          more,
          low_127 value,
          set_top_bit (value % 128) (omega arith),
          write_bytes-encoded k (value / 128) (omega (arith, h)) left,
        )
        refl
]

pow-seven : (s : ℕ) → 2 ^ (s + 7) ≡ 128 * 2 ^ s
pow-seven zero = refl
pow-seven (suc s) =
    let next : suc s + 7 ≡ suc (s + 7) = omega arith in
    ap (λ (t : ℕ). 2 ^ t) next ∙ omega (arith, pow_suc (s + 7), pow_suc s, pow-seven s)

-- A value is its low seven bits and the rest, shifted.
split-seven : (value s : ℕ) → value * 2 ^ s ≡ value / 128 * 2 ^ (s + 7) + value % 128 * 2 ^ s
split-seven value s =
    let parts : value ≡ value / 128 * 128 + value % 128 = omega arith in
    ap (λ (t : ℕ). t * 2 ^ s) parts
    ∙ add-mul (value / 128 * 128) (value % 128) (2 ^ s)
    ∙ ap (λ (t : ℕ). t + value % 128 * 2 ^ s)
        (mul_assoc (value / 128) 128 (2 ^ s) ∙ ap (λ (t : ℕ). value / 128 * t) (sym (pow-seven s)))

-- Seven more bits of the result.
result-seven :
    (result low s : ℕ)
    → low < 128
    → result < 2 ^ s
    → result + low * 2 ^ s < 2 ^ 32
    → (bit_or result (low * 2 ^ s % 2 ^ 32) ≡ result + low * 2 ^ s)
      × (result + low * 2 ^ s < 2 ^ (s + 7))
result-seven result low s small below fits =
    let whole : low * 2 ^ s % 2 ^ 32 ≡ low * 2 ^ s = omega (arith, fits) in
    let most : low * 2 ^ s ≤ 127 * 2 ^ s = mul-le-mul_right (2 ^ s) (omega (arith, small)) in
    (
      ap (λ (t : ℕ). bit_or result t) whole ∙ bit_or_disjoint_right s low result below,
      omega (arith, most, below, pow-seven s),
    )

-- A round of the loop on a byte that is there.
abbrev round : ℕ → ℕ → ℕ → ℕ → ℕ → Bytes → Go Error (ℕ × ℕ)
round k i s bit_set result' b = elim (bit_set == 0) [
  | true ↦ ok (result', i + 1)
  | false ↦ read_from k (i + 1) result' (s + 7) b
]

read-byte :
    (k s result x : ℕ) (pre rest : Bytes)
    → x < 256
    → read_from (suc k) (length pre) result s (pre ++ (x ∷ rest))
      ≡ round k
          (length pre)
          s
          (x / 128 * 128)
          (bit_or result (x % 128 * 2 ^ s % 2 ^ 32))
          (pre ++ (x ∷ rest))
unfolding read_from
read-byte k s result x pre rest small =
    let b = pre ++ (x ∷ rest) in
    let i = length pre in
    let here : leb (length b) i ≡ false = ground (arith, length-append pre (x ∷ rest)) in
    let opened : read_from (suc k) i result s b
        ≡ round k i s (bit_and x 0x80) (bit_or result (bit_and x 0x7f * 2 ^ s % 2 ^ 32)) b =
      rw (read_from, here, index-append {E = Error} pre rest x i refl) refl in
    opened
    ∙ ap (λ (t : ℕ). round k i s t (bit_or result (bit_and x 0x7f * 2 ^ s % 2 ^ 32)) b)
        (top_bit x small)
    ∙ ap (λ (t : ℕ). round k i s (x / 128 * 128) (bit_or result (t * 2 ^ s % 2 ^ 32)) b) (low_127 x)

read-encoded :
    (k value s result : ℕ) (pre rest : Bytes)
    → value < limit k
    → 0 < k + value
    → result < 2 ^ s
    → result + value * 2 ^ s < 2 ^ 32
    → read_from k (length pre) result s (pre ++ (encoded k value ++ rest))
      ≡ ok (result + value * 2 ^ s, length pre + length (encoded k value))
read-encoded zero value s result pre rest h pos below fits = absurd (omega (arith, h, pos))
read-encoded (suc k) value s result pre rest h pos below fits =
    elim (Bool-cases (value / 128 == 0)) [
      | inl last ↦
          let same : value % 128 ≡ value = ground (arith, last) in
          let top : value / 128 * 128 ≡ 0 = ground (arith, last) in
          let bits = (result-seven result value s (omega (arith, same)) below fits).0 in
          rw
            (last, same, read-byte k s result value pre rest (omega (arith, same)), top, same, bits)
            refl
      | inr more ↦
          let low = value % 128 in
          let x = low + 128 in
          let high = value / 128 in
          let low' : x % 128 ≡ low = omega arith in
          let top : x / 128 * 128 ≡ 128 = omega arith in
          let parts = split-seven value s in
          let (bits, below') =
            result-seven result low s (omega arith) below (omega (arith, fits, parts)) in
          let result' = result + low * 2 ^ s in
          let left : 0 < k + high = ground (arith, more) in
          let ih =
            read-encoded k high (s + 7) result' (pre ++ (x ∷ [])) rest (omega (arith, h)) left
              below' (omega (arith, fits, parts)) in
          let at : length (pre ++ (x ∷ [])) ≡ length pre + 1 =
            omega (arith, length-append pre (x ∷ [])) in
          rw
            (
              more,
              read-byte k s result x pre (encoded k high ++ rest) (omega arith),
              top,
              low',
              bits,
            )
            (ap (λ (t : ℕ). read_from k t result' (s + 7) (pre ++ (x ∷ (encoded k high ++ rest))))
                (sym at)
              ∙ ap (λ b. read_from k (length (pre ++ (x ∷ []))) result' (s + 7) b)
                  (sym (append_assoc pre (x ∷ []) (encoded k high ++ rest)))
              ∙ ih
              ∙ ap (λ (t : ℕ). ok (t, length (pre ++ (x ∷ [])) + length (encoded k high)))
                  (omega (arith, parts))
              ∙ ap (λ (t : ℕ). ok (result + value * 2 ^ s, t)) (omega (arith, at)))
    ]

read_var_int-encoded :
    (value : ℕ) (rest : Bytes)
    → value < 2 ^ 32
    → read_var_int (encoded 5 value ++ rest) ≡ ok (value, length (encoded 5 value))
unfolding read_var_int
read_var_int-encoded value rest small =
    read-encoded 5 value 0 0 [] rest (omega (arith, small)) (omega arith) (omega arith)
      (omega (arith, small))
    ∙ ap (λ (t : ℕ). ok (t, 0 + length (encoded 5 value))) (omega arith)
    ∙ ap (λ (t : ℕ). ok (value, t)) (omega arith)

length-encoded : (value : ℕ) → value < 2 ^ 32 → length (encoded 5 value) ≡ var_int_size value
unfolding var_int_size
length-encoded value small = ground arith

-- WriteVarInt of a uint32 returns as many bytes as VarIntSize says, and ReadVarInt reads the value and
-- this number of bytes back, whatever follows them.
pub read_var_int-write_var_int :
    (value : ℕ) (rest : Bytes)
    → value < 2 ^ 32
    → (b : Bytes) × (write_var_int value ≡ ok b)
      × (length b ≡ var_int_size value)
      × (read_var_int (b ++ rest) ≡ ok (value, length b))
unfolding write_var_int
read_var_int-write_var_int value rest small = (
  encoded 5 value,
  write_bytes-encoded 5 value (omega (arith, small)) (omega arith),
  length-encoded value small,
  read_var_int-encoded value rest small,
)

-- A string as WriteString writes it.
abbrev pub encoded_string : Bytes → Bytes
encoded_string s = encoded 5 (length s) ++ s

pub write_string-encoded :
    (s : Bytes) → length s ≤ max_string_length → write_string s ≡ ok (encoded_string s)
unfolding write_string write_var_int
write_string-encoded s small =
    let whole : length s % 2 ^ 32 ≡ length s = omega (arith, small) in
    rw (whole, write_bytes-encoded 5 (length s) (omega (arith, small)) (omega arith)) refl

pub read_string-encoded :
    (s rest : Bytes)
    → length s ≤ max_string_length
    → read_string (encoded_string s ++ rest) ≡ ok (s, length (encoded_string s))
unfolding read_string
read_string-encoded s rest small =
    let n = length (encoded 5 (length s)) in
    let b = encoded_string s ++ rest in
    let assoc = append_assoc (encoded 5 (length s)) s rest in
    let size : length (encoded_string s) ≡ n + length s = length-append (encoded 5 (length s)) s in
    let total = length-append (encoded_string s) rest in
    let read : read_var_int b ≡ ok (length s, n) =
      ap read_var_int assoc ∙ read_var_int-encoded (length s) (s ++ rest) (omega (arith, small)) in
    let fits : ltb max_string_length (length s) ≡ false = ground (arith, small) in
    let inside : ltb (length b) (n + length s) ≡ false = ground (arith, size, total) in
    let cut : slice {E = Error} b n (n + length s) ≡ ok s =
      ap (λ l. slice l n (n + length s)) assoc
      ∙ slice-append (encoded 5 (length s)) s rest n (n + length s) refl refl in
    rw (read, fits, inside, cut, size) refl
