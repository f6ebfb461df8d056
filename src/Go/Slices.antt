-- ===== src/Go/Slices.antt =====
-- Reads of a slice that is laid out in known pieces.
use quic_relay.Prelude.{
  ℕ, ◌+◌, ◌-◌, ◌≡◌, refl, arith, [], ◌∷◌, ◌++◌, length, length-append, take-append, drop-append,
  get_or, take, drop, length-take, length-drop, ◌≤◌, ◌<◌,
}
use quic_relay.Go.{ok, Ensures, Bytes, index, slice, slice_from}

pub get_or-append : (xs ys : Bytes) (y : ℕ) → get_or (xs ++ (y ∷ ys)) (length xs) 0 ≡ y
get_or-append [] ys y = refl
get_or-append (x ∷ xs) ys y = get_or-append xs ys y

module _ {E : Type 0} where
  pub index-append :
      (xs ys : Bytes) (y i : ℕ) → i ≡ length xs → index {E = E} (xs ++ (y ∷ ys)) i ≡ ok y
  unfolding index
  index-append xs ys y i e = rw e (ground (arith, length-append xs (y ∷ ys), get_or-append xs ys y))

  pub slice-append :
      (xs ys zs : Bytes) (i j : ℕ)
      → i ≡ length xs
      → j ≡ length xs + length ys
      → slice {E = E} (xs ++ (ys ++ zs)) i j ≡ ok ys
  unfolding slice
  slice-append xs ys zs i j e f =
      let n : length xs + length ys - length xs ≡ length ys = omega arith in
      rw (f, e, drop-append xs (ys ++ zs), n, take-append ys zs)
        (ground (arith, length-append xs (ys ++ zs), length-append ys zs))

  pub slice_from-append :
      (xs ys : Bytes) (i : ℕ) → i ≡ length xs → slice_from {E = E} (xs ++ ys) i ≡ ok ys
  unfolding slice_from
  slice_from-append xs ys i e = rw e (ground (arith, length-append xs ys, drop-append xs ys))

-- Reads in range.
module _ (E : Type 0) where
  pub index-Ensures :
      (b : Bytes) (i : ℕ) → i < length b → Ensures (λ x. x ≡ get_or b i 0) (index {E = E} b i)
  unfolding index
  index-Ensures b i h = ground arith

  pub slice-Ensures :
      (b : Bytes) (i j : ℕ)
      → i ≤ j
      → j ≤ length b
      → Ensures (λ s. (s ≡ take (j - i) (drop i b)) × (length s ≡ j - i)) (slice {E = E} b i j)
  unfolding slice
  slice-Ensures b i j h k = ground (arith, length-take (j - i) (drop i b), length-drop i b)

  pub slice_from-Ensures :
      (b : Bytes) (i : ℕ) → i ≤ length b → Ensures (λ s. s ≡ drop i b) (slice_from {E = E} b i)
  unfolding slice_from
  slice_from-Ensures b i h = ground arith
