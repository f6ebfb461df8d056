-- ===== src/Go.antt =====
-- What a Go function returns: a value, an error, or a run-time panic from an index or a slice
-- expression out of range. `stuck` is no Go value: a loop of the model ran out of fuel.
pub mod Slices
use quic_relay.Prelude.{
  ℕ, zero, suc, ap, ◌-◌, Bool, true, false, List, [], ◌∷◌, ◌++◌, ◌&&◌, ◌||◌, ◌≡◌, ◌↔◌, ◌⊎◌, inl,
  inr, refl, arith, ltb, leb, ◌==◌, length, get_or, take, drop, if◌then◌else◌,
}

pub data Go (E : Type 0) (A : Type 0) : Type 0 where
  ok : A → Go E A
  err : E → Go E A
  panic : Go E A
  stuck : Go E A

infixl 5 ◌>>=◌ ◌>>◌
abbrev pub ◌>>=◌ : {E A B : Type 0} → Go E A → (A → Go E B) → Go E B
ok a >>= f = f a
err e >>= f = err e
panic >>= f = panic
stuck >>= f = stuck

abbrev pub ◌>>◌ : {E B : Type 0} → Go E (Unit {0}) → Go E B → Go E B
m >> k = m >>= λ _. k

-- `if test { return err }`
abbrev pub fail_if : {E : Type 0} → Bool → E → Go E (Unit {0})
fail_if true e = err e
fail_if false e = ok tt

-- The call ends with a value that has the property, or with an error: it neither panics nor runs
-- out of fuel.
abbrev pub Ensures : {E A : Type 0} → (A → Type 0) → Go E A → Type 0
Ensures P (ok a) = P a
Ensures P (err e) = Unit
Ensures P panic = ⊥
Ensures P stuck = ⊥

-- The call ends with a value, and that has the property.
abbrev pub Returns : {E A : Type 0} → (A → Type 0) → Go E A → Type 0
Returns P (ok a) = P a
Returns P (err e) = ⊥
Returns P panic = ⊥
Returns P stuck = ⊥

pub Returns-eq :
    {E A : Type 0} (P : A → Type 0) (m : Go E A) → Returns P m → (a : A) × (m ≡ ok a) × P a
Returns-eq P (ok a) h = (a, refl, h)
Returns-eq P (err e) h = absurd h
Returns-eq P panic h = absurd h
Returns-eq P stuck h = absurd h

-- A call that does not panic ends with a value or with an error.
pub Ensures-cases :
    {E A : Type 0} (P : A → Type 0) (m : Go E A)
    → Ensures P m
    → ((a : A) × (m ≡ ok a) × P a) ⊎ ((e : E) × (m ≡ err e))
Ensures-cases P (ok a) h = inl (a, refl, h)
Ensures-cases P (err e) h = inr (e, refl)
Ensures-cases P panic h = absurd h
Ensures-cases P stuck h = absurd h

-- What a call needs of the one before it.
pub Returns-bind :
    {E A B : Type 0} (P : A → Type 0) (Q : B → Type 0) (m : Go E A) (f : A → Go E B)
    → Returns P m
    → ((a : A) → P a → Returns Q (f a))
    → Returns Q (m >>= f)
Returns-bind P Q (ok a) f h k = k a h
Returns-bind P Q (err e) f h k = h
Returns-bind P Q panic f h k = h
Returns-bind P Q stuck f h k = h

pub Returns-imp :
    {E A : Type 0} (P Q : A → Type 0) (m : Go E A)
    → ((a : A) → P a → Q a)
    → Returns P m
    → Returns Q m
Returns-imp P Q (ok a) f h = f a h
Returns-imp P Q (err e) f h = h
Returns-imp P Q panic f h = h
Returns-imp P Q stuck f h = h

pub Ensures-imp :
    {E A : Type 0} (P Q : A → Type 0) (m : Go E A)
    → ((a : A) → P a → Q a)
    → Ensures P m
    → Ensures Q m
Ensures-imp P Q (ok a) f h = f a h
Ensures-imp P Q (err e) f h = h
Ensures-imp P Q panic f h = h
Ensures-imp P Q stuck f h = h

pub Ensures-bind :
    {E A B : Type 0} (P : A → Type 0) (Q : B → Type 0) (m : Go E A) (f : A → Go E B)
    → Ensures P m
    → ((a : A) → P a → Ensures Q (f a))
    → Ensures Q (m >>= f)
Ensures-bind P Q (ok a) f h k = k a h
Ensures-bind P Q (err e) f h k = tt
Ensures-bind P Q panic f h k = h
Ensures-bind P Q stuck f h k = h

pub Ensures-of_Returns : {E A : Type 0} (P : A → Type 0) (m : Go E A) → Returns P m → Ensures P m
Ensures-of_Returns P (ok a) h = h
Ensures-of_Returns P (err e) h = tt
Ensures-of_Returns P panic h = h
Ensures-of_Returns P stuck h = h

pub Ensures-bind_Returns :
    {E A B : Type 0} (P : A → Type 0) (Q : B → Type 0) (m : Go E A) (f : A → Go E B)
    → Returns P m
    → ((a : A) → P a → Ensures Q (f a))
    → Ensures Q (m >>= f)
Ensures-bind_Returns P Q (ok a) f h k = k a h
Ensures-bind_Returns P Q (err e) f h k = absurd h
Ensures-bind_Returns P Q panic f h k = h
Ensures-bind_Returns P Q stuck f h k = h

pub Ensures-fail_if :
    {E B : Type 0} (Q : B → Type 0) (test : Bool) (e : E) (m : Go E B)
    → (test ≡ false → Ensures Q m)
    → Ensures Q (fail_if test e >> m)
Ensures-fail_if Q true e m h = tt
Ensures-fail_if Q false e m h = h refl

-- A byte slice; that its elements are below 256 is a hypothesis where it matters.
abbrev pub Bytes : Type 0
Bytes = List ℕ

module _ {E : Type 0} where
  -- `b[i]`
  unfoldable pub index : Bytes → ℕ → Go E ℕ
  index b i = if ltb i (length b) then ok (get_or b i 0) else panic

  -- `b[i:j]`. Go allows `j` up to the capacity; every such expression of the program stands behind
  -- a test that `j` is at most the length.
  unfoldable pub slice : Bytes → ℕ → ℕ → Go E Bytes
  slice b i j = if leb i j && leb j (length b) then ok (take (j - i) (drop i b)) else panic

  -- `b[i:]`
  unfoldable pub slice_from : Bytes → ℕ → Go E Bytes
  slice_from b i = if leb i (length b) then ok (drop i b) else panic

-- `string(a) == string(b)`, and a look-up of a key in a `map[string]bool`.
unfoldable pub bytes_eq : Bytes → Bytes → Bool
bytes_eq [] [] = true
bytes_eq (x ∷ xs) (y ∷ ys) = x == y && bytes_eq xs ys
bytes_eq _ _ = false

unfoldable pub contains : List Bytes → Bytes → Bool
contains [] b = false
contains (a ∷ l) b = bytes_eq a b || contains l b

pub bytes_eq_iff : (a b : Bytes) → (bytes_eq a b ≡ true) ↔ (a ≡ b)
unfolding bytes_eq
bytes_eq_iff (x ∷ a) (y ∷ b) = ground (arith, bytes_eq_iff a b)
bytes_eq_iff _ _ = ground arith

pub bytes_eq_self : (a : Bytes) → bytes_eq a a ≡ true
bytes_eq_self a = (bytes_eq_iff a a).1 refl

pub contains-append :
    (l : List Bytes) (a b : Bytes) → contains (l ++ (a ∷ [])) b ≡ (contains l b || bytes_eq a b)
unfolding contains
contains-append [] a b = ground arith
contains-append (c ∷ l) a b = ground (arith, contains-append l a b)

-- No key stands twice.
abbrev pub Distinct : List Bytes → Type 0
Distinct [] = Unit
Distinct (a ∷ l) = (contains l a ≡ false) × Distinct l

pub Distinct-append :
    (l : List Bytes) (a : Bytes) → Distinct l → contains l a ≡ false → Distinct (l ++ (a ∷ []))
unfolding contains
Distinct-append [] a d n = (refl, tt)
Distinct-append (c ∷ l) a d n = (
  ground (arith, contains-append l a c, bytes_eq_iff a c, bytes_eq_iff c a),
  Distinct-append l a d.1 (ground arith),
)

-- `copy(dst, src)`, and what `copy(dst[at:], src)` makes of `dst`.
abbrev pub overwrite : Bytes → Bytes → Bytes
overwrite [] src = []
overwrite (x ∷ dst) [] = x ∷ dst
overwrite (x ∷ dst) (y ∷ src) = y ∷ overwrite dst src

abbrev pub copy_at : Bytes → ℕ → Bytes → Bytes
copy_at dst zero src = overwrite dst src
copy_at [] (suc at) src = []
copy_at (x ∷ dst) (suc at) src = x ∷ copy_at dst at src

pub length-overwrite : (dst src : Bytes) → length (overwrite dst src) ≡ length dst
length-overwrite [] src = refl
length-overwrite (x ∷ dst) [] = refl
length-overwrite (x ∷ dst) (y ∷ src) = ap suc (length-overwrite dst src)

pub length-copy_at : (dst : Bytes) (at : ℕ) (src : Bytes) → length (copy_at dst at src) ≡ length dst
length-copy_at dst zero src = length-overwrite dst src
length-copy_at [] (suc at) src = refl
length-copy_at (x ∷ dst) (suc at) src = ap suc (length-copy_at dst at src)
