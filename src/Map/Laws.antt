-- ===== src/Map/Laws.antt =====
-- What a map answers after each operation.
use quic_relay.Prelude.{
  subst, Bool-cases, inl, inr, ◌+◌, ◌≡◌, refl, arith, none, some, [], ◌∷◌, if◌then◌else◌,
}
use quic_relay.Go.{Bytes, bytes_eq, bytes_eq_iff}
use quic_relay.Map.{Map, lookup, store, delete, size, is_some, IsMap}

module _ {V : Type 0} where
  pub lookup-store :
      (k j : Bytes) (v : V) (m : Map V)
      → lookup j (store k v m) ≡ (if bytes_eq k j then some v else lookup j m)
  unfolding lookup store
  lookup-store k j v [] = refl
  lookup-store k j v ((i, w) ∷ m) =
      ground (arith, bytes_eq_iff k j, bytes_eq_iff i k, bytes_eq_iff i j, lookup-store k j v m)

  pub store-IsMap : (k : Bytes) (v : V) (m : Map V) → IsMap m → IsMap (store k v m)
  unfolding store
  store-IsMap k v [] h = ((unfold lookup in refl), tt)
  store-IsMap k v ((i, w) ∷ m) h =
      ground
        (arith, store-IsMap k v m h.1, lookup-store k i v m, bytes_eq_iff i k, bytes_eq_iff k i)

  pub size-store :
      (k : Bytes) (v : V) (m : Map V)
      → size (store k v m) ≡ (if is_some (lookup k m) then size m else size m + 1)
  unfolding lookup store
  size-store k v [] = omega arith
  size-store k v ((i, w) ∷ m) = ground (arith, size-store k v m)

  pub lookup-delete :
      (k j : Bytes) (m : Map V)
      → IsMap m
      → lookup j (delete k m) ≡ (if bytes_eq k j then none else lookup j m)
  unfolding lookup delete
  lookup-delete k j [] h = ground arith
  lookup-delete k j ((i, w) ∷ m) h =
      ground (arith, bytes_eq_iff k j, bytes_eq_iff i k, bytes_eq_iff i j, lookup-delete k j m h.1)

  pub delete-IsMap : (k : Bytes) (m : Map V) → IsMap m → IsMap (delete k m)
  unfolding delete
  delete-IsMap k [] h = tt
  delete-IsMap k ((i, w) ∷ m) h =
      ground
        (arith, delete-IsMap k m h.1, lookup-delete k i m h.1, bytes_eq_iff i k, bytes_eq_iff k i)

  pub size-delete :
      (k : Bytes) (m : Map V) → size m ≡ size (delete k m) + (if is_some (lookup k m) then 1 else 0)
  unfolding lookup delete
  size-delete k [] = omega arith
  size-delete k ((i, w) ∷ m) = ground (arith, size-delete k m)

-- A property of every value of a map.
abbrev pub AllValues : {V : Type 0} → (V → Type 0) → Map V → Type 0
AllValues {V} P m = (k : Bytes) (v : V) → lookup k m ≡ some v → P v

pub store-AllValues :
    {V : Type 0} (P : V → Type 0) (key : Bytes) (v : V) (m : Map V)
    → P v
    → AllValues P m
    → AllValues P (store key v m)
store-AllValues P key v m p all k w e = elim (Bool-cases (bytes_eq key k)) [
  | inl hit ↦ subst P (same (ground (arith, e, hit, lookup-store key k v m))) p
  | inr miss ↦ all k w (ground (arith, e, miss, lookup-store key k v m))
]
  where
    same : some v ≡ some w → v ≡ w
    same h = cc h
