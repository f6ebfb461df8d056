-- ===== src/Map.antt =====
-- A `sync.Map` or `map[string]V` whose keys are byte strings, as an association list. A method call
-- on it is atomic.
pub mod Laws
use quic_relay.Prelude.{
  ℕ, suc, ◌≡◌, Bool, true, false, Option, none, some, List, [], ◌∷◌, if◌then◌else◌,
}
use quic_relay.Go.{Bytes, bytes_eq}

abbrev pub Map : Type 0 → Type 0
Map V = List (Bytes × V)

module _ {V : Type 0} where
  -- Load
  unfoldable pub lookup : Bytes → Map V → Option V
  lookup k [] = none
  lookup k ((j, v) ∷ m) = if bytes_eq j k then some v else lookup k m

  -- Store: in place, or at the end.
  unfoldable pub store : Bytes → V → Map V → Map V
  store k v [] = (k, v) ∷ []
  store k v ((j, w) ∷ m) =
      let rest = store k v m in if bytes_eq j k then (j, v) ∷ m else (j, w) ∷ rest

  -- Delete
  unfoldable pub delete : Bytes → Map V → Map V
  delete k [] = []
  delete k ((j, w) ∷ m) = let rest = delete k m in if bytes_eq j k then m else (j, w) ∷ rest

  abbrev pub size : Map V → ℕ
  size [] = 0
  size (x ∷ m) = suc (size m)

abbrev pub is_some {ℓ} : {A : Type ℓ} → Option A → Bool
is_some none = false
is_some (some a) = true

-- Every key stands once.
abbrev pub IsMap : {V : Type 0} → Map V → Type 0
IsMap [] = Unit
IsMap ((k, v) ∷ m) = (lookup k m ≡ none) × IsMap m
