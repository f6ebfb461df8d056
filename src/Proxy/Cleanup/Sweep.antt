-- ===== src/Proxy/Cleanup/Sweep.antt =====
-- What is left of a capped map after a sweep.
use quic_relay.Prelude.{
  ℕ, ◌<◌, ◌≡◌, ◌^◌, refl, arith, Bool, false, Option, none, some, [], ◌∷◌, Bool-cases, inl, inr,
  if◌then◌else◌,
}
use quic_relay.Go.{Bytes, bytes_eq, bytes_eq_iff}
use quic_relay.Map.{Map, lookup, IsMap}
use quic_relay.Map.Laws.{lookup-delete, AllValues}
use quic_relay.Capped.{Capped, delete_capped}
use quic_relay.Capped.Laws.{IsCapped, delete_capped-IsCapped}
use quic_relay.Proxy.Cleanup.{sweep}

-- An entry of `m` that stays must not pass the test.
module _ {V : Type 0} (cap : ℕ) (small : cap < 2 ^ 63) (test : V → Bool) where
  pub sweep-IsCapped : (m : Map V) (t : Capped V) → IsCapped cap t → IsCapped cap (sweep test m t)
  unfolding sweep
  sweep-IsCapped [] t h = h
  sweep-IsCapped ((key, v) ∷ m) t h = elim (Bool-cases (test v)) [
    | inl old ↦
        rw (old, sweep)
          (sweep-IsCapped m (delete_capped key t) (delete_capped-IsCapped cap small key t h))
    | inr new ↦ rw (new, sweep) (sweep-IsCapped m t h)
  ]

  lookup-delete_capped :
      (key j : Bytes) (t : Capped V)
      → IsCapped cap t
      → lookup j (delete_capped key t).entries
        ≡ (if bytes_eq key j then none else lookup j t.entries)
  unfolding delete_capped
  lookup-delete_capped key j t h =
      ground (arith, lookup-delete key j t.entries h.map, bytes_eq_iff key j)

  abbrev passes : Option V → Bool
  passes none = false
  passes (some v) = test v

  -- The entry of a key, if `m` has none for it that passes.
  pub lookup-sweep :
      (m : Map V) (t : Capped V) (j : Bytes)
      → IsMap m
      → IsCapped cap t
      → lookup j (sweep test m t).entries
        ≡ (if passes (lookup j m) then none else lookup j t.entries)
  unfolding sweep lookup
  lookup-sweep [] t j d h = refl
  lookup-sweep ((key, v) ∷ m) t j d h = ground (
    arith,
    d.0,
    bytes_eq_iff key j,
    lookup-sweep m (delete_capped key t) j d.1 (delete_capped-IsCapped cap small key t h),
    lookup-sweep m t j d.1 h,
    lookup-delete_capped key j t h,
  )

  -- A sweep over the map itself leaves what does not pass, and only that.
  pub sweep-AllValues :
      (t : Capped V)
      → IsCapped cap t
      → AllValues (λ v. test v ≡ false) (sweep test t.entries t).entries
  sweep-AllValues t h j v e = ground (arith, e, lookup-sweep t.entries t j h.map h)

  pub sweep-kept :
      (P : V → Type 0) (t : Capped V)
      → IsCapped cap t
      → AllValues P t.entries
      → AllValues P (sweep test t.entries t).entries
  sweep-kept P t h all j v e = all j v (ground (arith, e, lookup-sweep t.entries t j h.map h))
