-- ===== src/Capped/Laws.antt =====
-- The counter of a capped map is its number of entries, and never passes the cap.
use quic_relay.Prelude.{
  ℕ, ◌+◌, ◌^◌, ◌≤◌, ◌<◌, ◌≡◌, arith, true, false, leb, none, some, if◌then◌else◌,
}
use quic_relay.Go.{Bytes}
use quic_relay.Map.{is_some, lookup, store, size, IsMap}
use quic_relay.Map.Laws.{store-IsMap, size-store, delete-IsMap, size-delete}
use quic_relay.Capped.{Capped, store_capped, delete_capped, load_or_create}

pub record IsCapped {V : Type 0} (cap : ℕ) (t : Capped V) : Type 0 where
  pub map : IsMap t.entries
  pub counted : t.count ≡ size t.entries
  pub within : t.count ≤ cap

module _ {V : Type 0} (cap : ℕ) (small : cap < 2 ^ 63) (key : Bytes) where
  pub store_capped-IsCapped :
      (v : V) (t : Capped V) → IsCapped cap t → IsCapped cap (store_capped cap key v t).0
  unfolding store_capped
  store_capped-IsCapped v t h =
      ground (arith, store-IsMap key v t.entries h.map, size-store key v t.entries)

  -- A deletion from a map whose counter is its number of entries, the cap below 2^63, keeps it so.
  pub delete_capped-IsCapped : (t : Capped V) → IsCapped cap t → IsCapped cap (delete_capped key t)
  unfolding delete_capped
  delete_capped-IsCapped t h =
      ground (arith, delete-IsMap key t.entries h.map, size-delete key t.entries)

  -- loadOrCreate on a map whose counter is its number of entries and within a cap below 2^63 keeps
  -- both, whether the key is there, there is room, or the map is full.
  pub load_or_create-IsCapped :
      (fresh : V) (t : Capped V) → IsCapped cap t → IsCapped cap (load_or_create cap key fresh t).0
  unfolding load_or_create
  load_or_create-IsCapped fresh t h = ground (arith, store_capped-IsCapped fresh t h)

  -- A new value of an entry that is there.
  pub replace-IsCapped :
      (v : V) (t : Capped V)
      → is_some (lookup key t.entries) ≡ true
      → IsCapped cap t
      → IsCapped cap (record t { entries = store key v t.entries })
  replace-IsCapped v t there h = record {
    map = store-IsMap key v t.entries h.map;
    counted = ground (arith, there, h.counted, size-store key v t.entries);
    within = h.within;
  }

  -- What a caller of loadOrCreate is given, for a cap below 2^63: the entry that was there, with no
  -- change; else a fresh one, which is then the entry, if there is room; else nothing, with no change.
  pub load_or_create_lem :
      (fresh : V) (t : Capped V)
      → load_or_create cap key fresh t ≡ elim (lookup key t.entries) [
        | some v ↦ (t, some (v, true))
        | none ↦ if leb cap t.count then (t, none) else (
          record { entries = store key fresh t.entries; count = t.count + 1 },
          some (fresh, false),
        )
      ]
  unfolding load_or_create store_capped
  load_or_create_lem fresh t = ground arith
