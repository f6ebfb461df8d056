-- ===== src/Proxy/Packet/Store.antt =====
-- The proxy's invariant, through storeSession, a migration and the flush of the pending packets.
use quic_relay.Prelude.{
  ℕ, ◌+◌, ◌*◌, ◌/◌, ◌≤◌, ◌<◌, ◌≡◌, ◌∙◌, refl, sym, ap, arith, Bool, true, false, leb, none, some,
  Bool-cases, inl, inr, if◌then◌else◌,
}
use quic_relay.Go.{Bytes, bytes_eq, bytes_eq_iff}
use quic_relay.Map.{lookup, store, size, is_some}
use quic_relay.Map.Laws.{lookup-store, store-IsMap, size-store}
use quic_relay.Assembler.{Assembler}
use quic_relay.Assembler.Cells.{IsValid}
use quic_relay.Capped.{max_assemblers, max_pending_buffers}
use quic_relay.Capped.Laws.{IsCapped}
use quic_relay.Sessions.{Context, Tables}
use quic_relay.Sessions.Aliases.{IsLinked}
use quic_relay.Proxy.State.{Proxy, new_proxy}
use quic_relay.Proxy.Oldest.{cleanup_oldest_sessions}
use quic_relay.Proxy.Oldest.Removal.{IsSoundTables, Keeps, cleanup_oldest_sessions-Removes}
use quic_relay.Proxy.Packet.{max_sessions, with_tables, store_session}

abbrev pub session_limit : ℕ
session_limit = max_sessions * 9 / 10

-- Sound tables with `extra` slots reserved, fewer sessions than the limit at which they are cleaned
-- up and no more than `cap`, and capped maps whose assemblers are valid.
pub record IsSound (cap extra : ℕ) (p : Proxy) : Type 0 where
  pub tables : IsSoundTables extra p.tables
  pub below : size p.tables.sessions < session_limit
  pub within : size p.tables.sessions ≤ cap
  pub assemblers : IsCapped max_assemblers p.assemblers
  pub valid : (k : Bytes) (a : Assembler) → lookup k p.assemblers.entries ≡ some a → IsValid a
  pub pending : IsCapped max_pending_buffers p.pending

-- The tables that say which session is where.
abbrev pub SameSessions : Tables → Tables → Type 0
SameSessions t t' =
    (t'.sessions ≡ t.sessions)
    × (t'.dcid_aliases ≡ t.dcid_aliases)
    × (t'.session_aliases ≡ t.session_aliases)

IsLinked-same : (t t' : Tables) → SameSessions t t' → IsLinked t → IsLinked t'
IsLinked-same t t' (e, f, g) l = record {
  aliases_map = rw f l.aliases_map;
  sets_map = rw g l.sets_map;
  sessions_map = rw e l.sessions_map;
  linked = λ a k h. rw g (l.linked a k (ap (lookup a) (sym f) ∙ h));
}

pub IsSound-same :
    {cap : ℕ} (extra extra' : ℕ) (f : Tables → Tables) (p : Proxy)
    → SameSessions p.tables (f p.tables)
    → (f p.tables).session_count ≡ size p.tables.sessions + extra'
    → extra' < 2
    → IsSound cap extra p
    → IsSound cap extra' (with_tables f p)
IsSound-same extra extra' f p same count small s = record {
  tables = record {
    linked = IsLinked-same p.tables (f p.tables) same s.tables.linked;
    keyed = λ j c e. s.tables.keyed j c (ap (lookup j) (sym same.0) ∙ e);
    counted = rw same.0 count;
    bounded = omega (arith, s.below, count);
  };
  below = rw same.0 s.below;
  within = rw same.0 s.within;
  assemblers = s.assemblers;
  valid = s.valid;
  pending = s.pending;
}

module _ (key : Bytes) (ctx : Context) (t : Tables) (own : ctx.dcid ≡ key)
    (addr : is_some ctx.client_addr ≡ true) where
  abbrev stored : Tables
  stored = record t { sessions = store key ctx t.sessions }

  keyed-store :
      ((j : Bytes) (c : Context)
        → lookup j t.sessions ≡ some c
        → (c.dcid ≡ j) × (is_some c.client_addr ≡ true))
      → (j : Bytes) (c : Context) → lookup j (store key ctx t.sessions) ≡ some c
      → (c.dcid ≡ j) × (is_some c.client_addr ≡ true)
  keyed-store keyed j c e = elim (Bool-cases (bytes_eq key j)) [
    | inl hit ↦
        ground (arith, e, hit, own, addr, lookup-store key j ctx t.sessions, bytes_eq_iff key j)
    | inr miss ↦ keyed j c (ground (arith, e, miss, lookup-store key j ctx t.sessions))
  ]

  IsLinked-store : IsLinked t → IsLinked stored
  IsLinked-store l = record {
    aliases_map = l.aliases_map;
    sets_map = l.sets_map;
    sessions_map = store-IsMap key ctx t.sessions l.sessions_map;
    linked = l.linked;
  }

  -- A session in a slot that was counted before.
  fill-IsSoundTables : lookup key t.sessions ≡ none → IsSoundTables 1 t → IsSoundTables 0 stored
  fill-IsSoundTables free s = record {
    linked = IsLinked-store s.linked;
    keyed = keyed-store s.keyed;
    counted = ground (arith, free, s.counted, size-store key ctx t.sessions);
    bounded = s.bounded;
  }

  -- A session in the place of an older one.
  pub replace-IsSoundTables :
      (extra : ℕ)
      → is_some (lookup key t.sessions) ≡ true
      → IsSoundTables extra t
      → IsSoundTables extra stored
  replace-IsSoundTables extra there s = record {
    linked = IsLinked-store s.linked;
    keyed = keyed-store s.keyed;
    counted = ground (arith, there, s.counted, size-store key ctx t.sessions);
    bounded = s.bounded;
  }

-- The slots that a handler reserved.
abbrev pub slots : Bool → ℕ
slots reserved = if reserved then 1 else 0

-- The tables of a proxy change, its capped maps do not.
pub rest-IsSound :
    {cap : ℕ} (extra extra' : ℕ) (p p' : Proxy)
    → p'.assemblers ≡ p.assemblers
    → p'.pending ≡ p.pending
    → IsSoundTables extra' p'.tables
    → size p'.tables.sessions < session_limit
    → size p'.tables.sessions ≤ cap
    → IsSound cap extra p
    → IsSound cap extra' p'
rest-IsSound extra extra' p p' e f tables below within s = record {
  tables = tables;
  below = below;
  within = within;
  assemblers = rw e s.assemblers;
  valid = λ k a h. s.valid k a (ap (λ m. lookup k m.entries) (sym e) ∙ h);
  pending = rw f s.pending;
}

module _ (key : Bytes) (ctx : Context) (own : ctx.dcid ≡ key)
    (addr : is_some ctx.client_addr ≡ true) where
  size-fill :
      (t : Tables)
      → lookup key t.sessions ≡ none
      → size (store key ctx t.sessions) ≡ size t.sessions + 1
  size-fill t free = ground (arith, free, size-store key ctx t.sessions)

  -- The end of storeSession, on tables with one slot taken.
  fill-IsSound :
      {cap : ℕ} (p : Proxy)
      → lookup key p.tables.sessions ≡ none
      → IsSound cap 1 p
      → size p.tables.sessions + 1 < session_limit
      → size p.tables.sessions + 1 ≤ cap
      → IsSound cap 0 (with_tables (λ t. record t { sessions = store key ctx t.sessions }) p)
  fill-IsSound p free s room admitted =
      rest-IsSound 1 0 p (with_tables (λ t. record t { sessions = store key ctx t.sessions }) p)
        refl refl (fill-IsSoundTables key ctx p.tables own addr free s.tables)
        (omega (arith, room, size-fill p.tables free))
        (omega (arith, admitted, size-fill p.tables free)) s

-- The counter with the slot of a session that has none yet.
abbrev taken : Bool → Tables → ℕ
taken reserved t = if reserved then t.session_count else t.session_count + 1

taken-lem :
    {cap : ℕ} (reserved : Bool) (p : Proxy)
    → IsSound cap (slots reserved) p
    → taken reserved p.tables ≡ size p.tables.sessions + 1
taken-lem true p s = s.tables.counted
taken-lem false p s = omega (arith, s.tables.counted)

taken-IsSound :
    {cap : ℕ} (reserved : Bool) (p : Proxy)
    → IsSound cap (slots reserved) p
    → IsSound cap 1 (with_tables (λ t. record t { session_count = taken reserved p.tables }) p)
taken-IsSound reserved p s =
    IsSound-same (slots reserved) 1 (λ t. record t { session_count = taken reserved p.tables }) p
      (refl, refl, refl) (taken-lem reserved p s) (omega arith) s

cleaned-lem :
    {cap : ℕ} (idle : Bytes → ℕ) (p : Proxy)
    → IsSound cap 1 p
    → session_limit ≤ p.tables.session_count
    → (n : ℕ) → n ≡ p.tables.session_count / 10
    → IsSound cap 1 (cleanup_oldest_sessions n idle p)
      × (size (cleanup_oldest_sessions n idle p).tables.sessions + 1 < session_limit)
      × (size (cleanup_oldest_sessions n idle p).tables.sessions ≤ size p.tables.sessions)
      × Keeps p (cleanup_oldest_sessions n idle p)
cleaned-lem idle p s full n e =
    let pos : 0 < n = omega (arith, s.tables.counted) in
    let (r, number) = cleanup_oldest_sessions-Removes 1 n idle p pos s.tables in
    let room : size (cleanup_oldest_sessions n idle p).tables.sessions + 1 < session_limit =
      ground (arith, number, s.below, s.tables.counted) in
    (
      rest-IsSound 1 1 p (cleanup_oldest_sessions n idle p) r.keeps.assemblers r.keeps.pending
          r.sound (omega (arith, room)) (omega (arith, s.within, r.number)) s,
      room,
      omega (arith, r.number),
      r.keeps,
    )

-- storeSession on a sound proxy with room for one more session, for a key that has none: sound again,
-- so below the limit of the sessions, whether a slot was reserved or not and whether the cleanup runs
-- or not.
pub store_session-IsSound :
    {cap : ℕ} (idle : Bytes → ℕ) (reserved : Bool) (key : Bytes) (ctx : Context) (p : Proxy)
    → ctx.dcid ≡ key
    → is_some ctx.client_addr ≡ true
    → lookup key p.tables.sessions ≡ none
    → IsSound cap (slots reserved) p
    → size p.tables.sessions + 1 ≤ cap
    → IsSound cap 0 (store_session idle reserved key ctx p)
unfolding store_session
store_session-IsSound idle reserved key ctx p own addr free s admitted =
    let n = taken reserved p.tables / 10 in
    let counted = with_tables (λ t. record t { session_count = taken reserved p.tables }) p in
    let c = taken-IsSound reserved p s in
    elim (Bool-cases (leb session_limit (taken reserved p.tables))) [
      | inl full ↦
          let (sound, room, fewer, keeps) =
            cleaned-lem idle counted c (ground (arith, full)) n refl in
          rw (full, store_session)
            (fill-IsSound key ctx own addr (cleanup_oldest_sessions n idle counted)
              (keeps.fewer key free) sound room (omega (arith, admitted, fewer)))
      | inr below ↦
          rw (below, store_session)
            (fill-IsSound key ctx own addr counted free c
              (ground (arith, below, taken-lem reserved p s)) admitted)
    ]

pub new_proxy-IsSound : (cap chain : ℕ) → IsSound cap 0 (new_proxy chain)
unfolding new_proxy lookup
new_proxy-IsSound cap chain = record {
  tables = record {
    linked = record {
      aliases_map = tt;
      sets_map = tt;
      sessions_map = tt;
      linked = λ a k impossible. absurd (cc impossible);
    };
    keyed = λ j c impossible. absurd (cc impossible);
    counted = omega arith;
    bounded = omega arith;
  };
  below = omega arith;
  within = omega arith;
  assemblers = record { map = tt; counted = refl; within = omega arith };
  valid = λ k a impossible. absurd (cc impossible);
  pending = record { map = tt; counted = refl; within = omega arith };
}
