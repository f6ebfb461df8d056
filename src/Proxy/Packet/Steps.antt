-- ===== src/Proxy/Packet/Steps.antt =====
-- The proxy's invariant through a migration, the flush of the pending packets and a connection.
use quic_relay.Prelude.{
  ℕ, ◌+◌, ◌≤◌, ◌<◌, ◌≡◌, ◌∙◌, refl, ap, arith, Bool, true, false, not, none, some, List, [], ◌∷◌,
  length, Bool-cases, Option-cases, inl, inr, if◌then◌else◌,
}
use quic_relay.Quic.{Error}
use quic_relay.Go.{ok, Bytes, Returns}
use quic_relay.Net.{Addr}
use quic_relay.Map.{lookup, store, delete, size, is_some}
use quic_relay.Map.Laws.{size-store}
use quic_relay.Capped.{max_pending_buffers, take_pending_packets, Capped, PendingBuffer}
use quic_relay.Capped.Laws.{IsCapped, delete_capped-IsCapped}
use quic_relay.Chains.{retain_chain}
use quic_relay.Handlers.{Action, continue, handled, drop}
use quic_relay.Sessions.{Context, Tables, register_dcid_length}
use quic_relay.Proxy.State.{Proxy, deliver}
use quic_relay.Proxy.Packet.{
  Conn, with_tables, deliver_all, flush_pending_packets, migrate, packet_of_session,
  release_reserved_session_slot, same_addr, store_session, establish, finish_connect,
}
use quic_relay.Proxy.Packet.Store.{
  IsSound, IsSound-same, SameSessions, replace-IsSoundTables, rest-IsSound, slots,
  store_session-IsSound,
}
use quic_relay.Proxy.Packet.Find.{Stored}

module _ {cap : ℕ} (extra : ℕ) where
  deliver-IsSound :
      (chain : ℕ) (ctx : Context) (packet : Bytes) (p : Proxy)
      → IsSound cap extra p
      → IsSound cap extra (deliver chain ctx packet p)
  unfolding deliver
  deliver-IsSound chain ctx packet p s = record {
    tables = s.tables;
    below = s.below;
    within = s.within;
    assemblers = s.assemblers;
    valid = s.valid;
    pending = s.pending;
  }

  deliver_all-IsSound :
      (ctx : Context) (packets : List Bytes) (p : Proxy)
      → IsSound cap extra p
      → IsSound cap extra (deliver_all ctx packets p)
  unfolding deliver_all
  deliver_all-IsSound ctx [] p s = s
  deliver_all-IsSound ctx (packet ∷ packets) p s =
      deliver_all-IsSound ctx packets (deliver p.tables.chains.chain ctx packet p)
        (deliver-IsSound p.tables.chains.chain ctx packet p s)

  pub pending-IsSound :
      (p : Proxy) (pending : Capped PendingBuffer)
      → IsSound cap extra p
      → IsCapped max_pending_buffers pending
      → IsSound cap extra (record p { pending = pending })
  pending-IsSound p pending s h = record {
    tables = s.tables;
    below = s.below;
    within = s.within;
    assemblers = s.assemblers;
    valid = s.valid;
    pending = h;
  }

  flush_pending_packets-IsSound :
      (key : Bytes) (ctx : Context) (p : Proxy)
      → IsSound cap extra p
      → IsSound cap extra (flush_pending_packets key ctx p)
  unfolding flush_pending_packets take_pending_packets deliver_all
  flush_pending_packets-IsSound key ctx p s = elim (Option-cases (lookup key p.pending.entries)) [
    | inl e ↦
        rw (e, flush_pending_packets, take_pending_packets)
          (pending-IsSound p p.pending s s.pending)
    | inr (buf, e) ↦
        rw (e, flush_pending_packets, take_pending_packets)
          (deliver_all-IsSound ctx buf.packets _ (
            pending-IsSound p _ s
              (delete_capped-IsCapped max_pending_buffers (omega arith) key p.pending s.pending)))
  ]

  -- Tables that no invariant is about.
  quiet-IsSound :
      (f : Tables → Tables) (p : Proxy)
      → SameSessions p.tables (f p.tables)
      → (f p.tables).session_count ≡ p.tables.session_count
      → extra < 2
      → IsSound cap extra p
      → IsSound cap extra (with_tables f p)
  quiet-IsSound f p same count small s =
      IsSound-same extra extra f p same (count ∙ s.tables.counted) small s

  migrate-IsSound :
      (ctx : Context) (old new : Addr) (p : Proxy)
      → is_some (lookup ctx.dcid p.tables.sessions) ≡ true
      → extra < 2
      → IsSound cap extra p
      → IsSound cap extra (migrate ctx old new p)
  unfolding migrate
  migrate-IsSound ctx old new p there small s =
      let same : size (store ctx.dcid (record ctx { client_addr = some new }) p.tables.sessions)
          ≡ size p.tables.sessions =
        ground (
          arith,
          there,
          size-store ctx.dcid (record ctx { client_addr = some new }) p.tables.sessions,
        ) in
      let moved = record ctx { client_addr = some new } in
      let clients = λ (t : Tables). record t {
        client_sessions = store new.text ctx.dcid (delete old.text t.client_sessions);
      } in
      let q = with_tables clients p in
      let r = quiet-IsSound clients p (refl, refl, refl) refl small s in
      rest-IsSound extra extra q (migrate ctx old new p) refl refl
        (replace-IsSoundTables ctx.dcid moved q.tables refl refl extra there r.tables)
        (omega (arith, s.below, same)) (omega (arith, s.within, same)) r

moved-IsSound :
    {cap : ℕ} (allowed : Bool) (chain : ℕ) (ctx : Context) (packet : Bytes) (p q : Proxy)
    → IsSound cap 0 p
    → IsSound cap 0 q
    → Returns {E = Error}
        (IsSound cap 0)
        (if not allowed then ok p else ok (deliver chain ctx packet q))
moved-IsSound true chain ctx packet p q s t = deliver-IsSound 0 chain ctx packet q t
moved-IsSound false chain ctx packet p q s t = s

-- A packet of a session that stands in the table, with its client's address: no panic, and the proxy
-- is as sound as before.
pub packet_of_session-IsSound :
    {cap : ℕ} (addr : Addr) (packet : Bytes) (ctx : Context) (p : Proxy)
    → Stored p.tables (some ctx)
    → IsSound cap 0 p
    → Returns (IsSound cap 0) (packet_of_session addr packet ctx p)
unfolding packet_of_session
packet_of_session-IsSound addr packet ctx p (there, known) s = elim (Option-cases ctx.client_addr) [
  | inl missing ↦ absurd (ground (arith, known, missing))
  | inr (current, e) ↦
      rw (e, packet_of_session)
        (elim (Bool-cases (same_addr current addr)) [
          | inl same ↦ rw same (deliver-IsSound 0 ctx.chain ctx packet p s)
          | inr other ↦ rw other (
              moved-IsSound p.allow_migration ctx.chain ctx packet p (migrate ctx current addr p) s
                (migrate-IsSound 0 ctx current addr p (rw there refl) (omega arith) s))
        ])
]

release-IsSound :
    {cap : ℕ} (reserved : Bool) (p : Proxy)
    → IsSound cap (slots reserved) p
    → IsSound cap 0 (with_tables (release_reserved_session_slot reserved) p)
unfolding release_reserved_session_slot
release-IsSound true p s =
    IsSound-same 1 0 (release_reserved_session_slot true) p (refl, refl, refl)
      (omega (arith, s.tables.counted, s.tables.bounded)) (omega arith) s
release-IsSound false p s =
    quiet-IsSound 0 (release_reserved_session_slot false) p (refl, refl, refl) refl (omega arith) s

pub slots-lt : (reserved : Bool) → slots reserved < 2
slots-lt reserved = ground arith

register-same :
    (n : ℕ) (t : Tables)
    → SameSessions t (register_dcid_length n t)
      × ((register_dcid_length n t).session_count ≡ t.session_count)
unfolding register_dcid_length
register-same n t = ground arith

module _ (idle : Bytes → ℕ) where
  -- The session table's part of a connection that a handler made.
  establish-IsSound :
      {cap : ℕ} (addr : Addr) (key : Bytes) (chain : ℕ) (conn : Conn) (session : Addr) (p : Proxy)
      → lookup key p.tables.sessions ≡ none
      → IsSound cap (slots conn.reserved) p
      → size p.tables.sessions + 1 ≤ cap
      → IsSound cap 0 (establish idle addr key chain conn session p)
  unfolding establish
  establish-IsSound addr key chain conn session p free s admitted =
      let ctx : Context = record { chain = chain; dcid = key; client_addr = some session } in
      let q = with_tables (register_dcid_length (length key)) p in
      let (same, count) = register-same (length key) p.tables in
      let retain = λ (t : Tables). record t {
        chains = retain_chain chain t.chains;
        client_sessions = store addr.text key t.client_sessions;
      } in
      let r = store_session idle conn.reserved key ctx q in
      flush_pending_packets-IsSound 0 key ctx (with_tables retain r) (
        quiet-IsSound 0 retain r (refl, refl, refl) refl (omega arith)
          (store_session-IsSound idle conn.reserved key ctx q refl refl
            (ap (lookup key) same.0 ∙ free)
            (quiet-IsSound (slots conn.reserved) (register_dcid_length (length key)) p same count
              (slots-lt conn.reserved) s)
            (omega (arith, admitted, ap size same.0))))

  -- What follows OnConnect, whatever its result, for a key without a session: one slot reserved, or none,
  -- is used or given back.
  pub finish_connect-IsSound :
      {cap : ℕ} (addr : Addr) (key : Bytes) (chain : ℕ) (conn : Conn) (action : Action) (p : Proxy)
      → lookup key p.tables.sessions ≡ none
      → IsSound cap (slots conn.reserved) p
      → (action ≡ handled → size p.tables.sessions + 1 ≤ cap)
      → IsSound cap 0 (finish_connect idle addr key chain conn action p)
  unfolding finish_connect
  finish_connect-IsSound addr key chain conn continue p free s admitted =
      release-IsSound conn.reserved p s
  finish_connect-IsSound addr key chain conn drop p free s admitted =
      release-IsSound conn.reserved p s
  finish_connect-IsSound addr key chain conn handled p free s admitted =
      elim (Option-cases conn.session) [
        | inl e ↦ rw (e, finish_connect) (release-IsSound conn.reserved p s)
        | inr (session, e) ↦
            rw (e, finish_connect)
              (establish-IsSound addr key chain conn session p free s (admitted refl))
      ]
