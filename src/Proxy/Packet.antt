-- ===== src/Proxy/Packet.antt =====
-- handlePacket, storeSession, flushPendingPackets and the reservation of session slots of
-- internal/proxy/proxy.go. The handlers of each chain, the cryptography and the idle time of a session
-- are parameters. A call runs by itself.
pub mod Find
pub mod Store
pub mod Steps
pub mod Assembling
pub mod Sound
use quic_relay.Prelude.{
  ℕ, ◌+◌, ◌*◌, ◌/◌, Bool, true, false, not, ◌&&◌, ◌||◌, ltb, leb, ◌==◌, Option, none, some, List,
  [], ◌∷◌, ◌++◌, length, if◌then◌else◌,
}
use quic_relay.Go.{Go, ok, err, panic, stuck, ◌>>=◌, Bytes}
use quic_relay.Net.{Addr, ip_equal}
use quic_relay.Quic.{PacketType, unknown, initial, zero_rtt, handshake, retry, short_header, Error}
use quic_relay.Quic.Header.{classify_packet, extract_dcid}
use quic_relay.Quic.Initial.{Crypto, extract_crypto_frames_from_packet}
use quic_relay.Tls.{ClientHello}
use quic_relay.Map.{lookup, store, delete}
use quic_relay.Assembler.{
  Assembler, new_crypto_assembler, add_frames, try_parse, is_expired, is_complete,
}
use quic_relay.Capped.{
  Capped, PendingBuffer, load_or_create_assembler, store_assembler, delete_assembler,
  buffer_pending_packet, take_pending_packets, decrement,
}
use quic_relay.Chains.{retain_chain}
use quic_relay.Handlers.{Action, continue, handled, drop, Result, Handler, on_connect}
use quic_relay.Sessions.{Context, Tables, find_session, register_dcid_length}
use quic_relay.Proxy.State.{Proxy, deliver}
use quic_relay.Proxy.Oldest.{cleanup_oldest_sessions}

-- A *handler.Context while its OnConnect runs: what the proxy puts in, and what handlers leave:
-- `_session_reserved`, `backend`, and the Session by its client's address. `session_count` is the
-- proxy's counter, which `_reserve_session_slot` raises if that closure is there (`reservable`);
-- `count_seen` is the value of `_session_count`.
pub record Conn : Type 0 where
  pub client_addr : Addr
  pub initial_packet : Bytes
  pub hello : Option ClientHello
  pub session_count : ℕ
  pub count_seen : ℕ
  pub reservable : Bool
  pub reserved : Bool
  pub backend : Bytes
  pub session : Option Addr

abbrev pub max_sessions : ℕ
max_sessions = 100000

-- tryReserveSessionSlot, on the counter.
unfoldable pub try_reserve_session_slot : ℕ → ℕ → ℕ × Bool
try_reserve_session_slot limit count = if leb limit count then (count, false) else (count + 1, true)

-- releaseReservedSessionSlot, where `reserved` is the value of `_session_reserved`.
unfoldable pub release_reserved_session_slot : Bool → Tables → Tables
release_reserved_session_slot reserved t =
    if reserved then record t { session_count = decrement t.session_count } else t

abbrev pub with_tables : (Tables → Tables) → Proxy → Proxy
with_tables f p = record p { tables = f p.tables }

unfoldable pub store_session : (Bytes → ℕ) → Bool → Bytes → Context → Proxy → Proxy
store_session idle reserved key ctx p =
    let count = if reserved then p.tables.session_count else p.tables.session_count + 1 in
    let counted = with_tables (λ t. record t { session_count = count }) p in
    let cleaned =
      if leb (max_sessions * 9 / 10) count
      then cleanup_oldest_sessions (count / 10) idle counted
      else counted in
    with_tables (λ t. record t { sessions = store key ctx t.sessions }) cleaned

-- `for _, pkt := range packets`, each to the chain that is current.
unfoldable pub deliver_all : Context → List Bytes → Proxy → Proxy
deliver_all ctx [] p = p
deliver_all ctx (packet ∷ packets) p =
    deliver_all ctx packets (deliver p.tables.chains.chain ctx packet p)

unfoldable pub flush_pending_packets : Bytes → Context → Proxy → Proxy
flush_pending_packets key ctx p =
    let (pending', packets) = take_pending_packets key p.pending in
    deliver_all ctx packets (record p { pending = pending' })

abbrev pub same_addr : Addr → Addr → Bool
same_addr a b = ip_equal a.ip b.ip && a.port == b.port

-- The session moves to a new address.
unfoldable pub migrate : Context → Addr → Addr → Proxy → Proxy
migrate ctx old new = with_tables λ t. record t {
  sessions = store ctx.dcid (record ctx { client_addr = some new }) t.sessions;
  client_sessions = store new.text ctx.dcid (delete old.text t.client_sessions);
}

-- A packet of a session that was found.
unfoldable pub packet_of_session : Addr → Bytes → Context → Proxy → Go Error Proxy
packet_of_session addr packet ctx p = elim (ctx.client_addr) [
  | none ↦ panic
  | some current ↦
      if same_addr current addr
      then ok (deliver ctx.chain ctx packet p)
      else if not p.allow_migration
      then ok p
      else ok (deliver ctx.chain ctx packet (migrate ctx current addr p))
]

abbrev pub is_early : PacketType → Bool
is_early zero_rtt = true
is_early handshake = true
is_early _ = false

abbrev pub is_initial : PacketType → Bool
is_initial initial = true
is_initial _ = false

-- A 0-RTT or Handshake packet without a session waits for it.
unfoldable pub buffer_early : ℕ → Bytes → PacketType → Option Bytes → Proxy → Proxy
buffer_early now packet kind none p = p
buffer_early now packet kind (some dcid) p =
    if is_early kind
    then record p { pending = buffer_pending_packet now dcid packet p.pending }
    else p

-- The assembler of a DCID, a new one in place of one that is expired. `none` is the limit.
unfoldable pub obtain_assembler : ℕ → Bytes → Capped Assembler → Capped Assembler × Option Assembler
obtain_assembler now key t =
    let (t1, found) = load_or_create_assembler now key t in
    elim found [
      | none ↦ (t1, none)
      | some (a, loaded) ↦
          if loaded && is_expired now a
          then (let (t2, stored) =
                store_assembler key (new_crypto_assembler now) (delete_assembler key t1) in
              (t2, if stored then some (new_crypto_assembler now) else none))
          else (t1, some a)
    ]

-- The assembler is a shared object: what happens to it shows in the map.
abbrev pub put_assembler : Bytes → Assembler → Proxy → Proxy
put_assembler key a p = record p {
  assemblers = record p.assemblers { entries = store key a p.assemblers.entries };
}

-- The frames of the packet go into the assembler; an error of the packet is only logged.
unfoldable pub feed : Crypto → Bytes → Assembler → Go Error Assembler
feed crypto packet a = elim (extract_crypto_frames_from_packet crypto packet) [
  | ok frames ↦ add_frames frames a
  | err e ↦ ok a
  | panic ↦ panic
  | stuck ↦ stuck
]

module _ (idle : Bytes → ℕ) where
  -- `result.Action == handler.Handled && newCtx.Session != nil`
  unfoldable pub establish : Addr → Bytes → ℕ → Conn → Addr → Proxy → Proxy
  establish addr key chain conn session p =
      let ctx : Context = record { chain = chain; dcid = key; client_addr = some session } in
      let registered = with_tables (register_dcid_length (length key)) p in
      let stored = store_session idle conn.reserved key ctx registered in
      let retained =
        with_tables
          (λ t. record t {
            chains = retain_chain chain t.chains;
            client_sessions = store addr.text key t.client_sessions;
          })
          stored in
      flush_pending_packets key ctx retained

  -- What follows OnConnect, by its result.
  unfoldable pub finish_connect : Addr → Bytes → ℕ → Conn → Action → Proxy → Proxy
  finish_connect addr key chain conn handled p = elim (conn.session) [
    | some session ↦ establish addr key chain conn session p
    | none ↦ with_tables (release_reserved_session_slot conn.reserved) p
  ]
  finish_connect addr key chain conn other p =
      with_tables (release_reserved_session_slot conn.reserved) p

module _ (idle : Bytes → ℕ) {E : Type 0} (handlers : ℕ → List (Handler Conn E)) where
  -- From the complete ClientHello on: the handlers of the current chain decide.
  unfoldable pub connect_client : Addr → Bytes → Bytes → ClientHello → Proxy → Proxy
  connect_client addr packet key hello p =
      let chain = p.tables.chains.chain in
      let fresh : Conn = record {
        client_addr = addr;
        initial_packet = packet;
        hello = some hello;
        session_count = p.tables.session_count;
        count_seen = p.tables.session_count;
        reservable = true;
        reserved = false;
        backend = [];
        session = none;
      } in
      let (conn, result) = on_connect (handlers chain) fresh in
      finish_connect idle addr key chain conn result.action
        (with_tables (λ t. record t { session_count = conn.session_count }) p)

  -- TryParse, and the connection if there is a ClientHello.
  unfoldable pub try_connect : Addr → Bytes → Bytes → Assembler → Proxy → Go Error Proxy
  try_connect addr packet key a p = try_parse a >>= λ r. ok (elim (r.1) [
    | none ↦ put_assembler key r.0 p
    | some hello ↦
        let parsed = put_assembler key r.0 p in
        connect_client addr packet key hello
          (record parsed { assemblers = delete_assembler key parsed.assemblers })
  ])

module _ (crypto : Crypto) (idle : Bytes → ℕ) {E : Type 0}
    (handlers : ℕ → List (Handler Conn E)) where
  -- An Initial packet without a session. Where findSession could not extract a DCID, neither can the
  -- second try here.
  unfoldable pub initial_packet_of : ℕ → Addr → Bytes → Bytes → Proxy → Go Error Proxy
  initial_packet_of now addr packet key p =
      let (assemblers', found) = obtain_assembler now key p.assemblers in
      let p' = record p { assemblers = assemblers' } in
      elim found [
        | none ↦ ok p'
        | some a ↦ elim (is_complete a) [
          | true ↦ ok p'
          | false ↦ feed crypto packet a >>= λ a'. try_connect idle handlers addr packet key a' p'
        ]
      ]

  unfoldable pub new_packet : ℕ → Addr → Bytes → PacketType → Option Bytes → Proxy → Go Error Proxy
  new_packet now addr packet kind dcid p = elim (is_initial kind) [
    | false ↦ ok (buffer_early now packet kind dcid p)
    | true ↦ elim dcid [ none ↦ ok p | some key ↦ initial_packet_of now addr packet key p ]
  ]

  unfoldable pub handle_packet : ℕ → Addr → Bytes → Proxy → Go Error Proxy
  handle_packet now addr [] p = ok p
  handle_packet now addr (b ∷ bs) p = classify_packet (b ∷ bs) >>= λ kind.
      find_session (b ∷ bs) kind (some addr.text) p.tables >>= λ found. elim (found.0) [
        | some ctx ↦ packet_of_session addr (b ∷ bs) ctx p
        | none ↦ new_packet now addr (b ∷ bs) kind found.1 p
      ]
