-- ===== src/Proxy/Packet/Sound.antt =====
-- handlePacket keeps the proxy's invariant.
use quic_relay.Prelude.{
  ℕ, ◌+◌, ◌≤◌, ◌≡◌, ◌∙◌, refl, ap, arith, Bool, true, false, Option, none, some, List, [], ◌∷◌,
  ◌++◌, length, Bool-cases, inl, inr, leb, All, ◌⊎◌, if◌then◌else◌,
}
use quic_relay.Go.{
  ok, Bytes, Ensures, Returns, Returns-bind, ◌>>=◌, Ensures-imp, index, bytes_eq_self,
}
use quic_relay.Net.{Addr}
use quic_relay.Map.{lookup, store, size, is_some}
use quic_relay.Map.Laws.{lookup-store}
use quic_relay.Quic.{PacketType, unknown, initial, zero_rtt, handshake, retry, short_header, Error}
use quic_relay.Quic.Header.{classify_packet}
use quic_relay.Quic.Varint.Reference.{IsByte}
use quic_relay.Quic.Initial.{Crypto, buffer_size, extract_crypto_frames_from_packet}
use quic_relay.Quic.Initial.Safety.{
  CryptoLaws, scid_end, token_end, extract_crypto_frames_from_packet-Ensures,
}
use quic_relay.Tls.{ClientHello}
use quic_relay.Assembler.{Assembler, try_parse, is_complete}
use quic_relay.Assembler.Cells.{IsValid}
use quic_relay.Assembler.Parse.{Parses, try_parse-Parses}
use quic_relay.Capped.{
  Capped, PendingBuffer, buffer_pending_packet, load_or_create_pending_buffer, max_pending_buffers,
  max_pending_per_dcid, load_or_create, delete_assembler,
}
use quic_relay.Capped.Laws.{IsCapped, load_or_create_lem, load_or_create-IsCapped, replace-IsCapped}
use quic_relay.Handlers.{Handler, on_connect, handled}
use quic_relay.Sessions.{Context, find_session}
use quic_relay.Proxy.State.{Proxy}
use quic_relay.Proxy.Packet.{
  Conn, with_tables, is_early, buffer_early, put_assembler, connect_client, try_connect,
  initial_packet_of, new_packet, handle_packet, packet_of_session, obtain_assembler, feed,
}
use quic_relay.Proxy.Packet.Find.{Finds, find_session-Finds}
use quic_relay.Proxy.Packet.Store.{IsSound, IsSound-same, slots, session_limit}
use quic_relay.Proxy.Packet.Steps.{
  pending-IsSound, slots-lt, packet_of_session-IsSound, finish_connect-IsSound,
}
use quic_relay.Proxy.Packet.Assembling.{
  IsReady, Obtained, put-IsReady, delete_assembler-IsReady, obtain_assembler-Obtained, feed-IsValid,
  parsed-IsValid,
}

-- What loadOrCreatePendingBuffer hands out stands in the map.
created-there :
    (now : ℕ) (key : Bytes) (t : Capped PendingBuffer)
    → let (t', found) = load_or_create_pending_buffer now key t in
      (found ≡ none) ⊎ (is_some (lookup key t'.entries) ≡ true)
unfolding load_or_create_pending_buffer
created-there now key t =
    let fresh : PendingBuffer = record { packets = []; created_at = now } in
    ground (
      arith,
      load_or_create_lem max_pending_buffers (omega arith) key fresh t,
      lookup-store key key fresh t.entries,
      bytes_eq_self key,
    )

buffer_pending_packet-IsCapped :
    (now : ℕ) (key packet : Bytes) (t : Capped PendingBuffer)
    → IsCapped max_pending_buffers t
    → IsCapped max_pending_buffers (buffer_pending_packet now key packet t)
unfolding buffer_pending_packet load_or_create_pending_buffer
buffer_pending_packet-IsCapped now key packet t h =
    let fresh : PendingBuffer = record { packets = []; created_at = now } in
    let r = load_or_create max_pending_buffers key fresh t in
    go r.0 r.1 (load_or_create-IsCapped max_pending_buffers (omega arith) key fresh t h)
      (created-there now key t)
  where
    go :
        (t' : Capped PendingBuffer) (found : Option (PendingBuffer × Bool))
        → IsCapped max_pending_buffers t'
        → (found ≡ none) ⊎ (is_some (lookup key t'.entries) ≡ true)
        → IsCapped max_pending_buffers (elim found [
          | none ↦ t'
          | some (buf, loaded) ↦
              if leb max_pending_per_dcid (length buf.packets) then t' else record t' {
                entries =
                    store key (record buf { packets = buf.packets ++ (packet ∷ []) }) t'.entries;
              }
        ])
    go t' none c there = c
    go t' (some (buf, loaded)) c (inl impossible) = absurd (cc impossible)
    go t' (some (buf, loaded)) c (inr there) =
        elim (Bool-cases (leb max_pending_per_dcid (length buf.packets))) [
          | inl full ↦ rw full c
          | inr room ↦ rw room (replace-IsCapped max_pending_buffers (omega arith) key _ t' there c)
        ]

buffer_early-IsSound :
    {cap : ℕ} (now : ℕ) (packet : Bytes) (kind : PacketType) (dcid : Option Bytes) (p : Proxy)
    → IsSound cap 0 p
    → IsSound cap 0 (buffer_early now packet kind dcid p)
unfolding buffer_early
buffer_early-IsSound now packet kind none p s = s
buffer_early-IsSound now packet kind (some key) p s = elim (Bool-cases (is_early kind)) [
  | inl early ↦
      rw (early, buffer_early)
        (pending-IsSound 0 p _ s
          (buffer_pending_packet-IsCapped now key packet p.pending s.pending))
  | inr other ↦ rw (other, buffer_early) s
]

classify_packet-Returns :
    (b : ℕ) (bs : Bytes) → Returns (λ k. classify_packet (b ∷ bs) ≡ ok k) (classify_packet (b ∷ bs))
unfolding classify_packet index
classify_packet-Returns b bs = ground arith

ready : {cap : ℕ} (p : Proxy) → IsSound cap 0 p → IsReady p.assemblers
ready p s = record { capped = s.assemblers; valid = s.valid }

ready-IsSound :
    {cap : ℕ} (p : Proxy) (assemblers : Capped Assembler)
    → IsSound cap 0 p
    → IsReady assemblers
    → IsSound cap 0 (record p { assemblers = assemblers })
ready-IsSound p assemblers s r = record {
  tables = s.tables;
  below = s.below;
  within = s.within;
  assemblers = r.capped;
  valid = r.valid;
  pending = s.pending;
}

-- A handler's OnConnect that starts with no slot reserved has raised the counter by the slot that it
-- leaves reserved, if any.
abbrev pub CountsSlots : {E : Type 0} → (ℕ → List (Handler Conn E)) → Type 0
CountsSlots handlers =
    (chain : ℕ) (conn : Conn)
    → conn.reserved ≡ false
    → let conn' = (on_connect (handlers chain) conn).0 in
      conn'.session_count ≡ conn.session_count + slots conn'.reserved

-- What the parser of an Initial packet needs: the header's length fields stay inside the packet.
abbrev pub IsFramed : Bytes → Type 0
IsFramed packet =
    All IsByte packet
    × (length packet ≤ buffer_size)
    × (classify_packet packet ≡ ok initial
        → (scid_end packet ≤ length packet) × (token_end packet ≤ length packet))

-- A connection that the handlers handle is admitted: they left a slot reserved, the counter at most
-- `cap`. No handler need do so for a `cap` that the cleanup keeps anyway.
abbrev pub Admits : {E : Type 0} → ℕ → (ℕ → List (Handler Conn E)) → Type 0
Admits cap handlers =
    (session_limit ≤ cap)
    ⊎ ((chain : ℕ) (conn : Conn)
        → conn.reservable ≡ true
        → conn.reserved ≡ false
        → let (conn', result) = on_connect (handlers chain) conn in
          result.action ≡ handled → (conn'.reserved ≡ true) × (conn'.session_count ≤ cap))

module _ (cap : ℕ) (idle : Bytes → ℕ) {E : Type 0} (handlers : ℕ → List (Handler Conn E))
    (law : CountsSlots handlers) (admits : Admits cap handlers) where
  connect_client-IsSound :
      (addr : Addr) (packet key : Bytes) (hello : ClientHello) (p : Proxy)
      → lookup key p.tables.sessions ≡ none
      → IsSound cap 0 p
      → IsSound cap 0 (connect_client idle handlers addr packet key hello p)
  unfolding connect_client
  connect_client-IsSound addr packet key hello p free s =
      let chain = p.tables.chains.chain in
      let fresh : Conn = record {
        client_addr = addr;
        initial_packet = packet;
        hello = some hello;
        session_count = p.tables.session_count;
        count_seen = p.tables.session_count;
        reservable = true;
        reserved = false;
        backend = [];
        session = none;
      } in
      let (conn, result) = on_connect (handlers chain) fresh in
      let count = law chain fresh refl in
      finish_connect-IsSound idle addr key chain conn result.action
        (with_tables (λ t. record t { session_count = conn.session_count }) p) free
        (IsSound-same 0 (slots conn.reserved) (λ t. record t { session_count = conn.session_count })
          p (refl, refl, refl) (omega (arith, count, s.tables.counted)) (slots-lt conn.reserved) s)
        (λ e. elim admits [
          | inl wide ↦ omega (arith, wide, s.below)
          | inr admit ↦
              admitted conn.reserved conn.session_count count (admit chain fresh refl refl e)
        ])
    where
      admitted :
          (reserved : Bool) (count : ℕ)
          → count ≡ p.tables.session_count + slots reserved
          → (reserved ≡ true) × (count ≤ cap)
          → size p.tables.sessions + 1 ≤ cap
      admitted true count e (_, h) = omega (arith, e, h, s.tables.counted)
      admitted false count e (h, _) = absurd (ground (arith, h))

  try_connect-IsSound :
      (addr : Addr) (packet key : Bytes) (a : Assembler) (p : Proxy)
      → lookup key p.tables.sessions ≡ none
      → is_some (lookup key p.assemblers.entries) ≡ true
      → IsValid a
      → IsSound cap 0 p
      → Returns (IsSound cap 0) (try_connect idle handlers addr packet key a p)
  unfolding try_connect
  try_connect-IsSound addr packet key a p free there v s =
      Returns-bind (Parses a) (IsSound cap 0) (try_parse a) _ (try_parse-Parses a v)
        λ r h. go r.0 r.1 h
    where
      go :
          (a' : Assembler) (r : Option ClientHello)
          → Parses a (a', r)
          → IsSound cap 0 (elim r [
            | none ↦ put_assembler key a' p
            | some hello ↦
                let parsed = put_assembler key a' p in
                connect_client idle handlers addr packet key hello
                  (record parsed { assemblers = delete_assembler key parsed.assemblers })
          ])
      go a' none h =
          ready-IsSound p _ s
            (put-IsReady key p.assemblers (ready p s) a' (parsed-IsValid a (a', none) v h) there)
      go a' (some hello) h =
          let put =
            put-IsReady key p.assemblers (ready p s) a' (parsed-IsValid a (a', some hello) v h)
              there in
          let parsed = put_assembler key a' p in
          connect_client-IsSound addr packet key hello
            (record parsed { assemblers = delete_assembler key parsed.assemblers }) free
            (ready-IsSound p _ s (delete_assembler-IsReady key parsed.assemblers put))

  initial_packet_of-IsSound :
      (c : Crypto) (now : ℕ) (addr : Addr) (packet key : Bytes) (p : Proxy)
      → Ensures (λ fs. Unit {0}) (extract_crypto_frames_from_packet c packet)
      → lookup key p.tables.sessions ≡ none
      → IsSound cap 0 p
      → Returns (IsSound cap 0) (initial_packet_of c idle handlers now addr packet key p)
  unfolding initial_packet_of
  initial_packet_of-IsSound c now addr packet key p safe free s =
      go (obtain_assembler now key p.assemblers).0 (obtain_assembler now key p.assemblers).1
        (obtain_assembler-Obtained now key p.assemblers (ready p s))
    where
      go :
          (t : Capped Assembler) (found : Option Assembler)
          → Obtained key (t, found)
          → Returns {E = Error} (IsSound cap 0) (elim found [
            | none ↦ ok (record p { assemblers = t })
            | some a ↦ elim (is_complete a) [
              | true ↦ ok (record p { assemblers = t })
              | false ↦ feed c packet a >>= λ a'.
                  try_connect idle handlers addr packet key a' (record p { assemblers = t })
            ]
          ])
      go t none r = ready-IsSound p t s r
      go t (some a) (r, v, there) = elim (Bool-cases (is_complete a)) [
        | inl complete ↦ rw complete (ready-IsSound p t s r)
        | inr growing ↦ rw growing (
            Returns-bind IsValid (IsSound cap 0) (feed c packet a) _
              (feed-IsValid c packet a v safe)
              λ a' v'.
                try_connect-IsSound addr packet key a' (record p { assemblers = t }) free
                  (rw there refl) v' (ready-IsSound p t s r))
      ]

  new_packet-IsSound :
      (c : Crypto) (now : ℕ) (addr : Addr) (packet : Bytes) (kind : PacketType)
      (dcid : Option Bytes) (p : Proxy)
      → (kind ≡ initial → Ensures (λ fs. Unit {0}) (extract_crypto_frames_from_packet c packet))
      → Finds p.tables (none, dcid)
      → IsSound cap 0 p
      → Returns (IsSound cap 0) (new_packet c idle handlers now addr packet kind dcid p)
  unfolding new_packet
  new_packet-IsSound c now addr packet initial none p safe free s = s
  new_packet-IsSound c now addr packet initial (some key) p safe free s =
      initial_packet_of-IsSound c now addr packet key p (safe refl) free s
  new_packet-IsSound c now addr packet unknown dcid p safe free s =
      buffer_early-IsSound now packet unknown dcid p s
  new_packet-IsSound c now addr packet zero_rtt dcid p safe free s =
      buffer_early-IsSound now packet zero_rtt dcid p s
  new_packet-IsSound c now addr packet handshake dcid p safe free s =
      buffer_early-IsSound now packet handshake dcid p s
  new_packet-IsSound c now addr packet retry dcid p safe free s =
      buffer_early-IsSound now packet retry dcid p s
  new_packet-IsSound c now addr packet short_header dcid p safe free s =
      buffer_early-IsSound now packet short_header dcid p s

  module _ (c : Crypto) (laws : CryptoLaws c) where
    framed-Ensures :
        (packet : Bytes)
        → IsFramed packet
        → classify_packet packet ≡ ok initial
        → Ensures (λ fs. Unit {0}) (extract_crypto_frames_from_packet c packet)
    framed-Ensures packet (bytes, small, inside) e =
        Ensures-imp _ (λ fs. Unit {0}) (extract_crypto_frames_from_packet c packet) (λ fs h. tt)
          (extract_crypto_frames_from_packet-Ensures c laws packet bytes small (inside e).0
            (inside e).1)

    -- handlePacket on a sound proxy, for a packet of at most 65535 bytes whose SCID and token lie
    -- within it if it is an Initial, with a cryptography that keeps its laws, and with handlers that
    -- raise the session counter by the slot they leave reserved and that admit a connection only up to
    -- `cap` sessions, unless the cleanup keeps the sessions below `cap` anyway: it returns, without a
    -- panic, and the proxy is sound again. So the counter is the number of sessions, at most `cap` and
    -- below nine tenths of the limit; every session stands under its own DCID and every alias in its
    -- session's set; the assemblers are valid, and they and the pending buffers are within their caps.
    pub handle_packet-IsSound :
        (now : ℕ) (addr : Addr) (packet : Bytes) (p : Proxy)
        → IsFramed packet
        → IsSound cap 0 p
        → Returns (IsSound cap 0) (handle_packet c idle handlers now addr packet p)
    unfolding handle_packet
    handle_packet-IsSound now addr [] p framed s = s
    handle_packet-IsSound now addr (b ∷ bs) p framed s =
        Returns-bind (λ k. classify_packet (b ∷ bs) ≡ ok k) (IsSound cap 0)
          (classify_packet (b ∷ bs)) _ (classify_packet-Returns b bs)
          λ kind e.
            Returns-bind (Finds p.tables) (IsSound cap 0)
              (find_session (b ∷ bs) kind (some addr.text) p.tables) _
              (find_session-Finds p.tables s.tables (b ∷ bs) kind (some addr.text))
              λ found h. go kind e found.0 found.1 h
      where
        go :
            (kind : PacketType)
            → classify_packet (b ∷ bs) ≡ ok kind
            → (ctx : Option Context) (dcid : Option Bytes) → Finds p.tables (ctx, dcid)
            → Returns (IsSound cap 0) (elim ctx [
              | some ctx ↦ packet_of_session addr (b ∷ bs) ctx p
              | none ↦ new_packet c idle handlers now addr (b ∷ bs) kind dcid p
            ])
        go kind e (some ctx) dcid h = packet_of_session-IsSound addr (b ∷ bs) ctx p h s
        go kind e none dcid h =
            new_packet-IsSound c now addr (b ∷ bs) kind dcid p
              (λ same. framed-Ensures (b ∷ bs) framed (e ∙ ap ok same)) h s
