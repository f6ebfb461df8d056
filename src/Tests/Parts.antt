-- ===== src/Tests/Parts.antt =====
-- The workers, the routers and the packets of pkg/protohytale, at concrete values.
use quic_relay.Prelude.{
  replicate, ℕ, ◌≤◌, ◌≡◌, ◌++◌, refl, arith, true, false, none, some, List, [], ◌∷◌, length,
  if◌then◌else◌,
}
use quic_relay.Go.{ok, err, Bytes, Returns, bytes_eq}
use quic_relay.Net.{Addr}
use quic_relay.Map.{Map, store, lookup}
use quic_relay.Map.Laws.{AllValues}
use quic_relay.Proxy.Packet.{Conn}
use quic_relay.Pool.{WorkItem, new_worker_pool, submit, shard}
use quic_relay.Pool.Order.{
  World, submitted, Reachable, start, step, select, is_from, Reachable-order,
}
use quic_relay.Routers.{
  Route, StaticConfig, one, new_dynamic_handler, add_routes, backends_of_value, sni_router,
}
use quic_relay.Routers.Turns.{IsFilled, Routed, sni_router-Routed, new_dynamic_handler-Ensures}
use quic_relay.Forwarder.{Session, forward_connect}
use quic_relay.Forwarder.Closed.{
  Event, from_client, from_backend, disconnected, handle_all, Ended, handle_all-Ended,
}
use quic_relay.Handlers.{inbound}
use quic_relay.Registry.{
  HandlerConfig, Factory, failed_to_create, register, build_handlers, create_handler, create,
  build_chain,
}
use quic_relay.Registry.Builds.{Describes, build_chain-Describes}
use quic_relay.Hytale.{Packet}
use quic_relay.Hytale.Reader.{
  PacketReader, new_packet_reader_size, packet, read_packet, write_packet, write,
}
use quic_relay.Hytale.Reader.Stream.{IsReader, stream}
use quic_relay.Hytale.Reader.Frames.{Reads, read_packet-Reads, read_packet-write_packet}
use quic_relay.Hytale.Values.{read_var_int, write_var_int, write_bytes, var_int_size}
use quic_relay.Hytale.Values.RoundTrip.{read_var_int-write_var_int}
use quic_relay.Hytale.Connect.{ConnectPacket, parse_connect}
use quic_relay.Hytale.Connect.RoundTrip.{encode_connect, IsConnect, parse_connect-encode_connect}

abbrev home : Addr
home = record { ip = 10 ∷ 0 ∷ 0 ∷ 1 ∷ []; port = 5000; text = 1 ∷ [] }

abbrev item : ℕ → WorkItem
item n = record { client_addr = home; packet = n ∷ [] }

abbrev w0 : World
w0 = record { pool = new_worker_pool 4 2 0; accepted = []; handled = [] }

abbrev after : WorkItem → World → World
after i w = record w {
  pool = (submit i w.pool).0;
  accepted = if (submit i w.pool).1 then w.accepted ++ (i ∷ []) else w.accepted;
}

abbrev w2 : World
w2 = after (item 2) (after (item 1) w0)

w2-Reachable : Reachable 4 2 0 w2
w2-Reachable =
    step (after (item 1) w0) w2 (step w0 (after (item 1) w0) start (submitted w0 (item 1)))
      (submitted (after (item 1) w0) (item 2))

Reachable-order_example :
    (select (is_from home) w2.accepted
      ≡ select (is_from home) w2.handled
        ++ select (is_from home) (w2.pool.queues (shard w2.pool.workers home)))
    × (length (w2.pool.queues (shard w2.pool.workers home)) ≤ w2.pool.queue_per_shard)
Reachable-order_example = Reachable-order 4 2 0 w2 home w2-Reachable

abbrev a : Bytes
a = 97 ∷ []

abbrev b : Bytes
b = 98 ∷ []

abbrev conn_of : Bytes → Conn
conn_of name = record {
  client_addr = home;
  initial_packet = [];
  hello = some (record { raw = []; sni = name; alpn_protocols = [] });
  session_count = 0;
  count_seen = 0;
  reservable = true;
  reserved = false;
  backend = [];
  session = none;
}

abbrev two : StaticConfig
two = record { backend = []; backends = a ∷ b ∷ [] }

abbrev conns : List Conn
conns = conn_of a ∷ conn_of a ∷ conn_of b ∷ []

abbrev routes : Map Route
routes = (a, record { backends = b ∷ []; counter = 0 }) ∷ []

routes-IsFilled : AllValues IsFilled routes
unfolding new_dynamic_handler add_routes backends_of_value store
routes-IsFilled = new_dynamic_handler-Ensures ((a, one b) ∷ [])

sni_router-Routed_example : Returns (Routed routes (conn_of a)) (sni_router routes (conn_of a))
sni_router-Routed_example = sni_router-Routed routes routes-IsFilled (conn_of a)

abbrev ping : Packet
ping = record { id = 3; payload = 5 ∷ 6 ∷ [] }

-- The packet in pieces, and the beginning of another.
abbrev reader : PacketReader
reader =
    new_packet_reader_size
      ((2 ∷ 0 ∷ 0 ∷ [], none) ∷ (0 ∷ 3 ∷ 0 ∷ 0 ∷ 0 ∷ 5 ∷ [], none) ∷ (6 ∷ 9 ∷ [], none) ∷ []) 8

reader-IsReader : IsReader reader
unfolding new_packet_reader_size
reader-IsReader = record { start = omega arith; end = omega arith; calm = tt }

read_packet-Reads_example : Returns (Reads reader) (read_packet reader)
read_packet-Reads_example = read_packet-Reads reader reader-IsReader

read_packet-write_packet_example :
    Returns (λ r. IsReader r.0 × (r.1 ≡ packet ping) × (stream r.0 ≡ 9 ∷ [])) (read_packet reader)
unfolding write_packet write new_packet_reader_size
read_packet-write_packet_example =
    read_packet-write_packet ping (9 ∷ []) reader (omega arith, omega arith) reader-IsReader refl

read_var_int-write_var_int_example :
    (bytes : Bytes) × (write_var_int 300 ≡ ok bytes)
    × (length bytes ≡ var_int_size 300)
    × (read_var_int (bytes ++ (7 ∷ [])) ≡ ok (300, length bytes))
read_var_int-write_var_int_example = read_var_int-write_var_int 300 (7 ∷ []) (omega arith)

var_int-run : write_var_int 300 ≡ ok (0xac ∷ 0x02 ∷ [])
unfolding write_var_int write_bytes
var_int-run = refl

abbrev connect : ConnectPacket
connect = record {
  protocol_hash = replicate 32 7;
  client_type = 1;
  uuid = replicate 16 9;
  language = a;
  identity_token = replicate 30 116;
  username = b;
  referral_data = 5 ∷ [];
}

connect-IsConnect : IsConnect connect
connect-IsConnect = record {
  hash = refl;
  uuid = refl;
  language = omega arith;
  token = omega arith;
  username = omega arith;
  long = omega arith;
}

parse_connect-encode_connect_example : parse_connect (encode_connect connect) ≡ ok connect
parse_connect-encode_connect_example = parse_connect-encode_connect connect connect-IsConnect

abbrev before_end : List Event
before_end =
    from_client 5 true 0x40 (1 ∷ []) inbound ∷ from_backend 6 (some (0xc0 ∷ 2 ∷ [])) true ∷ []

abbrev after_end : List Event
after_end =
    from_backend 7 (some (3 ∷ [])) true ∷ disconnected ∷ from_client 8 true 0x40 [] inbound ∷ []

handle_all-Ended_example :
    (s : Session) × (handle_all before_end (forward_connect 4 true (9 ∷ [])).0 ≡ ok s)
    × Returns
        (Ended s)
        (handle_all (before_end ++ (disconnected ∷ after_end)) (forward_connect 4 true (9 ∷ [])).0)
handle_all-Ended_example = handle_all-Ended 4 (9 ∷ []) before_end after_end

abbrev length_factory : Factory Bytes ℕ
length_factory [] = err (9 ∷ [])
length_factory (c ∷ cs) = ok (length (c ∷ cs))

abbrev factories : Map (Factory Bytes ℕ)
factories = register (1 ∷ []) length_factory []

abbrev configs : List HandlerConfig
configs =
    record { type = 1 ∷ []; config = 4 ∷ 5 ∷ [] }
    ∷ record { type = 1 ∷ []; config = [] }
    ∷ record { type = 2 ∷ []; config = [] }
    ∷ []

build_chain-Describes_example : Describes factories configs [] (build_chain factories configs)
build_chain-Describes_example = build_chain-Describes factories configs

build_chain-run : build_chain factories configs ≡ err (failed_to_create (1 ∷ []) (9 ∷ []))
unfolding build_chain build_handlers create_handler create lookup register store bytes_eq
build_chain-run = refl
