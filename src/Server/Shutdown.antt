-- ===== src/Server/Shutdown.antt =====
-- The whole server of internal/proxy/proxy.go and pool.go, from its start to the end of Stop.
use quic_relay.Prelude.{ℕ, ◌≤◌, ◌≡◌, Bool, none, List, [], ◌∷◌, All, length}
use quic_relay.Go.{Go, Bytes}
use quic_relay.Net.{Addr}
use quic_relay.Map.{Map, lookup}
use quic_relay.Quic.Initial.{Crypto}
use quic_relay.Quic.Initial.Safety.{CryptoLaws}
use quic_relay.Handlers.{Handler}
use quic_relay.Registry.{Factory}
use quic_relay.Pool.{WorkItem}
use quic_relay.Pool.Order.{Reachable, select, is_from}
use quic_relay.Pool.Drained.{count, drained}
use quic_relay.Proxy.Packet.{Conn}
use quic_relay.Proxy.Packet.Sound.{IsFramed}
use quic_relay.Main as Main
use quic_relay.Main.Runs as Runs
use quic_relay.Main.Runs.{IsRunning, IsSafeReload}
use quic_relay.Server.{
  Server, ReadResult, received, Closing, turned, submitted_late, Event, was_read, worked, cleaned,
  signalled,
}

-- The packet of an item is framed.
abbrev FramedItem : WorkItem → Type 0
FramedItem item = IsFramed item.packet

abbrev pub Reads : ReadResult → Type 0
Reads (received addr bytes) = IsFramed bytes
Reads _ = Unit

-- A packet that is read is framed, and a configuration that is loaded is safe.
abbrev pub Arrives : {E F : Type 0} → Map (Factory F (Handler Conn E)) → Event → Type 0
Arrives registry (was_read r) = Reads r
Arrives registry (worked t) = Unit
Arrives registry (cleaned now idle) = Unit
Arrives registry (signalled loaded chain) = IsSafeReload registry loaded

record IsServing {E : Type 0} (cpus : ℕ) (s : Server E) : Type 0 where
  reached : Reachable cpus 0 0 s.world
  running : IsRunning s.running
  framed : (i : ℕ) → All FramedItem (s.world.pool.queues i)

abbrev pub workers : List Closing → List ℕ
workers [] = []
workers (turned t ∷ rest) = t.worker ∷ workers rest
workers (submitted_late item ∷ rest) = workers rest

-- The loop of Run submits nothing any more.
abbrev pub IsTurn : Closing → Type 0
IsTurn (turned t) = Unit
IsTurn (submitted_late item) = ⊥

-- Every worker runs at least as often as its queue is long.
abbrev pub IsEnough : {E : Type 0} → List Closing → Server E → Type 0
IsEnough turns s = (i : ℕ) → length (s.world.pool.queues i) ≤ count i (workers turns)

-- A server that has ended: no packet waits, no session is left, and of every client the packets that the
-- pool accepted went to handlePacket, in that order.
pub record Ended {E : Type 0} (s : Server E) : Type 0 where
  pub empty : (i : ℕ) → s.world.pool.queues i ≡ []
  pub served :
      (addr : Addr) → select (is_from addr) s.world.accepted ≡ select (is_from addr) s.world.handled
  pub sessions : (j : Bytes) → lookup j s.running.proxy.tables.sessions ≡ none
  pub count : s.running.proxy.tables.session_count ≡ 0

module _ {E F : Type 0} (c : Crypto) (laws : CryptoLaws c)
    (registry : Map (Factory F (Handler Conn E))) (is_file : Bool) (cpus : ℕ) where
  -- A server that serves on, the pool as after the turn of a worker.
  abbrev Worked : ℕ → Server E → Server E → Type 0
  Worked id s s' = IsServing cpus s' × (s'.world ≡ drained (id ∷ []) s.world)

  abbrev Finished : List Closing → Server E → Server E → Type 0
  Finished rest s s' = IsServing cpus s' × (s'.world ≡ drained (workers rest) s.world)
