-- ===== src/Server.antt =====
-- Run and Stop of internal/proxy/proxy.go with the worker pool of pool.go: packets are read off the
-- socket, queued, and handled by workers. A read of the socket is an event, with what it returned.
pub mod Shutdown
use quic_relay.Prelude.{ℕ, Bool, Option, none, some, List, [], ◌∷◌, ◌++◌, if◌then◌else◌}
use quic_relay.Go.{Go, ok, err, panic, stuck, ◌>>=◌, Bytes}
use quic_relay.Net.{Addr}
use quic_relay.Map.{Map}
use quic_relay.Quic.{Error}
use quic_relay.Quic.Initial.{Crypto}
use quic_relay.Handlers.{Handler}
use quic_relay.Registry.{Factory}
use quic_relay.Pool.{WorkItem, new_worker_pool, submit, take_packet}
use quic_relay.Pool.Order.{World}
use quic_relay.Proxy.Packet.{Conn}
use quic_relay.Proxy.Cleanup.{stop}
use quic_relay.Main as Main
use quic_relay.Main.{Running, Config, arrived, ticked, hung_up, with_proxy, run_event}

-- The pool, with the packets it accepted and those it gave to a worker, and what the workers share.
pub record Server (E : Type 0) : Type 0 where
  pub world : World
  pub running : Running E

-- ReadFromUDP
pub data ReadResult : Type 0 where
  received : Addr → Bytes → ReadResult
  timed_out read_failed : ReadResult

-- Submit, with the packet among the accepted ones if it was.
abbrev pub offer : WorkItem → World → World
offer item w = record w {
  pool = (submit item w.pool).0;
  accepted = if (submit item w.pool).1 then w.accepted ++ (item ∷ []) else w.accepted;
}

-- A round of the loop of Run.
unfoldable pub read_round : ReadResult → World → World
read_round (received addr bytes) w = offer (record { client_addr = addr; packet = bytes }) w
read_round timed_out w = w
read_round read_failed w = w

-- A worker that gets to run, with the clock and the idle times that its packet sees.
pub record Turn : Type 0 where
  pub worker : ℕ
  pub now : ℕ
  pub idle : Bytes → ℕ

pub data Event : Type 0 where
  was_read : ReadResult → Event
  worked : Turn → Event
  cleaned : ℕ → (Bytes → ℕ) → Event
  signalled : Option Config → ℕ → Event

-- What can happen while Stop waits for the workers: a turn of one of them, or the end of a round of Run's
-- loop that had read its packet before Stop closed the listener.
pub data Closing : Type 0 where
  turned : Turn → Closing
  submitted_late : WorkItem → Closing

-- The pool that Run makes, on a proxy that main has set up.
unfoldable pub new_server : {E : Type 0} → ℕ → Running E → Server E
new_server cpus w = record {
  world = record { pool = new_worker_pool cpus 0 0; accepted = []; handled = [] };
  running = w;
}

abbrev pub with_running : {E : Type 0} → Server E → Running E → Server E
with_running s w = record s { running = w }

module _ {E F : Type 0} (c : Crypto) (registry : Map (Factory F (Handler Conn E)))
    (is_file : Bool) where
  -- A round of a worker's loop.
  unfoldable pub work : Turn → Server E → Go Error (Server E)
  work t s = elim (take_packet t.worker s.world.pool) [
    | none ↦ ok s
    | some (item, pool) ↦
        run_event c registry is_file (arrived t.now t.idle item.client_addr item.packet) s.running
        >>= λ w. ok (record {
          world = record s.world { pool = pool; handled = s.world.handled ++ (item ∷ []) };
          running = w;
        })
  ]

  unfoldable pub serve : Event → Server E → Go Error (Server E)
  serve (was_read r) s = ok (record s { world = read_round r s.world })
  serve (worked t) s = work t s
  serve (cleaned now idle) s =
      run_event c registry is_file (ticked now idle) s.running >>= λ w. ok (with_running s w)
  serve (signalled loaded chain) s =
      run_event c registry is_file (hung_up loaded chain) s.running >>= λ w. ok (with_running s w)

  unfoldable pub serve_all : List Event → Server E → Go Error (Server E)
  serve_all [] s = ok s
  serve_all (e ∷ events) s = serve e s >>= serve_all events

  -- Stop has closed the queues and waits for the workers. A send on a closed channel panics.
  unfoldable pub finish : List Closing → Server E → Go Error (Server E)
  finish [] s = ok s
  finish (turned t ∷ rest) s = work t s >>= finish rest
  finish (submitted_late item ∷ rest) s = panic

  -- Stop
  unfoldable pub shut_down : List Closing → Server E → Go Error (Server E)
  shut_down rest s =
      finish rest s >>= λ s'. ok (with_running s' (with_proxy s'.running (stop s'.running.proxy)))
