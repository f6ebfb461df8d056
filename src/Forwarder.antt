-- ===== src/Forwarder.antt =====
-- internal/handler/forwarder.go with the Session and the callbacks of internal/handler/context.go. What
-- goes to the backend, to the client and to the proxy's callback is kept in lists; the results of a
-- Read and of a Write, and the coarse clock, are parameters. The context has a connection to the client
-- and OnServerPacket. A call, or a round of the loop from what its Read gave, runs by itself.
pub mod Closed
use quic_relay.Prelude.{
  ℕ, ◌+◌, Bool, true, false, ◌==◌, bit_and, not, Option, none, some, List, [], ◌∷◌, ◌++◌,
  if◌then◌else◌,
}
use quic_relay.Go.{Go, ok, err, panic, stuck, ◌>>=◌, Bytes, index}
use quic_relay.Handlers.{Action, handled, drop, Direction, inbound, outbound, Result}

pub data Error : Type 0 where
  write_failed : Error

-- A Session, with the writes to its backend's connection and the calls of that connection's Close,
-- the writes to the client, and the packets that OnServerPacket was called with.
pub record Session : Type 0 where
  pub last_activity : ℕ
  pub closed : Bool
  pub to_backend : List Bytes
  pub closes : ℕ
  pub to_client : List Bytes
  pub learned : List Bytes

-- What the forwarding of the first packet gives: a session, with the result of the Write.
unfoldable pub forward_first : Bool → Bytes → Session → Session × Result Error
forward_first write_ok [] s = (s, record { action = handled; error = none })
forward_first write_ok (b ∷ bs) s =
    let s' = record s { to_backend = (b ∷ bs) ∷ [] } in
    if write_ok
    then (s', record { action = handled; error = none })
    else (record s' { closes = 1 }, record { action = drop; error = some write_failed })

-- ForwarderHandler.OnConnect, once the backend's address is resolved and the connection made.
unfoldable pub forward_connect : ℕ → Bool → Bytes → Session × Result Error
forward_connect now write_ok initial_packet = forward_first write_ok initial_packet (record {
  last_activity = now;
  closed = false;
  to_backend = [];
  closes = 0;
  to_client = [];
  learned = [];
})

-- Touch
unfoldable pub touch : ℕ → Session → Session
touch now s = record s { last_activity = now }

-- Session.Close: CompareAndSwap(false, true)
unfoldable pub close_session : Session → Session × Bool
close_session s = if s.closed then (s, false) else (record s { closed = true }, true)

-- ForwarderHandler.OnPacket with a session; `packet[0]` is read for the debug output.
unfoldable pub forward_inbound : Bool → Bytes → Session → Go Error (Session × Result Error)
forward_inbound write_ok packet s = index packet 0 >>= λ first.
    let s' = record s { to_backend = s.to_backend ++ (packet ∷ []) } in
    ok (
      s',
      if write_ok
          then record { action = handled; error = none }
          else record { action = drop; error = some write_failed },
    )

unfoldable pub forward_packet :
    ℕ → Bool → Bytes → Direction → Session → Go Error (Session × Result Error)
forward_packet now write_ok packet dir s =
    if s.closed then ok (s, record { action = drop; error = none }) else elim dir [
      | inbound ↦ forward_inbound write_ok packet (touch now s)
      | outbound ↦ ok (touch now s, record { action = handled; error = none })
    ]

-- ForwarderHandler.OnDisconnect
unfoldable pub forward_disconnect : Session → Session
forward_disconnect s =
    let (s', first) = close_session s in if first then record s' { closes = s'.closes + 1 } else s'

-- Context.NotifyServerPacket
unfoldable pub notify_server_packet : Bytes → Session → Session
notify_server_packet [] s = s
notify_server_packet (b ∷ bs) s =
    if not (bit_and b 0x80 == 0) then record s { learned = s.learned ++ ((b ∷ bs) ∷ []) } else s

-- A round of backendToClient, from what the Read gave, `none` for an error: the session, and whether the
-- loop goes on.
unfoldable pub backend_to_client : ℕ → Option Bytes → Bool → Session → Session × Bool
backend_to_client now none write_ok s = (s, false)
backend_to_client now (some packet) write_ok s =
    if s.closed
    then (s, false)
    else (let s' = notify_server_packet packet (touch now s) in
        (record s' { to_client = s'.to_client ++ (packet ∷ []) }, write_ok))
