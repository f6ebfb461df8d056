-- ===== src/Tests/Server.antt =====
-- The server of internal/proxy/proxy.go and pool.go with a packet that waits when it is stopped.
use quic_relay.Prelude.{ℕ, some, List, [], ◌∷◌}
use quic_relay.Server.{received, timed_out, Turn, Closing, turned, Event, was_read, signalled}
use quic_relay.Tests.Quic.{client_initial}
use quic_relay.Tests.Proxy.{home}
use quic_relay.Tests.Main.{refused}

abbrev events : List Event
events =
    was_read (received home client_initial) ∷ was_read timed_out ∷ signalled (some refused) 3 ∷ []

abbrev turn : ℕ → Turn
turn id = record { worker = id; now = 7; idle = λ key. 0 }

-- Each of the two workers runs once.
abbrev turns : List Closing
turns = turned (turn 0) ∷ turned (turn 1) ∷ []
