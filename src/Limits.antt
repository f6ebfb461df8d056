-- ===== src/Limits.antt =====
-- internal/handler/ratelimit_global.go: a handler that admits a connection only below a limit. The
-- closure of the proxy that reserves a session slot is tryReserveSessionSlot of
-- internal/proxy/proxy.go.
pub mod Admission
use quic_relay.Prelude.{ℕ, Bool, true, false, leb, Option, none, some, if◌then◌else◌}
use quic_relay.Go.{Go, ok, err, Bytes}
use quic_relay.Handlers.{Action, continue, drop, Result, Handler}
use quic_relay.Proxy.Packet.{Conn, try_reserve_session_slot}

-- "ratelimit-global requires 'max_parallel_connections' > 0", and "max connections exceeded (%d/%d)"
pub data Error : Type 0 where
  requires_limit : Error
  max_connections_exceeded : ℕ → ℕ → Error

-- NewRateLimitGlobalHandler, from the number in the configuration; one that is not above 0 is 0
-- here.
unfoldable pub new_rate_limit_global : ℕ → Go Error ℕ
new_rate_limit_global limit = if leb limit 0 then err requires_limit else ok limit

abbrev exceeded : ℕ → ℕ → Result Error
exceeded count limit = record { action = drop; error = some (max_connections_exceeded count limit) }

abbrev passed : Result Error
passed = record { action = continue; error = none }

-- OnConnect
unfoldable pub rate_limit : ℕ → Conn → Conn × Result Error
rate_limit limit conn =
    if conn.reservable
    then (let (count, ok') = try_reserve_session_slot limit conn.session_count in
        let conn' = record conn { session_count = count } in
        if ok'
        then (record conn' { reserved = true }, passed)
        else (conn', exceeded conn.count_seen limit))
    else (conn, if leb limit conn.count_seen then exceeded conn.count_seen limit else passed)

abbrev pub rate_limit_global : ℕ → Handler Conn Error
rate_limit_global limit = record {
  connect = rate_limit limit;
  packet = λ b dir conn. (conn, passed);
  disconnect = λ conn. conn;
  shutdown = none;
}
