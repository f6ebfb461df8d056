-- ===== src/Tests/Proxy.antt =====
-- The proxy of internal/proxy/proxy.go at concrete values: a limited chain, a cleanup and the end.
use quic_relay.Prelude.{
  ℕ, ◌*◌, ◌^◌, get_or, ◌≡◌, ◌++◌, refl, arith, true, false, none, some, inl, List, [], ◌∷◌,
}
use quic_relay.Go.{Bytes, Returns, bytes_eq, index}
use quic_relay.Net.{Addr}
use quic_relay.Map.{Map, lookup, is_some, IsMap}
use quic_relay.Quic.Varint.{read_varint}
use quic_relay.Handlers.{Handler, handled, on_connect, run}
use quic_relay.Sessions.{Context}
use quic_relay.Tests.Quic.{
  plain_crypto, plain_crypto-CryptoLaws, client_initial, client_initial-IsByte,
}
use quic_relay.Proxy.State.{Proxy, new_proxy}
use quic_relay.Proxy.Oldest.{collect, consider, push}
use quic_relay.Proxy.Oldest.Choice.{Chosen, collect-Chosen_all}
use quic_relay.Proxy.Packet.{Conn, handle_packet, store_session}
use quic_relay.Proxy.Packet.Store.{IsSound, new_proxy-IsSound, store_session-IsSound, session_limit}
use quic_relay.Proxy.Packet.Sound.{CountsSlots, IsFramed, handle_packet-IsSound}
use quic_relay.Proxy.Cleanup.{cleanup_sessions, stop}
use quic_relay.Proxy.Cleanup.Ends.{Cleans, cleanup_sessions-Cleans, ended, stop-Ends}
use quic_relay.Limits.{Error, rate_limit_global}
use quic_relay.Limits.Admission.{AllIgnore, rate_limit-bound}

abbrev pub home : Addr
home = record { ip = 10 ∷ 0 ∷ 0 ∷ 1 ∷ []; port = 5000; text = 1 ∷ [] }

-- A handler that makes a session for its client.
abbrev pub accept : Handler Conn Error
accept = record {
  connect = λ conn.
      (record conn { session = some conn.client_addr }, record { action = handled; error = none });
  packet = λ b dir conn. (conn, record { action = handled; error = none });
  disconnect = λ conn. conn;
  shutdown = none;
}

accept-AllIgnore : AllIgnore (accept ∷ [])
accept-AllIgnore = (λ conn. (refl, refl), tt)

pub client_initial-IsFramed : IsFramed client_initial
unfolding read_varint index
client_initial-IsFramed = (client_initial-IsByte, omega arith, λ e. (omega arith, omega arith))

abbrev accepting : ℕ → List (Handler Conn Error)
accepting chain = accept ∷ []

accepting-CountsSlots : CountsSlots accepting
unfolding on_connect run
accepting-CountsSlots chain conn free = ground (arith, free)

handle_packet-IsSound_example :
    Returns
      (IsSound session_limit 0)
      (handle_packet plain_crypto (λ key. 0) accepting 7 home client_initial (new_proxy 1))
handle_packet-IsSound_example =
    handle_packet-IsSound session_limit (λ key. 0) accepting accepting-CountsSlots
      (inl (omega arith)) plain_crypto plain_crypto-CryptoLaws 7 home client_initial (new_proxy 1)
      client_initial-IsFramed (new_proxy-IsSound session_limit 1)

rate_limit-bound_example : Returns (IsSound 2 0) (
    handle_packet plain_crypto
      (λ key. 0)
      (λ chain. rate_limit_global 2 ∷ accept ∷ [])
      7
      home
      client_initial
      (new_proxy 1))
rate_limit-bound_example =
    rate_limit-bound 2 (accept ∷ []) accept-AllIgnore plain_crypto plain_crypto-CryptoLaws
      (λ key. 0) 7 home client_initial (new_proxy 1) client_initial-IsFramed (new_proxy-IsSound 2 1)

abbrev dcid : Bytes
dcid = 0xc1 ∷ 0xc2 ∷ []

abbrev session : Context
session = record { chain = 1; dcid = dcid; client_addr = some home }

-- A proxy with a session that has been idle for three hours.
abbrev busy : Proxy
busy = store_session (λ key. 0) false dcid session (new_proxy 1)

busy-IsSound : IsSound session_limit 0 busy
unfolding new_proxy lookup
busy-IsSound =
    store_session-IsSound (λ key. 0) false dcid session (new_proxy 1) refl refl refl
      (new_proxy-IsSound session_limit 1) (omega arith)

abbrev idle : Bytes → ℕ
idle key = 3 * 3600 * 10 ^ 9

cleanup_sessions-Cleans_example : Cleans session_limit 7 idle busy (cleanup_sessions 7 idle busy)
cleanup_sessions-Cleans_example = cleanup_sessions-Cleans session_limit busy busy-IsSound 7 idle

stop-Ends_example :
    ((j : Bytes) → lookup j (stop busy).tables.sessions ≡ none)
    × ((stop busy).disconnected ≡ busy.disconnected ++ ended (λ key. true) busy.tables.sessions)
    × ((stop busy).tables.session_count ≡ 0)
stop-Ends_example = stop-Ends session_limit busy busy-IsSound

abbrev three : Map Context
three = (1 ∷ [], session) ∷ (2 ∷ [], session) ∷ (3 ∷ [], session) ∷ []

three-IsMap : IsMap three
unfolding lookup bytes_eq
three-IsMap = (refl, (refl, (refl, tt)))

abbrev ages : Bytes → ℕ
ages key = get_or key 0 0

collect-Chosen_all_example :
    Chosen 2 ages 3 (λ j. is_some (lookup j three)) (collect 2 ages three [])
collect-Chosen_all_example = collect-Chosen_all 2 ages three (omega arith) three-IsMap

collect-run :
    collect 2 ages three []
    ≡ record { key = 2 ∷ []; idle = 2 } ∷ record { key = 3 ∷ []; idle = 3 } ∷ []
unfolding collect consider push
collect-run = refl
