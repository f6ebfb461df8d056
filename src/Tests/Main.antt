-- ===== src/Tests/Main.antt =====
-- cmd/proxy/main.go with ratelimit-global, the terminator and a handler that makes a session, through a
-- packet, reloads and a tick. The terminator's factory panics on a null target.
use quic_relay.Prelude.{◌≡◌, refl, true, false, Option, none, some, List, [], ◌∷◌, length}
use quic_relay.Go.{Go, ok, err, panic, stuck, ◌>>=◌, Bytes, Returns, bytes_eq}
use quic_relay.Map.{Map, lookup, store}
use quic_relay.Handlers.{Handler, continue}
use quic_relay.Registry.{
  Factory, HandlerConfig, register, build_chain, build_handlers, create_handler, create,
}
use quic_relay.Proxy.State.{new_proxy}
use quic_relay.Proxy.Packet.{Conn}
use quic_relay.Proxy.Packet.Store.{IsSound, session_limit}
use quic_relay.Proxy.Cleanup.{stop}
use quic_relay.Chains.{put}
use quic_relay.Limits.{Error, new_rate_limit_global, rate_limit_global}
use quic_relay.Limits.Admission.{AllIgnore, limited-CountsSlots}
use quic_relay.Terminator.Config.{
  TerminatorHandlerConfig, new_terminator_handler, convert, convert_certs, convert_targets,
}
use quic_relay.Main.{Config, Running, configure, start, Event, arrived, ticked, hung_up, run_all}
use quic_relay.Main.Runs.{IsSafeConfig, run_all-IsSound}
use quic_relay.Tests.Quic.{plain_crypto, plain_crypto-CryptoLaws, client_initial}
use quic_relay.Tests.Proxy.{home, accept, client_initial-IsFramed}

-- The registry has one type of errors.
abbrev forget : {E A : Type 0} → Go E A → Go (Unit {0}) A
forget (ok a) = ok a
forget (err e) = err tt
forget panic = panic
forget stuck = stuck

-- The limit is the length of the configuration.
abbrev limit_factory : Factory (Unit {0}) (Handler Conn Error)
limit_factory config =
    forget (new_rate_limit_global (length config) >>= λ n. ok (rate_limit_global n))

abbrev terminator : Handler Conn Error
terminator = record {
  connect = λ conn. (conn, record { action = continue; error = none });
  packet = λ b dir conn. (conn, record { action = continue; error = none });
  disconnect = λ conn. conn;
  shutdown = none;
}

-- The empty configuration has a null target, any other no certificates.
abbrev parse : Bytes → Option TerminatorHandlerConfig
parse [] = some (record {
  listen = [];
  certs = some (record { fallback = none; targets = (1 ∷ [], none) ∷ [] });
  debug = false;
  debug_packet_limit = 0;
})
parse (b ∷ bs) = some (record { listen = []; certs = none; debug = false; debug_packet_limit = 0 })

abbrev terminator_factory : Factory (Unit {0}) (Handler Conn Error)
terminator_factory config = forget (new_terminator_handler parse (λ cfg. some terminator) config)

abbrev accept_factory : Factory (Unit {0}) (Handler Conn Error)
accept_factory config = ok accept

abbrev pub registry : Map (Factory (Unit {0}) (Handler Conn Error))
registry =
    register (1 ∷ []) limit_factory
      (register (2 ∷ []) terminator_factory (register (3 ∷ []) accept_factory []))

abbrev entry : Bytes → Bytes → HandlerConfig
entry type config = record { type = type; config = config }

terminator-null : build_chain registry (entry (2 ∷ []) [] ∷ []) ≡ panic
unfolding build_chain build_handlers create_handler create register store lookup bytes_eq
    new_terminator_handler convert convert_certs convert_targets
terminator-null = refl

abbrev pub config : Config
config = record {
  listen = [];
  handlers = entry (1 ∷ []) (0 ∷ 0 ∷ []) ∷ entry (2 ∷ []) (0 ∷ []) ∷ entry (3 ∷ []) [] ∷ [];
  session_timeout = 60;
  allow_connection_migration = true;
}

-- A limit of 0, which is refused.
abbrev pub refused : Config
refused = record config { handlers = entry (1 ∷ []) [] ∷ [] }

abbrev chain : List (Handler Conn Error)
chain = rate_limit_global 2 ∷ terminator ∷ accept ∷ []

others-AllIgnore : AllIgnore (terminator ∷ accept ∷ [])
others-AllIgnore = (λ conn. (refl, refl), (λ conn. (refl, refl), tt))

pub config-IsSafeConfig : IsSafeConfig registry config
unfolding build_chain build_handlers create_handler create register store lookup bytes_eq
    new_terminator_handler convert convert_certs new_rate_limit_global
config-IsSafeConfig = limited-CountsSlots 2 (terminator ∷ accept ∷ []) others-AllIgnore

pub refused-IsSafeConfig : IsSafeConfig registry refused
unfolding build_chain build_handlers create_handler create register store lookup bytes_eq
    new_rate_limit_global
refused-IsSafeConfig = tt

abbrev pub running : Running Error
running = record { proxy = configure config (new_proxy 1); chains = put 1 chain (λ c. []) }

pub config-start : start registry config 1 ≡ ok running
unfolding start build_chain build_handlers create_handler create register store lookup bytes_eq
    new_terminator_handler convert convert_certs new_rate_limit_global
config-start = refl

abbrev events : List Event
events =
    arrived 7 (λ key. 0) home client_initial
    ∷ hung_up (some config) 2
    ∷ hung_up (some refused) 3
    ∷ ticked 9 (λ key. 0)
    ∷ hung_up none 4
    ∷ []

run_all-IsSound_example :
    Returns
      (λ w'.
        IsSound session_limit 0 w'.proxy
        × ((j : Bytes) → lookup j (stop w'.proxy).tables.sessions ≡ none)
        × ((stop w'.proxy).tables.session_count ≡ 0))
      (run_all plain_crypto registry true events running)
run_all-IsSound_example =
    run_all-IsSound plain_crypto plain_crypto-CryptoLaws registry true config 1 running events
      config-IsSafeConfig config-start
      (client_initial-IsFramed, (config-IsSafeConfig, (refused-IsSafeConfig, (tt, (tt, tt)))))
