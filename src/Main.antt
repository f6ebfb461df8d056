-- ===== src/Main.antt =====
-- cmd/proxy/main.go, with Config of internal/proxy/proxy.go: the proxy is built from its
-- configuration, and SIGHUP loads that again. The file system, encoding/json, the environment and the
-- registered factories are parameters; a chain that is built comes with the number that stands for its
-- pointer.
pub mod Runs
use Prim.Native.Char.{code}
use Prim.Native.String.{String}
use quic_relay.Prelude.{
  ℕ, ◌==◌, Bool, true, false, not, Option, none, some, List, [], ◌∷◌, length, if◌then◌else◌,
}
use quic_relay.Go.{Go, ok, err, panic, stuck, ◌>>=◌, Bytes}
use quic_relay.Net.{Addr}
use quic_relay.Map.{Map}
use quic_relay.Quic.{Error}
use quic_relay.Quic.Initial.{Crypto}
use quic_relay.Chains.{put, reload_chain}
use quic_relay.Handlers.{Handler}
use quic_relay.Registry as Reg
use quic_relay.Registry.{HandlerConfig, Factory, build_chain}
use quic_relay.Proxy.State.{Proxy, new_proxy, set_session_timeout, set_allow_connection_migration}
use quic_relay.Proxy.Packet.{Conn, with_tables, handle_packet}
use quic_relay.Proxy.Cleanup.{cleanup_sessions}

abbrev codes : String → Bytes
codes String.[] = []
codes (String.◌∷◌ c s) = code c ∷ codes s

pub record Config : Type 0 where
  pub listen : Bytes
  pub handlers : List HandlerConfig
  pub session_timeout : ℕ
  pub allow_connection_migration : Bool

-- LoadConfig of internal/proxy/proxy.go, from os.ReadFile and json.Unmarshal.
unfoldable pub load_file : (Bytes → Option Config) → Option Bytes → Option Config
load_file parse_config none = none
load_file parse_config (some text) = parse_config text

abbrev pub has_brace : Bytes → Bool
has_brace [] = false
has_brace (b ∷ bs) = b == b'{'

-- loadConfig: the configuration, and whether it came from a file.
unfoldable pub load_config :
    (Bytes → Option Config) → (Bytes → Option Bytes) → Bytes → Option Config × Bool
unfolding load_file
load_config parse_config read_file config_flag =
    if has_brace config_flag
    then (parse_config config_flag, false)
    else (load_file parse_config (read_file config_flag), true)

unfoldable pub get_env : (Bytes → Bytes) → Bytes → Bytes → Bytes
get_env environment key fallback = let v = environment key in if length v == 0 then fallback else v

unfoldable pub listen_address : (Bytes → Bytes) → Config → Bytes
unfolding get_env
listen_address environment cfg =
    if length cfg.listen == 0
    then get_env environment (codes "QUIC_RELAY_LISTEN") (codes ":5520")
    else cfg.listen

-- The two settings that main makes, and makes again at a reload.
unfoldable pub configure : Config → Proxy → Proxy
configure cfg p =
    set_allow_connection_migration cfg.allow_connection_migration
      (set_session_timeout cfg.session_timeout p)

-- The running proxy, with the handlers of each chain.
pub record Running (E : Type 0) : Type 0 where
  pub proxy : Proxy
  pub chains : ℕ → List (Handler Conn E)

module _ {E F : Type 0} where
  -- Up to proxy.Run.
  unfoldable pub start :
      Map (Factory F (Handler Conn E)) → Config → ℕ → Go (Reg.Error F) (Running E)
  start registry cfg chain = build_chain registry cfg.handlers >>= λ handlers.
      ok (record { proxy = configure cfg (new_proxy chain); chains = put chain handlers (λ c. []) })

  -- `p.ReloadChain(newChain)` and the settings; on an error the proxy goes on as it is.
  unfoldable pub reload_built :
      Config → ℕ → Go (Reg.Error F) (List (Handler Conn E)) → Running E → Go Error (Running E)
  reload_built cfg chain (ok handlers) w = ok (record {
    proxy =
        configure cfg
          (with_tables (λ t. record t { chains = reload_chain chain t.chains }) w.proxy);
    chains = put chain handlers w.chains;
  })
  reload_built cfg chain (err e) w = ok w
  reload_built cfg chain panic w = panic
  reload_built cfg chain stuck w = stuck

  unfoldable pub reload_loaded :
      Map (Factory F (Handler Conn E)) → Option Config → ℕ → Running E → Go Error (Running E)
  reload_loaded registry none chain w = ok w
  reload_loaded registry (some cfg) chain w =
      reload_built cfg chain (build_chain registry cfg.handlers) w

  -- `case syscall.SIGHUP`
  unfoldable pub hang_up :
      Map (Factory F (Handler Conn E)) → Bool → Option Config → ℕ → Running E → Go Error (Running E)
  hang_up registry is_file loaded chain w =
      if not is_file then ok w else reload_loaded registry loaded chain w

-- What can happen to the proxy while it runs: a packet, a tick of the cleanup, and SIGHUP, with what
-- loading the configuration gives then and the pointer that a new chain would get.
pub data Event : Type 0 where
  arrived : ℕ → (Bytes → ℕ) → Addr → Bytes → Event
  ticked : ℕ → (Bytes → ℕ) → Event
  hung_up : Option Config → ℕ → Event

-- The part of `Running` that a packet changes.
abbrev pub with_proxy : {E : Type 0} → Running E → Proxy → Running E
with_proxy w p = record w { proxy = p }

module _ {E F : Type 0} (c : Crypto) (registry : Map (Factory F (Handler Conn E)))
    (is_file : Bool) where
  unfoldable pub run_event : Event → Running E → Go Error (Running E)
  run_event (arrived now idle addr packet) w =
      handle_packet c idle w.chains now addr packet w.proxy >>= λ p. ok (with_proxy w p)
  run_event (ticked now idle) w = ok (with_proxy w (cleanup_sessions now idle w.proxy))
  run_event (hung_up loaded chain) w = hang_up registry is_file loaded chain w

  unfoldable pub run_all : List Event → Running E → Go Error (Running E)
  run_all [] w = ok w
  run_all (e ∷ events) w = run_event e w >>= λ w'. run_all events w'
