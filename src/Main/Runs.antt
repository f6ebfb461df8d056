-- ===== src/Main/Runs.antt =====
-- The proxy of cmd/proxy/main.go from its start on, through packets, ticks of the cleanup and reloads.
use quic_relay.Prelude.{
  ℕ, ◌==◌, ◌≡◌, inl, inr, refl, subst, arith, Bool, Option, none, some, List, [], ◌∷◌, All,
  Bool-cases,
}
use quic_relay.Go.{
  Go, ok, err, panic, stuck, ◌>>=◌, Bytes, Returns, Returns-bind, Returns-imp, Ensures,
}
use quic_relay.Map.{Map, lookup}
use quic_relay.Quic.Initial.{Crypto}
use quic_relay.Quic.Initial.Safety.{CryptoLaws}
use quic_relay.Chains.{put, reload_chain}
use quic_relay.Handlers.{Handler, on_connect, run}
use quic_relay.Registry as Reg
use quic_relay.Registry.{Factory, HandlerConfig, build_chain}
use quic_relay.Proxy.State.{Proxy, new_proxy, set_session_timeout, set_allow_connection_migration}
use quic_relay.Proxy.Packet.{Conn, with_tables, handle_packet}
use quic_relay.Proxy.Packet.Store.{IsSound, IsSound-same, new_proxy-IsSound, session_limit}
use quic_relay.Proxy.Packet.Sound.{CountsSlots, IsFramed, handle_packet-IsSound}
use quic_relay.Proxy.Cleanup.{stop}
use quic_relay.Proxy.Cleanup.Ends.{cleanup_sessions-Cleans, stop-Ends}
use quic_relay.Main.{
  Config, configure, Running, start, reload_built, reload_loaded, hang_up, Event, arrived, ticked,
  hung_up, run_event, run_all,
}

configure-IsSound :
    (cap : ℕ) (cfg : Config) (p : Proxy) → IsSound cap 0 p → IsSound cap 0 (configure cfg p)
unfolding configure set_allow_connection_migration set_session_timeout
configure-IsSound cap cfg p s = record {
  tables = s.tables;
  below = s.below;
  within = s.within;
  assemblers = s.assemblers;
  valid = s.valid;
  pending = s.pending;
}

reload-IsSound :
    (cap chain : ℕ) (p : Proxy)
    → IsSound cap 0 p
    → IsSound cap 0 (with_tables (λ t. record t { chains = reload_chain chain t.chains }) p)
reload-IsSound cap chain p s =
    IsSound-same 0 0 (λ t. record t { chains = reload_chain chain t.chains }) p (refl, refl, refl)
      s.tables.counted (omega arith) s

-- Every list of handlers counts the slots that it reserves.
abbrev pub Counts : {E : Type 0} → List (Handler Conn E) → Type 0
Counts handlers = CountsSlots (λ chain. handlers)

put-CountsSlots :
    {E : Type 0} (chain : ℕ) (handlers : List (Handler Conn E)) (chains : ℕ → List (Handler Conn E))
    → Counts handlers
    → CountsSlots chains
    → CountsSlots (put chain handlers chains)
put-CountsSlots chain handlers chains new old c conn free = elim (Bool-cases (chain == c)) [
  | inl hit ↦ rw hit (new c conn free)
  | inr miss ↦ rw miss (old c conn free)
]

pub record IsRunning {E : Type 0} (w : Running E) : Type 0 where
  pub sound : IsSound session_limit 0 w.proxy
  pub counts : CountsSlots w.chains

-- A configuration that BuildChain makes a chain of, or refuses, but does not panic on, and whose chain
-- counts the slots that it reserves.
abbrev pub IsSafeConfig : {E F : Type 0} → Map (Factory F (Handler Conn E)) → Config → Type 0
IsSafeConfig registry cfg = Ensures Counts (build_chain registry cfg.handlers)

abbrev pub IsSafeReload : {E F : Type 0} → Map (Factory F (Handler Conn E)) → Option Config → Type 0
IsSafeReload registry none = Unit
IsSafeReload registry (some cfg) = IsSafeConfig registry cfg

-- A packet that arrives is framed, and a configuration that is loaded is safe.
abbrev pub Arrives : {E F : Type 0} → Map (Factory F (Handler Conn E)) → Event → Type 0
Arrives registry (arrived now idle addr packet) = IsFramed packet
Arrives registry (ticked now idle) = Unit
Arrives registry (hung_up loaded chain) = IsSafeReload registry loaded

module _ {E F : Type 0} (c : Crypto) (laws : CryptoLaws c)
    (registry : Map (Factory F (Handler Conn E))) (is_file : Bool) where
  reload_built-IsRunning :
      (cfg : Config) (chain : ℕ) (built : Go (Reg.Error F) (List (Handler Conn E))) (w : Running E)
      → Ensures Counts built
      → IsRunning w
      → Returns IsRunning (reload_built cfg chain built w)
  unfolding reload_built
  reload_built-IsRunning cfg chain (ok handlers) w d r = record {
    sound =
        configure-IsSound session_limit cfg _ (reload-IsSound session_limit chain w.proxy r.sound);
    counts = put-CountsSlots chain handlers w.chains d r.counts;
  }
  reload_built-IsRunning cfg chain (err e') w d r = r
  reload_built-IsRunning cfg chain panic w d r = absurd d
  reload_built-IsRunning cfg chain stuck w d r = absurd d

  hang_up-IsRunning :
      (loaded : Option Config) (chain : ℕ) (w : Running E)
      → IsSafeReload registry loaded
      → IsRunning w
      → Returns IsRunning (hang_up registry is_file loaded chain w)
  unfolding hang_up reload_loaded
  hang_up-IsRunning none chain w safe r = elim (Bool-cases is_file) [
    | inl file ↦ rw (hang_up, file) r
    | inr inline ↦ rw (hang_up, inline) r
  ]
  hang_up-IsRunning (some cfg) chain w safe r = elim (Bool-cases is_file) [
    | inl file ↦
        rw (hang_up, file)
          (reload_built-IsRunning cfg chain (build_chain registry cfg.handlers) w safe r)
    | inr inline ↦ rw (hang_up, inline) r
  ]

  pub run_event-IsRunning :
      (e : Event) (w : Running E)
      → Arrives registry e
      → IsRunning w
      → Returns IsRunning (run_event c registry is_file e w)
  unfolding run_event
  run_event-IsRunning (arrived now idle addr packet) w framed r =
      Returns-bind (IsSound session_limit 0) IsRunning
        (handle_packet c idle w.chains now addr packet w.proxy) _
        (handle_packet-IsSound session_limit idle w.chains r.counts (inl (omega arith)) c laws now
          addr packet w.proxy framed r.sound)
        λ p s. record { sound = s; counts = r.counts }
  run_event-IsRunning (ticked now idle) w framed r = record {
    sound = (cleanup_sessions-Cleans session_limit w.proxy r.sound now idle).sound;
    counts = r.counts;
  }
  run_event-IsRunning (hung_up loaded chain) w safe r = hang_up-IsRunning loaded chain w safe r

  run_all-IsRunning :
      (events : List Event) (w : Running E)
      → All (Arrives registry) events
      → IsRunning w
      → Returns IsRunning (run_all c registry is_file events w)
  unfolding run_all
  run_all-IsRunning [] w framed r = r
  run_all-IsRunning (e ∷ events) w framed r =
      Returns-bind IsRunning IsRunning (run_event c registry is_file e w) _
        (run_event-IsRunning e w framed.0 r) λ w' r'. run_all-IsRunning events w' framed.1 r'

  built-IsRunning :
      (cfg : Config) (chain : ℕ) (built : Go (Reg.Error F) (List (Handler Conn E)))
      → Ensures Counts built
      → Ensures IsRunning (
          built >>= λ handlers. ok (record {
            proxy = configure cfg (new_proxy chain);
            chains = put chain handlers (λ c. []);
          }))
  unfolding on_connect run
  built-IsRunning cfg chain (ok handlers) d = record {
    sound =
        configure-IsSound session_limit cfg (new_proxy chain)
          (new_proxy-IsSound session_limit chain);
    counts = put-CountsSlots chain handlers (λ c. []) d (λ c conn free. ground (arith, free));
  }
  built-IsRunning cfg chain (err e') d = tt
  built-IsRunning cfg chain panic d = d
  built-IsRunning cfg chain stuck d = d

  pub started-IsRunning :
      (cfg : Config) (chain : ℕ) (w : Running E)
      → IsSafeConfig registry cfg
      → start registry cfg chain ≡ ok w
      → IsRunning w
  unfolding start
  started-IsRunning cfg chain w safe e =
      subst (Ensures IsRunning) e
        (built-IsRunning cfg chain (build_chain registry cfg.handlers) safe)

  -- The proxy from a start that succeeds on, through any packets that are framed, ticks of the cleanup
  -- and SIGHUPs, one after the other in any order, where the cryptography keeps its laws and every
  -- configuration that is loaded, at the start and by these SIGHUPs, is safe: BuildChain does not
  -- panic on it, though it may refuse it, and the chain that it gives counts the session slots that it
  -- leaves reserved. None of these panics, and the proxy is sound afterwards: the session counter is
  -- the number of sessions and below nine tenths of the limit, and the tables and caps hold. Ending
  -- its sessions as Stop does then leaves no session and the counter at 0.
  pub run_all-IsSound :
      (cfg : Config) (chain : ℕ) (w : Running E) (events : List Event)
      → IsSafeConfig registry cfg
      → start registry cfg chain ≡ ok w
      → All (Arrives registry) events
      → Returns
          (λ w'.
            IsSound session_limit 0 w'.proxy
            × ((j : Bytes) → lookup j (stop w'.proxy).tables.sessions ≡ none)
            × ((stop w'.proxy).tables.session_count ≡ 0))
          (run_all c registry is_file events w)
  run_all-IsSound cfg chain w events safe e framed =
      Returns-imp IsRunning _ (run_all c registry is_file events w)
        (λ w' r. let ends = stop-Ends session_limit w'.proxy r.sound in (r.sound, ends.0, ends.2))
        (run_all-IsRunning events w framed (started-IsRunning cfg chain w safe e))
