-- ===== src/Registry/Builds.antt =====
-- What BuildChain of internal/handler/registry.go makes of a configuration: a handler for each entry, in
-- their order, or the error of the first entry that has none, or that entry's panic.
use quic_relay.Prelude.{
  ◌≡◌, ◌∙◌, refl, sym, Option, none, some, List, [], ◌∷◌, ◌++◌, append-nil, append_assoc,
}
use quic_relay.Go.{Go, ok, err, panic, stuck, ◌>>=◌}
use quic_relay.Map.{Map, lookup}
use quic_relay.Registry.{
  Error, unknown_handler_type, failed_to_create, HandlerConfig, Factory, create, create_handler,
  build_handlers, build_chain,
}

-- One handler for each entry, made by the factory that is registered under the entry's type.
pub data Built {E H : Type 0} (registry : Map (Factory E H))
    : List HandlerConfig → List H → Type 0 where
  built_none : Built registry [] []
  built_first :
      (cfg : HandlerConfig) (configs : List HandlerConfig) (factory : Factory E H) (h : H)
      (hs : List H)
      → lookup cfg.type registry ≡ some factory
      → factory cfg.config ≡ ok h
      → Built registry configs hs
      → Built registry (cfg ∷ configs) (h ∷ hs)

-- Why an entry has no handler.
pub data Refused {E H : Type 0} (registry : Map (Factory E H)) (cfg : HandlerConfig)
    : Error E → Type 0 where
  unknown : lookup cfg.type registry ≡ none → Refused registry cfg (unknown_handler_type cfg.type)
  failing :
      (factory : Factory E H) (e : E)
      → lookup cfg.type registry ≡ some factory
      → factory cfg.config ≡ err e
      → Refused registry cfg (failed_to_create cfg.type e)

-- The first entry that is refused comes after entries that are built.
pub data FirstRefused {E H : Type 0} (registry : Map (Factory E H))
    : List HandlerConfig → Error E → Type 0 where
  here :
      (cfg : HandlerConfig) (configs : List HandlerConfig) (e : Error E)
      → Refused registry cfg e
      → FirstRefused registry (cfg ∷ configs) e
  later :
      (cfg : HandlerConfig) (configs : List HandlerConfig) (factory : Factory E H) (h : H)
      (e : Error E)
      → lookup cfg.type registry ≡ some factory
      → factory cfg.config ≡ ok h
      → FirstRefused registry configs e
      → FirstRefused registry (cfg ∷ configs) e

-- The first entry whose factory ends as given, without a handler or an error, comes after entries that
-- are built.
pub data FirstStopped {E H : Type 0} (registry : Map (Factory E H)) (ending : Go E H)
    : List HandlerConfig → Type 0 where
  stopped_here :
      (cfg : HandlerConfig) (configs : List HandlerConfig) (factory : Factory E H)
      → lookup cfg.type registry ≡ some factory
      → factory cfg.config ≡ ending
      → FirstStopped registry ending (cfg ∷ configs)
  stopped_later :
      (cfg : HandlerConfig) (configs : List HandlerConfig) (factory : Factory E H) (h : H)
      → lookup cfg.type registry ≡ some factory
      → factory cfg.config ≡ ok h
      → FirstStopped registry ending configs
      → FirstStopped registry ending (cfg ∷ configs)

-- What a result says of a configuration, where `before` was appended already.
abbrev pub Describes :
    {E H : Type 0}
    → Map (Factory E H)
    → List HandlerConfig
    → List H
    → Go (Error E) (List H)
    → Type 0
Describes {H} registry configs before (ok handlers) =
    (hs : List H) × (handlers ≡ before ++ hs) × Built registry configs hs
Describes registry configs before (err e) = FirstRefused registry configs e
Describes registry configs before panic = FirstStopped registry panic configs
Describes registry configs before stuck = FirstStopped registry stuck configs

build_step :
    {E H : Type 0} (registry : Map (Factory E H)) (cfg : HandlerConfig)
    (configs : List HandlerConfig) (before : List H) (factory : Factory E H) (h : H)
    (m : Go (Error E) (List H))
    → lookup cfg.type registry ≡ some factory
    → factory cfg.config ≡ ok h
    → Describes registry configs (before ++ (h ∷ [])) m
    → Describes registry (cfg ∷ configs) before m
build_step registry cfg configs before factory h (ok handlers) l f (hs, e, b) =
    (h ∷ hs, e ∙ append_assoc before (h ∷ []) hs, built_first cfg configs factory h hs l f b)
build_step registry cfg configs before factory h (err e) l f r = later cfg configs factory h e l f r
build_step registry cfg configs before factory h panic l f r =
    stopped_later cfg configs factory h l f r
build_step registry cfg configs before factory h stuck l f r =
    stopped_later cfg configs factory h l f r

build_created :
    {E H : Type 0} (registry : Map (Factory E H)) (cfg : HandlerConfig)
    (configs : List HandlerConfig) (before : List H) (factory : Factory E H) (m : Go E H)
    → lookup cfg.type registry ≡ some factory
    → factory cfg.config ≡ m
    → ((h : H)
        → Describes registry configs
            (before ++ (h ∷ []))
            (build_handlers registry configs (before ++ (h ∷ []))))
    → Describes registry
        (cfg ∷ configs)
        before
        (create cfg.type m >>= λ h. build_handlers registry configs (before ++ (h ∷ [])))
unfolding create
build_created registry cfg configs before factory (ok h) l f k =
    build_step registry cfg configs before factory h
      (build_handlers registry configs (before ++ (h ∷ []))) l f (k h)
build_created registry cfg configs before factory (err e) l f k =
    here cfg configs (failed_to_create cfg.type e) (failing factory e l f)
build_created registry cfg configs before factory panic l f k = stopped_here cfg configs factory l f
build_created registry cfg configs before factory stuck l f k = stopped_here cfg configs factory l f

build_looked_up :
    {E H : Type 0} (registry : Map (Factory E H)) (cfg : HandlerConfig)
    (configs : List HandlerConfig) (before : List H) (found : Option (Factory E H))
    → lookup cfg.type registry ≡ found
    → ((h : H)
        → Describes registry configs
            (before ++ (h ∷ []))
            (build_handlers registry configs (before ++ (h ∷ []))))
    → Describes registry
        (cfg ∷ configs)
        before
        (create_handler cfg found >>= λ h. build_handlers registry configs (before ++ (h ∷ [])))
unfolding create_handler
build_looked_up registry cfg configs before none l k =
    here cfg configs (unknown_handler_type cfg.type) (unknown l)
build_looked_up registry cfg configs before (some factory) l k =
    build_created registry cfg configs before factory (factory cfg.config) l refl k

build_handlers-Describes :
    {E H : Type 0} (registry : Map (Factory E H)) (configs : List HandlerConfig) (before : List H)
    → Describes registry configs before (build_handlers registry configs before)
unfolding build_handlers
build_handlers-Describes registry [] before = ([], sym (append-nil before), built_none)
build_handlers-Describes registry (cfg ∷ configs) before =
    build_looked_up registry cfg configs before (lookup cfg.type registry) refl
      (λ h. build_handlers-Describes registry configs (before ++ (h ∷ [])))

-- On every registry and configuration BuildChain gives a chain with one handler for each entry of the
-- configuration, in their order and each made by the factory registered under the entry's type, or
-- the error of the first entry that has none, all entries before it being built, and that error says
-- whether the entry's type is not registered or its factory failed, and how. It panics only where the
-- factory of an entry panics, all entries before that being built.
pub build_chain-Describes :
    {E H : Type 0} (registry : Map (Factory E H)) (configs : List HandlerConfig)
    → Describes registry configs [] (build_chain registry configs)
unfolding build_chain
build_chain-Describes registry configs = build_handlers-Describes registry configs []
