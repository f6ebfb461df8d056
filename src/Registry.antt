-- ===== src/Registry.antt =====
-- internal/handler/registry.go. The configuration of a handler is kept as its bytes, and what a factory
-- makes of it is a parameter.
pub mod Builds
use quic_relay.Prelude.{Option, none, some, List, [], ◌∷◌, ◌++◌}
use quic_relay.Go.{Go, ok, err, panic, stuck, ◌>>=◌, Bytes}
use quic_relay.Map.{Map, lookup, store}

-- "unknown handler type" and "failed to create handler", with what the factory gave.
pub data Error (E : Type 0) : Type 0 where
  unknown_handler_type : Bytes → Error E
  failed_to_create : Bytes → E → Error E

pub record HandlerConfig : Type 0 where
  pub type : Bytes
  pub config : Bytes

abbrev pub Factory : Type 0 → Type 0 → Type 0
Factory E H = Bytes → Go E H

-- Register
unfoldable pub register :
    {E H : Type 0} → Bytes → Factory E H → Map (Factory E H) → Map (Factory E H)
register name factory registry = store name factory registry

unfoldable pub create : {E H : Type 0} → Bytes → Go E H → Go (Error E) H
create name (ok h) = ok h
create name (err e) = err (failed_to_create name e)
create name panic = panic
create name stuck = stuck

unfoldable pub create_handler :
    {E H : Type 0} → HandlerConfig → Option (Factory E H) → Go (Error E) H
create_handler cfg none = err (unknown_handler_type cfg.type)
create_handler cfg (some factory) = create cfg.type (factory cfg.config)

-- The loop of BuildChain, with the handlers that were appended so far.
unfoldable pub build_handlers :
    {E H : Type 0} → Map (Factory E H) → List HandlerConfig → List H → Go (Error E) (List H)
build_handlers registry [] handlers = ok handlers
build_handlers registry (cfg ∷ configs) handlers =
    create_handler cfg (lookup cfg.type registry) >>= λ h.
    build_handlers registry configs (handlers ++ (h ∷ []))

-- BuildChain; a chain is the list of its handlers.
unfoldable pub build_chain :
    {E H : Type 0} → Map (Factory E H) → List HandlerConfig → Go (Error E) (List H)
build_chain registry configs = build_handlers registry configs []
