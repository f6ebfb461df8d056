-- ===== src/Terminator/Config.antt =====
-- NewTerminatorHandler of internal/handler/terminator_handler.go: the handler's configuration becomes the
-- library's. encoding/json and the library's New are parameters; a pointer is an Option, and a map
-- the list of its entries.
use quic_relay.Prelude.{ℕ, ◌≡◌, refl, Bool, Option, none, some, List, [], ◌∷◌, ◌++◌}
use quic_relay.Go.{Go, ok, err, panic, ◌>>=◌, Bytes}

pub data Error : Type 0 where
  bad_json new_failed : Error

pub record TerminatorCertConfig : Type 0 where
  pub cert : Bytes
  pub key : Bytes
  pub backend_mtls : Option Bool

pub record TerminatorCertsConfig : Type 0 where
  pub fallback : Option TerminatorCertConfig
  pub targets : List (Bytes × Option TerminatorCertConfig)

pub record TerminatorHandlerConfig : Type 0 where
  pub listen : Bytes
  pub certs : Option TerminatorCertsConfig
  pub debug : Bool
  pub debug_packet_limit : ℕ

-- The library's TargetConfig and Config.
pub record TargetConfig : Type 0 where
  pub cert_file : Bytes
  pub key_file : Bytes
  pub backend_mtls : Option Bool

pub record TerminatorConfig : Type 0 where
  pub listen : Bytes
  pub fallback : Option TargetConfig
  pub targets : List (Bytes × TargetConfig)
  pub debug : Bool
  pub debug_packet_limit : ℕ

unfoldable pub target_of : TerminatorCertConfig → TargetConfig
target_of c = record { cert_file = c.cert; key_file = c.key; backend_mtls = c.backend_mtls }

-- `cfg.Certs.Default`, where it is not nil.
unfoldable pub convert_default : Option TerminatorCertConfig → Option TargetConfig
convert_default none = none
convert_default (some c) = some (target_of c)

-- The loop over the targets, whose pointers are not compared with nil.
unfoldable pub convert_targets :
    List (Bytes × Option TerminatorCertConfig) → Go Error (List (Bytes × TargetConfig))
convert_targets [] = ok []
convert_targets ((name, none) ∷ rest) = panic
convert_targets ((name, some c) ∷ rest) =
    convert_targets rest >>= λ converted. ok ((name, target_of c) ∷ converted)

unfoldable pub convert_certs :
    Option TerminatorCertsConfig → TerminatorConfig → Go Error TerminatorConfig
convert_certs none config = ok config
convert_certs (some certs) config = convert_targets certs.targets >>= λ targets.
    ok (record config { fallback = convert_default certs.fallback; targets = targets })

unfoldable pub convert : TerminatorHandlerConfig → Go Error TerminatorConfig
convert cfg = convert_certs cfg.certs (record {
  listen = cfg.listen;
  fallback = none;
  targets = [];
  debug = cfg.debug;
  debug_packet_limit = cfg.debug_packet_limit;
})

abbrev or_error : {A : Type 0} → Error → Option A → Go Error A
or_error e none = err e
or_error e (some v) = ok v

unfoldable pub new_terminator_handler :
    {Raw T : Type 0}
    → (Raw → Option TerminatorHandlerConfig)
    → (TerminatorConfig → Option T)
    → Raw
    → Go Error T
new_terminator_handler parse new raw = or_error bad_json (parse raw) >>= λ cfg.
    convert cfg >>= λ config. or_error new_failed (new config)

-- The certificates of targets none of which is null.
abbrev pub present :
    List (Bytes × TerminatorCertConfig) → List (Bytes × Option TerminatorCertConfig)
present [] = []
present ((name, c) ∷ rest) = (name, some c) ∷ present rest

abbrev pub targets_of : List (Bytes × TerminatorCertConfig) → List (Bytes × TargetConfig)
targets_of [] = []
targets_of ((name, c) ∷ rest) = (name, target_of c) ∷ targets_of rest

-- Targets none of which is null are converted one by one.
pub convert_targets-present :
    (targets : List (Bytes × TerminatorCertConfig))
    → convert_targets (present targets) ≡ ok (targets_of targets)
unfolding convert_targets
convert_targets-present [] = refl
convert_targets-present ((name, c) ∷ rest) = rw (convert_targets-present rest) refl

-- A null target panics, whatever comes before it that is not null.
pub convert_targets-null :
    (targets : List (Bytes × TerminatorCertConfig)) (name : Bytes)
    (rest : List (Bytes × Option TerminatorCertConfig))
    → convert_targets (present targets ++ ((name, none) ∷ rest)) ≡ panic
unfolding convert_targets
convert_targets-null [] name rest = refl
convert_targets-null ((other, c) ∷ targets) name rest =
    rw (convert_targets-null targets name rest) refl
