-- ===== src/Terminator.antt =====
-- TerminatorHandler of internal/handler/terminator_handler.go. The library that terminates connections is
-- the record `Library`: its table of backends, and its parser of a QUIC packet's DCID.
pub mod Redirects
pub mod Config
use Prim.Native.Char.{code}
use Prim.Native.String.{String}
use quic_relay.Prelude.{
  ℕ, ◌==◌, Bool, true, false, Option, none, some, List, [], ◌∷◌, length, if◌then◌else◌,
}
use quic_relay.Go.{Bytes}
use quic_relay.Handlers.{Action, continue, drop, Result}
use quic_relay.Values.{Any, string, Values, set, get_string}

pub data Error : Type 0 where
  no_backend no_dcid_in_packet : Error

pub record Library : Type 1 where
  pub State : Type 0
  pub parse_quic_dcid : Bytes → Bytes
  pub register_backend : Bytes → Bytes → State → State
  pub unregister_backend : Bytes → State → State
  pub internal_addr : Bytes

abbrev codes : String → Bytes
codes String.[] = []
codes (String.◌∷◌ c s) = code c ∷ codes s

abbrev pub backend_key : Bytes
backend_key = codes "backend"

abbrev pub dcid_key : Bytes
dcid_key = codes "terminator_dcid"

abbrev pub refuse : Error → Result Error
refuse e = record { action = drop; error = some e }

module _ (t : Library) where
  open t use {State, parse_quic_dcid, register_backend, unregister_backend, internal_addr}

  -- OnConnect, from the context's InitialPacket; the SNI is read for a message only.
  unfoldable pub terminator_connect : Bytes → State → Values → State × Values × Result Error
  terminator_connect initial_packet s values =
      let backend = get_string backend_key values in
      let dcid = parse_quic_dcid initial_packet in
      if length backend == 0
      then (s, values, refuse no_backend)
      else if length dcid == 0
      then (s, values, refuse no_dcid_in_packet)
      else (
        register_backend dcid backend s,
        set backend_key (string internal_addr) (set dcid_key (string dcid) values),
        record { action = continue; error = none },
      )

  -- OnDisconnect
  unfoldable pub terminator_disconnect : State → Values → State
  terminator_disconnect s values =
      let dcid = get_string dcid_key values in
      if length dcid == 0 then s else unregister_backend dcid s
