-- ===== src/Handlers.antt =====
-- Chain of internal/handler/handler.go: OnConnect, OnPacket, OnDisconnect and Shutdown of a list of
-- handlers. A handler's methods act on a state, which stands for the context and for whatever the
-- handlers share.
pub mod Order
use quic_relay.Prelude.{Bool, true, false, Option, none, some, List, [], ◌∷◌}
use quic_relay.Go.{Bytes}

pub data Action : Type 0 where
  continue handled drop : Action

pub data Direction : Type 0 where
  inbound outbound : Direction

pub record Result (E : Type 0) : Type 0 where
  pub action : Action
  pub error : Option E

-- The interface, and the Shutdown of a ShutdownHandler.
pub record Handler (S E : Type 0) : Type 0 where
  pub connect : S → S × Result E
  pub packet : Bytes → Direction → S → S × Result E
  pub disconnect : S → S
  pub shutdown : Option (S → S × Option E)

abbrev pub is_continue : Action → Bool
is_continue continue = true
is_continue _ = false

abbrev pub first_error : {E : Type 0} → Option E → Option E → Option E
first_error none e = e
first_error (some d) e = some d

module _ {S E : Type 0} where
  -- The loop of OnConnect and of OnPacket over the calls of the handlers.
  unfoldable pub run : List (S → S × Result E) → S → S × Result E
  run [] s = (s, record { action = drop; error = none })
  run (call ∷ calls) s =
      let (s', result) = call s in
      elim (is_continue result.action) [ true ↦ run calls s' | false ↦ (s', result) ]

  abbrev pub connects : List (Handler S E) → List (S → S × Result E)
  connects [] = []
  connects (h ∷ hs) = h.connect ∷ connects hs

  abbrev pub packets : Bytes → Direction → List (Handler S E) → List (S → S × Result E)
  packets b dir [] = []
  packets b dir (h ∷ hs) = h.packet b dir ∷ packets b dir hs

  unfoldable pub on_connect : List (Handler S E) → S → S × Result E
  on_connect hs = run (connects hs)

  unfoldable pub on_packet : List (Handler S E) → Bytes → Direction → S → S × Result E
  on_packet hs b dir = run (packets b dir hs)

  unfoldable pub on_disconnect : List (Handler S E) → S → S
  on_disconnect [] s = s
  on_disconnect (h ∷ hs) s = on_disconnect hs (h.disconnect s)

  -- The loop of Shutdown, with the first error so far.
  unfoldable pub shutdown_from : List (Handler S E) → Option E → S → S × Option E
  shutdown_from [] error s = (s, error)
  shutdown_from (h ∷ hs) error s = elim (h.shutdown) [
    | none ↦ shutdown_from hs error s
    | some call ↦ let (s', e) = call s in shutdown_from hs (first_error error e) s'
  ]

  unfoldable pub shutdown_all : List (Handler S E) → S → S × Option E
  shutdown_all hs = shutdown_from hs none
