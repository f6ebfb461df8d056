-- ===== src/Limits/Admission.antt =====
-- A chain that begins with ratelimit-global never lets the proxy have more sessions than the limit.
use quic_relay.Prelude.{ℕ, ◌+◌, ◌≡◌, ◌∙◌, refl, arith, true, List, [], ◌∷◌, Bool-cases, inl, inr}
use quic_relay.Go.{Bytes, Returns}
use quic_relay.Net.{Addr}
use quic_relay.Handlers.{Handler, run, connects, on_connect, is_continue}
use quic_relay.Quic.Initial.{Crypto}
use quic_relay.Quic.Initial.Safety.{CryptoLaws}
use quic_relay.Proxy.State.{Proxy}
use quic_relay.Proxy.Packet.{Conn, handle_packet, try_reserve_session_slot}
use quic_relay.Proxy.Packet.Store.{IsSound}
use quic_relay.Proxy.Packet.Sound.{CountsSlots, Admits, IsFramed, handle_packet-IsSound}
use quic_relay.Limits.{Error, rate_limit, rate_limit_global}

-- A handler that leaves the slots alone.
abbrev pub Ignores : Handler Conn Error → Type 0
Ignores h =
    (conn : Conn)
    → ((h.connect conn).0.reserved ≡ conn.reserved)
      × ((h.connect conn).0.session_count ≡ conn.session_count)

abbrev pub AllIgnore : List (Handler Conn Error) → Type 0
AllIgnore [] = Unit
AllIgnore (h ∷ hs) = Ignores h × AllIgnore hs

run-ignored :
    (hs : List (Handler Conn Error)) (conn : Conn)
    → AllIgnore hs
    → ((run (connects hs) conn).0.reserved ≡ conn.reserved)
      × ((run (connects hs) conn).0.session_count ≡ conn.session_count)
unfolding run
run-ignored [] conn i = (refl, refl)
run-ignored (h ∷ hs) conn (i, is) = elim (Bool-cases (is_continue (h.connect conn).1.action)) [
  | inl goes ↦
      let (e, f) = run-ignored hs (h.connect conn).0 is in
      rw (goes, run) (e ∙ (i conn).0, f ∙ (i conn).1)
  | inr ends ↦ rw (ends, run) (i conn)
]

module _ (limit : ℕ) (hs : List (Handler Conn Error)) (ignore : AllIgnore hs) where
  abbrev pub limited : ℕ → List (Handler Conn Error)
  limited chain = rate_limit_global limit ∷ hs

  abbrev taken : Conn → Conn
  taken conn = record conn { session_count = conn.session_count + 1; reserved = true }

  pub limited-CountsSlots : CountsSlots limited
  unfolding on_connect run rate_limit try_reserve_session_slot
  limited-CountsSlots chain conn free =
      ground (arith, free, run-ignored hs conn ignore, run-ignored hs (taken conn) ignore)

  limited-Admits : Admits limit limited
  unfolding on_connect run rate_limit try_reserve_session_slot
  limited-Admits = inr (λ chain conn there free e.
      ground (arith, there, free, e, run-ignored hs (taken conn) ignore))

  -- With a chain that begins with ratelimit-global, the other handlers leaving the slots alone,
  -- handlePacket keeps the proxy sound, and with no more sessions than the limit, for a packet of at
  -- most 65535 bytes whose SCID and token lie within it if it is an Initial, and a cryptography that
  -- keeps its laws.
  pub rate_limit-bound :
      (c : Crypto) (laws : CryptoLaws c) (idle : Bytes → ℕ) (now : ℕ) (addr : Addr) (packet : Bytes)
      (p : Proxy)
      → IsFramed packet
      → IsSound limit 0 p
      → Returns (IsSound limit 0) (handle_packet c idle limited now addr packet p)
  rate_limit-bound c laws idle now addr packet p framed s =
      handle_packet-IsSound limit idle limited limited-CountsSlots limited-Admits c laws now addr
        packet p framed s
