-- ===== src/Forwarder/Closed.antt =====
-- A session of internal/handler/forwarder.go through the packets of both sides and the disconnections, in
-- any order, as OnPacket, backendToClient and OnDisconnect treat them.
use quic_relay.Prelude.{
  ℕ, ◌+◌, ◌≡◌, ◌∙◌, refl, ap, arith, Bool, true, Option, none, some, List, [], ◌∷◌, ◌++◌,
  Bool-cases, inl, inr, if◌then◌else◌,
}
use quic_relay.Go.{
  Go, ok, err, panic, stuck, ◌>>=◌, Bytes, index, Returns, Returns-eq, Returns-bind,
}
use quic_relay.Handlers.{Direction, inbound, outbound}
use quic_relay.Forwarder.{
  Error, Session, notify_server_packet, touch, forward_inbound, forward_connect, forward_first,
  close_session, forward_packet, forward_disconnect, backend_to_client,
}

-- What can happen to a session: a packet that is not empty, a round of the loop that reads from the
-- backend, or a disconnection.
pub data Event : Type 0 where
  from_client : ℕ → Bool → ℕ → Bytes → Direction → Event
  from_backend : ℕ → Option Bytes → Bool → Event
  disconnected : Event

unfoldable pub handle : Event → Session → Go Error Session
handle (from_client now write_ok first rest dir) s =
    forward_packet now write_ok (first ∷ rest) dir s >>= λ r. ok (r.0)
handle (from_backend now read write_ok) s = ok (backend_to_client now read write_ok s).0
handle disconnected s = ok (forward_disconnect s)

unfoldable pub handle_all : List Event → Session → Go Error Session
handle_all [] s = ok s
handle_all (e ∷ es) s = handle e s >>= λ s'. handle_all es s'

handle-closed : (e : Event) (s : Session) → s.closed ≡ true → handle e s ≡ ok s
unfolding handle forward_packet backend_to_client forward_disconnect close_session
handle-closed (from_client now write_ok first rest dir) s c = rw (forward_packet, c) refl
handle-closed (from_backend now none write_ok) s c = refl
handle-closed (from_backend now (some packet) write_ok) s c = rw (backend_to_client, c) refl
handle-closed disconnected s c = rw (forward_disconnect, close_session, c) refl

handle_all-closed : (es : List Event) (s : Session) → s.closed ≡ true → handle_all es s ≡ ok s
unfolding handle_all
handle_all-closed [] s c = refl
handle_all-closed (e ∷ es) s c = rw (handle_all, handle-closed e s c) (handle_all-closed es s c)

bind-handle_all :
    (m : Go Error Session) (es fs : List Event)
    → ((s : Session) → handle_all (es ++ fs) s ≡ (handle_all es s >>= handle_all fs))
    → (m >>= handle_all (es ++ fs)) ≡ ((m >>= handle_all es) >>= handle_all fs)
bind-handle_all (ok s) es fs h = h s
bind-handle_all (err e) es fs h = refl
bind-handle_all panic es fs h = refl
bind-handle_all stuck es fs h = refl

handle_all-append :
    (es fs : List Event) (s : Session)
    → handle_all (es ++ fs) s ≡ (handle_all es s >>= handle_all fs)
unfolding handle_all
handle_all-append [] fs s = refl
handle_all-append (e ∷ es) fs s = bind-handle_all (handle e s) es fs (handle_all-append es fs)

-- The connection is closed as often as the session is.
abbrev Counts : Session → Type 0
Counts s = s.closes ≡ (if s.closed then 1 else 0)

handle-Counts : (e : Event) (s : Session) → Counts s → Returns Counts (handle e s)
unfolding handle forward_packet forward_inbound backend_to_client forward_disconnect close_session
    touch index notify_server_packet
handle-Counts (from_client now write_ok first rest inbound) s c = ground arith
handle-Counts (from_client now write_ok first rest outbound) s c = ground arith
handle-Counts (from_backend now none write_ok) s c = c
handle-Counts (from_backend now (some packet) write_ok) s c = ground arith
handle-Counts disconnected s c = ground arith

handle_all-Counts : (es : List Event) (s : Session) → Counts s → Returns Counts (handle_all es s)
unfolding handle_all
handle_all-Counts [] s c = c
handle_all-Counts (e ∷ es) s c =
    Returns-bind Counts Counts (handle e s) (handle_all es) (handle-Counts e s c)
      (handle_all-Counts es)

forward_connect-Counts :
    (now : ℕ) (initial_packet : Bytes) → Counts (forward_connect now true initial_packet).0
unfolding forward_connect forward_first
forward_connect-Counts now [] = refl
forward_connect-Counts now (b ∷ bs) = refl

-- What a disconnection leaves.
pub record Ended (s s' : Session) : Type 0 where
  pub closed : s'.closed ≡ true
  pub once : s'.closes ≡ 1
  pub to_backend : s'.to_backend ≡ s.to_backend
  pub to_client : s'.to_client ≡ s.to_client
  pub learned : s'.learned ≡ s.learned

forward_disconnect-Ended : (s : Session) → Counts s → Ended s (forward_disconnect s)
unfolding forward_disconnect close_session
forward_disconnect-Ended s c = elim (Bool-cases s.closed) [
  | inl e ↦ record {
    closed = rw (forward_disconnect, close_session, e) refl;
    once = rw (forward_disconnect, close_session, e) (c ∙ ap (λ b. if b then 1 else 0) e);
    to_backend = rw (forward_disconnect, close_session, e) refl;
    to_client = rw (forward_disconnect, close_session, e) refl;
    learned = rw (forward_disconnect, close_session, e) refl;
  }
  | inr e ↦ record {
    closed = rw (forward_disconnect, close_session, e) refl;
    once =
        rw (forward_disconnect, close_session, e)
          (ap (λ n. n + 1) (c ∙ ap (λ b. if b then 1 else 0) e));
    to_backend = rw (forward_disconnect, close_session, e) refl;
    to_client = rw (forward_disconnect, close_session, e) refl;
    learned = rw (forward_disconnect, close_session, e) refl;
  }
]

handle_all-disconnected :
    (fs : List Event) (s : Session)
    → Counts s
    → Returns (Ended s) (handle_all (disconnected ∷ fs) s)
unfolding handle_all handle
handle_all-disconnected fs s c =
    let ended = forward_disconnect-Ended s c in
    rw (handle_all, handle, handle_all-closed fs (forward_disconnect s) ended.closed) ended

-- Once OnConnect has forwarded the first packet without an error, any packets, reads and
-- disconnections before a disconnection and any after it run without a panic, and what the first ones
-- and that disconnection leave is what remains: the backend's connection is closed exactly once, and
-- after the first disconnection nothing is written to either side and no packet of the server is
-- learned from.
pub handle_all-Ended :
    (now : ℕ) (initial_packet : Bytes) (es fs : List Event)
    → (s : Session) × (handle_all es (forward_connect now true initial_packet).0 ≡ ok s)
      × Returns
          (Ended s)
          (handle_all (es ++ (disconnected ∷ fs)) (forward_connect now true initial_packet).0)
handle_all-Ended now initial_packet es fs =
    let (s, e, c) = Returns-eq Counts (handle_all es (forward_connect now true initial_packet).0) (
      handle_all-Counts es (forward_connect now true initial_packet).0
        (forward_connect-Counts now initial_packet)) in
    (
      s,
      e,
      rw (handle_all-append es (disconnected ∷ fs) (forward_connect now true initial_packet).0, e)
          (handle_all-disconnected fs s c),
    )
