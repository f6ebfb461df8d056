-- ===== src/Tests/Handlers.antt =====
-- A chain of handlers of internal/handler, at concrete values.
use quic_relay.Prelude.{ℕ, ◌+◌, ◌≡◌, refl, none, [], ◌∷◌}
use quic_relay.Handlers.{continue, handled, drop, Handler, on_connect}
use quic_relay.Handlers.Order.{on_connect-passes}

-- A handler that adds a number to the state, and one that answers Handled.
abbrev adds : ℕ → Handler ℕ ℕ
adds n = record {
  connect = λ s. (s + n, record { action = continue; error = none });
  packet = λ b dir s. (s, record { action = continue; error = none });
  disconnect = λ s. s;
  shutdown = none;
}

abbrev handles : Handler ℕ ℕ
handles = record {
  connect = λ s. (s + 100, record { action = handled; error = none });
  packet = λ b dir s. (s, record { action = handled; error = none });
  disconnect = λ s. s;
  shutdown = none;
}

on_connect-passes_example :
    (on_connect (adds 1 ∷ adds 2 ∷ handles ∷ adds 4 ∷ []) 0
      ≡ (103, record { action = handled; error = none }))
    × (on_connect (adds 1 ∷ adds 2 ∷ []) 0 ≡ (3, record { action = drop; error = none }))
on_connect-passes_example =
    on_connect-passes (adds 1 ∷ adds 2 ∷ []) handles (adds 4 ∷ []) 0 3 refl refl
