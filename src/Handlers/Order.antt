-- ===== src/Handlers/Order.antt =====
-- In which order a chain calls its handlers, and where it stops.
use quic_relay.Prelude.{
  ◌≡◌, ◌∙◌, refl, sym, ap, arith, append-nil, Bool-cases, inl, inr, true, false, Option, none, some,
  List, [], ◌∷◌, ◌++◌,
}
use quic_relay.Handlers.{drop, Result, Handler, is_continue, run, connects, on_connect}

module _ {S E : Type 0} where
  -- The state after handlers that all say Continue, if they do.
  abbrev pub passes : List (S → S × Result E) → S → Option S
  passes [] s = some s
  passes (call ∷ calls) s =
      let (s', result) = call s in
      elim (is_continue result.action) [ true ↦ passes calls s' | false ↦ none ]

  run-passes :
      (front rest : List (S → S × Result E)) (s s' : S)
      → passes front s ≡ some s'
      → run (front ++ rest) s ≡ run rest s'
  unfolding run
  run-passes [] rest s s' e = ap (run rest) (ground (arith, e))
  run-passes (call ∷ calls) rest s s' e = elim (Bool-cases (is_continue (call s).1.action)) [
    | inl on ↦ rw (on, run) (run-passes calls rest (call s).0 s' (ground (arith, e, on)))
    | inr off ↦ absurd (ground (arith, e, off))
  ]

  run-stops :
      (call : S → S × Result E) (rest : List (S → S × Result E)) (s : S)
      → is_continue (call s).1.action ≡ false
      → run (call ∷ rest) s ≡ call s
  unfolding run
  run-stops call rest s off = rw (off, run) refl

  connects-append :
      (hs more : List (Handler S E)) → connects (hs ++ more) ≡ connects hs ++ connects more
  connects-append [] more = refl
  connects-append (h ∷ hs) more = ap (λ l. h.connect ∷ l) (connects-append hs more)

  -- A chain whose first handlers all say Continue: OnConnect calls these in their order, each on the
  -- state that the one before it left. If the next handler says something else, its result is the
  -- chain's and no handler behind it is called; if there is none, the result is Drop.
  pub on_connect-passes :
      (front : List (Handler S E)) (h : Handler S E) (rest : List (Handler S E)) (s s' : S)
      → passes (connects front) s ≡ some s'
      → is_continue (h.connect s').1.action ≡ false
      → (on_connect (front ++ (h ∷ rest)) s ≡ h.connect s')
        × (on_connect front s ≡ (s', record { action = drop; error = none }))
  unfolding on_connect
  on_connect-passes front h rest s s' e off = (
    ap (λ l. run l s) (connects-append front (h ∷ rest))
        ∙ run-passes (connects front) (connects (h ∷ rest)) s s' e
        ∙ run-stops h.connect (connects rest) s' off,
    ap (λ l. run l s) (sym (append-nil (connects front)))
        ∙ run-passes (connects front) [] s s' e
        ∙ (unfold run in refl),
  )
