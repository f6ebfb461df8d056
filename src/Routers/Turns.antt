-- ===== src/Routers/Turns.antt =====
-- The routers take their backends in turn, and never panic.
use quic_relay.Prelude.{
  ℕ, zero, suc, ◌+◌, ◌%◌, ◌^◌, ◌<◌, ◌≡◌, refl, ap, subst, arith, true, false, ◌==◌, Option, none,
  some, List, [], ◌∷◌, length, get_or, Bool-cases, Option-cases, inl, inr,
}
use native.Mathlib.Nat.{mod-lt}
use quic_relay.Go.{
  Go, ok, ◌>>=◌, Bytes, Returns, Ensures, Ensures-bind, bytes_eq_iff, bytes_eq_self, contains,
}
use quic_relay.Map.{is_some, Map, lookup, store}
use quic_relay.Map.Laws.{lookup-store, AllValues, store-AllValues}
use quic_relay.Tls.{ClientHello}
use quic_relay.Handlers.{continue, drop, Result}
use quic_relay.Proxy.Packet.{Conn}
use quic_relay.Routers.{
  Error, Route, next_backend, StaticConfig, new_static_handler, simple_router, Value, one, array,
  other, Element, string, no_string, backends_of, backends_of_value, add_routes,
  new_dynamic_handler, route_sni, sni_router, unknown_sni, no_sni, no_client_hello, proceed, refuse,
}

-- The backends that a run of connections is given.
abbrev pub connect_all : List Conn → Route → Go Error (List Bytes)
connect_all [] r = ok []
connect_all (conn ∷ conns) r = simple_router r conn >>= λ (r', conn', result).
    connect_all conns r' >>= λ rest. ok (conn'.backend ∷ rest)

-- One after the other from the index given, and again from the first.
abbrev pub in_turn : List Bytes → ℕ → List Conn → List Bytes
in_turn backends i [] = []
in_turn backends i (conn ∷ conns) =
    get_or backends (i % length backends) [] ∷ in_turn backends (i + 1) conns

simple_router-eq :
    (r : Route) (conn : Conn)
    → (length r.backends == 0) ≡ false
    → r.counter + 1 < 2 ^ 64
    → simple_router r conn
      ≡ ok (
        record r { counter = r.counter + 1 },
        record conn { backend = get_or r.backends (r.counter % length r.backends) [] },
        proceed,
      )
unfolding simple_router next_backend
simple_router-eq r conn filled small =
    let whole : (r.counter + 1) % 2 ^ 64 ≡ r.counter + 1 = omega arith in
    let whole' : r.counter % 2 ^ 64 ≡ r.counter = omega arith in rw (filled, whole, whole') refl

turns-lem :
    (conns : List Conn) (r : Route)
    → (length r.backends == 0) ≡ false
    → r.counter + length conns < 2 ^ 64
    → connect_all conns r ≡ ok (in_turn r.backends r.counter conns)
turns-lem [] r filled small = refl
turns-lem (conn ∷ conns) r filled small =
    rw
      (
        simple_router-eq r conn filled (omega arith),
        turns-lem conns (record r { counter = r.counter + 1 }) filled (omega arith),
      )
      refl

new_static_handler-Ensures :
    (env : Bytes) (cfg : StaticConfig)
    → Ensures
        (λ r. ((length r.backends == 0) ≡ false) × (r.counter ≡ 0))
        (new_static_handler env cfg)
unfolding new_static_handler
new_static_handler-Ensures env cfg = ground arith

-- A simple-router made of a configuration gives fewer than 2^64 connections its backends one after the
-- other, from the first, and again from the first after the last; it never panics.
pub new_static_handler-turns :
    (env : Bytes) (cfg : StaticConfig) (r : Route) (conns : List Conn)
    → new_static_handler env cfg ≡ ok r
    → length conns < 2 ^ 64
    → connect_all conns r ≡ ok (in_turn r.backends 0 conns)
new_static_handler-turns env cfg r conns e small =
    let (filled, start) =
      subst (Ensures (λ r. ((length r.backends == 0) ≡ false) × (r.counter ≡ 0))) e
        (new_static_handler-Ensures env cfg) in
    rw⁻¹ start (turns-lem conns r filled (omega (arith, start)))

backends_of-Ensures : (sni : Bytes) (l : List Element) → Ensures (λ b. Unit {0}) (backends_of sni l)
unfolding backends_of
backends_of-Ensures sni [] = tt
backends_of-Ensures sni (no_string ∷ l) = tt
backends_of-Ensures sni (string s ∷ l) =
    Ensures-bind _ (λ b. Unit {0}) (backends_of sni l) _ (backends_of-Ensures sni l) λ rest _. tt

backends_of_value-Ensures :
    (sni : Bytes) (val : Value) → Ensures (λ b. Unit {0}) (backends_of_value sni val)
unfolding backends_of_value
backends_of_value-Ensures sni (one s) = tt
backends_of_value-Ensures sni (array l) = backends_of-Ensures sni l
backends_of_value-Ensures sni other = tt

-- The backends configured for an SNI.
abbrev pub backends_in : Option Route → List Bytes
backends_in none = []
backends_in (some r) = r.backends

abbrev pub backends_at : Bytes → Map Route → List Bytes
backends_at sni routes = backends_in (lookup sni routes)

abbrev pub sni_of : Option ClientHello → Bytes
sni_of none = []
sni_of (some hello) = hello.sni

-- A route that has a backend.
abbrev pub IsFilled : Route → Type 0
IsFilled r = (length r.backends == 0) ≡ false

add_routes-Ensures :
    (cfg : List (Bytes × Value)) (routes : Map Route)
    → AllValues IsFilled routes
    → Ensures (AllValues IsFilled) (add_routes cfg routes)
unfolding add_routes
add_routes-Ensures [] routes all = all
add_routes-Ensures ((sni, val) ∷ rest) routes all =
    Ensures-bind (λ b. Unit {0}) (AllValues IsFilled) (backends_of_value sni val) _
      (backends_of_value-Ensures sni val)
      λ backends _. elim (Bool-cases (length backends == 0)) [
        | inl empty ↦ rw empty tt
        | inr filled ↦ rw filled (
            add_routes-Ensures rest (store sni (record { backends = backends; counter = 0 }) routes)
              (store-AllValues IsFilled sni (record { backends = backends; counter = 0 }) routes
                filled all))
      ]

-- What a connection gets from an SNI router: if it goes on, the backend is one of those configured for
-- the SNI of its ClientHello, the rest of the connection is as it was, and every route keeps its
-- backends.
pub record Routed (routes : Map Route) (conn : Conn) (r : Map Route × Conn × Result Error)
    : Type 0 where
  pub filled : AllValues IsFilled r.0
  pub same : (key : Bytes) → backends_at key r.0 ≡ backends_at key routes
  pub slots : (r.1.reserved ≡ conn.reserved) × (r.1.session_count ≡ conn.session_count)
  pub backend :
      r.2.action ≡ continue → contains (backends_at (sni_of conn.hello) routes) r.1.backend ≡ true
  pub refused : is_some (lookup (sni_of conn.hello) routes) ≡ false → r.2.action ≡ drop

contains-get_or : (l : List Bytes) (i : ℕ) → i < length l → contains l (get_or l i []) ≡ true
unfolding contains
contains-get_or [] i h = absurd (omega arith)
contains-get_or (x ∷ l) zero h = ground (arith, bytes_eq_self x)
contains-get_or (x ∷ l) (suc i) h = ground (arith, contains-get_or l i (omega arith))

module _ (routes : Map Route) (all : AllValues IsFilled routes) (conn : Conn) where
  kept : (e : Error) → Routed routes conn (routes, conn, refuse e)
  kept e = record {
    filled = all;
    same = λ key. refl;
    slots = (refl, refl);
    backend = λ impossible. absurd (cc impossible);
    refused = λ _. refl;
  }

  module _ (sni : Bytes) (same : sni_of conn.hello ≡ sni) (r : Route)
      (found : lookup sni routes ≡ some r) where
    routed : Routed routes conn (
      store sni (record r { counter = (r.counter + 1) % 2 ^ 64 }) routes,
      record conn { backend = get_or r.backends (r.counter % 2 ^ 64 % length r.backends) [] },
      proceed,
    )
    routed =
        let r' = record r { counter = (r.counter + 1) % 2 ^ 64 } in
        let pos : 0 < length r.backends = ground (arith, all sni r found) in
        record {
          filled = store-AllValues IsFilled sni r' routes (all sni r found) all;
          same = λ key. ground (arith, found, lookup-store sni key r' routes, bytes_eq_iff sni key);
          slots = (refl, refl);
          backend = λ _.
              rw (same, found)
                (contains-get_or r.backends (r.counter % 2 ^ 64 % length r.backends)
                  (mod-lt (r.counter % 2 ^ 64) pos));
          refused = λ missing. absurd (ground (arith, missing, found, same));
        }

  route_sni-Routed :
      (sni : Bytes)
      → sni_of conn.hello ≡ sni
      → Returns (Routed routes conn) (route_sni sni routes conn)
  unfolding route_sni next_backend
  route_sni-Routed sni same = elim (Bool-cases (length sni == 0)) [
    | inl empty ↦ rw (empty, route_sni) (kept no_sni)
    | inr named ↦ elim (Option-cases (lookup sni routes)) [
      | inl missing ↦ rw (named, missing, route_sni) (kept (unknown_sni sni))
      | inr (r, found) ↦
          rw (named, found, route_sni, next_backend, all sni r found) (routed sni same r found)
    ]
  ]

  -- An SNI router whose routes each have a backend never panics. A connection that goes on has one of
  -- the backends configured for its SNI, one without a route is dropped; every route keeps its
  -- backends, and the session slots are left alone.
  pub sni_router-Routed : Returns (Routed routes conn) (sni_router routes conn)
  unfolding sni_router
  sni_router-Routed = elim (Option-cases conn.hello) [
    | inl e ↦ simp (e, sni_router) (kept no_client_hello)
    | inr (hello, e) ↦ simp (e, sni_router) (route_sni-Routed hello.sni (ap sni_of e))
  ]

-- NewDynamicHandler makes such routes, or ends with an error.
pub new_dynamic_handler-Ensures :
    (cfg : List (Bytes × Value)) → Ensures (AllValues IsFilled) (new_dynamic_handler cfg)
unfolding new_dynamic_handler lookup
new_dynamic_handler-Ensures cfg = elim (Bool-cases (length cfg == 0)) [
  | inl empty ↦ rw (empty, new_dynamic_handler) tt
  | inr some_routes ↦
      rw (some_routes, new_dynamic_handler)
        (add_routes-Ensures cfg [] (λ key r impossible. absurd (cc impossible)))
]
