-- ===== src/Routers.antt =====
-- internal/handler/simple_router.go and sni_router.go: the handlers that choose a backend, each list
-- of backends taken in turn. A configuration is what encoding/json made of it; the routes of an SNI
-- configuration, a Go map there, come in the order in which its iteration gives them. The
-- environment variable is a parameter.
pub mod Turns
use quic_relay.Prelude.{
  ℕ, zero, suc, ◌+◌, ◌%◌, ◌^◌, Bool, true, false, not, ◌==◌, Option, none, some, List, [], ◌∷◌,
  length, get_or, if◌then◌else◌,
}
use quic_relay.Go.{Go, ok, err, panic, stuck, ◌>>=◌, Bytes}
use quic_relay.Map.{Map, lookup, store}
use quic_relay.Tls.{ClientHello}
use quic_relay.Handlers.{Action, continue, drop, Result}
use quic_relay.Proxy.Packet.{Conn}

pub data Error : Type 0 where
  no_backend_configured no_routes no_client_hello no_sni : Error
  expected_string expected_string_or_array empty_backends unknown_sni : Bytes → Error

-- `route`, and the StaticHandler, which has the same fields.
pub record Route : Type 0 where
  pub backends : List Bytes
  pub counter : ℕ

-- `counter.Add(1) - 1` on a uint64, and the backend at that index modulo their number: Go panics on
-- a remainder by 0.
unfoldable pub next_backend : Route → Go Error (Route × Bytes)
next_backend r =
    if length r.backends == 0
    then panic
    else ok (
      record r { counter = (r.counter + 1) % 2 ^ 64 },
      get_or r.backends (r.counter % 2 ^ 64 % length r.backends) [],
    )

-- StaticConfig, an absent field being empty.
pub record StaticConfig : Type 0 where
  pub backend : Bytes
  pub backends : List Bytes

-- NewStaticHandler, with the value of QUIC_RELAY_BACKEND
unfoldable pub new_static_handler : Bytes → StaticConfig → Go Error Route
new_static_handler env cfg =
    if not (length cfg.backends == 0)
    then ok (record { backends = cfg.backends; counter = 0 })
    else if not (length cfg.backend == 0)
    then ok (record { backends = cfg.backend ∷ []; counter = 0 })
    else if not (length env == 0)
    then ok (record { backends = env ∷ []; counter = 0 })
    else err no_backend_configured

abbrev pub proceed : Result Error
proceed = record { action = continue; error = none }

abbrev pub refuse : Error → Result Error
refuse e = record { action = drop; error = some e }

-- StaticHandler.OnConnect
unfoldable pub simple_router : Route → Conn → Go Error (Route × Conn × Result Error)
simple_router r conn =
    next_backend r >>= λ (r', backend). ok (r', record conn { backend = backend }, proceed)

-- An element of an array and a value of the map, as encoding/json gives them.
pub data Element : Type 0 where
  string : Bytes → Element
  no_string : Element

pub data Value : Type 0 where
  one : Bytes → Value
  array : List Element → Value
  other : Value

-- `for i, b := range v`
unfoldable pub backends_of : Bytes → List Element → Go Error (List Bytes)
backends_of sni [] = ok []
backends_of sni (no_string ∷ l) = err (expected_string sni)
backends_of sni (string s ∷ l) = backends_of sni l >>= λ rest. ok (s ∷ rest)

unfoldable pub backends_of_value : Bytes → Value → Go Error (List Bytes)
backends_of_value sni (one s) = ok (s ∷ [])
backends_of_value sni (array l) = backends_of sni l
backends_of_value sni other = err (expected_string_or_array sni)

-- `for sni, val := range cfg.Routes`, with the routes made so far.
unfoldable pub add_routes : List (Bytes × Value) → Map Route → Go Error (Map Route)
add_routes [] routes = ok routes
add_routes ((sni, val) ∷ rest) routes = backends_of_value sni val >>= λ backends.
    if length backends == 0
    then err (empty_backends sni)
    else add_routes rest (store sni (record { backends = backends; counter = 0 }) routes)

-- NewDynamicHandler
unfoldable pub new_dynamic_handler : List (Bytes × Value) → Go Error (Map Route)
new_dynamic_handler routes = if length routes == 0 then err no_routes else add_routes routes []

-- DynamicHandler.OnConnect with a ClientHello
unfoldable pub route_sni : Bytes → Map Route → Conn → Go Error (Map Route × Conn × Result Error)
route_sni sni routes conn =
    if length sni == 0 then ok (routes, conn, refuse no_sni) else elim (lookup sni routes) [
      | none ↦ ok (routes, conn, refuse (unknown_sni sni))
      | some r ↦ next_backend r >>= λ (r', backend).
          ok (store sni r' routes, record conn { backend = backend }, proceed)
    ]

-- DynamicHandler.OnConnect
unfoldable pub sni_router : Map Route → Conn → Go Error (Map Route × Conn × Result Error)
sni_router routes conn = elim (conn.hello) [
  | none ↦ ok (routes, conn, refuse no_client_hello)
  | some hello ↦ route_sni hello.sni routes conn
]
