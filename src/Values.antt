-- ===== src/Values.antt =====
-- The values of a Context of internal/handler/context.go, with which handlers pass data on, and its Drop.
-- The mutex makes each method atomic. An `any` is one of the types that the getters name, or another.
pub mod Typed
use quic_relay.Prelude.{Bool, true, false, not, Option, none, some, [], ◌∷◌, if◌then◌else◌}
use quic_relay.Prelude.Int.{ℤ, pos}
use quic_relay.Go.{Bytes}
use quic_relay.Map.{Map, lookup, store}

pub data Any : Type 0 where
  string : Bytes → Any
  int : ℤ → Any
  bool : Bool → Any
  int64 : ℤ → Any
  other : Any

-- `values`, a map that is nil until the first Set.
abbrev pub Values : Type 0
Values = Option (Map Any)

unfoldable pub set : Bytes → Any → Values → Values
set key value none = some (store key value [])
set key value (some values) = some (store key value values)

unfoldable pub get : Bytes → Values → Option Any
get key none = none
get key (some values) = lookup key values

-- The assertions `v.(T)`
abbrev pub as_string : Any → Option Bytes
as_string (string s) = some s
as_string _ = none

abbrev pub as_int : Any → Option ℤ
as_int (int i) = some i
as_int _ = none

abbrev pub as_bool : Any → Option Bool
as_bool (bool b) = some b
as_bool _ = none

abbrev pub as_int64 : Any → Option ℤ
as_int64 (int64 i) = some i
as_int64 _ = none

-- GetValue[T], by the assertion to T; `none` is the zero value with false.
unfoldable pub asserted : {A : Type 0} → (Any → Option A) → Option Any → Option A
asserted to none = none
asserted to (some v) = to v

unfoldable pub get_value : {A : Type 0} → (Any → Option A) → Bytes → Values → Option A
unfolding asserted
get_value to key values = asserted to (get key values)

unfoldable pub or_zero : {A : Type 0} → A → Option A → A
or_zero zero none = zero
or_zero zero (some a) = a

unfoldable pub get_string : Bytes → Values → Bytes
unfolding or_zero get_value
get_string key values = or_zero [] (get_value as_string key values)

unfoldable pub get_int : Bytes → Values → ℤ
unfolding or_zero get_value
get_int key values = or_zero (pos 0) (get_value as_int key values)

unfoldable pub get_bool : Bytes → Values → Bool
unfolding or_zero get_value
get_bool key values = or_zero false (get_value as_bool key values)

unfoldable pub get_int64 : Bytes → Values → ℤ
unfolding or_zero get_value
get_int64 key values = or_zero (pos 0) (get_value as_int64 key values)

-- Drop: DropSession, which may be nil, on a state S, and the flag `dropSessionCalled`.
unfoldable pub drop_context : {S : Type 0} → Option (S → S) → Bool → S → S × Bool
drop_context none called s = (s, called)
drop_context (some drop_session) called s = (if called then s else drop_session s, true)
