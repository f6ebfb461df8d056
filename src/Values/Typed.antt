-- ===== src/Values/Typed.antt =====
-- What the typed getters of internal/handler/context.go read after Sets.
use quic_relay.Prelude.{
  ◌≡◌, ◌∙◌, ◌↔◌, refl, ap, Bool, true, false, Option, none, some, List, [], ◌∷◌, if◌then◌else◌,
}
use quic_relay.Go.{Bytes, bytes_eq}
use quic_relay.Map.{lookup}
use quic_relay.Map.Laws.{lookup-store}
use quic_relay.Prelude.Int.{ℤ, pos}
use quic_relay.Values.{
  Any, string, int, bool, int64, other, Values, set, get, get_value, asserted, as_string, as_int,
  as_bool, as_int64, or_zero, get_string, get_int, get_bool, get_int64,
}

pub get-set :
    (key k : Bytes) (v : Any) (values : Values)
    → get k (set key v values) ≡ (if bytes_eq key k then some v else get k values)
unfolding get set lookup
get-set key k v none = lookup-store key k v []
get-set key k v (some values) = lookup-store key k v values

pub get_value-set :
    {A : Type 0} (to : Any → Option A) (key k : Bytes) (v : Any) (values : Values)
    → get_value to k (set key v values) ≡ (if bytes_eq key k then to v else get_value to k values)
unfolding get_value
get_value-set to key k v values = rw (get-set key k v values) (pick (bytes_eq key k))
  where
    pick :
        (b : Bool)
        → asserted to (if b then some v else get k values)
          ≡ (if b then to v else asserted to (get k values))
    pick true = refl
    pick false = refl

-- Sets, one after the other.
abbrev pub set_all : List (Bytes × Any) → Values → Values
set_all [] values = values
set_all ((key, v) ∷ entries) values = set_all entries (set key v values)

-- The value of the last entry under a key.
abbrev pub last_of : Bytes → List (Bytes × Any) → Option Any → Option Any
last_of k [] so_far = so_far
last_of k ((key, v) ∷ entries) so_far =
    last_of k entries (if bytes_eq key k then some v else so_far)

get-set_all :
    (k : Bytes) (entries : List (Bytes × Any)) (values : Values)
    → get k (set_all entries values) ≡ last_of k entries (get k values)
get-set_all k [] values = refl
get-set_all k ((key, v) ∷ entries) values =
    get-set_all k entries (set key v values) ∙ ap (last_of k entries) (get-set key k v values)

-- The zero value, or the value if it is of the type.
abbrev pub string_or_zero : Option Any → Bytes
string_or_zero (some (string s)) = s
string_or_zero _ = []

abbrev pub int_or_zero : Option Any → ℤ
int_or_zero (some (int i)) = i
int_or_zero _ = pos 0

abbrev pub bool_or_zero : Option Any → Bool
bool_or_zero (some (bool b)) = b
bool_or_zero _ = false

abbrev pub int64_or_zero : Option Any → ℤ
int64_or_zero (some (int64 i)) = i
int64_or_zero _ = pos 0

-- What the getters read where the value that stands under the key is the one given.
pub record Reads (k : Bytes) (values : Values) (v : Option Any) : Type 0 where
  pub strings : (s : Bytes) → (get_value as_string k values ≡ some s) ↔ (v ≡ some (string s))
  pub ints : (i : ℤ) → (get_value as_int k values ≡ some i) ↔ (v ≡ some (int i))
  pub bools : (b : Bool) → (get_value as_bool k values ≡ some b) ↔ (v ≡ some (bool b))
  pub int64s : (i : ℤ) → (get_value as_int64 k values ≡ some i) ↔ (v ≡ some (int64 i))
  pub string_read : get_string k values ≡ string_or_zero v
  pub int_read : get_int k values ≡ int_or_zero v
  pub bool_read : get_bool k values ≡ bool_or_zero v
  pub int64_read : get_int64 k values ≡ int64_or_zero v

get-Reads : (k : Bytes) (values : Values) (v : Option Any) → get k values ≡ v → Reads k values v
unfolding get_value asserted get_string get_int get_bool get_int64 or_zero
get-Reads k values none e = record {
  strings = λ s. rw e (λ h. cc h, λ h. cc h);
  ints = λ s. rw e (λ h. cc h, λ h. cc h);
  bools = λ s. rw e (λ h. cc h, λ h. cc h);
  int64s = λ s. rw e (λ h. cc h, λ h. cc h);
  string_read = rw e refl;
  int_read = rw e refl;
  bool_read = rw e refl;
  int64_read = rw e refl;
}
get-Reads k values (some (string x)) e = record {
  strings = λ s. rw e (λ h. cc h, λ h. cc h);
  ints = λ s. rw e (λ h. cc h, λ h. cc h);
  bools = λ s. rw e (λ h. cc h, λ h. cc h);
  int64s = λ s. rw e (λ h. cc h, λ h. cc h);
  string_read = rw e refl;
  int_read = rw e refl;
  bool_read = rw e refl;
  int64_read = rw e refl;
}
get-Reads k values (some (int x)) e = record {
  strings = λ s. rw e (λ h. cc h, λ h. cc h);
  ints = λ s. rw e (λ h. cc h, λ h. cc h);
  bools = λ s. rw e (λ h. cc h, λ h. cc h);
  int64s = λ s. rw e (λ h. cc h, λ h. cc h);
  string_read = rw e refl;
  int_read = rw e refl;
  bool_read = rw e refl;
  int64_read = rw e refl;
}
get-Reads k values (some (bool x)) e = record {
  strings = λ s. rw e (λ h. cc h, λ h. cc h);
  ints = λ s. rw e (λ h. cc h, λ h. cc h);
  bools = λ s. rw e (λ h. cc h, λ h. cc h);
  int64s = λ s. rw e (λ h. cc h, λ h. cc h);
  string_read = rw e refl;
  int_read = rw e refl;
  bool_read = rw e refl;
  int64_read = rw e refl;
}
get-Reads k values (some (int64 x)) e = record {
  strings = λ s. rw e (λ h. cc h, λ h. cc h);
  ints = λ s. rw e (λ h. cc h, λ h. cc h);
  bools = λ s. rw e (λ h. cc h, λ h. cc h);
  int64s = λ s. rw e (λ h. cc h, λ h. cc h);
  string_read = rw e refl;
  int_read = rw e refl;
  bool_read = rw e refl;
  int64_read = rw e refl;
}
get-Reads k values (some other) e = record {
  strings = λ s. rw e (λ h. cc h, λ h. cc h);
  ints = λ s. rw e (λ h. cc h, λ h. cc h);
  bools = λ s. rw e (λ h. cc h, λ h. cc h);
  int64s = λ s. rw e (λ h. cc h, λ h. cc h);
  string_read = rw e refl;
  int_read = rw e refl;
  bool_read = rw e refl;
  int64_read = rw e refl;
}

-- The getters on a context after any Sets: GetValue at string, int, bool and int64 gives a value
-- exactly if the last Set under the key stored that value at that type, whatever was stored under it
-- before, and nothing else; GetString, GetInt, GetBool and GetInt64 give that value, and otherwise the
-- zero value.
pub get_value-set_all :
    (k : Bytes) (entries : List (Bytes × Any))
    → Reads k (set_all entries none) (last_of k entries none)
unfolding get
get_value-set_all k entries =
    get-Reads k (set_all entries none) (last_of k entries none) (get-set_all k entries none)
