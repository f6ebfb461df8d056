-- ===== src/Sessions.antt =====
-- The session tables of internal/proxy/proxy.go: how a packet finds its session, and the aliases that
-- are learned from the server's packets. A method runs by itself. An address is the bytes of its
-- text; a `map[string]struct{}` is a list of keys.
pub mod Aliases
pub mod Lookup
use quic_relay.Prelude.{
  ℕ, ◌+◌, Bool, true, false, not, ◌||◌, ltb, leb, ◌==◌, Option, none, some, List, [], ◌∷◌, ◌++◌,
  length, if◌then◌else◌,
}
use quic_relay.Go.{Go, ok, err, panic, stuck, ◌>>=◌, Bytes, bytes_eq, contains}
use quic_relay.Net.{Addr}
use quic_relay.Quic.{PacketType, short_header, Error}
use quic_relay.Quic.Header.{extract_dcid}
use quic_relay.Quic.Coalesced.{extract_all_scids}
use quic_relay.Map.{Map, lookup, store, delete, is_some}
use quic_relay.Capped.{decrement}
use quic_relay.Chains.{Chains, release_chain}

-- What the proxy reads of a *handler.Context: its `_chain`, and of its Session the DCID and the
-- client's address.
pub record Context : Type 0 where
  pub chain : ℕ
  pub dcid : Bytes
  pub client_addr : Option Addr

pub record Tables : Type 0 where
  pub sessions : Map Context
  pub session_count : ℕ
  pub dcid_aliases : Map Bytes
  pub session_aliases : Map (List Bytes)
  pub client_sessions : Map Bytes
  pub dcid_lengths : List ℕ
  pub chains : Chains

abbrev pub elem : ℕ → List ℕ → Bool
elem n [] = false
elem n (x ∷ l) = n == x || elem n l

unfoldable pub register_dcid_length : ℕ → Tables → Tables
register_dcid_length n t =
    if elem n t.dcid_lengths then t else record t { dcid_lengths = n ∷ t.dcid_lengths }

abbrev pub set_of : Option (List Bytes) → List Bytes
set_of none = []
set_of (some l) = l

-- LoadOrStore of an empty set, and the alias put into the set.
unfoldable pub track_session_alias : Bytes → Bytes → Tables → Tables
track_session_alias key scid t =
    let old = set_of (lookup key t.session_aliases) in
    record t {
      session_aliases = store key (if contains old scid then old else scid ∷ old) t.session_aliases;
    }

-- The body of the loop of learnServerSCID.
unfoldable pub learn_scid : Bytes → Bytes → Tables → Tables
learn_scid key scid t =
    if bytes_eq scid key || is_some (lookup scid t.dcid_aliases)
    then t
    else register_dcid_length (length scid)
        (track_session_alias key scid (record t { dcid_aliases = store scid key t.dcid_aliases }))

unfoldable pub learn_scids : Bytes → List Bytes → Tables → Tables
learn_scids key [] t = t
learn_scids key (scid ∷ scids) t = learn_scids key scids (learn_scid key scid t)

unfoldable pub learn_server_scid : Bytes → Bytes → Tables → Go Error Tables
learn_server_scid key datagram t =
    extract_all_scids datagram >>= λ scids. ok (learn_scids key scids t)

abbrev pub maps_to : Bytes → Option Bytes → Bool
maps_to key none = false
maps_to key (some mapped) = bytes_eq mapped key

-- `for alias := range set.aliases`
unfoldable pub drop_aliases : Bytes → List Bytes → Map Bytes → Map Bytes
drop_aliases key [] m = m
drop_aliases key (a ∷ l) m = drop_aliases key l (if maps_to key (lookup a m) then delete a m else m)

unfoldable pub delete_session_aliases : Bytes → Tables → Tables
delete_session_aliases key t = elim (lookup key t.session_aliases) [
  | none ↦ t
  | some l ↦ record t {
    session_aliases = delete key t.session_aliases;
    dcid_aliases = drop_aliases key l t.dcid_aliases;
  }
]

abbrev pub drop_client : Option Addr → Map Bytes → Map Bytes
drop_client none m = m
drop_client (some addr) m = delete addr.text m

unfoldable pub delete_session : Bytes → Context → Tables → Tables
delete_session key ctx t =
    if is_some (lookup key t.sessions)
    then (let counted = record t {
      sessions = delete key t.sessions;
      session_count = decrement t.session_count;
    } in
        let t' = delete_session_aliases key counted in
        record t' {
          chains = release_chain ctx.chain t'.chains;
          client_sessions = drop_client ctx.client_addr t'.client_sessions;
        })
    else t

-- `p.sessions.Load(originalKey)` of a key that another table gave.
abbrev pub follow : Option Bytes → Tables → Option Context
follow none t = none
follow (some key) t = lookup key t.sessions

abbrev pub or_else : Option Context → Option Context → Option Context
or_else none d = d
or_else (some c) d = some c

-- Direct lookup, then by alias.
abbrev pub find_by_dcid : Bytes → Tables → Option Context
find_by_dcid dcid t = or_else (lookup dcid t.sessions) (follow (lookup dcid t.dcid_aliases) t)

-- The lookup by the client's address, where there is one.
abbrev pub by_address : Option Bytes → Tables → Option Context
by_address none t = none
by_address (some addr) t = follow (lookup addr t.client_sessions) t

-- `sort.Sort(sort.Reverse(sort.IntSlice(lengths)))`
abbrev insert : ℕ → List ℕ → List ℕ
insert n [] = n ∷ []
insert n (x ∷ l) = let rest = insert n l in if leb x n then n ∷ x ∷ l else x ∷ rest

abbrev pub sort_reverse : List ℕ → List ℕ
sort_reverse [] = []
sort_reverse (x ∷ l) = insert x (sort_reverse l)

-- `for _, dcidLen := range lengths`
unfoldable pub find_by_lengths : List ℕ → Bytes → Tables → Go Error (Option (Context × Bytes))
find_by_lengths [] packet t = ok none
find_by_lengths (n ∷ l) packet t = elim (extract_dcid packet n) [
  | ok dcid ↦ elim (find_by_dcid dcid t) [
    | some ctx ↦ ok (some (ctx, dcid))
    | none ↦ find_by_lengths l packet t
  ]
  | err e ↦ find_by_lengths l packet t
  | panic ↦ panic
  | stuck ↦ stuck
]

abbrev pub is_short_header : PacketType → Bool
is_short_header short_header = true
is_short_header _ = false

-- The session and the DCID, each if there is one.
unfoldable pub find_session :
    Bytes → PacketType → Option Bytes → Tables → Go Error (Option Context × Option Bytes)
find_session packet kind addr t = elim (is_short_header kind) [
  | true ↦
      find_by_lengths (sort_reverse t.dcid_lengths) packet t
      >>= elim [ some (ctx, dcid) ↦ ok (some ctx, some dcid) | none ↦ ok (by_address addr t, none) ]
  | false ↦ elim (extract_dcid packet 0) [
    | ok dcid ↦ ok (or_else (find_by_dcid dcid t) (by_address addr t), some dcid)
    | err e ↦ ok (none, none)
    | panic ↦ panic
    | stuck ↦ stuck
  ]
]
