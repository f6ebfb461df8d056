-- ===== src/Sessions/Aliases.antt =====
-- Aliases belong to a session: each is in the set of the session that it leads to, so a session that
-- is deleted leaves none behind.
use quic_relay.Prelude.{
  ◌≡◌, ◌≢◌, ◌∙◌, arith, Bool, true, false, ◌||◌, ◌&&◌, none, some, List, [], ◌∷◌, All,
  if◌then◌else◌,
}
use quic_relay.Quic.Coalesced.{extract_all_scids}
use quic_relay.Quic.Coalesced.Total.{AreKeys, extract_all_scids-AreKeys}
use quic_relay.Quic.Varint.Reference.{IsByte}
use quic_relay.Go.{Returns, Returns-bind, Bytes, bytes_eq, bytes_eq_iff, bytes_eq_self, contains}
use quic_relay.Map.{Map, lookup, store, delete, is_some, IsMap}
use quic_relay.Map.Laws.{lookup-store, lookup-delete, store-IsMap, delete-IsMap}
use quic_relay.Sessions.{
  Context, Tables, set_of, register_dcid_length, track_session_alias, learn_scid, learn_scids,
  learn_server_scid, maps_to, drop_aliases, delete_session_aliases, delete_session,
}

-- Every alias is in the set of its session, and the tables are maps.
pub record IsLinked (t : Tables) : Type 0 where
  pub aliases_map : IsMap t.dcid_aliases
  pub sets_map : IsMap t.session_aliases
  pub sessions_map : IsMap t.sessions
  pub linked :
      (a key : Bytes)
      → lookup a t.dcid_aliases ≡ some key
      → contains (set_of (lookup key t.session_aliases)) a ≡ true

drop_aliases-IsMap :
    (key : Bytes) (l : List Bytes) (m : Map Bytes) → IsMap m → IsMap (drop_aliases key l m)
unfolding drop_aliases
drop_aliases-IsMap key [] m h = h
drop_aliases-IsMap key (a ∷ l) m h =
    drop_aliases-IsMap key l (if maps_to key (lookup a m) then delete a m else m)
      (ground (arith, h, delete-IsMap a m h))

lookup-drop_aliases :
    (key j : Bytes) (l : List Bytes) (m : Map Bytes)
    → IsMap m
    → lookup j (drop_aliases key l m)
      ≡ (if contains l j && maps_to key (lookup j m) then none else lookup j m)
unfolding drop_aliases contains
lookup-drop_aliases key j [] m h = ground arith
lookup-drop_aliases key j (a ∷ l) m h =
    lookup-drop_aliases key j l (if maps_to key (lookup a m) then delete a m else m)
      (ground (arith, h, delete-IsMap a m h))
    ∙ ground (arith, lookup-delete a j m h, bytes_eq_iff a j, bytes_eq_self a)

-- The set of a session with one alias more.
abbrev with_alias : Bytes → List Bytes → List Bytes
with_alias scid l = if contains l scid then l else scid ∷ l

contains-with_alias :
    (scid a : Bytes) (l : List Bytes) → contains l a ≡ true → contains (with_alias scid l) a ≡ true
unfolding contains
contains-with_alias scid a l h = ground (arith, h)

contains-with_alias_self :
    (scid : Bytes) (l : List Bytes) → contains (with_alias scid l) scid ≡ true
unfolding contains
contains-with_alias_self scid l = ground (arith, bytes_eq_self scid)

module _ (key scid : Bytes) (t : Tables) where
  abbrev is_old : Bool
  is_old = bytes_eq scid key || is_some (lookup scid t.dcid_aliases)

  abbrev grown : List Bytes
  grown = with_alias scid (set_of (lookup key t.session_aliases))

  pub learn_scid-fields :
      ((learn_scid key scid t).sessions ≡ t.sessions)
      × ((learn_scid key scid t).dcid_aliases
          ≡ (if is_old then t.dcid_aliases else store scid key t.dcid_aliases))
      × ((learn_scid key scid t).session_aliases
          ≡ (if is_old then t.session_aliases else store key grown t.session_aliases))
  unfolding learn_scid track_session_alias register_dcid_length
  learn_scid-fields = ground arith

  learn_scid-IsLinked : IsLinked t → IsLinked (learn_scid key scid t)
  learn_scid-IsLinked h =
      let (same, aliases, sets) = learn_scid-fields in
      record {
        aliases_map =
            rw aliases
              (ground (arith, store-IsMap scid key t.dcid_aliases h.aliases_map, h.aliases_map));
        sets_map =
            rw sets
              (ground (arith, store-IsMap key grown t.session_aliases h.sets_map, h.sets_map));
        sessions_map = rw same h.sessions_map;
        linked = λ a k e. ground (
          arith,
          e,
          aliases,
          sets,
          h.linked a k,
          lookup-store scid a key t.dcid_aliases,
          lookup-store key k grown t.session_aliases,
          bytes_eq_iff scid a,
          bytes_eq_iff key k,
          contains-with_alias scid a (set_of (lookup key t.session_aliases)),
          contains-with_alias_self scid (set_of (lookup key t.session_aliases)),
        );
      }

pub learn_scids-IsLinked :
    (key : Bytes) (l : List Bytes) (t : Tables) → IsLinked t → IsLinked (learn_scids key l t)
unfolding learn_scids
learn_scids-IsLinked key [] t h = h
learn_scids-IsLinked key (a ∷ l) t h =
    learn_scids-IsLinked key l (learn_scid key a t) (learn_scid-IsLinked key a t h)

-- On every datagram learnServerSCID returns, and every alias is still in the set of its session.
pub learn_server_scid-IsLinked :
    (key datagram : Bytes) (t : Tables)
    → All IsByte datagram
    → IsLinked t
    → Returns IsLinked (learn_server_scid key datagram t)
unfolding learn_server_scid
learn_server_scid-IsLinked key datagram t bytes h =
    Returns-bind AreKeys IsLinked (extract_all_scids datagram) _
      (extract_all_scids-AreKeys datagram bytes) λ l _. learn_scids-IsLinked key l t h

-- What a session leaves behind.
pub record Deletes (key : Bytes) (t t' : Tables) : Type 0 where
  pub still_linked : IsLinked t'
  pub session : lookup key t'.sessions ≡ none
  pub aliases : (a : Bytes) → lookup a t'.dcid_aliases ≢ some key
  pub others :
      (a k : Bytes)
      → bytes_eq k key ≡ false
      → lookup a t.dcid_aliases ≡ some k
      → lookup a t'.dcid_aliases ≡ some k

module _ (key : Bytes) (ctx : Context) (t : Tables) (h : IsLinked t)
    (there : is_some (lookup key t.sessions) ≡ true) where
  abbrev pub own : List Bytes
  own = set_of (lookup key t.session_aliases)

  pub delete_session-fields :
      ((delete_session key ctx t).sessions ≡ delete key t.sessions)
      × ((delete_session key ctx t).dcid_aliases ≡ drop_aliases key own t.dcid_aliases)
      × ((j : Bytes)
          → lookup j (delete_session key ctx t).session_aliases
            ≡ (if bytes_eq key j then none else lookup j t.session_aliases))
      × IsMap (delete_session key ctx t).session_aliases
  unfolding delete_session delete_session_aliases drop_aliases
  delete_session-fields = (
    ground (arith, there),
    ground (arith, there),
    λ j.
        ground (arith, there, lookup-delete key j t.session_aliases h.sets_map, bytes_eq_iff key j),
    ground (arith, there, delete-IsMap key t.session_aliases h.sets_map, h.sets_map),
  )

  -- deleteSession of a session that is there, where every alias is in the set of its session: the
  -- session is gone, no alias leads to it, every alias of another session is as before, and each
  -- alias is still in the set of its session.
  pub delete_session-Deletes : Deletes key t (delete_session key ctx t)
  delete_session-Deletes =
      let (sessions', aliases', sets', map') = delete_session-fields in
      record {
        still_linked = record {
          aliases_map = rw aliases' (drop_aliases-IsMap key own t.dcid_aliases h.aliases_map);
          sets_map = map';
          sessions_map = rw sessions' (delete-IsMap key t.sessions h.sessions_map);
          linked = λ a k e. ground (
            arith,
            e,
            aliases',
            sets' k,
            h.linked a k,
            h.linked a key,
            lookup-drop_aliases key a own t.dcid_aliases h.aliases_map,
            bytes_eq_iff key k,
          );
        };
        session =
            ground (
              arith,
              sessions',
              lookup-delete key key t.sessions h.sessions_map,
              bytes_eq_self key,
            );
        aliases = λ a e. ground (
          arith,
          e,
          aliases',
          h.linked a key,
          lookup-drop_aliases key a own t.dcid_aliases h.aliases_map,
          bytes_eq_self key,
        );
        others = λ a k n e.
            ground
              (arith, e, n, aliases', lookup-drop_aliases key a own t.dcid_aliases h.aliases_map);
      }
