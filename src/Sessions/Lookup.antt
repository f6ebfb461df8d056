-- ===== src/Sessions/Lookup.antt =====
-- A packet finds its session by an alias that was learned from the server.
use quic_relay.Prelude.{
  ℕ, ◌≡◌, ◌∙◌, refl, arith, true, false, Option, none, some, List, [], ◌∷◌, if◌then◌else◌,
}
use quic_relay.Go.{ok, ◌>>=◌, Bytes, bytes_eq, bytes_eq_iff, contains}
use quic_relay.Map.{lookup, is_some}
use quic_relay.Map.Laws.{lookup-store}
use quic_relay.Quic.{PacketType}
use quic_relay.Quic.Header.{is_short}
use quic_relay.Quic.Header.Layout.{long_header, extract_connection_ids}
use quic_relay.Quic.Coalesced.{extract_all_scids}
use quic_relay.Sessions.{
  Context, Tables, learn_scid, learn_scids, learn_server_scid, is_short_header, find_session,
}
use quic_relay.Sessions.Aliases.{learn_scid-fields}

module _ (key scid : Bytes) (new : bytes_eq scid key ≡ false) where
  learn_scid-lookup :
      (a : Bytes) (t : Tables)
      → lookup scid (learn_scid key a t).dcid_aliases ≡ (
          if is_some (lookup scid t.dcid_aliases)
          then lookup scid t.dcid_aliases
          else if bytes_eq a scid
          then some key
          else none)
  learn_scid-lookup a t = ground (
    arith,
    new,
    (learn_scid-fields key a t).1,
    lookup-store a scid key t.dcid_aliases,
    bytes_eq_iff a scid,
  )

  learn_scids-lookup :
      (l : List Bytes) (t : Tables)
      → lookup scid (learn_scids key l t).dcid_aliases ≡ (
          if is_some (lookup scid t.dcid_aliases)
          then lookup scid t.dcid_aliases
          else if contains l scid
          then some key
          else none)
  unfolding learn_scids contains
  learn_scids-lookup [] t = ground arith
  learn_scids-lookup (a ∷ l) t =
      learn_scids-lookup l (learn_scid key a t) ∙ ground (arith, learn_scid-lookup a t)

learn_scids-sessions :
    (key : Bytes) (l : List Bytes) (t : Tables) → (learn_scids key l t).sessions ≡ t.sessions
unfolding learn_scids
learn_scids-sessions key [] t = refl
learn_scids-sessions key (a ∷ l) t =
    learn_scids-sessions key l (learn_scid key a t) ∙ (learn_scid-fields key a t).0

-- A server's datagram of a session, with an SCID in it that is neither a DCID of a session nor an
-- alias: once learnServerSCID has seen it, findSession finds this session for every packet with a
-- long header and that SCID as its DCID, from any address.
pub find_session-learned :
    (key datagram scid : Bytes) (scids : List Bytes) (t : Tables) (ctx : Context)
    (first v0 v1 v2 v3 : ℕ) (own rest : Bytes) (kind : PacketType) (addr : Option Bytes)
    → extract_all_scids datagram ≡ ok scids
    → contains scids scid ≡ true
    → lookup key t.sessions ≡ some ctx
    → lookup scid t.sessions ≡ none
    → lookup scid t.dcid_aliases ≡ none
    → is_short first ≡ false
    → is_short_header kind ≡ false
    → (learn_server_scid key datagram t
        >>= find_session (long_header first v0 v1 v2 v3 scid own rest) kind addr)
      ≡ ok (some ctx, some scid)
unfolding learn_server_scid find_session
find_session-learned key datagram scid scids t ctx first v0 v1 v2 v3 own rest kind addr read seen
      there free fresh long kind_long =
    rw
      (
        read,
        find_session,
        kind_long,
        (extract_connection_ids first v0 v1 v2 v3 scid own rest long 0).0,
      )
      (ground (
        arith,
        there,
        free,
        fresh,
        seen,
        bytes_eq_iff scid key,
        learn_scids-lookup key scid (ground (arith, there, free, bytes_eq_iff scid key)) scids t,
        learn_scids-sessions key scids t,
      ))
