-- ===== src/Tests/Tables.antt =====
-- The chains and the session tables of internal/proxy/proxy.go, at concrete values.
use quic_relay.Prelude.{true, false, ◌≡◌, refl, arith, none, some, List, [], ◌∷◌, All}
use quic_relay.Go.{ok, ◌>>=◌, Bytes, bytes_eq, contains}
use quic_relay.Quic.{handshake}
use quic_relay.Quic.Header.Layout.{long_header}
use quic_relay.Quic.Coalesced.{extract_all_scids}
use quic_relay.Quic.Varint.Encode.{one}
use quic_relay.Quic.Coalesced.Packets.{LongPacket, coalesce, IsLong, extract_all_scids-coalesce}
use quic_relay.Map.{lookup}
use quic_relay.Chains.{
  put, new_chains, retain_chain, release_chain, reload_chain, retire_chain, shutdown_chain,
}
use quic_relay.Chains.Safety.{
  World, connect, disconnect, reload, Reachable, start, next, IsSafe, Reachable-IsSafe,
}
use quic_relay.Sessions.{Context, Tables, learn_server_scid, delete_session, find_session}
use quic_relay.Sessions.Aliases.{IsLinked, Deletes, delete_session-Deletes}
use quic_relay.Sessions.Lookup.{find_session-learned}

abbrev w0 : World
w0 = record { chains = new_chains 1; serving = λ c. 0; loaded = put 1 true (λ c. false) }

abbrev w1 : World
w1 = record {
  chains = retain_chain 1 (new_chains 1);
  serving = put 1 1 (λ c. 0);
  loaded = w0.loaded;
}

abbrev w2 : World
w2 = record w1 { chains = reload_chain 2 w1.chains; loaded = put 2 true w1.loaded }

abbrev w3 : World
w3 = record { chains = release_chain 1 w2.chains; serving = put 1 0 w2.serving; loaded = w2.loaded }

-- A session, a reload, and the end of the session.
w3-Reachable : Reachable 1 w3
unfolding new_chains retain_chain
w3-Reachable =
    next w2 w3 (next w1 w2 (next w0 w1 start (connect w0)) (reload w1 2 refl refl))
      (disconnect w2 1 (omega arith))

w3-shut : w3.chains.shut 1 ≡ 1
unfolding new_chains retain_chain reload_chain retire_chain release_chain shutdown_chain
w3-shut = refl

Reachable-IsSafe_example : IsSafe w3 1
Reachable-IsSafe_example = Reachable-IsSafe 1 w3 w3-Reachable 1

abbrev dcid : Bytes
dcid = 0xc1 ∷ 0xc2 ∷ []

abbrev server : Bytes
server = 0xa1 ∷ 0xa2 ∷ 0xa3 ∷ []

abbrev session : Context
session = record {
  chain = 1;
  dcid = dcid;
  client_addr = some (record { ip = 10 ∷ 0 ∷ 0 ∷ 9 ∷ []; port = 5; text = 9 ∷ [] });
}

abbrev tables : Tables
tables = record {
  sessions = (dcid, session) ∷ [];
  session_count = 1;
  dcid_aliases = (7 ∷ [], dcid) ∷ [];
  session_aliases = (dcid, (7 ∷ []) ∷ []) ∷ [];
  client_sessions = (9 ∷ [], dcid) ∷ [];
  dcid_lengths = 2 ∷ 1 ∷ [];
  chains = w1.chains;
}

tables-IsLinked : IsLinked tables
unfolding lookup bytes_eq contains
tables-IsLinked = record {
  aliases_map = (refl, tt);
  sets_map = (refl, tt);
  sessions_map = (refl, tt);
  linked = λ a key e. ground (arith, e);
}

abbrev packets : List LongPacket
packets =
    record {
      first = 0xe0;
      v0 = 0;
      v1 = 0;
      v2 = 0;
      v3 = 1;
      dcid = [];
      scid = server;
      payload = [];
      length_size = one;
    }
    ∷ []

packets-IsLong : All IsLong packets
packets-IsLong = (record { long = refl; fits = omega arith }, tt)

delete_session-Deletes_example : Deletes dcid tables (delete_session dcid session tables)
unfolding lookup bytes_eq
delete_session-Deletes_example = delete_session-Deletes dcid session tables tables-IsLinked refl

packets-read : extract_all_scids (coalesce packets) ≡ ok (server ∷ [])
unfolding contains
packets-read = extract_all_scids-coalesce packets packets-IsLong

find_session-learned_example :
    (learn_server_scid dcid (coalesce packets) tables
      >>= find_session (long_header 0xe0 0 0 0 1 server dcid (0x40 ∷ 0 ∷ [])) handshake none)
    ≡ ok (some session, some server)
unfolding lookup bytes_eq contains
find_session-learned_example =
    find_session-learned dcid (coalesce packets) server (server ∷ []) tables session 0xe0 0 0 0 1
      dcid (0x40 ∷ 0 ∷ []) handshake none packets-read refl refl refl refl refl refl
