-- ===== src/Proxy/Oldest/Removal.antt =====
-- What cleanupOldestSessions leaves: sound tables, with fewer sessions.
use quic_relay.Prelude.{
  ℕ, ◌+◌, ◌<◌, ◌≡◌, ◌∙◌, ◌^◌, refl, ap, arith, true, false, min, leb, none, some, List, [], ◌∷◌,
  length, if◌then◌else◌, inl, inr, Option-cases,
}
use quic_relay.Go.{Bytes, bytes_eq, bytes_eq_iff, bytes_eq_self, contains, Distinct}
use quic_relay.Map.{lookup, delete, size, is_some}
use quic_relay.Map.Laws.{lookup-delete, size-delete}
use quic_relay.Capped.{decrement}
use quic_relay.Sessions.{Context, Tables, delete_session, delete_session_aliases}
use quic_relay.Sessions.Aliases.{IsLinked, delete_session-Deletes, delete_session-fields}
use quic_relay.Proxy.State.{Proxy, end_session}
use quic_relay.Proxy.Oldest.{SessionAge, collect, remove_all, cleanup_oldest_sessions}
use quic_relay.Proxy.Oldest.Choice.{keys, collect-Chosen_all}

-- Every alias and every session is where it belongs, and the counter is the number of sessions and
-- of `extra` slots more.
pub record IsSoundTables (extra : ℕ) (t : Tables) : Type 0 where
  pub linked : IsLinked t
  pub keyed :
      (j : Bytes) (c : Context)
      → lookup j t.sessions ≡ some c
      → (c.dcid ≡ j) × (is_some c.client_addr ≡ true)
  pub counted : t.session_count ≡ size t.sessions + extra
  pub bounded : t.session_count < 2 ^ 63

module _ (extra : ℕ) (key : Bytes) (ctx : Context) (t : Tables) (s : IsSoundTables extra t)
    (there : is_some (lookup key t.sessions) ≡ true) where
  delete_session-count : (delete_session key ctx t).session_count ≡ decrement t.session_count
  unfolding delete_session delete_session_aliases
  delete_session-count = ground (arith, there)

  pub delete_session-sessions : (delete_session key ctx t).sessions ≡ delete key t.sessions
  delete_session-sessions = (delete_session-fields key ctx t s.linked there).0

  pub delete_session-IsSoundTables : IsSoundTables extra (delete_session key ctx t)
  delete_session-IsSoundTables = record {
    linked = (delete_session-Deletes key ctx t s.linked there).still_linked;
    keyed = λ j c e. s.keyed j c (
        ground (
          arith,
          e,
          delete_session-sessions,
          lookup-delete key j t.sessions s.linked.sessions_map,
        ));
    counted = ground (
      arith,
      delete_session-sessions,
      delete_session-count,
      size-delete key t.sessions,
      s.counted,
      s.bounded,
      there,
    );
    bounded =
        ground
          (arith, delete_session-count, size-delete key t.sessions, s.counted, s.bounded, there);
  }

-- What a removal leaves alone.
pub record Keeps (p p' : Proxy) : Type 0 where
  pub assemblers : p'.assemblers ≡ p.assemblers
  pub pending : p'.pending ≡ p.pending
  pub fewer : (j : Bytes) → lookup j p.tables.sessions ≡ none → lookup j p'.tables.sessions ≡ none

pub record Removes (extra : ℕ) (h : List SessionAge) (p p' : Proxy) : Type 0 where
  pub sound : IsSoundTables extra p'.tables
  pub keeps : Keeps p p'
  pub number : size p'.tables.sessions + length h ≡ size p.tables.sessions

module _ (extra : ℕ) (key : Bytes) (ctx : Context) (p : Proxy) (s : IsSoundTables extra p.tables)
    (there : is_some (lookup key p.tables.sessions) ≡ true) where
  pub end_session-IsSoundTables : IsSoundTables extra (end_session key ctx p).tables
  unfolding end_session
  end_session-IsSoundTables = delete_session-IsSoundTables extra key ctx p.tables s there

  pub lookup-end_session :
      (j : Bytes)
      → lookup j (end_session key ctx p).tables.sessions
        ≡ (if bytes_eq key j then none else lookup j p.tables.sessions)
  unfolding end_session
  lookup-end_session j =
      ap (lookup j) (delete_session-sessions extra key ctx p.tables s there)
      ∙ lookup-delete key j p.tables.sessions s.linked.sessions_map

  pub size-end_session : size (end_session key ctx p).tables.sessions + 1 ≡ size p.tables.sessions
  unfolding end_session
  size-end_session = ground (
    arith,
    there,
    delete_session-sessions extra key ctx p.tables s there,
    size-delete key p.tables.sessions,
  )

  pub end_session-Keeps : Keeps p (end_session key ctx p)
  unfolding end_session
  end_session-Keeps = record {
    assemblers = refl;
    pending = refl;
    fewer = λ j e. ground (arith, e, lookup-end_session j);
  }

pub Keeps-trans : (p q r : Proxy) → Keeps p q → Keeps q r → Keeps p r
Keeps-trans p q r a b = record {
  assemblers = b.assemblers ∙ a.assemblers;
  pending = b.pending ∙ a.pending;
  fewer = λ j e. b.fewer j (a.fewer j e);
}

module _ (extra : ℕ) where
  remove_all-Removes :
      (h : List SessionAge) (p : Proxy)
      → IsSoundTables extra p.tables
      → Distinct (keys h)
      → ((j : Bytes) → contains (keys h) j ≡ true → is_some (lookup j p.tables.sessions) ≡ true)
      → Removes extra h p (remove_all h p)
  unfolding remove_all contains
  remove_all-Removes [] p s d within = record {
    sound = s;
    keeps = record { assemblers = refl; pending = refl; fewer = λ j e. e };
    number = omega arith;
  }
  remove_all-Removes (age ∷ h) p s d within =
      elim (Option-cases (lookup age.key p.tables.sessions)) [
        | inl missing ↦ absurd (ground (arith, missing, within age.key, bytes_eq_self age.key))
        | inr (ctx, found) ↦
            let there : is_some (lookup age.key p.tables.sessions) ≡ true = rw found refl in
            let next = end_session age.key ctx p in
            let rest =
              remove_all-Removes h next (end_session-IsSoundTables extra age.key ctx p s there) d.1
                (λ j e. ground (
                  arith,
                  e,
                  d.0,
                  within j,
                  lookup-end_session extra age.key ctx p s there j,
                  bytes_eq_iff age.key j,
                )) in
            rw (found, remove_all)
              (record {
                sound = rest.sound;
                keeps =
                    Keeps-trans p next (remove_all h next)
                      (end_session-Keeps extra age.key ctx p s there) rest.keeps;
                number = omega (arith, rest.number, size-end_session extra age.key ctx p s there);
              })
      ]

  -- cleanupOldestSessions on sound tables, for a number above 0: the tables are still sound, and as many
  -- sessions are gone as were asked for, or all if there are fewer.
  pub cleanup_oldest_sessions-Removes :
      (n : ℕ) (idle : Bytes → ℕ) (p : Proxy)
      → 0 < n
      → IsSoundTables extra p.tables
      → Removes extra (collect n idle p.tables.sessions []) p (cleanup_oldest_sessions n idle p)
        × (size (cleanup_oldest_sessions n idle p).tables.sessions + min n (size p.tables.sessions)
            ≡ size p.tables.sessions)
  unfolding cleanup_oldest_sessions
  cleanup_oldest_sessions-Removes n idle p pos s =
      let c = collect-Chosen_all n idle p.tables.sessions pos s.linked.sessions_map in
      let r = remove_all-Removes (collect n idle p.tables.sessions []) p s c.distinct c.within in
      let e : leb n 0 ≡ false = ground arith in
      rw (e, cleanup_oldest_sessions) (r, omega (arith, r.number, c.number))
