-- ===== src/Proxy/Cleanup/Ends.antt =====
-- What the cleanup and Stop leave of the sessions, and that each session is ended once.
use quic_relay.Prelude.{
  ℕ, ◌+◌, ◌%◌, ◌^◌, ◌<◌, ◌↔◌, ◌⊎◌, ltb, ◌||◌, ◌≤◌, ◌≡◌, ◌∙◌, refl, sym, arith, ◌*◌, ◌/◌, leb, Bool,
  true, false, none, List, [], ◌∷◌, ◌++◌, Bool-cases, inl, inr, if◌then◌else◌, append-nil,
  append_assoc,
}
use quic_relay.Go.{Bytes, bytes_eq_iff, bytes_eq_self}
use quic_relay.Map.{Map, lookup, size, is_some, IsMap}
use quic_relay.Map.Laws.{AllValues}
use quic_relay.Assembler.{Assembler, is_expired}
use quic_relay.Assembler.Cells.{IsValid}
use quic_relay.Capped.{Capped, max_assemblers, max_pending_buffers}
use quic_relay.Capped.Laws.{IsCapped}
use quic_relay.Sessions.{Context}
use quic_relay.Proxy.State.{Proxy, end_session}
use quic_relay.Proxy.Oldest.Removal.{
  IsSoundTables, Keeps, Keeps-trans, end_session-IsSoundTables, lookup-end_session,
  size-end_session, end_session-Keeps,
}
use quic_relay.Proxy.Packet.Store.{IsSound, rest-IsSound}
use quic_relay.Proxy.Cleanup.{
  end_where, sweep, sweep_assemblers, count_others, is_old_assembler, is_old_buffer, is_idle,
  cleanup_sessions, stop,
}
use quic_relay.Proxy.Cleanup.Sweep.{sweep-IsCapped, sweep-AllValues, sweep-kept}

-- The sessions that pass, as OnDisconnect is given them.
abbrev pub ended : (Bytes → Bool) → Map Context → List (ℕ × Bytes)
ended test [] = []
ended test ((key, ctx) ∷ m) =
    if test key then (ctx.chain, ctx.dcid) ∷ ended test m else ended test m

-- After a Range over `m`: the sessions of `m` that pass are gone, each after one OnDisconnect, and
-- nothing else has changed.
pub record Ends (extra : ℕ) (test : Bytes → Bool) (m : Map Context) (p p' : Proxy) : Type 0 where
  pub sound : IsSoundTables extra p'.tables
  pub keeps : Keeps p p'
  pub fewer : size p'.tables.sessions ≤ size p.tables.sessions
  pub disconnected : p'.disconnected ≡ p.disconnected ++ ended test m
  pub sessions :
      (j : Bytes)
      → lookup j p'.tables.sessions ≡ (
          if is_some (lookup j m)
          then (if test j then none else lookup j p.tables.sessions)
          else lookup j p.tables.sessions)

module _ (extra : ℕ) (test : Bytes → Bool) where
  pub end_where-Ends :
      (m : Map Context) (p : Proxy)
      → IsSoundTables extra p.tables
      → IsMap m
      → ((j : Bytes) → is_some (lookup j m) ≡ true → is_some (lookup j p.tables.sessions) ≡ true)
      → Ends extra test m p (end_where test m p)
  unfolding end_where end_session lookup
  end_where-Ends [] p s d within = record {
    sound = s;
    keeps = record { assemblers = refl; pending = refl; fewer = λ j e. e };
    fewer = omega arith;
    disconnected = sym (append-nil p.disconnected);
    sessions = λ j. refl;
  }
  end_where-Ends ((key, ctx) ∷ m) p s d within =
      let there : is_some (lookup key p.tables.sessions) ≡ true =
        ground (arith, within key, bytes_eq_self key) in
      let next = end_session key ctx p in
      elim (Bool-cases (test key)) [
        | inl ends ↦
            let rest =
              end_where-Ends m next (end_session-IsSoundTables extra key ctx p s there) d.1 (λ j e.
                ground (
                  arith,
                  e,
                  d.0,
                  within j,
                  lookup-end_session extra key ctx p s there j,
                  bytes_eq_iff key j,
                )) in
            rw (ends, end_where)
              (record {
                sound = rest.sound;
                keeps =
                    Keeps-trans p next (end_where test m next)
                      (end_session-Keeps extra key ctx p s there) rest.keeps;
                fewer = omega (arith, rest.fewer, size-end_session extra key ctx p s there);
                disconnected = rw ends (
                    rest.disconnected
                    ∙ append_assoc p.disconnected ((ctx.chain, ctx.dcid) ∷ []) (ended test m));
                sessions = λ j. ground (
                  arith,
                  ends,
                  d.0,
                  rest.sessions j,
                  lookup-end_session extra key ctx p s there j,
                  bytes_eq_iff key j,
                );
              })
        | inr stays ↦
            let rest = end_where-Ends m p s d.1 (λ j e. ground (arith, e, within j)) in
            rw (stays, end_where)
              (record {
                sound = rest.sound;
                keeps = rest.keeps;
                fewer = rest.fewer;
                disconnected = rw stays rest.disconnected;
                sessions = λ j. ground (arith, stays, d.0, rest.sessions j, bytes_eq_iff key j);
              })
      ]

size-empty : {V : Type 0} (m : Map V) → ((j : Bytes) → lookup j m ≡ none) → size m ≡ 0
unfolding lookup
size-empty [] h = refl
size-empty ((key, v) ∷ m) h = absurd (ground (arith, h key, bytes_eq_self key))

either_way :
    {A : Type 0} (P : A → Type 0) (test : Bool) (x y : A) → P x → P y → P (if test then x else y)
either_way P true x y p q = p
either_way P false x y p q = q

sweep_assemblers-IsCapped :
    (now : ℕ) (t : Capped Assembler)
    → IsCapped max_assemblers t
    → IsCapped max_assemblers (sweep_assemblers now t)
unfolding sweep_assemblers
sweep_assemblers-IsCapped now t h =
    let t' = sweep (is_expired now) t.entries t in
    let h' = sweep-IsCapped max_assemblers (omega arith) (is_expired now) t.entries t h in
    either_way (IsCapped max_assemblers)
      (leb (max_assemblers * 9 / 10) (count_others (is_expired now) t.entries)) _ t'
      (sweep-IsCapped max_assemblers (omega arith) (is_old_assembler now) t'.entries t' h') h'

sweep_assemblers-kept :
    (P : Assembler → Type 0) (now : ℕ) (t : Capped Assembler)
    → IsCapped max_assemblers t
    → AllValues P (sweep (is_expired now) t.entries t).entries
    → AllValues P (sweep_assemblers now t).entries
unfolding sweep_assemblers
sweep_assemblers-kept P now t h all =
    let t' = sweep (is_expired now) t.entries t in
    let h' = sweep-IsCapped max_assemblers (omega arith) (is_expired now) t.entries t h in
    either_way (λ t. AllValues P t.entries)
      (leb (max_assemblers * 9 / 10) (count_others (is_expired now) t.entries)) _ t'
      (sweep-kept max_assemblers (omega arith) (is_old_assembler now) P t' h' all) all

-- After a tick: the proxy is sound; of its sessions exactly those are gone that were idle for longer than
-- the timeout, each with one OnDisconnect; no assembler and no buffer is left that has expired. The
-- timeout is an int64 of nanoseconds: where the seconds in nanoseconds do not fit, it wraps, and
-- every session is idle for longer than a negative one.
pub record Cleans (cap now : ℕ) (idle : Bytes → ℕ) (p p' : Proxy) : Type 0 where
  pub sound : IsSound cap 0 p'
  pub sessions :
      (j : Bytes)
      → lookup j p'.tables.sessions
        ≡ (if is_idle p.session_timeout idle j then none else lookup j p.tables.sessions)
  pub idle_ones :
      (j : Bytes)
      → let timeout = p.session_timeout * 10 ^ 9 % 2 ^ 64 in
        (is_idle p.session_timeout idle j ≡ true) ↔ ((2 ^ 63 ≤ timeout) ⊎ (timeout < idle j))
  pub disconnected :
      p'.disconnected ≡ p.disconnected ++ ended (is_idle p.session_timeout idle) p.tables.sessions
  pub assemblers : AllValues (λ a. is_expired now a ≡ false) p'.assemblers.entries
  pub pending : AllValues (λ buf. is_old_buffer now buf ≡ false) p'.pending.entries

test_iff :
    (timeout n : ℕ)
    → ((leb (2 ^ 63) timeout || ltb timeout n) ≡ true) ↔ ((2 ^ 63 ≤ timeout) ⊎ (timeout < n))
test_iff timeout n = ground arith

is_idle_iff :
    (seconds : ℕ) (idle : Bytes → ℕ) (j : Bytes)
    → let timeout = seconds * 10 ^ 9 % 2 ^ 64 in
      (is_idle seconds idle j ≡ true) ↔ ((2 ^ 63 ≤ timeout) ⊎ (timeout < idle j))
is_idle_iff seconds idle j = test_iff (seconds * 10 ^ 9 % 2 ^ 64) (idle j)

module _ (cap : ℕ) (p : Proxy) (s : IsSound cap 0 p) where
  all-Ends :
      (test : Bytes → Bool) → Ends 0 test p.tables.sessions p (end_where test p.tables.sessions p)
  all-Ends test =
      end_where-Ends 0 test p.tables.sessions p s.tables s.tables.linked.sessions_map (λ j e. e)

  lookup-all :
      (test : Bytes → Bool) (j : Bytes)
      → lookup j (end_where test p.tables.sessions p).tables.sessions
        ≡ (if test j then none else lookup j p.tables.sessions)
  lookup-all test j = ground (arith, (all-Ends test).sessions j)

  -- A tick of the cleanup on a sound proxy: it is sound again; exactly the sessions that were idle for
  -- longer than the timeout are gone, each with one OnDisconnect; and no assembler and no pending
  -- buffer is left that has expired. The timeout is the int64 that the seconds times 10^9 wrap to: up to
  -- 9223372036 seconds it is these seconds, and where it is negative every session is gone.
  pub cleanup_sessions-Cleans :
      (now : ℕ) (idle : Bytes → ℕ) → Cleans cap now idle p (cleanup_sessions now idle p)
  unfolding cleanup_sessions
  cleanup_sessions-Cleans now idle =
      let q = end_where (is_idle p.session_timeout idle) p.tables.sessions p in
      let e = all-Ends (is_idle p.session_timeout idle) in
      let r =
        rest-IsSound 0 0 p q e.keeps.assemblers e.keeps.pending e.sound
          (omega (arith, e.fewer, s.below)) (omega (arith, e.fewer, s.within)) s in
      record {
        sound = record {
          tables = r.tables;
          below = r.below;
          within = r.within;
          assemblers = sweep_assemblers-IsCapped now q.assemblers r.assemblers;
          valid = sweep_assemblers-kept IsValid now q.assemblers r.assemblers (
              sweep-kept max_assemblers (omega arith) (is_expired now) IsValid q.assemblers
                r.assemblers r.valid);
          pending =
              sweep-IsCapped max_pending_buffers (omega arith) (is_old_buffer now) q.pending.entries
                q.pending r.pending;
        };
        sessions = lookup-all (is_idle p.session_timeout idle);
        idle_ones = is_idle_iff p.session_timeout idle;
        disconnected = e.disconnected;
        assemblers =
            sweep_assemblers-kept (λ a. is_expired now a ≡ false) now q.assemblers r.assemblers
              (sweep-AllValues max_assemblers (omega arith) (is_expired now) q.assemblers
                r.assemblers);
        pending =
            sweep-AllValues max_pending_buffers (omega arith) (is_old_buffer now) q.pending
              r.pending;
      }

  -- Stop on a sound proxy: no session is left, each that was there had one OnDisconnect, and the counter
  -- is 0.
  pub stop-Ends :
      ((j : Bytes) → lookup j (stop p).tables.sessions ≡ none)
      × ((stop p).disconnected ≡ p.disconnected ++ ended (λ key. true) p.tables.sessions)
      × ((stop p).tables.session_count ≡ 0)
  unfolding stop
  stop-Ends = (
    lookup-all (λ key. true),
    (all-Ends (λ key. true)).disconnected,
    (all-Ends (λ key. true)).sound.counted ∙ sizes,
  )
    where
      sizes : size (end_where (λ key. true) p.tables.sessions p).tables.sessions + 0 ≡ 0
      sizes = omega (
        arith,
        size-empty (end_where (λ key. true) p.tables.sessions p).tables.sessions
            (lookup-all (λ key. true)),
      )
