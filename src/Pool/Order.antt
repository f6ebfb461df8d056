-- ===== src/Pool/Order.antt =====
-- However the workers and the submissions interleave, the packets of a client are handled in the order
-- in which they were accepted.
use quic_relay.Prelude.{
  ℕ, ◌≤◌, ◌<◌, ◌≡◌, ◌∙◌, refl, sym, ap, subst, arith, Bool, true, false, ◌&&◌, ltb, ◌==◌, List, [],
  ◌∷◌, ◌++◌, append-nil, append_assoc, length, length-append, Bool-cases, inl, inr, if◌then◌else◌,
}
use quic_relay.Go.{bytes_eq, bytes_eq_iff}
use quic_relay.Net.{Addr}
use quic_relay.Pool.{WorkItem, WorkerPool, new_worker_pool, hash_addr, shard, update, submit}

-- The pool, with the packets that were accepted and those whose handling has begun.
pub record World : Type 0 where
  pub pool : WorkerPool
  pub accepted : List WorkItem
  pub handled : List WorkItem

-- A submission, by any goroutine, or a worker that takes the first packet of its queue.
pub data Step : World → World → Type 0 where
  submitted :
      (w : World) (item : WorkItem)
      → Step w (record w {
        pool = (submit item w.pool).0;
        accepted = if (submit item w.pool).1 then w.accepted ++ (item ∷ []) else w.accepted;
      })
  taken :
      (w : World) (i : ℕ) (item : WorkItem) (rest : List WorkItem)
      → w.pool.queues i ≡ item ∷ rest
      → Step w (record w {
        pool = record w.pool { queues = update i rest w.pool.queues };
        handled = w.handled ++ (item ∷ []);
      })

pub data Reachable (cpus workers queue_size : ℕ) : World → Type 0 where
  start :
      Reachable cpus workers queue_size
        (record { pool = new_worker_pool cpus workers queue_size; accepted = []; handled = [] })
  step :
      (w w' : World)
      → Reachable cpus workers queue_size w
      → Step w w'
      → Reachable cpus workers queue_size w'

abbrev pub select : (WorkItem → Bool) → List WorkItem → List WorkItem
select test [] = []
select test (x ∷ l) = if test x then x ∷ select test l else select test l

abbrev pub of_shard : ℕ → ℕ → WorkItem → Bool
of_shard workers i item = shard workers item.client_addr == i

abbrev pub is_from : Addr → WorkItem → Bool
is_from addr item = bytes_eq item.client_addr.ip addr.ip && item.client_addr.port == addr.port

select-append :
    (test : WorkItem → Bool) (l m : List WorkItem)
    → select test (l ++ m) ≡ select test l ++ select test m
select-append test [] m = refl
select-append test (x ∷ l) m = ground (arith, select-append test l m)

length-select : (test : WorkItem → Bool) (l : List WorkItem) → length (select test l) ≤ length l
length-select test [] = omega arith
length-select test (x ∷ l) = ground (arith, length-select test l)

-- If nothing is left out, the first passes, and nothing of the rest is left out.
select-head :
    (test : WorkItem → Bool) (x : WorkItem) (l : List WorkItem)
    → select test (x ∷ l) ≡ x ∷ l
    → (test x ≡ true) × (select test l ≡ l)
select-head test x l e = elim (Bool-cases (test x)) [
  | inl hit ↦ (hit, ground (arith, e, hit))
  | inr miss ↦ absurd (ground (arith, e, miss, length-select test l, ap length e))
]

-- Each queue holds what its shard accepted and has not begun to handle, in that order, and never
-- more than its capacity.
pub record Keeps (w : World) (i : ℕ) : Type 0 where
  pub order :
      select (of_shard w.pool.workers i) w.accepted
      ≡ select (of_shard w.pool.workers i) w.handled ++ w.pool.queues i
  pub own : select (of_shard w.pool.workers i) (w.pool.queues i) ≡ w.pool.queues i
  pub bound : length (w.pool.queues i) ≤ w.pool.queue_per_shard

module _ (w : World) (item : WorkItem) (keeps : (i : ℕ) → Keeps w i) (i : ℕ) where
  abbrev test : WorkItem → Bool
  test = of_shard w.pool.workers i

  -- The packet goes to the end of its queue.
  accepted-Keeps :
      (s : ℕ)
      → shard w.pool.workers item.client_addr ≡ s
      → length (w.pool.queues s) < w.pool.queue_per_shard
      → Keeps
          (record w {
            pool = record w.pool {
              queues = update s (w.pool.queues s ++ (item ∷ [])) w.pool.queues;
            };
            accepted = w.accepted ++ (item ∷ []);
          })
          i
  accepted-Keeps s e room = elim (Bool-cases (s == i)) [
    | inl here ↦
        let same : s ≡ i = ground (arith, here) in
        let hit : test item ≡ true = ground (arith, e, here) in
        record {
          order =
              rw (here, same, select-append test w.accepted (item ∷ []), hit, (keeps i).order)
                (append_assoc (select test w.handled) (w.pool.queues i) (item ∷ []));
          own =
              rw (here, same, select-append test (w.pool.queues i) (item ∷ []), hit, (keeps i).own)
                refl;
          bound = ground (arith, here, room, length-append (w.pool.queues s) (item ∷ []));
        }
    | inr elsewhere ↦
        let miss : test item ≡ false = ground (arith, e, elsewhere) in
        record {
          order =
              rw
                (
                  elsewhere,
                  select-append test w.accepted (item ∷ []),
                  miss,
                  append-nil (select test w.accepted),
                )
                (keeps i).order;
          own = rw elsewhere (keeps i).own;
          bound = rw elsewhere (keeps i).bound;
        }
  ]

  submit-Keeps :
      Keeps
        (record w {
          pool = (submit item w.pool).0;
          accepted = if (submit item w.pool).1 then w.accepted ++ (item ∷ []) else w.accepted;
        })
        i
  unfolding submit
  submit-Keeps =
      let s = shard w.pool.workers item.client_addr in
      elim (Bool-cases (ltb (length (w.pool.queues s)) w.pool.queue_per_shard)) [
        | inl room ↦ rw (submit, room) (accepted-Keeps s refl (ground (arith, room)))
        | inr full ↦
            rw (submit, full)
              (record { order = (keeps i).order; own = (keeps i).own; bound = (keeps i).bound })
      ]

  taken-Keeps :
      (s : ℕ) (rest : List WorkItem)
      → w.pool.queues s ≡ item ∷ rest
      → Keeps
          (record w {
            pool = record w.pool { queues = update s rest w.pool.queues };
            handled = w.handled ++ (item ∷ []);
          })
          i
  taken-Keeps s rest e =
      let own' : select (of_shard w.pool.workers s) (item ∷ rest) ≡ item ∷ rest =
        subst (λ l. select (of_shard w.pool.workers s) l ≡ l) e (keeps s).own in
      let first : of_shard w.pool.workers s item ≡ true =
        (select-head (of_shard w.pool.workers s) item rest own').0 in
      elim (Bool-cases (s == i)) [
        | inl here ↦
            let same : s ≡ i = ground (arith, here) in
            let hit : test item ≡ true = rw⁻¹ same first in
            let q : w.pool.queues i ≡ item ∷ rest = rw⁻¹ same e in
            record {
              order =
                  rw (here, select-append test w.handled (item ∷ []), hit)
                    ((keeps i).order
                      ∙ ap (λ l. select test w.handled ++ l) q
                      ∙ sym (append_assoc (select test w.handled) (item ∷ []) rest));
              own =
                  rw here
                    (select-head test item rest (subst (λ l. select test l ≡ l) q (keeps i).own)).1;
              bound = ground (arith, here, same, q, (keeps i).bound);
            }
        | inr elsewhere ↦
            let miss : test item ≡ false = ground (arith, first, elsewhere) in
            record {
              order =
                  rw
                    (
                      elsewhere,
                      select-append test w.handled (item ∷ []),
                      miss,
                      append-nil (select test w.handled),
                    )
                    (keeps i).order;
              own = rw elsewhere (keeps i).own;
              bound = rw elsewhere (keeps i).bound;
            }
      ]

Reachable-Keeps :
    (cpus workers queue_size : ℕ) (w : World)
    → Reachable cpus workers queue_size w
    → (i : ℕ) → Keeps w i
unfolding new_worker_pool
Reachable-Keeps cpus workers queue_size w start i = record {
  order = refl;
  own = refl;
  bound = omega arith;
}
Reachable-Keeps cpus workers queue_size w (step v _ r (submitted _ item)) i =
    submit-Keeps v item (Reachable-Keeps cpus workers queue_size v r) i
Reachable-Keeps cpus workers queue_size w (step v _ r (taken _ s item rest e)) i =
    taken-Keeps v item (Reachable-Keeps cpus workers queue_size v r) i s rest e

-- The packets of one client are in one queue.
is_from-shard :
    (workers : ℕ) (addr : Addr) (item : WorkItem)
    → is_from addr item ≡ true
    → of_shard workers (shard workers addr) item ≡ true
unfolding shard hash_addr
is_from-shard workers addr item e =
    let ips : item.client_addr.ip ≡ addr.ip =
      (bytes_eq_iff item.client_addr.ip addr.ip).0 (ground (arith, e)) in
    let ports : item.client_addr.port ≡ addr.port = ground (arith, e) in
    let same : shard workers item.client_addr ≡ shard workers addr = rw (ips, ports) refl in
    ground (arith, same)

select-select :
    (finer coarser : WorkItem → Bool) (l : List WorkItem)
    → ((x : WorkItem) → finer x ≡ true → coarser x ≡ true)
    → select finer (select coarser l) ≡ select finer l
select-select finer coarser [] h = refl
select-select finer coarser (x ∷ l) h = ground (arith, h x, select-select finer coarser l h)

-- In every state that submissions and workers can reach, in any order: the packets of a client that
-- were accepted are those whose handling has begun and those in its queue, in the order in which
-- they were accepted; and the queue is within its capacity.
pub Reachable-order :
    (cpus workers queue_size : ℕ) (w : World) (addr : Addr)
    → Reachable cpus workers queue_size w
    → (select (is_from addr) w.accepted
        ≡ select (is_from addr) w.handled
          ++ select (is_from addr) (w.pool.queues (shard w.pool.workers addr)))
      × (length (w.pool.queues (shard w.pool.workers addr)) ≤ w.pool.queue_per_shard)
Reachable-order cpus workers queue_size w addr r =
    let k = Reachable-Keeps cpus workers queue_size w r (shard w.pool.workers addr) in
    let coarse = of_shard w.pool.workers (shard w.pool.workers addr) in
    let fine = λ (l : List WorkItem).
      select-select (is_from addr) coarse l (is_from-shard w.pool.workers addr) in
    (
      sym (fine w.accepted)
          ∙ ap (select (is_from addr)) k.order
          ∙ select-append (is_from addr) (select coarse w.handled)
              (w.pool.queues (shard w.pool.workers addr))
          ∙ ap (λ l. l ++ select (is_from addr) (w.pool.queues (shard w.pool.workers addr)))
              (fine w.handled),
      k.bound,
    )
