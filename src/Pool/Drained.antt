-- ===== src/Pool/Drained.antt =====
-- Stop of internal/proxy/pool.go: what was accepted is handled before the workers end.
use quic_relay.Prelude.{
  ℕ, suc, ◌-◌, ◌≤◌, ◌≡◌, ◌⊎◌, ◌∙◌, refl, ap, arith, ◌==◌, List, [], ◌∷◌, ◌++◌, append-nil, length,
  if◌then◌else◌, inl, inr,
}
use quic_relay.Net.{Addr}
use quic_relay.Pool.{WorkItem, WorkerPool, shard, update, receive, take_packet, drain}
use quic_relay.Pool.Order.{World, Reachable, step, taken, select, is_from, Reachable-order}

abbrev pub count : ℕ → List ℕ → ℕ
count i [] = 0
count i (id ∷ ids) = if id == i then suc (count i ids) else count i ids

-- The world after the workers ran.
abbrev pub drained : List ℕ → World → World
drained ids w = record w {
  pool = (drain ids w.pool w.handled).0;
  handled = (drain ids w.pool w.handled).1;
}

pub queue-cases :
    (l : List WorkItem) → (l ≡ []) ⊎ ((x : WorkItem) × (rest : List WorkItem) × (l ≡ x ∷ rest))
queue-cases [] = inl refl
queue-cases (x ∷ rest) = inr (x, rest, refl)

drained-Reachable :
    (cpus workers queue_size : ℕ) (ids : List ℕ) (w : World)
    → Reachable cpus workers queue_size w
    → Reachable cpus workers queue_size (drained ids w)
unfolding drain take_packet receive
drained-Reachable cpus workers queue_size [] w r = r
drained-Reachable cpus workers queue_size (id ∷ ids) w r = elim (queue-cases (w.pool.queues id)) [
  | inl e ↦ rw (drained, drain, take_packet, e) (drained-Reachable cpus workers queue_size ids w r)
  | inr (item, rest, e) ↦
      rw (drained, drain, take_packet, e)
        (drained-Reachable cpus workers queue_size ids _ (step w _ r (taken w id item rest e)))
]

length-drain :
    (ids : List ℕ) (p : WorkerPool) (handled : List WorkItem) (i : ℕ)
    → length ((drain ids p handled).0.queues i) ≡ length (p.queues i) - count i ids
unfolding drain take_packet receive
length-drain [] p handled i = omega arith
length-drain (id ∷ ids) p handled i = elim (queue-cases (p.queues id)) [
  | inl e ↦ rw (drain, take_packet, e) (length-drain ids p handled i ∙ ground (arith, ap length e))
  | inr (item, rest, e) ↦
      rw (drain, take_packet, e)
        (length-drain ids (record p { queues = update id rest p.queues }) (handled ++ (item ∷ [])) i
          ∙ ground (arith, ap length e))
]

empty_of : {l : List WorkItem} → length l ≡ 0 → l ≡ []
empty_of {l} e = elim (queue-cases l) [
  | inl none_left ↦ none_left
  | inr (x, rest, some_left) ↦ absurd (omega (arith, e, ap length some_left))
]

-- From any state that submissions and workers can reach, once Stop has closed the queues and every worker
-- has run as often as its queue was long, in any order: every queue is empty, and of every client all
-- packets that were accepted were handled, in the order in which they were accepted.
pub drained-Handled :
    (cpus workers queue_size : ℕ) (w : World) (ids : List ℕ)
    → Reachable cpus workers queue_size w
    → ((i : ℕ) → length (w.pool.queues i) ≤ count i ids)
    → ((i : ℕ) → (drained ids w).pool.queues i ≡ [])
      × ((addr : Addr)
          → select (is_from addr) w.accepted ≡ select (is_from addr) (drained ids w).handled)
drained-Handled cpus workers queue_size w ids r fair =
    let empty = λ (i : ℕ). empty_of (length-drain ids w.pool w.handled i ∙ omega (arith, fair i)) in
    let end = drained ids w in
    (
      empty,
      λ addr.
          (Reachable-order cpus workers queue_size end addr
            (drained-Reachable cpus workers queue_size ids w r)).0
          ∙ rw (empty (shard end.pool.workers addr))
              (append-nil (select (is_from addr) end.handled)),
    )
