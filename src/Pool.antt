-- ===== src/Pool.antt =====
-- internal/proxy/pool.go: packets queue by their client's address, one queue for each worker. A channel
-- is a list and its capacity; the buffers that go back to a pool are not modelled. The number of
-- processors is a parameter.
pub mod Order
pub mod Drained
use quic_relay.Prelude.{
  ℕ, zero, suc, ◌+◌, ◌*◌, ◌/◌, ◌%◌, ◌^◌, Bool, true, false, ltb, leb, ◌==◌, bit_xor, Option, none,
  some, List, [], ◌∷◌, ◌++◌, length, if◌then◌else◌,
}
use quic_relay.Go.{Go, ok, err, panic, stuck, Bytes}
use quic_relay.Net.{Addr}

pub record WorkItem : Type 0 where
  pub client_addr : Addr
  pub packet : Bytes

pub record WorkerPool : Type 0 where
  pub queues : ℕ → List WorkItem
  pub workers : ℕ
  pub queue_per_shard : ℕ
  pub dropped : ℕ → ℕ

abbrev pub at_least : ℕ → ℕ → ℕ
at_least low n = if ltb n low then low else n

-- NewWorkerPool; a size that is not above 0 is 0 here. A division by 0 processors does not occur.
unfoldable pub new_worker_pool : ℕ → ℕ → ℕ → WorkerPool
new_worker_pool cpus workers queue_size =
    let workers' = if leb workers 0 then cpus * 2 else workers in
    let size' = if leb queue_size 0 then 1024 else queue_size in
    record {
      queues = λ i. [];
      workers = workers';
      queue_per_shard = at_least 100 (size' / workers');
      dropped = λ i. 0;
    }

abbrev fnv_prime : ℕ
fnv_prime = 16777619

-- A step of the hash: `h ^= x; h *= 16777619` on a uint32.
unfoldable pub mix : ℕ → ℕ → ℕ
mix h x = bit_xor h (x % 2 ^ 32) * fnv_prime % 2 ^ 32

unfoldable pub mix_all : ℕ → Bytes → ℕ
mix_all h [] = h
mix_all h (b ∷ bs) = mix_all (mix h b) bs

unfoldable pub hash_addr : Addr → ℕ
hash_addr addr = mix (mix (mix_all 2166136261 addr.ip) addr.port) (addr.port / 2 ^ 8)

-- The index of the queue.
unfoldable pub shard : ℕ → Addr → ℕ
shard workers addr = hash_addr addr % (workers % 2 ^ 32)

abbrev pub update : {V : Type 0} → ℕ → V → (ℕ → V) → ℕ → V
update i v f j = if i == j then v else f j

-- Submit: the send succeeds if there is room in the channel.
unfoldable pub submit : WorkItem → WorkerPool → WorkerPool × Bool
submit item p =
    let i = shard p.workers item.client_addr in
    if ltb (length (p.queues i)) p.queue_per_shard
    then (record p { queues = update i (p.queues i ++ (item ∷ [])) p.queues }, true)
    else (record p { dropped = update i ((p.dropped i + 1) % 2 ^ 64) p.dropped }, false)

-- Dropped
unfoldable pub total_dropped : WorkerPool → ℕ → ℕ
total_dropped p zero = 0
total_dropped p (suc i) = (total_dropped p i + p.dropped i) % 2 ^ 64

-- QueueSize
unfoldable pub queue_size : WorkerPool → ℕ → ℕ
queue_size p zero = 0
queue_size p (suc i) = queue_size p i + length (p.queues i)

-- A worker's receive from its queue, `none` where it waits, or where it ends if the queue is closed.
unfoldable pub receive : ℕ → WorkerPool → List WorkItem → Option (WorkItem × WorkerPool)
receive id p [] = none
receive id p (item ∷ rest) = some (item, record p { queues = update id rest p.queues })

unfoldable pub take_packet : ℕ → WorkerPool → Option (WorkItem × WorkerPool)
unfolding receive
take_packet id p = receive id p (p.queues id)

-- The workers from Stop on, in the order in which they get to run: no packet is added any more, and
-- the queues still give out what they hold. The packets are listed as their handling begins.
unfoldable pub drain : List ℕ → WorkerPool → List WorkItem → WorkerPool × List WorkItem
drain [] p handled = (p, handled)
drain (id ∷ ids) p handled = elim (take_packet id p) [
  | none ↦ drain ids p handled
  | some (item, p') ↦ drain ids p' (handled ++ (item ∷ []))
]
