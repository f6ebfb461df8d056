-- ===== src/Tests/Context.antt =====
-- Values of a context, the terminator, the end of the worker pool and the floats, at concrete data.
use quic_relay.Prelude.{
  ℕ, ◌≤◌, ◌≡◌, refl, arith, Option, none, some, List, [], ◌∷◌, length, if◌then◌else◌,
}
use quic_relay.Prelude.Int.{pos}
use quic_relay.Go.{ok, Bytes, Returns, bytes_eq}
use quic_relay.Net.{Addr}
use quic_relay.Map.{Map}
use quic_relay.Hytale.Floats.{float16_to_float32, normalize}
use quic_relay.Hytale.Floats.Exact.{single, half, float16_to_float32-half}
use quic_relay.Values.{Any, string, int}
use quic_relay.Values.Typed.{Reads, set_all, last_of, get_value-set_all}
use quic_relay.Terminator.{Library, backend_key, terminator_connect}
use quic_relay.Terminator.Redirects.{IsTable, Connected, terminator_connect-Connected}
use quic_relay.Pool.{WorkItem, submit, new_worker_pool, hash_addr, shard, mix, mix_all}
use quic_relay.Pool.Order.{World, start, step, submitted, select, is_from}
use quic_relay.Pool.Drained.{count, drained, drained-Handled}

-- 0x3c00 is 1, and 0x0001 the smallest number above 0.
floats : (float16_to_float32 0x3c00 ≡ ok 0x3f800000) × (float16_to_float32 0x0001 ≡ ok 0x33800000)
unfolding float16_to_float32 normalize
floats = (refl, refl)

float16_to_float32-half_example :
    Returns (λ bits. single bits ≡ half 0x8001) (float16_to_float32 0x8001)
float16_to_float32-half_example = float16_to_float32-half 0x8001 (omega arith)

abbrev entries : List (Bytes × Any)
entries = (1 ∷ [], string (5 ∷ [])) ∷ (2 ∷ [], int (pos 3)) ∷ (1 ∷ [], int (pos 4)) ∷ []

get_value-set_all_example : Reads (1 ∷ []) (set_all entries none) (last_of (1 ∷ []) entries none)
get_value-set_all_example = get_value-set_all (1 ∷ []) entries

-- A table as a function, and a parser that takes the whole packet for the DCID.
abbrev library : Library
library = record {
  State = Bytes → Option Bytes;
  parse_quic_dcid = λ packet. packet;
  register_backend = λ dcid backend s d. if bytes_eq dcid d then some backend else s d;
  unregister_backend = λ dcid s d. if bytes_eq dcid d then none else s d;
  internal_addr = 99 ∷ [];
}

library-IsTable : IsTable library
library-IsTable = record {
  backend_of = λ d s. s d;
  registered = λ dcid backend d s. refl;
  unregistered = λ dcid d s. refl;
}

abbrev routed : Option (Map Any)
routed = some ((backend_key, string (8 ∷ [])) ∷ [])

terminator_connect-Connected_example :
    Connected library library-IsTable
      (7 ∷ 7 ∷ [])
      (λ d. none)
      routed
      (terminator_connect library (7 ∷ 7 ∷ []) (λ d. none) routed)
terminator_connect-Connected_example =
    terminator_connect-Connected library library-IsTable (7 ∷ 7 ∷ []) (λ d. none) routed

abbrev home : Addr
home = record { ip = 10 ∷ 1 ∷ []; port = 5000; text = 1 ∷ [] }

abbrev item : WorkItem
item = record { client_addr = home; packet = 1 ∷ [] }

abbrev idle : World
idle = record { pool = new_worker_pool 1 2 100; accepted = []; handled = [] }

abbrev waiting : World
waiting = record idle {
  pool = (submit item idle.pool).0;
  accepted = if (submit item idle.pool).1 then item ∷ [] else [];
}

-- Each of the two workers runs once.
waiting-fair : (i : ℕ) → length (waiting.pool.queues i) ≤ count i (0 ∷ 1 ∷ [])
unfolding submit new_worker_pool hash_addr shard mix mix_all
waiting-fair i = ground arith

drained-Handled_example :
    ((i : ℕ) → (drained (0 ∷ 1 ∷ []) waiting).pool.queues i ≡ [])
    × ((addr : Addr)
        → select (is_from addr) waiting.accepted
          ≡ select (is_from addr) (drained (0 ∷ 1 ∷ []) waiting).handled)
drained-Handled_example =
    drained-Handled 1 2 100 waiting (0 ∷ 1 ∷ []) (step idle waiting start (submitted idle item))
      waiting-fair
