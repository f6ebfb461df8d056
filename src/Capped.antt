-- ===== src/Capped.antt =====
-- The maps `assemblers` and `pendingPackets` of internal/proxy/proxy.go, each with an atomic counter
-- that caps it, and the packets buffered in the second. A method runs without interference: its
-- CompareAndSwap succeeds at once.
pub mod Laws
pub mod Pending
use quic_relay.Prelude.{
  ℕ, ◌+◌, ◌-◌, ◌*◌, ◌%◌, ◌^◌, Bool, true, false, ltb, leb, Option, none, some, List, [], ◌∷◌, ◌++◌,
  length, if◌then◌else◌,
}
use quic_relay.Go.{Bytes}
use quic_relay.Map.{Map, lookup, store, delete, is_some}
use quic_relay.Assembler.{Assembler, new_crypto_assembler}

abbrev pub max_assemblers : ℕ
max_assemblers = 50000

abbrev pub max_pending_buffers : ℕ
max_pending_buffers = 50000

abbrev pub max_pending_per_dcid : ℕ
max_pending_per_dcid = 10

-- `Add(-1)` on an int64.
abbrev pub decrement : ℕ → ℕ
decrement n = (n + 2 ^ 64 - 1) % 2 ^ 64

pub record Capped (V : Type 0) : Type 0 where
  pub entries : Map V
  pub count : ℕ

module _ {V : Type 0} where
  -- storeAssembler and storePendingBuffer: the counter is raised first, and lowered again where the
  -- key was there.
  unfoldable pub store_capped : ℕ → Bytes → V → Capped V → Capped V × Bool
  store_capped cap key v t =
      if leb cap t.count
      then (t, false)
      else let raised = record t { count = t.count + 1 } in
        if is_some (lookup key t.entries)
        then (record t { count = decrement raised.count }, false)
        else (record raised { entries = store key v t.entries }, true)

  -- deleteAssembler: LoadAndDelete, and one decrement for a key that was there.
  unfoldable pub delete_capped : Bytes → Capped V → Capped V
  delete_capped key t =
      if is_some (lookup key t.entries)
      then record { entries = delete key t.entries; count = decrement t.count }
      else t

  -- loadOrCreateAssembler and loadOrCreatePendingBuffer: the entry and whether it was there, or
  -- `none` at the cap.
  unfoldable pub load_or_create : ℕ → Bytes → V → Capped V → Capped V × Option (V × Bool)
  load_or_create cap key fresh t = elim (lookup key t.entries) [
    | some v ↦ (t, some (v, true))
    | none ↦
        let (t', stored) = store_capped cap key fresh t in
        if stored
        then (t', some (fresh, false))
        else elim (lookup key t'.entries) [ some v ↦ (t', some (v, true)) | none ↦ (t', none) ]
  ]

unfoldable pub store_assembler : Bytes → Assembler → Capped Assembler → Capped Assembler × Bool
store_assembler = store_capped max_assemblers

unfoldable pub delete_assembler : Bytes → Capped Assembler → Capped Assembler
delete_assembler = delete_capped

unfoldable pub load_or_create_assembler :
    ℕ → Bytes → Capped Assembler → Capped Assembler × Option (Assembler × Bool)
load_or_create_assembler now key = load_or_create max_assemblers key (new_crypto_assembler now)

pub record PendingBuffer : Type 0 where
  pub packets : List Bytes
  pub created_at : ℕ

unfoldable pub load_or_create_pending_buffer :
    ℕ → Bytes → Capped PendingBuffer → Capped PendingBuffer × Option (PendingBuffer × Bool)
load_or_create_pending_buffer now key =
    load_or_create max_pending_buffers key (record { packets = []; created_at = now })

-- The packet is copied; the buffer in the map is updated in place.
unfoldable pub buffer_pending_packet :
    ℕ → Bytes → Bytes → Capped PendingBuffer → Capped PendingBuffer
buffer_pending_packet now key packet t =
    let (t', found) = load_or_create_pending_buffer now key t in
    elim found [
      | none ↦ t'
      | some (buf, loaded) ↦
          if leb max_pending_per_dcid (length buf.packets) then t' else record t' {
            entries = store key (record buf { packets = buf.packets ++ (packet ∷ []) }) t'.entries;
          }
    ]

-- flushPendingPackets: the buffer is taken out; its packets go to the chain in this order.
unfoldable pub take_pending_packets :
    Bytes → Capped PendingBuffer → Capped PendingBuffer × List Bytes
take_pending_packets key t = elim (lookup key t.entries) [
  | none ↦ (t, [])
  | some buf ↦ (delete_capped key t, buf.packets)
]
