-- ===== src/Capped/Pending.antt =====
-- Packets that arrive before their session: buffered in order, at most ten for a connection ID.
use quic_relay.Prelude.{
  ℕ, ◌||◌, ◌≤◌, ◌≡◌, ◌∙◌, refl, sym, ap, arith, true, ltb, leb, Option, none, some, List, [], ◌∷◌,
  ◌++◌, append-nil, append_assoc, length, length-append, take, take-append_le, take_all, subst,
  if◌then◌else◌, Bool-cases, inl, inr,
}
use quic_relay.Go.{Bytes, bytes_eq_self}
use quic_relay.Map.{lookup, store, is_some, IsMap}
use quic_relay.Map.Laws.{lookup-store, lookup-delete, store-IsMap}
use quic_relay.Capped.{
  Capped, max_pending_buffers, max_pending_per_dcid, PendingBuffer, delete_capped,
  load_or_create_pending_buffer, buffer_pending_packet, take_pending_packets,
}
use quic_relay.Capped.Laws.{load_or_create_lem}

abbrev pub packets_in : Option PendingBuffer → List Bytes
packets_in none = []
packets_in (some buf) = buf.packets

-- The packets that wait for a connection ID.
abbrev pub packets_of : Bytes → Capped PendingBuffer → List Bytes
packets_of key t = packets_in (lookup key t.entries)

-- There is a buffer for the connection ID, or room for one.
abbrev pub HasRoom : Bytes → Capped PendingBuffer → Type 0
HasRoom key t = (is_some (lookup key t.entries) || ltb t.count max_pending_buffers) ≡ true

abbrev created : Option PendingBuffer → ℕ
created none = 0
created (some buf) = buf.created_at

module _ (now : ℕ) (key packet : Bytes) (t : Capped PendingBuffer) where
  buffer-packets_of :
      HasRoom key t
      → packets_of key (buffer_pending_packet now key packet t) ≡ (
          if leb max_pending_per_dcid (length (packets_of key t))
          then packets_of key t
          else packets_of key t ++ (packet ∷ []))
  unfolding buffer_pending_packet load_or_create_pending_buffer
  buffer-packets_of room =
      let fresh : PendingBuffer = record { packets = []; created_at = now } in
      ground (
        arith,
        load_or_create_lem max_pending_buffers (omega arith) key fresh t,
        bytes_eq_self key,
        lookup-store key key fresh t.entries,
        lookup-store key key (record fresh { packets = packet ∷ [] }) (store key fresh t.entries),
        lookup-store key key
            (record {
              packets = packets_of key t ++ (packet ∷ []);
              created_at = created (lookup key t.entries);
            })
            t.entries,
      )

-- Several packets, one after the other.
abbrev pub buffer_all : ℕ → Bytes → List Bytes → Capped PendingBuffer → Capped PendingBuffer
buffer_all now key [] t = t
buffer_all now key (p ∷ ps) t = buffer_all now key ps (buffer_pending_packet now key p t)

module _ (now : ℕ) (key packet : Bytes) (t : Capped PendingBuffer) where
  buffer-HasRoom : HasRoom key t → HasRoom key (buffer_pending_packet now key packet t)
  unfolding buffer_pending_packet load_or_create_pending_buffer
  buffer-HasRoom room =
      let fresh : PendingBuffer = record { packets = []; created_at = now } in
      ground (
        arith,
        load_or_create_lem max_pending_buffers (omega arith) key fresh t,
        bytes_eq_self key,
        lookup-store key key fresh t.entries,
        lookup-store key key (record fresh { packets = packet ∷ [] }) (store key fresh t.entries),
        lookup-store key key
            (record {
              packets = packets_of key t ++ (packet ∷ []);
              created_at = created (lookup key t.entries);
            })
            t.entries,
      )

-- What one more packet does to the first ten.
first_ten-step :
    (q ps : List Bytes) (p : Bytes)
    → length q ≤ max_pending_per_dcid
    → (length (if leb max_pending_per_dcid (length q) then q else q ++ (p ∷ []))
        ≤ max_pending_per_dcid)
      × (take max_pending_per_dcid
            ((if leb max_pending_per_dcid (length q) then q else q ++ (p ∷ [])) ++ ps)
          ≡ take max_pending_per_dcid (q ++ (p ∷ ps)))
first_ten-step q ps p short = elim (Bool-cases (leb max_pending_per_dcid (length q))) [
  | inl full ↦ (
    ground (arith, full),
    rw
        (
          full,
          take-append_le 10 q ps (ground (arith, full)),
          take-append_le 10 q (p ∷ ps) (ground (arith, full)),
        )
        refl,
  )
  | inr room ↦
      (ground (arith, room, length-append q (p ∷ [])), rw (room, append_assoc q (p ∷ []) ps) refl)
]

module _ (now : ℕ) (key packet : Bytes) (t : Capped PendingBuffer) where
  buffer-IsMap : IsMap t.entries → IsMap (buffer_pending_packet now key packet t).entries
  unfolding buffer_pending_packet load_or_create_pending_buffer
  buffer-IsMap maps =
      let fresh : PendingBuffer = record { packets = []; created_at = now } in
      let grown : PendingBuffer = record {
        packets = packets_of key t ++ (packet ∷ []);
        created_at = created (lookup key t.entries);
      } in
      ground (
        arith,
        load_or_create_lem max_pending_buffers (omega arith) key fresh t,
        store-IsMap key fresh t.entries maps,
        store-IsMap key (record fresh { packets = packet ∷ [] }) (store key fresh t.entries),
        store-IsMap key grown t.entries maps,
      )

module _ (now : ℕ) (key : Bytes) where
  buffer_all-IsMap :
      (ps : List Bytes) (t : Capped PendingBuffer)
      → IsMap t.entries
      → IsMap (buffer_all now key ps t).entries
  buffer_all-IsMap [] t maps = maps
  buffer_all-IsMap (p ∷ ps) t maps =
      buffer_all-IsMap ps (buffer_pending_packet now key p t) (buffer-IsMap now key p t maps)

  buffer_all-packets_of :
      (ps : List Bytes) (t : Capped PendingBuffer)
      → HasRoom key t
      → length (packets_of key t) ≤ max_pending_per_dcid
      → packets_of key (buffer_all now key ps t)
        ≡ take max_pending_per_dcid (packets_of key t ++ ps)
  buffer_all-packets_of [] t room short = sym (
      ap (take max_pending_per_dcid) (append-nil (packets_of key t))
      ∙ take_all max_pending_per_dcid (packets_of key t) short)
  buffer_all-packets_of (p ∷ ps) t room short =
      let step = buffer-packets_of now key p t room in
      let next = first_ten-step (packets_of key t) ps p short in
      buffer_all-packets_of ps (buffer_pending_packet now key p t) (buffer-HasRoom now key p t room)
        (subst (λ q. length q ≤ max_pending_per_dcid) (sym step) next.0)
      ∙ ap (λ q. take max_pending_per_dcid (q ++ ps)) step
      ∙ next.1

-- Taking the buffer out gives the packets in their order, and none are left.
take-packets_of :
    (key : Bytes) (t : Capped PendingBuffer)
    → IsMap t.entries
    → ((take_pending_packets key t).1 ≡ packets_of key t)
      × (packets_of key (take_pending_packets key t).0 ≡ [])
unfolding take_pending_packets delete_capped
take-packets_of key t maps = ground (arith, lookup-delete key key t.entries maps, bytes_eq_self key)

-- For a connection ID that has a buffer or finds room for one, with at most ten packets buffered:
-- buffering packets one after the other and then flushing hands over the first ten of the old and
-- new packets, in the order of their arrival, and leaves none behind.
pub buffer_all-take :
    (now : ℕ) (key : Bytes) (ps : List Bytes) (t : Capped PendingBuffer)
    → IsMap t.entries
    → HasRoom key t
    → length (packets_of key t) ≤ max_pending_per_dcid
    → ((take_pending_packets key (buffer_all now key ps t)).1
        ≡ take max_pending_per_dcid (packets_of key t ++ ps))
      × (packets_of key (take_pending_packets key (buffer_all now key ps t)).0 ≡ [])
buffer_all-take now key ps t maps room short =
    let taken =
      take-packets_of key (buffer_all now key ps t) (buffer_all-IsMap now key ps t maps) in
    (taken.0 ∙ buffer_all-packets_of now key ps t room short, taken.1)
