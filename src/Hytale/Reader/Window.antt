-- ===== src/Hytale/Reader/Window.antt =====
-- ReadPacketNoCopy and Reset of pkg/protohytale/reader.go: a packet as a part of the reader's buffer.
use quic_relay.Prelude.{
  ℕ, ◌+◌, ◌-◌, ◌≡◌, refl, ltb, leb, ◌&&◌, length, Option, none, some, take, drop, if◌then◌else◌,
  Bool-cases, inl, inr,
}
use quic_relay.Go.{Go, ok, err, panic, stuck, ◌>>=◌, slice, slice_from}
use quic_relay.Hytale.{Error, packet_too_large, uint32_at}
use quic_relay.Hytale.Reader.{
  PacketReader, Source, Outcome, packet, failed, header_size, max_packet_size, ensure_bytes,
  extract, read_body, read_packet,
}

-- `pr.buf[start:end]` as a slice that shares the buffer, with the packet's ID.
pub record Window : Type 0 where
  pub id : ℕ
  pub start : ℕ
  pub end : ℕ

pub data Shared : Type 0 where
  window : Window → Shared
  missed : Error → Shared

unfoldable pub extract_window : ℕ → ℕ → PacketReader → Go Error (PacketReader × Shared)
extract_window id size pr =
    let start = pr.offset + header_size in
    let end = pr.offset + (header_size + size) in
    slice pr.buf start end >>= λ payload.
    ok (record pr { offset = end }, window (record { id = id; start = start; end = end }))

unfoldable pub read_body_window : PacketReader → Go Error (PacketReader × Shared)
read_body_window pr = slice_from pr.buf pr.offset >>= λ header.
    let size = uint32_at header 0 in
    if ltb max_packet_size size
    then ok (pr, missed packet_too_large)
    else (ensure_bytes (header_size + size) pr >>= λ (pr', e). elim e [
      | some e' ↦ ok (pr', missed e')
      | none ↦ extract_window (uint32_at header 4) size pr'
    ])

-- ReadPacketNoCopy
unfoldable pub read_packet_no_copy : PacketReader → Go Error (PacketReader × Shared)
read_packet_no_copy pr = ensure_bytes header_size pr >>= λ (pr', e). elim e [
  | some e' ↦ ok (pr', missed e')
  | none ↦ read_body_window pr'
]

-- Reset
unfoldable pub reset : Source → PacketReader → PacketReader
reset r pr = record pr { r = r; buffered = 0; offset = 0 }

-- What the caller finds in the buffer until the next call.
abbrev pub looked_at : PacketReader → Shared → Outcome
looked_at pr (window w) =
    packet (record { id = w.id; payload = take (w.end - w.start) (drop w.start pr.buf) })
looked_at pr (missed e) = failed e

abbrev pub look : PacketReader × Shared → Go Error (PacketReader × Outcome)
look (pr, shared) = ok (pr, looked_at pr shared)

bind-look :
    {A B C : Type 0} (m : Go Error A) (f : A → Go Error B) (g : A → Go Error C) (k : C → Go Error B)
    → ((a : A) → f a ≡ (g a >>= k))
    → (m >>= f) ≡ (m >>= g >>= k)
bind-look (ok a) f g k h = h a
bind-look (err e) f g k h = refl
bind-look panic f g k h = refl
bind-look stuck f g k h = refl

extract_window-look :
    (id size : ℕ) (pr : PacketReader) → extract id size pr ≡ (extract_window id size pr >>= look)
unfolding extract extract_window slice
extract_window-look id size pr =
    let start = pr.offset + header_size in
    let end = pr.offset + (header_size + size) in
    elim (Bool-cases (leb start end && leb end (length pr.buf))) [
      | inl inside ↦ rw inside refl
      | inr outside ↦ rw outside refl
    ]

after-look :
    (e : Option Error) (pr : PacketReader) (m : Go Error (PacketReader × Outcome))
    (n : Go Error (PacketReader × Shared))
    → m ≡ (n >>= look)
    → elim e as (λ x. Go Error (PacketReader × Outcome)) [ some e' ↦ ok (pr, failed e') | none ↦ m ]
      ≡ (elim e as (λ x. Go Error (PacketReader × Shared)) [
        | some e' ↦ ok (pr, missed e')
        | none ↦ n
      ]
          >>= look)
after-look none pr m n h = h
after-look (some e) pr m n h = refl

read_body_window-look : (pr : PacketReader) → read_body pr ≡ (read_body_window pr >>= look)
unfolding read_body read_body_window
read_body_window-look pr = bind-look (slice_from pr.buf pr.offset) _ _ look λ header.
    let size = uint32_at header 0 in
    elim (Bool-cases (ltb max_packet_size size)) [
      | inl large ↦ rw large refl
      | inr fits ↦ rw fits (
          bind-look (ensure_bytes (header_size + size) pr) _ _ look
            λ (pr', e). after-look e pr' _ _ (extract_window-look (uint32_at header 4) size pr'))
    ]

pub read_packet_no_copy-look :
    (pr : PacketReader) → read_packet pr ≡ (read_packet_no_copy pr >>= look)
unfolding read_packet read_packet_no_copy
read_packet_no_copy-look pr =
    bind-look (ensure_bytes header_size pr) _ _ look
      λ (pr', e). after-look e pr' _ _ (read_body_window-look pr')
