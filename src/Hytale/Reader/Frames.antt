-- ===== src/Hytale/Reader/Frames.antt =====
-- ReadPacket takes the packets off the stream of bytes, however the source cuts it into pieces.
use quic_relay.Prelude.{
  ℕ, zero, suc, ◌+◌, ◌-◌, ◌%◌, ◌^◌, ◌≤◌, ◌<◌, ◌≡◌, ◌∙◌, refl, sym, ap, arith, true, false, ◌&&◌,
  ltb, leb, get_or, Option, none, some, [], ◌∷◌, ◌++◌, length, length-append, length-take,
  length-drop, take, drop, take-append, drop-append, Bool-cases, inl, inr, if◌then◌else◌,
}
use quic_relay.Go.{ok, Bytes, Returns, Returns-bind, Returns-imp, slice, slice_from}
use quic_relay.Hytale.{Error, packet_too_large, Packet, uint32_at, put_uint32}
use quic_relay.Hytale.Reader.{
  PacketReader, header_size, max_packet_size, ensure_bytes, Outcome, packet, failed, extract,
  read_body, read_packet, write, write_packet,
}
use quic_relay.Hytale.Reader.Stream.{
  IsReader, unread, stream, bytes_of, end_error, Ensured, ensure_bytes-Ensured,
}

-- The first packet of a stream of bytes, and the stream behind it.
unfoldable pub next_packet : Bytes → Outcome × Bytes
next_packet s =
    if ltb (length s) header_size
    then (failed (end_error s), s)
    else if ltb max_packet_size (uint32_at s 0)
    then (failed packet_too_large, s)
    else if ltb (length s) (header_size + uint32_at s 0)
    then (failed (end_error s), s)
    else (
      packet (record { id = uint32_at s 4; payload = take (uint32_at s 0) (drop header_size s) }),
      drop (header_size + uint32_at s 0) s,
    )

get_or-front :
    (m : ℕ) (l r : Bytes) (i : ℕ) → i < m → m ≤ length l → get_or (take m l ++ r) i 0 ≡ get_or l i 0
get_or-front zero l r i h k = absurd (omega arith)
get_or-front (suc m) [] r i h k = absurd (omega arith)
get_or-front (suc m) (x ∷ l) r zero h k = refl
get_or-front (suc m) (x ∷ l) r (suc i) h k = get_or-front m l r i (omega arith) (omega arith)

drop-front :
    (n m k : ℕ) (l r : Bytes)
    → n + k ≡ m
    → m ≤ length l
    → drop n (take m l ++ r) ≡ take k (drop n l) ++ r
drop-front zero m k l r e h = ap (λ j. take j l ++ r) (omega (arith, e))
drop-front (suc n) zero k l r e h = absurd (omega (arith, e))
drop-front (suc n) (suc m) k [] r e h = absurd (omega arith)
drop-front (suc n) (suc m) k (x ∷ l) r e h = drop-front n m k l r (omega (arith, e)) (omega arith)

take-front : (n m : ℕ) (l r : Bytes) → n ≤ m → m ≤ length l → take n (take m l ++ r) ≡ take n l
take-front zero m l r h k = refl
take-front (suc n) zero l r h k = absurd (omega arith)
take-front (suc n) (suc m) [] r h k = absurd (omega arith)
take-front (suc n) (suc m) (x ∷ l) r h k =
    ap (λ t. x ∷ t) (take-front n m l r (omega arith) (omega arith))

drop-drop : (n m : ℕ) (l : Bytes) → drop m (drop n l) ≡ drop (n + m) l
drop-drop zero m l = ap (λ k. drop k l) (omega arith)
drop-drop (suc n) m [] = drop-nil m ∙ sym (drop-nil (suc n + m))
  where
    drop-nil : (k : ℕ) → drop {A = ℕ} k [] ≡ []
    drop-nil zero = refl
    drop-nil (suc k) = refl
drop-drop (suc n) m (x ∷ l) = drop-drop n m l ∙ ap (λ k. drop k (x ∷ l)) (the_suc n m)
  where
    the_suc : (n m : ℕ) → suc (n + m) ≡ suc n + m
    the_suc n m = omega arith

module _ (pr : PacketReader) (h : IsReader pr) where
  abbrev front : Bytes
  front = drop pr.offset pr.buf

  size-front : pr.buffered - pr.offset ≤ length front
  size-front = omega (arith, length-drop pr.offset pr.buf, h.start, h.end)

  -- What ReadPacket reads of the buffer is what the stream begins with.
  uint32_at-stream :
      (i : ℕ) → i + 4 ≤ pr.buffered - pr.offset → uint32_at front i ≡ uint32_at (stream pr) i
  uint32_at-stream i k =
      let at = λ (j : ℕ) (q : j < pr.buffered - pr.offset).
        get_or-front (pr.buffered - pr.offset) front (bytes_of pr.r) j q size-front in
      rw
        (
          at i (omega (arith, k)),
          at (i + 1) (omega (arith, k)),
          at (i + 2) (omega (arith, k)),
          at (i + 3) (omega (arith, k)),
        )
        refl

  -- A packet that is there whole.
  extract-Returns :
      (id size : ℕ)
      → header_size + size ≤ pr.buffered - pr.offset
      → Returns
          (λ r.
            IsReader r.0
            × (r.1
                ≡ packet (record { id = id; payload = take size (drop header_size (stream pr)) }))
            × (stream r.0 ≡ drop (header_size + size) (stream pr)))
          (extract id size pr)
  unfolding extract slice
  extract-Returns id size k =
      let inside : (leb (pr.offset + 8) (pr.offset + (8 + size))
            && leb (pr.offset + (8 + size)) (length pr.buf))
          ≡ true =
        ground (arith, k, h.start, h.end) in
      let count : pr.offset + (8 + size) - (pr.offset + 8) ≡ size = omega arith in
      let m = pr.buffered - pr.offset in
      let rest = bytes_of pr.r in
      let payload' : take size (drop (pr.offset + 8) pr.buf)
          ≡ take size (drop header_size (stream pr)) =
        ap (take size) (sym (drop-drop pr.offset 8 pr.buf))
        ∙ sym (
            take-front size (m - 8) (drop 8 front) rest (omega (arith, k))
              (omega (arith, length-drop 8 front, size-front)))
        ∙ ap (take size) (sym (drop-front 8 m (m - 8) front rest (omega (arith, k)) size-front)) in
      let left = pr.buffered - (pr.offset + (8 + size)) in
      let stream' : take left (drop (pr.offset + (8 + size)) pr.buf) ++ rest
          ≡ drop (header_size + size) (stream pr) =
        ap (λ l. take left l ++ rest) (sym (drop-drop pr.offset (8 + size) pr.buf))
        ∙ sym (drop-front (8 + size) m left front rest (omega (arith, k, h.start)) size-front) in
      rw (extract, slice, inside, count)
        (
          record { start = omega (arith, k, h.start); end = h.end; calm = h.calm },
          ap (λ b. packet (record { id = id; payload = b })) payload',
          stream',
        )

-- The reader after ReadPacket, with what it returned: the first packet of the stream, and the rest.
abbrev pub Reads : PacketReader → PacketReader × Outcome → Type 0
Reads pr r = IsReader r.0 × ((r.1, stream r.0) ≡ next_packet (stream pr))

length-stream : (pr : PacketReader) → IsReader pr → pr.buffered - pr.offset ≤ length (stream pr)
length-stream pr h = omega (
  arith,
  length-append (unread pr) (bytes_of pr.r),
  length-take (pr.buffered - pr.offset) (drop pr.offset pr.buf),
  length-drop pr.offset pr.buf,
  h.start,
  h.end,
)

module _ (s : Bytes) where
  next-short : length s < header_size → next_packet s ≡ (failed (end_error s), s)
  unfolding next_packet
  next-short short =
      let e : ltb (length s) header_size ≡ true = ground (arith, short) in rw (next_packet, e) refl

  module _ (size : ℕ) (e : uint32_at s 0 ≡ size) (there : header_size ≤ length s) where
    long : ltb (length s) header_size ≡ false
    long = ground (arith, there)

    next-large : ltb max_packet_size size ≡ true → next_packet s ≡ (failed packet_too_large, s)
    unfolding next_packet
    next-large large = rw (next_packet, long, e, large) refl

    module _ (fits : ltb max_packet_size size ≡ false) where
      next-cut : length s < header_size + size → next_packet s ≡ (failed (end_error s), s)
      unfolding next_packet
      next-cut cut =
          let c : ltb (length s) (header_size + size) ≡ true = ground (arith, cut) in
          rw (next_packet, long, e, fits, c) refl

      next-whole :
          header_size + size ≤ length s
          → next_packet s ≡ (
            packet (record { id = uint32_at s 4; payload = take size (drop header_size s) }),
            drop (header_size + size) s,
          )
      unfolding next_packet
      next-whole whole =
          let c : ltb (length s) (header_size + size) ≡ false = ground (arith, whole) in
          rw (next_packet, long, e, fits, c) refl

-- Behind a call of ensureBytes that failed, the error is that of the stream.
short-Reads :
    (n : ℕ) (pr pr' : PacketReader) (e : Error)
    → Ensured n pr (pr', some e)
    → (length (stream pr) < n
        → next_packet (stream pr) ≡ (failed (end_error (stream pr)), stream pr))
    → Reads pr (pr', failed e)
short-Reads n pr pr' e s next =
    let (short, same) = s.short e refl in
    (
      s.valid,
      ap (λ x. (failed x, stream pr')) same
          ∙ ap (λ l. (failed (end_error (stream pr)), l)) s.same
          ∙ sym (next short),
    )

-- From the header on.
read_body-Reads :
    (pr : PacketReader)
    → IsReader pr
    → header_size ≤ pr.buffered - pr.offset
    → Returns (Reads pr) (read_body pr)
unfolding read_body slice_from
read_body-Reads pr h there = elim (Bool-cases (ltb max_packet_size size)) [
  | inl large ↦
      rw (read_body, slice_from, inside, large)
        (h, sym (next-large (stream pr) size size' long' large))
  | inr fits ↦
      rw (read_body, slice_from, inside, fits)
        (Returns-bind (Ensured (header_size + size) pr) (Reads pr)
          (ensure_bytes (header_size + size) pr) _ (ensure_bytes-Ensured (header_size + size) pr h)
          λ r s. go fits r.0 r.1 s)
]
  where
    size : ℕ
    size = uint32_at (drop pr.offset pr.buf) 0

    inside : leb pr.offset (length pr.buf) ≡ true
    inside = ground (arith, h.start, h.end)

    size' : uint32_at (stream pr) 0 ≡ size
    size' = sym (uint32_at-stream pr h 0 (omega (arith, there)))

    long' : header_size ≤ length (stream pr)
    long' = omega (arith, there, length-stream pr h)

    go :
        ltb max_packet_size size ≡ false
        → (pr' : PacketReader) (e : Option Error) → Ensured (header_size + size) pr (pr', e)
        → Returns (Reads pr) (elim e [
          | some e' ↦ ok (pr', failed e')
          | none ↦ extract (uint32_at (drop pr.offset pr.buf) 4) size pr'
        ])
    go fits pr' (some e) s =
        short-Reads (header_size + size) pr pr' e s (next-cut (stream pr) size size' long' fits)
    go fits pr' none s =
        let id = uint32_at (drop pr.offset pr.buf) 4 in
        let here = s.there refl in
        let whole : header_size + size ≤ length (stream pr) =
          omega (arith, here, length-stream pr' s.valid, ap length s.same) in
        Returns-imp _ (Reads pr) (extract id size pr')
          (λ r (v, o, rest). (
            v,
            ap (λ x. (x, stream r.0))
                  (o
                    ∙ ap
                        (λ l. packet (record { id = id; payload = take size (drop header_size l) }))
                        s.same)
                ∙ ap
                    (λ l. (
                      packet
                          (record { id = id; payload = take size (drop header_size (stream pr)) }),
                      l,
                    ))
                    (rest ∙ ap (drop (header_size + size)) s.same)
                ∙ ap
                    (λ i. (
                      packet
                          (record { id = i; payload = take size (drop header_size (stream pr)) }),
                      drop (header_size + size) (stream pr),
                    ))
                    (uint32_at-stream pr h 4 (omega (arith, there)))
                ∙ sym (next-whole (stream pr) size size' long' fits whole),
          ))
          (extract-Returns pr' s.valid id size here)

-- ReadPacket on a reader whose offset lies within its buffered bytes, and these within its buffer,
-- however the source cuts its bytes into pieces, as long as no Read that returns bytes returns an
-- error with them and the first error is io.EOF behind the last byte: it returns the first packet of
-- the stream, or the error that the stream begins with (too large, cut short, or at its end), and
-- leaves what is behind that packet.
pub read_packet-Reads : (pr : PacketReader) → IsReader pr → Returns (Reads pr) (read_packet pr)
unfolding read_packet
read_packet-Reads pr h =
    Returns-bind (Ensured header_size pr) (Reads pr) (ensure_bytes header_size pr) _
      (ensure_bytes-Ensured header_size pr h) λ r s. go r.0 r.1 s
  where
    go :
        (pr' : PacketReader) (e : Option Error)
        → Ensured header_size pr (pr', e)
        → Returns (Reads pr) (elim e [ some e' ↦ ok (pr', failed e') | none ↦ read_body pr' ])
    go pr' (some e) s = short-Reads header_size pr pr' e s (next-short (stream pr))
    go pr' none s =
        Returns-imp (Reads pr') (Reads pr) (read_body pr')
          (λ r (v, e). (v, e ∙ ap next_packet s.same)) (read_body-Reads pr' s.valid (s.there refl))

-- A packet that the format can hold: the ID and the length fit.
abbrev pub IsPacket : Packet → Type 0
IsPacket p = (p.id < 2 ^ 32) × (length p.payload ≤ max_packet_size)

uint32-put_uint32 : (n : ℕ) (l : Bytes) → n < 2 ^ 32 → uint32_at (put_uint32 n ++ l) 0 ≡ n
uint32-put_uint32 n l h = omega (arith, h)

write-eq :
    (id : ℕ) (payload rest : Bytes)
    → write id payload [] ++ rest
      ≡ put_uint32 (length payload % 2 ^ 32) ++ (put_uint32 id ++ (payload ++ rest))
unfolding write
write-eq id [] rest = refl
write-eq id (x ∷ payload) rest =
    let some_bytes : ltb 0 (suc (length payload)) ≡ true = ground arith in rw some_bytes refl

next_packet-written :
    (id : ℕ) (payload rest : Bytes)
    → id < 2 ^ 32
    → length payload ≤ max_packet_size
    → next_packet (write id payload [] ++ rest)
      ≡ (packet (record { id = id; payload = payload }), rest)
next_packet-written id payload rest small fits =
    let whole : length payload % 2 ^ 32 ≡ length payload = omega (arith, fits) in
    let s = put_uint32 (length payload % 2 ^ 32) ++ (put_uint32 id ++ (payload ++ rest)) in
    let size : uint32_at s 0 ≡ length payload = omega (arith, fits) in
    let bound : ltb max_packet_size (length payload) ≡ false = ground (arith, fits) in
    let n = length-append payload rest in
    ap next_packet (write-eq id payload rest)
    ∙ next-whole s (length payload) size (omega arith) bound (omega (arith, n))
    ∙ ap
        (λ i. (
          packet (record { id = i; payload = take (length payload) (payload ++ rest) }),
          drop (header_size + length payload) s,
        ))
        (uint32-put_uint32 id (payload ++ rest) small)
    ∙ ap (λ b. (packet (record { id = id; payload = b }), drop (header_size + length payload) s))
        (take-append payload rest)
    ∙ ap (λ l. (packet (record { id = id; payload = payload }), l))
        (sym (drop-drop header_size (length payload) s) ∙ drop-append payload rest)

-- Where the stream of such a reader begins with a packet that WritePacket wrote, its ID below 2^32 and
-- its payload of at most 16 MiB, and no Read returns bytes together with an error or an error before
-- the io.EOF at the end, ReadPacket returns that packet and leaves the rest.
pub read_packet-write_packet :
    (p : Packet) (rest : Bytes) (pr : PacketReader)
    → IsPacket p
    → IsReader pr
    → stream pr ≡ write_packet p [] ++ rest
    → Returns (λ r. IsReader r.0 × (r.1 ≡ packet p) × (stream r.0 ≡ rest)) (read_packet pr)
unfolding write_packet
read_packet-write_packet p rest pr (small, fits) h e =
    Returns-imp (Reads pr) _ (read_packet pr)
      (λ r (v, n).
        let done = n ∙ ap next_packet e ∙ next_packet-written p.id p.payload rest small fits in
        (v, ap (λ x. x.0) done, ap (λ x. x.1) done))
      (read_packet-Reads pr h)
