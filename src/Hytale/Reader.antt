-- ===== src/Hytale/Reader.antt =====
-- PacketReader and PacketWriter of pkg/protohytale/reader.go. An io.Reader is the list of what its Reads
-- return when they have room: bytes, and an error with the last of them; behind the list it is at
-- io.EOF. A Read with less room returns what fits, and the rest comes next. An io.Writer is the
-- bytes written to it, without errors.
pub mod Stream
pub mod Frames
pub mod Window
use quic_relay.Prelude.{
  ℕ, zero, suc, ◌+◌, ◌-◌, ◌*◌, ◌%◌, ◌^◌, Bool, true, false, ◌&&◌, ltb, leb, ◌==◌, Option, none,
  some, List, [], ◌∷◌, ◌++◌, length, take, drop, replicate, if◌then◌else◌,
}
use quic_relay.Go.{Go, ok, err, panic, stuck, ◌>>=◌, Bytes, slice, slice_from, copy_at}
use quic_relay.Hytale.{Error, eof, unexpected_eof, packet_too_large, Packet, uint32_at, put_uint32}

abbrev pub header_size : ℕ
header_size = 8

abbrev pub max_packet_size : ℕ
max_packet_size = 16 * 1024 * 1024

abbrev pub default_buf_size : ℕ
default_buf_size = 64 * 1024

abbrev pub Source : Type 0
Source = List (Bytes × Option Error)

-- Read into a slice of the size given: the bytes, the error and what is left of the source.
unfoldable pub read : ℕ → Source → Bytes × Option Error × Source
read room [] = ([], some eof, [])
read room ((chunk, e) ∷ rest) =
    if leb (length chunk) room
    then (chunk, e, rest)
    else (take room chunk, none, (drop room chunk, e) ∷ rest)

pub record PacketReader : Type 0 where
  pub r : Source
  pub buf : Bytes
  pub buffered : ℕ
  pub offset : ℕ

unfoldable pub new_packet_reader_size : Source → ℕ → PacketReader
new_packet_reader_size r size = record {
  r = r;
  buf = replicate (if ltb size header_size then default_buf_size else size) 0;
  buffered = 0;
  offset = 0;
}

-- The unread bytes move to the start.
unfoldable pub compact : PacketReader → Go Error PacketReader
compact pr =
    if ltb 0 pr.offset
    then (slice pr.buf pr.offset pr.buffered >>= λ unread. ok (record pr {
      buf = copy_at pr.buf 0 unread;
      buffered = pr.buffered - pr.offset;
      offset = 0;
    }))
    else ok pr

abbrev pub new_size : ℕ → PacketReader → ℕ
new_size n pr = if ltb (length pr.buf * 2) n then n else length pr.buf * 2

unfoldable pub grow : ℕ → PacketReader → Go Error PacketReader
grow n pr =
    if ltb (length pr.buf) n
    then (slice pr.buf 0 pr.buffered >>= λ old.
        ok (record pr { buf = copy_at (replicate (new_size n pr) 0) 0 old }))
    else ok pr

-- The bytes of a Read go behind those that are there.
unfoldable pub received : Bytes → PacketReader → PacketReader
received bytes pr = record pr {
  buf = copy_at pr.buf pr.buffered bytes;
  buffered = pr.buffered + length bytes;
}

-- `err` after a Read
unfoldable pub read_error : ℕ → PacketReader → Error → Error
read_error n pr eof = if ltb 0 pr.buffered && ltb pr.buffered n then unexpected_eof else eof
read_error n pr e = e

-- What follows a Read in the loop, and the loop again.
abbrev pub after_read :
    ℕ
    → PacketReader
    → (PacketReader → Go Error (PacketReader × Option Error))
    → Bytes × Option Error × Source
    → Go Error (PacketReader × Option Error)
after_read n pr again (bytes, none, rest) = again (received bytes (record pr { r = rest }))
after_read n pr again (bytes, some e, rest) =
    let pr' = received bytes (record pr { r = rest }) in ok (pr', some (read_error n pr' e))

-- `for pr.buffered < n`, the rounds counted.
unfoldable pub fill : ℕ → ℕ → PacketReader → Go Error (PacketReader × Option Error)
fill zero n pr = stuck
fill (suc k) n pr = elim (leb n pr.buffered) [
  | true ↦ ok (pr, none)
  | false ↦ after_read n pr (fill k n) (read (length pr.buf - pr.buffered) pr.r)
]

-- Each Read takes a piece off the source or fills the buffer.
abbrev pub rounds : PacketReader → ℕ
rounds pr = length pr.r + 2

unfoldable pub ensure_bytes : ℕ → PacketReader → Go Error (PacketReader × Option Error)
ensure_bytes n pr =
    if leb n (pr.buffered - pr.offset)
    then ok (pr, none)
    else (compact pr >>= λ compacted. grow n compacted >>= λ grown. fill (rounds grown) n grown)

-- What ReadPacket returns: a packet or an error.
pub data Outcome : Type 0 where
  packet : Packet → Outcome
  failed : Error → Outcome

-- The end of ReadPacket, the whole packet being there.
unfoldable pub extract : ℕ → ℕ → PacketReader → Go Error (PacketReader × Outcome)
extract id size pr =
    slice pr.buf (pr.offset + header_size) (pr.offset + (header_size + size)) >>= λ payload. ok (
      record pr { offset = pr.offset + (header_size + size) },
      packet (record { id = id; payload = payload }),
    )

-- From the header on.
unfoldable pub read_body : PacketReader → Go Error (PacketReader × Outcome)
read_body pr = slice_from pr.buf pr.offset >>= λ header.
    let size = uint32_at header 0 in
    if ltb max_packet_size size
    then ok (pr, failed packet_too_large)
    else (ensure_bytes (header_size + size) pr >>= λ (pr', e). elim e [
      | some e' ↦ ok (pr', failed e')
      | none ↦ extract (uint32_at header 4) size pr'
    ])

-- ReadPacket; `pr.buf[pr.offset+4:]` stands behind the test that eight bytes are there.
unfoldable pub read_packet : PacketReader → Go Error (PacketReader × Outcome)
read_packet pr = ensure_bytes header_size pr >>= λ (pr', e). elim e [
  | some e' ↦ ok (pr', failed e')
  | none ↦ read_body pr'
]

-- Buffered
unfoldable pub buffered_bytes : PacketReader → ℕ
buffered_bytes pr = pr.buffered - pr.offset

-- PacketWriter.Write, on what was written before.
unfoldable pub write : ℕ → Bytes → Bytes → Bytes
write id payload written =
    let headed = written ++ (put_uint32 (length payload % 2 ^ 32) ++ put_uint32 id) in
    if ltb 0 (length payload) then headed ++ payload else headed

-- WritePacket
unfoldable pub write_packet : Packet → Bytes → Bytes
write_packet p = write p.id p.payload
