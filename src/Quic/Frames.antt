-- ===== src/Quic/Frames.antt =====
-- extractCryptoFrames and CryptoFrame of internal/proxy/parser.go: the CRYPTO frames of a decrypted
-- Initial packet.
pub mod Total
pub mod RoundTrip
use quic_relay.Prelude.{
  ℕ, zero, suc, ◌+◌, Bool, true, false, ◌||◌, ltb, ◌==◌, Option, none, some, List, [], ◌∷◌, ◌++◌,
  length, drop, if◌then◌else◌,
}
use quic_relay.Go.{Go, ok, err, panic, stuck, ◌>>=◌, Bytes, slice, slice_from}
use quic_relay.Quic.{Error}
use quic_relay.Quic.Varint.{read_varint}

pub record CryptoFrame : Type 0 where
  pub offset : ℕ
  pub bytes : Bytes

-- `v, n, err := readVarInt(data[offset:]); offset += n`: the value and the new offset, or `none` on
-- an error. A value is below 2^62, so `int` holds it.
unfoldable pub next_varint : Bytes → ℕ → Go Error (Option (ℕ × ℕ))
next_varint b offset = slice_from b offset >>= λ rest. elim (read_varint rest) [
  | ok (v, n) ↦ ok (some (v, offset + n))
  | err e ↦ ok none
  | panic ↦ panic
  | stuck ↦ stuck
]

-- So many integers are skipped, one after the other; `none` is `return frames`.
unfoldable pub skip_varints : ℕ → Bytes → ℕ → Go Error (Option ℕ)
skip_varints zero b offset = ok (some offset)
skip_varints (suc k) b offset =
    next_varint b offset >>= elim [ none ↦ ok none | some (v, o) ↦ skip_varints k b o ]

-- `for i := uint64(0); i < rangeCount; i++`: a gap and a length each.
unfoldable pub skip_ranges : ℕ → Bytes → ℕ → Go Error (Option ℕ)
skip_ranges zero b offset = ok (some offset)
skip_ranges (suc k) b offset =
    skip_varints 2 b offset >>= elim [ none ↦ ok none | some o ↦ skip_ranges k b o ]

-- `case 0x02, 0x03`
unfoldable pub skip_ack : Bool → Bytes → ℕ → Go Error (Option ℕ)
skip_ack ecn b offset = skip_varints 2 b offset >>= elim [
  | none ↦ ok none
  | some o ↦ next_varint b o >>= elim [
    | none ↦ ok none
    | some (range_count, o1) ↦ skip_varints 1 b o1 >>= elim [
      | none ↦ ok none
      | some o2 ↦
          skip_ranges range_count b o2
          >>= elim [ none ↦ ok none | some o3 ↦ if ecn then skip_varints 3 b o3 else ok (some o3) ]
    ]
  ]
]

-- Where the loop goes on, and the frames that the round appended. `none` is `return frames`.
abbrev pub Round : Type 0
Round = Option (ℕ × List CryptoFrame)

abbrev go_on : Option ℕ → Round
go_on none = none
go_on (some o) = some (o, [])

-- `case 0x06`. Its `break` leaves the `switch` alone: the loop goes on at the offset reached.
unfoldable pub read_crypto : Bytes → ℕ → Go Error Round
read_crypto b offset = next_varint b offset >>= elim [
  | none ↦ ok (some (offset, []))
  | some (crypto_offset, o) ↦ next_varint b o >>= elim [
    | none ↦ ok (some (o, []))
    | some (size, start) ↦
        if ltb (length b) (start + size)
        then ok (some (start, []))
        else slice b start (start + size) >>= λ frame.
            ok (some (start + size, record { offset = crypto_offset; bytes = frame } ∷ []))
  ]
]

-- The zero bytes at the front, which the inner loop of `case 0x00` skips.
unfoldable pub zeros : Bytes → ℕ
zeros [] = 0
zeros (x ∷ b) = let more = zeros b in if x == 0 then suc more else 0

unfoldable pub read_frame : Bytes → ℕ → ℕ → Go Error Round
read_frame b frame_type offset =
    if frame_type == 0x00
    then ok (some (offset + zeros (drop offset b), []))
    else if frame_type == 0x01
    then ok (some (offset, []))
    else if frame_type == 0x02 || frame_type == 0x03
    then (skip_ack (frame_type == 0x03) b offset >>= λ o. ok (go_on o))
    else if frame_type == 0x06
    then read_crypto b offset
    else ok none

unfoldable pub read_frames : ℕ → Bytes → ℕ → List CryptoFrame → Go Error (List CryptoFrame)
read_frames zero b offset frames = stuck
read_frames (suc fuel) b offset frames = elim (ltb offset (length b)) [
  | false ↦ ok frames
  | true ↦ next_varint b offset >>= elim [
    | none ↦ ok frames
    | some (frame_type, o) ↦
        read_frame b frame_type o
        >>= elim [ none ↦ ok frames | some (o', more) ↦ read_frames fuel b o' (frames ++ more) ]
  ]
]

-- Each round reads a frame type, so one round more than there are bytes is enough.
unfoldable pub extract_crypto_frames : Bytes → Go Error (List CryptoFrame)
extract_crypto_frames b = read_frames (length b + 1) b 0 []
