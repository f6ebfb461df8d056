-- ===== src/Assembler.antt =====
-- CryptoAssembler of internal/proxy/proxy.go: the CRYPTO frames of several Initial packets in one
-- buffer, with a bit for each byte that was written. The mutex makes each method atomic.
pub mod Cached
pub mod Cells
pub mod Parse
pub mod Reassembly
use quic_relay.Prelude.{
  ℕ, zero, suc, ◌+◌, ◌-◌, ◌*◌, ◌/◌, ◌%◌, ◌^◌, Bool, true, false, not, ltb, leb, ◌==◌, bit_and,
  bit_or, max, min, Option, none, some, List, [], ◌∷◌, length, get_or, set, take, replicate,
  if◌then◌else◌,
}
use quic_relay.Go.{Go, ok, err, panic, stuck, ◌>>=◌, ◌>>◌, copy_at, index, slice}
use quic_relay.Quic.{Error}
use quic_relay.Quic.Frames.{CryptoFrame}
use quic_relay.Tls.{ClientHello, u24, parse_tls_client_hello}

abbrev pub max_crypto_buffer_size : ℕ
max_crypto_buffer_size = 8192

abbrev pub written_bitset_size : ℕ
written_bitset_size = max_crypto_buffer_size / 64

-- `createdAt`, in the nanoseconds of a clock. The cached crypto objects are in Assembler/Cached.
pub record Assembler : Type 0 where
  pub buffer : List ℕ
  pub written : List ℕ
  pub max_offset : ℕ
  pub complete : Bool
  pub created_at : ℕ

unfoldable pub new_crypto_assembler : ℕ → Assembler
new_crypto_assembler now = record {
  buffer = replicate max_crypto_buffer_size 0;
  written = replicate written_bitset_size 0;
  max_offset = 0;
  complete = false;
  created_at = now;
}

-- setBit and isSet
unfoldable pub set_bit : List ℕ → ℕ → Go Error (List ℕ)
set_bit written i =
    index written (i / 64) >>= λ w. ok (set written (i / 64) (bit_or w (2 ^ (i % 64))))

unfoldable pub is_set : List ℕ → ℕ → Go Error Bool
is_set written i = index written (i / 64) >>= λ w. ok (not (bit_and w (2 ^ (i % 64)) == 0))

-- `for i := int(offset); i < end; i++ { a.setBit(i) }`, the rounds counted.
unfoldable pub set_bits : ℕ → ℕ → List ℕ → Go Error (List ℕ)
set_bits zero i written = ok written
set_bits (suc k) i written = set_bit written i >>= λ written'. set_bits k (i + 1) written'

-- The part of the data that the buffer has room for.
abbrev pub clip : ℕ → List ℕ → List ℕ
clip offset bytes =
    if ltb max_crypto_buffer_size (offset + length bytes)
    then take (max_crypto_buffer_size - offset) bytes
    else bytes

-- `copy(a.buffer[offset:end], data)`, where `data` has `end - offset` bytes.
unfoldable pub write_at : List ℕ → ℕ → List ℕ → Go Error (List ℕ)
write_at buffer offset bytes =
    if leb (offset + length bytes) (length buffer) then ok (copy_at buffer offset bytes) else panic

unfoldable pub add_frame : ℕ → List ℕ → Assembler → Go Error (Assembler × Bool)
add_frame offset bytes a =
    if leb max_crypto_buffer_size offset
    then ok (a, false)
    else let clipped = clip offset bytes in
      let end = offset + length clipped in
      write_at a.buffer offset clipped >>= λ buffer.
      set_bits (length clipped) offset a.written >>= λ written. ok (
        record a {
          buffer = buffer;
          written = written;
          max_offset = if ltb a.max_offset end then end else a.max_offset;
        },
        true,
      )

-- `for _, f := range frames { assembler.AddFrame(f.Offset, f.Data) }` of handlePacket, which does
-- not look at the answers.
unfoldable pub add_frames : List CryptoFrame → Assembler → Go Error Assembler
add_frames [] a = ok a
add_frames (f ∷ fs) a = add_frame f.offset f.bytes a >>= λ r. add_frames fs r.0

-- `for i := 0; i < needed; i++`: whether there is no gap.
unfoldable pub all_set : ℕ → ℕ → List ℕ → Go Error Bool
all_set zero i written = ok true
all_set (suc k) i written =
    is_set written i >>= elim [ true ↦ all_set k (i + 1) written | false ↦ ok false ]

-- The end of TryParse: an error of the parser means no ClientHello.
unfoldable pub parse_complete : Assembler → ℕ → Go Error (Assembler × Option ClientHello)
parse_complete a needed = slice a.buffer 0 needed >>= λ bytes. elim (parse_tls_client_hello bytes) [
  | ok hello ↦ ok (record a { complete = true }, some hello)
  | err e ↦ ok (a, none)
  | panic ↦ panic
  | stuck ↦ stuck
]

-- The check for gaps and what follows it.
unfoldable pub parse_without_gap : Assembler → ℕ → Go Error (Assembler × Option ClientHello)
parse_without_gap a needed =
    all_set needed 0 a.written >>= elim [ false ↦ ok (a, none) | true ↦ parse_complete a needed ]

abbrev pub needed_for : ℕ → ℕ
needed_for hs_len =
    if ltb max_crypto_buffer_size (4 + hs_len) then max_crypto_buffer_size else 4 + hs_len

unfoldable pub try_parse : Assembler → Go Error (Assembler × Option ClientHello)
try_parse a =
    if ltb a.max_offset 6
    then ok (a, none)
    else index a.buffer 0 >>= λ kind.
        if not (kind == 0x01)
        then ok (a, none)
        else u24 a.buffer 1 >>= λ hs_len.
            let needed = needed_for hs_len in
            if ltb a.max_offset needed then ok (a, none) else parse_without_gap a needed

abbrev pub assembler_timeout : ℕ
assembler_timeout = 5 * 10 ^ 9

unfoldable pub is_expired : ℕ → Assembler → Bool
is_expired now a = ltb assembler_timeout (now - a.created_at)

unfoldable pub is_complete : Assembler → Bool
is_complete a = a.complete
