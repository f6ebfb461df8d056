-- ===== src/Hytale/Values.antt =====
-- pkg/protohytale/encoding.go: VarInts (seven bits a byte, the low ones first), strings, fixed-size
-- values and addresses. A uint32 is a number below 2^32; a string is its bytes. The floats are
-- in Hytale/Floats.
pub mod RoundTrip
use quic_relay.Prelude.{
  ℕ, zero, suc, ◌+◌, ◌*◌, ◌/◌, ◌%◌, ◌^◌, Bool, true, false, ltb, leb, ◌==◌, bit_and, bit_or, List,
  [], ◌∷◌, ◌++◌, length, get_or, take, drop, if◌then◌else◌,
}
use quic_relay.Go.{Go, ok, err, panic, stuck, ◌>>=◌, Bytes, index, slice, slice_from}
use quic_relay.Hytale.{Error, unexpected_eof, var_int_too_long, string_too_long, uint32_at}

-- The loop, the rounds counted down from 5: at byte i, the value read so far and the shift.
unfoldable pub read_from : ℕ → ℕ → ℕ → ℕ → Bytes → Go Error (ℕ × ℕ)
read_from zero i result shift b = err var_int_too_long
read_from (suc k) i result shift b = elim (leb (length b) i) [
  | true ↦ err unexpected_eof
  | false ↦ index b i >>= λ x.
      let result' = bit_or result (bit_and x 0x7f * 2 ^ shift % 2 ^ 32) in
      elim (bit_and x 0x80 == 0) [
        | true ↦ ok (result', i + 1)
        | false ↦ read_from k (i + 1) result' (shift + 7) b
      ]
]

unfoldable pub read_var_int : Bytes → Go Error (ℕ × ℕ)
read_var_int b = read_from 5 0 0 0 b

-- The bytes that the loop stores in `buf`, which has room for the rounds given; one more panics.
unfoldable pub write_bytes : ℕ → ℕ → Go Error Bytes
write_bytes zero value = panic
write_bytes (suc k) value =
    let b = bit_and value 0x7f in
    let rest = value / 2 ^ 7 in
    elim (rest == 0) [
      | true ↦ ok (b ∷ [])
      | false ↦ write_bytes k rest >>= λ more. ok (bit_or b 0x80 ∷ more)
    ]

unfoldable pub write_var_int : ℕ → Go Error Bytes
write_var_int value = write_bytes 5 value

unfoldable pub var_int_size : ℕ → ℕ
var_int_size value =
    if ltb value (2 ^ 7)
    then 1
    else if ltb value (2 ^ 14)
    then 2
    else if ltb value (2 ^ 21)
    then 3
    else if ltb value (2 ^ 28)
    then 4
    else 5

abbrev pub max_string_length : ℕ
max_string_length = 256

unfoldable pub read_string : Bytes → Go Error (Bytes × ℕ)
read_string b = read_var_int b >>= λ (size, n).
    if ltb max_string_length size
    then err string_too_long
    else if ltb (length b) (n + size)
    then err unexpected_eof
    else (slice b n (n + size) >>= λ s. ok (s, n + size))

-- `uint32(len(s))` takes the length modulo 2^32.
unfoldable pub write_string : Bytes → Go Error Bytes
write_string s = write_var_int (length s % 2 ^ 32) >>= λ len_bytes. ok (len_bytes ++ s)

-- ReadUUID and ReadBytes
unfoldable pub read_bytes : Bytes → ℕ → Go Error (Bytes × ℕ)
read_bytes b n = if ltb (length b) n then err unexpected_eof else (slice b 0 n >>= λ s. ok (s, n))

unfoldable pub read_uuid : Bytes → Go Error (Bytes × ℕ)
read_uuid b = read_bytes b 16

unfoldable pub read_uint8 : Bytes → Go Error (ℕ × ℕ)
read_uint8 b = if ltb (length b) 1 then err unexpected_eof else (index b 0 >>= λ x. ok (x, 1))

-- binary.LittleEndian.Uint16
abbrev pub uint16_at : Bytes → ℕ → ℕ
uint16_at b i = get_or b i 0 + get_or b (i + 1) 0 * 2 ^ 8

unfoldable pub read_uint16_le : Bytes → Go Error (ℕ × ℕ)
read_uint16_le b = if ltb (length b) 2 then err unexpected_eof else ok (uint16_at b 0, 2)

unfoldable pub read_uint32_le : Bytes → Go Error (ℕ × ℕ)
read_uint32_le b = if ltb (length b) 4 then err unexpected_eof else ok (uint32_at b 0, 4)

unfoldable pub read_uint64_le : Bytes → Go Error (ℕ × ℕ)
read_uint64_le b =
    if ltb (length b) 8 then err unexpected_eof else ok (uint32_at b 0 + uint32_at b 4 * 2 ^ 32, 8)

unfoldable pub read_host_address : Bytes → Go Error (Bytes × ℕ × ℕ)
read_host_address b = read_string b >>= λ (host, n).
    if ltb (length b) (n + 2)
    then err unexpected_eof
    else (slice_from b n >>= λ rest. ok (host, uint16_at rest 0, n + 2))
