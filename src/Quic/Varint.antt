-- ===== src/Quic/Varint.antt =====
-- readVarInt of internal/proxy/parser.go: integers of 1, 2, 4 or 8 bytes, the size in the two top
-- bits (RFC 9000, section 16).
pub mod Encode
pub mod Reference
use quic_relay.Prelude.{ℕ, ◌*◌, ◌/◌, ◌^◌, bit_and, bit_or, ltb, ◌==◌, length, if◌then◌else◌}
use quic_relay.Go.{Go, ok, ◌>>=◌, ◌>>◌, fail_if, Bytes, index}
use quic_relay.Quic.{Error, empty_data, too_short_for_varint}

-- `uint64(data[0]&0x3f)<<56 | ... | uint64(data[7])`, by the number of bytes.
value_two : Bytes → Go Error ℕ
value_two b = do x0 ← index b 0; x1 ← index b 1; ok (bit_or (bit_and x0 0x3f * 2 ^ 8) x1)

value_four : Bytes → Go Error ℕ
value_four b = do
  x0 ← index b 0
  x1 ← index b 1
  x2 ← index b 2
  x3 ← index b 3
  ok (bit_or (bit_or (bit_or (bit_and x0 0x3f * 2 ^ 24) (x1 * 2 ^ 16)) (x2 * 2 ^ 8)) x3)

value_eight_or : ℕ → ℕ → ℕ → ℕ → ℕ → ℕ → ℕ → ℕ → ℕ
value_eight_or x0 x1 x2 x3 x4 x5 x6 x7 =
    let high = bit_or (bit_or (bit_and x0 0x3f * 2 ^ 56) (x1 * 2 ^ 48)) (x2 * 2 ^ 40) in
    let middle = bit_or (bit_or (bit_or high (x3 * 2 ^ 32)) (x4 * 2 ^ 24)) (x5 * 2 ^ 16) in
    bit_or (bit_or middle (x6 * 2 ^ 8)) x7

value_eight : Bytes → Go Error ℕ
value_eight b = do
  x0 ← index b 0
  x1 ← index b 1
  x2 ← index b 2
  x3 ← index b 3
  x4 ← index b 4
  x5 ← index b 5
  x6 ← index b 6
  x7 ← index b 7
  ok (value_eight_or x0 x1 x2 x3 x4 x5 x6 x7)

-- The `switch` on the length; no other length occurs, and the value would stay 0.
varint_value : Bytes → ℕ → Go Error ℕ
unfolding value_two value_four value_eight value_eight_or
varint_value b n =
    if n == 1
    then index b 0 >>= (λ x0. ok (bit_and x0 0x3f))
    else if n == 2
    then value_two b
    else if n == 4
    then value_four b
    else if n == 8
    then value_eight b
    else ok 0

-- The value and the number of bytes read.
unfoldable pub read_varint : Bytes → Go Error (ℕ × ℕ)
unfolding varint_value
read_varint b = do
  fail_if (length b == 0) empty_data
  first ← index b 0
  let n = 2 ^ (first / 64)
  fail_if (ltb (length b) n) too_short_for_varint
  value ← varint_value b n
  ok (value, n)
