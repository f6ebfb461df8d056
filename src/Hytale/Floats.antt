-- ===== src/Hytale/Floats.antt =====
-- The signed integer and the floats of pkg/protohytale/encoding.go. A float32 is its bit pattern, as
-- math.Float32frombits takes it.
pub mod Exact
use quic_relay.Prelude.{
  ℕ, zero, suc, ◌+◌, ◌-◌, ◌*◌, ◌/◌, ◌%◌, ◌^◌, Bool, true, false, ltb, ◌==◌, bit_and, bit_or, List,
  length, if◌then◌else◌,
}
use quic_relay.Prelude.Int.{ℤ, pos, negsuc}
use quic_relay.Go.{Go, ok, err, panic, stuck, ◌>>=◌, Bytes}
use quic_relay.Hytale.{Error, unexpected_eof, uint32_at}
use quic_relay.Hytale.Values.{uint16_at}

-- `int32(u)` of a uint32
unfoldable pub to_int32 : ℕ → ℤ
to_int32 u = if ltb u (2 ^ 31) then pos u else negsuc (2 ^ 32 - 1 - u)

unfoldable pub read_int32_le : Bytes → Go Error (ℤ × ℕ)
read_int32_le b = if ltb (length b) 4 then err unexpected_eof else ok (to_int32 (uint32_at b 0), 4)

unfoldable pub read_float32_le : Bytes → Go Error (ℕ × ℕ)
read_float32_le b = if ltb (length b) 4 then err unexpected_eof else ok (uint32_at b 0, 4)

-- `for mant&0x400 == 0 { mant <<= 1; exp-- }`, at most the fuel's rounds.
unfoldable pub normalize : ℕ → ℕ → ℕ → Go Error (ℕ × ℕ)
normalize zero exp mant = stuck
normalize (suc k) exp mant = elim (bit_and mant 0x400 == 0) [
  | true ↦ normalize k ((exp + 2 ^ 32 - 1) % 2 ^ 32) (mant * 2 % 2 ^ 32)
  | false ↦ ok (exp, mant)
]

-- `(sign << 31) | (exp << 23) | (mant << 13)`
abbrev pub assemble : ℕ → ℕ → ℕ → ℕ
assemble sign exp mant =
    bit_or (bit_or (sign * 2 ^ 31 % 2 ^ 32) (exp * 2 ^ 23 % 2 ^ 32)) (mant * 2 ^ 13 % 2 ^ 32)

unfoldable pub float16_to_float32 : ℕ → Go Error ℕ
unfolding normalize
float16_to_float32 h =
    let sign = bit_and (h / 2 ^ 15) 1 in
    let exp = bit_and (h / 2 ^ 10) 0x1f in
    let mant = bit_and h 0x3ff in
    if exp == 0
    then (if mant == 0
        then ok (sign * 2 ^ 31 % 2 ^ 32)
        else normalize 11 (127 - 14) mant >>= λ (exp', mant').
            ok (assemble sign exp' (bit_and mant' 0x3ff)))
    else if exp == 31
    then ok (assemble sign 0xff mant)
    else ok (assemble sign (exp + 127 - 15) mant)

unfoldable pub read_float16 : Bytes → Go Error (ℕ × ℕ)
read_float16 b =
    if ltb (length b) 2
    then err unexpected_eof
    else (float16_to_float32 (uint16_at b 0) >>= λ bits. ok (bits, 2))
