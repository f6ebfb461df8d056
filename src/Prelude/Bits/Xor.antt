-- ===== src/Prelude/Bits/Xor.antt =====
-- `^` digit by digit: it undoes itself, at every width.
use Prim.Native.Nat.{
  ℕ, zero, suc, ◌+◌, ◌*◌, ◌/◌, ◌%◌, ◌≤◌, ◌<◌, bit_and, bit_xor, differ, bit_xor-bitwise,
}
use mathlib.Core.Path.{◌≡◌, refl, ◌∙◌}
use native.Mathlib.Omega.{arith}
use quic_relay.Prelude.Bits.{
  rounds, rounds-enough, agree_below, agree_below→eq, bit_and_step, low_two,
}

differ_digits : (x y : ℕ) → x < 2 → y < 2 → differ x y ≡ (x + y) % 2
differ_digits zero y p q = omega arith
differ_digits (suc zero) zero p q = refl
differ_digits (suc zero) (suc zero) p q = refl
differ_digits (suc zero) (suc (suc y)) p q = absurd (omega arith)
differ_digits (suc (suc x)) y p q = absurd (omega arith)

zero-bit_xor : (b : ℕ) → bit_xor 0 b ≡ b
zero-bit_xor b = bit_xor-bitwise 0 b

pub bit_xor_step : (a b : ℕ) → bit_xor a b ≡ bit_xor (a / 2) (b / 2) * 2 + (a % 2 + b % 2) % 2
unfolding rounds
bit_xor_step zero b = omega (arith, zero-bit_xor b, zero-bit_xor (b / 2))
bit_xor_step (suc a) b = omega (
  arith,
  bit_xor-bitwise (suc a) b,
  bit_xor-bitwise (suc a / 2) (b / 2),
  differ_digits (suc a % 2) (b % 2),
  rounds-enough (λ t. t) differ a (suc a / 2) (suc a / 2) (b / 2) (omega arith) (omega arith),
)

bit_xor-bit_xor_fuel : (n a b : ℕ) → a ≤ n → b ≤ n → bit_xor (bit_xor a b) b ≡ a
bit_xor-bit_xor_fuel zero zero zero p q = refl
bit_xor-bit_xor_fuel zero zero (suc b) p q = absurd (omega arith)
bit_xor-bit_xor_fuel zero (suc a) b p q = absurd (omega arith)
bit_xor-bit_xor_fuel (suc n) a b p q =
    let half : bit_xor a b / 2 ≡ bit_xor (a / 2) (b / 2) = omega (arith, bit_xor_step a b) in
    let last : bit_xor a b % 2 ≡ (a % 2 + b % 2) % 2 = omega (arith, bit_xor_step a b) in
    bit_xor_step (bit_xor a b) b
    ∙ rw (half, last)
        (omega (arith, bit_xor-bit_xor_fuel n (a / 2) (b / 2) (omega arith) (omega arith)))

pub bit_xor-bit_xor : (a b : ℕ) → bit_xor (bit_xor a b) b ≡ a
bit_xor-bit_xor a b = bit_xor-bit_xor_fuel (a + b) a b (omega arith) (omega arith)

bit_xor-zero_fuel : (n a : ℕ) → a ≤ n → bit_xor a 0 ≡ a
bit_xor-zero_fuel zero zero p = refl
bit_xor-zero_fuel zero (suc a) p = absurd (omega arith)
bit_xor-zero_fuel (suc n) a p =
    omega (arith, bit_xor_step a 0, bit_xor-zero_fuel n (a / 2) (omega arith))

pub bit_xor-zero : (a : ℕ) → bit_xor a 0 ≡ a
bit_xor-zero a = bit_xor-zero_fuel a a (omega arith)

pub low_four : (a : ℕ) → bit_and a 0x0f ≡ a % 16
low_four a = omega (arith, bit_and_step a 15, bit_and_step (a / 2) 7, low_two (a / 2 / 2))

-- A mask of the lower half of a byte leaves the upper half's bits alone.
pub upper_bits :
    (b m : ℕ)
    → b < 256
    → m < 16
    → (bit_and (bit_xor b m) 0x80 ≡ bit_and b 0x80) × (bit_and (bit_xor b m) 0x30 ≡ bit_and b 0x30)
unfolding agree_below
upper_bits b m h k =
    let n = b * 16 + m in
    let above : n / 16 ≡ b = omega arith in
    let below : n % 16 ≡ m = omega arith in
    let top =
      agree_below→eq (λ n. bit_and (bit_xor (n / 16) (n % 16)) 0x80) (λ n. bit_and (n / 16) 0x80)
        4096 refl n (omega arith) in
    let kind =
      agree_below→eq (λ n. bit_and (bit_xor (n / 16) (n % 16)) 0x30) (λ n. bit_and (n / 16) 0x30)
        4096 refl n (omega arith) in
    (rw (above, below) at top, rw (above, below) at kind)
