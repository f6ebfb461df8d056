-- ===== src/Prelude/BitSet.antt =====
-- Single bits of a word: `w | 1<<k` sets one, and `w & 1<<m` reads one.
use Prim.Native.Nat.{ℕ, zero, suc, ◌*◌, ◌/◌, ◌%◌, ◌^◌, ◌≤◌, max, bit_and, bit_or}
use mathlib.Core.Path.{◌≡◌, refl, ap, ◌∙◌}
use mathlib.Core.Bool.{Bool, false, not, ◌||◌}
use native.Mathlib.Omega.{arith}
use quic_relay.Prelude.Tests.{◌==◌, if◌then◌else◌}
use quic_relay.Prelude.Bits.{bit_and_step, bit_and-zero, bit_or_step, pow_suc}

-- Bit m of a number, 0 or 1.
pub bit : ℕ → ℕ → ℕ
bit a zero = a % 2
bit a (suc m) = bit (a / 2) m

bit-zero : (m : ℕ) → bit 0 m ≡ 0
unfolding bit
bit-zero zero = refl
bit-zero (suc m) = bit-zero m

bit-le : (a m : ℕ) → bit a m ≤ 1
unfolding bit
bit-le a zero = omega arith
bit-le a (suc m) = bit-le (a / 2) m

bit-bit_or : (a b m : ℕ) → bit (bit_or a b) m ≡ max (bit a m) (bit b m)
unfolding bit
bit-bit_or a b zero = omega (arith, bit_or_step a b)
bit-bit_or a b (suc m) =
    let half : bit_or a b / 2 ≡ bit_or (a / 2) (b / 2) = omega (arith, bit_or_step a b) in
    ap (λ t. bit t m) half ∙ bit-bit_or (a / 2) (b / 2) m

double_half : (k : ℕ) → 2 ^ suc k / 2 ≡ 2 ^ k
double_half k = omega (arith, pow_suc k)

double_even : (k : ℕ) → 2 ^ suc k % 2 ≡ 0
double_even k = omega (arith, pow_suc k)

bit-pow : (k m : ℕ) → bit (2 ^ k) m ≡ (if k == m then 1 else 0)
unfolding bit
bit-pow zero zero = refl
bit-pow zero (suc m) = ground (arith, bit-zero m)
bit-pow (suc k) zero = ground (arith, double_even k)
bit-pow (suc k) (suc m) = ground (arith, ap (λ t. bit t m) (double_half k), bit-pow k m)

bit_and-pow : (a m : ℕ) → bit_and a (2 ^ m) ≡ bit a m * 2 ^ m
unfolding bit
bit_and-pow a zero = omega (arith, bit_and_step a 1, bit_and-zero (a / 2) (a / 2) (omega arith))
bit_and-pow a (suc m) = omega (
  arith,
  bit_and_step a (2 ^ suc m),
  double_even m,
  ap (λ (t : ℕ). bit_and (a / 2) t) (double_half m),
  bit_and-pow (a / 2) m,
  ap (λ (t : ℕ). bit (a / 2) m * t) (pow_suc m),
)

-- `w&(1<<m) != 0`
abbrev pub has_bit : ℕ → ℕ → Bool
has_bit w m = not (bit_and w (2 ^ m) == 0)

pow_pos : (m : ℕ) → 1 ≤ 2 ^ m
pow_pos zero = omega arith
pow_pos (suc m) = omega (arith, pow_suc m, pow_pos m)

zero_or_one : (b p : ℕ) → b ≤ 1 → 1 ≤ p → not (b * p == 0) ≡ (b == 1)
zero_or_one zero p h k = ground arith
zero_or_one (suc zero) p h k = ground arith
zero_or_one (suc (suc b)) p h k = absurd (omega arith)

has_bit-bit : (w m : ℕ) → has_bit w m ≡ (bit w m == 1)
has_bit-bit w m = rw (bit_and-pow w m) (zero_or_one (bit w m) (2 ^ m) (bit-le w m) (pow_pos m))

-- Setting bit k makes exactly that one answer true.
pub has_bit-bit_or : (w k m : ℕ) → has_bit (bit_or w (2 ^ k)) m ≡ (k == m || has_bit w m)
has_bit-bit_or w k m = ground (
  arith,
  has_bit-bit (bit_or w (2 ^ k)) m,
  has_bit-bit w m,
  bit-bit_or w (2 ^ k) m,
  bit-pow k m,
  bit-le w m,
)

pub has_bit-zero : (m : ℕ) → has_bit 0 m ≡ false
has_bit-zero m = ground (arith, has_bit-bit 0 m, bit-zero m)
