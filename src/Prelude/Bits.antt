-- ===== src/Prelude/Bits.antt =====
-- `&`, `|` and `^` as arithmetic: masks on one byte by a table, `|` of disjoint bits at every width.
pub mod Xor
use Prim.Native.Nat.{
  ℕ, zero, suc, ◌+◌, ◌*◌, ◌/◌, ◌%◌, ◌^◌, ◌≤◌, ◌<◌, max, min, bit_and, bit_or, digits,
  bit_or-bitwise, bit_and-bitwise,
}
use mathlib.Core.Path.{sym, ◌≡◌, refl, ap, ◌∙◌}
use mathlib.Core.Bool.{Bool, true, false}
use mathlib.Core.Logic.{ite}
use native.Mathlib.Decide.{ℕ_discrete}
use native.Mathlib.Omega.{arith}
use native.Mathlib.Nat.{pow-suc, mul_comm}

module _ (f g : ℕ → ℕ) where
  agree_below : ℕ → Bool
  unfolding ℕ_discrete
  agree_below zero = true
  agree_below (suc n) = ite (ℕ_discrete (f n) (g n)) (agree_below n) false

  agree_below→eq : (n : ℕ) → agree_below n ≡ true → (i : ℕ) → i < n → f i ≡ g i
  unfolding agree_below
  agree_below→eq zero e i h = absurd (omega arith)
  agree_below→eq (suc n) e i h = ground (arith, agree_below→eq n (ground arith) i)

pub low_six : (b : ℕ) → b < 256 → bit_and b 0x3f ≡ b % 64
unfolding agree_below
low_six = agree_below→eq _ _ 256 refl

pub low_seven : (b : ℕ) → b < 256 → bit_and b 0x7f ≡ b % 128
unfolding agree_below
low_seven = agree_below→eq _ _ 256 refl

pub top_bit : (b : ℕ) → b < 256 → bit_and b 0x80 ≡ b / 128 * 128
unfolding agree_below
top_bit = agree_below→eq _ _ 256 refl

pub type_bits : (b : ℕ) → b < 256 → bit_and b 0x30 / 16 ≡ b / 16 % 4
unfolding agree_below
type_bits = agree_below→eq _ _ 256 refl

pub set_top_bit : (b : ℕ) → b < 128 → bit_or b 0x80 ≡ b + 128
unfolding agree_below
set_top_bit = agree_below→eq _ _ 128 refl

-- `|` and `&` digit by digit: both are `digits`, at their own rule for a digit.
module _ (at_zero : ℕ → ℕ) (digit : ℕ → ℕ → ℕ) where
  rounds : ℕ → ℕ → ℕ → ℕ
  rounds n a b = digits at_zero digit n a b

  -- More rounds than `a` has digits change nothing.
  rounds-enough : (n m a b : ℕ) → a ≤ n → a ≤ m → rounds n a b ≡ rounds m a b
  unfolding rounds
  rounds-enough zero zero a b p q = refl
  rounds-enough zero (suc m) zero b p q = refl
  rounds-enough (suc n) zero zero b p q = refl
  rounds-enough (suc n) (suc m) zero b p q = refl
  rounds-enough (suc n) (suc m) (suc a) b p q =
      omega (arith, rounds-enough n m (suc a / 2) (b / 2) (omega arith) (omega arith))
  rounds-enough _ _ (suc a) b p q = absurd (omega arith)

pub zero-bit_or : (b : ℕ) → bit_or 0 b ≡ b
zero-bit_or b = bit_or-bitwise 0 b

pub bit_or_step : (a b : ℕ) → bit_or a b ≡ bit_or (a / 2) (b / 2) * 2 + max (a % 2) (b % 2)
unfolding rounds
bit_or_step zero b = omega (arith, zero-bit_or b, zero-bit_or (b / 2))
bit_or_step (suc a) b = omega (
  arith,
  bit_or-bitwise (suc a) b,
  bit_or-bitwise (suc a / 2) (b / 2),
  rounds-enough (λ t. t) max a (suc a / 2) (suc a / 2) (b / 2) (omega arith) (omega arith),
)

bit_or-zero_fuel : (n a : ℕ) → a ≤ n → bit_or a 0 ≡ a
bit_or-zero_fuel n zero h = refl
bit_or-zero_fuel zero (suc a) h = absurd (omega arith)
bit_or-zero_fuel (suc n) (suc a) h =
    omega (arith, bit_or_step (suc a) 0, bit_or-zero_fuel n (suc a / 2) (omega arith))

pub bit_or-zero : (a : ℕ) → bit_or a 0 ≡ a
bit_or-zero a = bit_or-zero_fuel a a (omega arith)

pub bit_and_step : (a b : ℕ) → bit_and a b ≡ bit_and (a / 2) (b / 2) * 2 + min (a % 2) (b % 2)
unfolding rounds
bit_and_step zero b = omega (arith, bit_and-bitwise 0 b, bit_and-bitwise 0 (b / 2))
bit_and_step (suc a) b = omega (
  arith,
  bit_and-bitwise (suc a) b,
  bit_and-bitwise (suc a / 2) (b / 2),
  rounds-enough (λ t. 0) min a (suc a / 2) (suc a / 2) (b / 2) (omega arith) (omega arith),
)

pub bit_and-zero : (n a : ℕ) → a ≤ n → bit_and a 0 ≡ 0
bit_and-zero n zero h = bit_and-bitwise 0 0
bit_and-zero zero (suc a) h = absurd (omega arith)
bit_and-zero (suc n) (suc a) h =
    omega (arith, bit_and_step (suc a) 0, bit_and-zero n (suc a / 2) (omega arith))

-- The two lowest bits of any number.
pub low_two : (a : ℕ) → bit_and a 0x03 ≡ a % 4
low_two a = omega (
  arith,
  bit_and_step a 3,
  bit_and_step (a / 2) 1,
  bit_and-zero (a / 2 / 2) (a / 2 / 2) (omega arith),
)

bit_or_even : (x b : ℕ) → bit_or (2 * x) b ≡ bit_or x (b / 2) * 2 + b % 2
bit_or_even x b =
    let half : 2 * x / 2 ≡ x = omega arith in
    omega (arith, bit_or_step (2 * x) b, ap (λ (t : ℕ). bit_or t (b / 2)) half)

pub pow_suc : (k : ℕ) → 2 ^ suc k ≡ 2 * 2 ^ k
pow_suc k = pow-suc 2 k ∙ mul_comm (2 ^ k) 2

shl_suc : (k a : ℕ) → a * 2 ^ suc k ≡ 2 * (a * 2 ^ k)
shl_suc k a = omega (arith, ap (λ (t : ℕ). a * t) (pow_suc k))

-- `a << k | b` is a sum where `b` fits the low k bits.
pub bit_or_disjoint : (k a b : ℕ) → b < 2 ^ k → bit_or (a * 2 ^ k) b ≡ a * 2 ^ k + b
bit_or_disjoint zero a b h =
    let e : b ≡ 0 = omega arith in rw e (bit_or-zero (a * 2 ^ 0) ∙ omega arith)
bit_or_disjoint (suc k) a b h =
    rw (shl_suc k a)
      (omega (arith, bit_or_even (a * 2 ^ k) b, pow_suc k, bit_or_disjoint k a (b / 2)))

bit_or_comm_fuel : (n a b : ℕ) → a ≤ n → bit_or a b ≡ bit_or b a
bit_or_comm_fuel n zero b h = zero-bit_or b ∙ sym (bit_or-zero b)
bit_or_comm_fuel zero (suc a) b h = absurd (omega arith)
bit_or_comm_fuel (suc n) (suc a) b h = omega (
  arith,
  bit_or_step (suc a) b,
  bit_or_step b (suc a),
  bit_or_comm_fuel n (suc a / 2) (b / 2) (omega arith),
)

-- `b | a << k` is that sum too.
pub bit_or_disjoint_right : (k a b : ℕ) → b < 2 ^ k → bit_or b (a * 2 ^ k) ≡ b + a * 2 ^ k
bit_or_disjoint_right k a b h =
    bit_or_comm_fuel b b (a * 2 ^ k) (omega arith) ∙ bit_or_disjoint k a b h ∙ omega arith

-- `a & 1`, `a & 3`, ... of any number.
low_one : (a : ℕ) → bit_and a 1 ≡ a % 2
low_one a = omega (arith, bit_and_step a 1, bit_and-zero (a / 2) (a / 2) (omega arith))

module _ (m : ℕ) (low : (a : ℕ) → bit_and a m ≡ a % suc m) where
  -- A mask that is one bit longer.
  longer : (a : ℕ) → bit_and a (2 * m + 1) ≡ a / 2 % suc m * 2 + a % 2
  longer a =
      let half : (2 * m + 1) / 2 ≡ m = omega arith in
      let odd : (2 * m + 1) % 2 ≡ 1 = omega arith in
      omega (
        arith,
        bit_and_step a (2 * m + 1),
        ap (λ (t : ℕ). bit_and (a / 2) t) half,
        odd,
        low (a / 2),
      )

low_three : (a : ℕ) → bit_and a 3 ≡ a % 4
low_three a = omega (arith, longer 1 low_one a)

low_seven_of : (a : ℕ) → bit_and a 7 ≡ a % 8
low_seven_of a = omega (arith, longer 3 low_three a)

low_fifteen : (a : ℕ) → bit_and a 15 ≡ a % 16
low_fifteen a = omega (arith, longer 7 low_seven_of a)

low_31 : (a : ℕ) → bit_and a 31 ≡ a % 32
low_31 a = omega (arith, longer 15 low_fifteen a)

low_63 : (a : ℕ) → bit_and a 63 ≡ a % 64
low_63 a = omega (arith, longer 31 low_31 a)

-- The low seven bits of any number.
pub low_127 : (a : ℕ) → bit_and a 127 ≡ a % 128
low_127 a = omega (arith, longer 63 low_63 a)
