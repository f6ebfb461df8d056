-- ===== src/Hytale/Floats/Exact.antt =====
-- float16ToFloat32 of pkg/protohytale/encoding.go against the numbers that IEEE 754 gives to the patterns
-- of a half-precision and of a single-precision float.
use quic_relay.Prelude.{
  ℕ, zero, suc, ◌+◌, ◌-◌, ◌*◌, ◌/◌, ◌%◌, ◌^◌, ◌<◌, ◌≡◌, refl, arith, Bool, true, false, ◌==◌, ◌&&◌,
  if◌then◌else◌,
}
use quic_relay.Go.{Go, ok, err, panic, stuck, Returns}
use quic_relay.Hytale.{Error}
use quic_relay.Hytale.Floats.{float16_to_float32}

-- A finite number is its sign and its size in units of 2^-149; a NaN keeps its sign and its payload of 23
-- bits.
pub data Float : Type 0 where
  finite : ℕ → ℕ → Float
  infinite : ℕ → Float
  nan : ℕ → ℕ → Float

-- The pattern of an exponent of 8 bits and a fraction of 23.
pub single : ℕ → Float
single bits =
    let sign = bits / 2 ^ 31 in
    let exp = bits / 2 ^ 23 % 2 ^ 8 in
    let frac = bits % 2 ^ 23 in
    if exp == 0
    then finite sign frac
    else if exp == 255
    then (if frac == 0 then infinite sign else nan sign frac)
    else finite sign ((2 ^ 23 + frac) * 2 ^ (exp - 1))

-- The pattern of an exponent of 5 bits and a fraction of 10, whose unit is 2^-24.
pub half : ℕ → Float
half bits =
    let sign = bits / 2 ^ 15 in
    let exp = bits / 2 ^ 10 % 2 ^ 5 in
    let frac = bits % 2 ^ 10 in
    if exp == 0
    then finite sign (frac * 2 ^ 125)
    else if exp == 31
    then (if frac == 0 then infinite sign else nan sign (frac * 2 ^ 13))
    else finite sign ((2 ^ 10 + frac) * 2 ^ (exp - 1) * 2 ^ 125)

same : Float → Float → Bool
same (finite s n) (finite t m) = s == t && n == m
same (infinite s) (infinite t) = s == t
same (nan s n) (nan t m) = s == t && n == m
same _ _ = false

same→eq : (x y : Float) → same x y ≡ true → x ≡ y
unfolding same
same→eq (finite s n) (finite t m) h = ground arith
same→eq (infinite s) (infinite t) h = ground arith
same→eq (nan s n) (nan t m) h = ground arith
same→eq (finite s n) (infinite t) h = ground arith
same→eq (finite s n) (nan t m) h = ground arith
same→eq (infinite s) (finite t m) h = ground arith
same→eq (infinite s) (nan t m) h = ground arith
same→eq (nan s n) (finite t m) h = ground arith
same→eq (nan s n) (infinite t) h = ground arith

agrees : ℕ → Go Error ℕ → Bool
agrees h (ok bits) = same (single bits) (half h)
agrees h _ = false

all_below : ℕ → (ℕ → Bool) → Bool
all_below zero p = true
all_below (suc n) p = p n && all_below n p

all_below-lt : (n : ℕ) (p : ℕ → Bool) → all_below n p ≡ true → (i : ℕ) → i < n → p i ≡ true
unfolding all_below
all_below-lt zero p h i lt = absurd (omega arith)
all_below-lt (suc n) p h i lt = ground (arith, all_below-lt n p (ground arith) i)

table : all_below 65536 (λ h. agrees h (float16_to_float32 h)) ≡ true
unfolding all_below agrees same single half float16_to_float32
table = refl

agrees-Returns :
    (h : ℕ) (r : Go Error ℕ) → agrees h r ≡ true → Returns (λ bits. single bits ≡ half h) r
unfolding agrees
agrees-Returns h (ok bits) e = same→eq (single bits) (half h) e
agrees-Returns h (err e') e = cc
agrees-Returns h panic e = cc
agrees-Returns h stuck e = cc

-- float16ToFloat32 returns, for each of the 65536 patterns of a half-precision float, and the pattern
-- that it returns stands for the same number: for the same sign and size if it is finite, subnormal
-- ones included, for the infinity of the same sign, or for a NaN of the same sign with the payload
-- moved up.
pub float16_to_float32-half :
    (h : ℕ) → h < 65536 → Returns (λ bits. single bits ≡ half h) (float16_to_float32 h)
float16_to_float32-half h lt =
    agrees-Returns h (float16_to_float32 h)
      (all_below-lt 65536 (λ h. agrees h (float16_to_float32 h)) table h lt)
