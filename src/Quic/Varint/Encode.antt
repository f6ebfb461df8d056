-- ===== src/Quic/Varint/Encode.antt =====
-- A varint as RFC 9000, section 16, writes it, in any of its four sizes, and readVarInt of
-- internal/proxy/parser.go on it.
use quic_relay.Prelude.{
  ℕ, ◌+◌, ◌-◌, ◌*◌, ◌/◌, ◌%◌, ◌^◌, ◌<◌, ◌≡◌, ◌∙◌, refl, ap, arith, [], ◌∷◌, ◌++◌, length,
}
use quic_relay.Go.{ok, Bytes}
use quic_relay.Quic.Varint.{read_varint}
use quic_relay.Quic.Varint.Reference.{
  read_varint_one, read_varint_two, read_varint_four, read_varint_eight,
}

pub data VarintSize : Type 0 where
  one two four_bytes eight_bytes : VarintSize

abbrev pub width : VarintSize → ℕ
width one = 1
width two = 2
width four_bytes = 4
width eight_bytes = 8

-- The numbers below this fit.
abbrev pub limit : VarintSize → ℕ
limit size = 2 ^ (8 * width size - 2)

abbrev byte : ℕ → ℕ → ℕ
byte v i = v / 2 ^ (8 * i) % 256

unfoldable pub encode_varint : VarintSize → ℕ → Bytes
encode_varint one v = v ∷ []
encode_varint two v = (64 + v / 256) ∷ (v % 256) ∷ []
encode_varint four_bytes v = (128 + v / 2 ^ 24) ∷ byte v 2 ∷ byte v 1 ∷ byte v 0 ∷ []
encode_varint eight_bytes v =
    (192 + v / 2 ^ 56)
    ∷ byte v 6
    ∷ byte v 5
    ∷ byte v 4
    ∷ byte v 3
    ∷ byte v 2
    ∷ byte v 1
    ∷ byte v 0
    ∷ []

pub length-encode_varint : (size : VarintSize) (v : ℕ) → length (encode_varint size v) ≡ width size
unfolding encode_varint
length-encode_varint one v = refl
length-encode_varint two v = refl
length-encode_varint four_bytes v = refl
length-encode_varint eight_bytes v = refl

read_four :
    (v : ℕ) (rest : Bytes)
    → v < 2 ^ 30
    → read_varint (encode_varint four_bytes v ++ rest) ≡ ok (v, 4)
unfolding encode_varint
read_four v rest h =
    read_varint_four (128 + v / 2 ^ 24) (byte v 2) (byte v 1) (byte v 0) rest (ground (arith, h))
      (omega (arith, h))
    ∙ ap (λ n. ok (n, 4)) (omega (arith, h))

read_eight :
    (v : ℕ) (rest : Bytes)
    → v < 2 ^ 62
    → read_varint (encode_varint eight_bytes v ++ rest) ≡ ok (v, 8)
unfolding encode_varint
read_eight v rest h =
    read_varint_eight (192 + v / 2 ^ 56) (byte v 6) (byte v 5) (byte v 4) (byte v 3) (byte v 2)
      (byte v 1) (byte v 0) rest (ground (arith, h)) (omega (arith, h))
    ∙ ap (λ n. ok (n, 8)) (omega (arith, h))

-- A number that fits is read back, whatever follows.
pub read_varint-encode_varint :
    (size : VarintSize) (v : ℕ) (rest : Bytes)
    → v < limit size
    → read_varint (encode_varint size v ++ rest) ≡ ok (v, width size)
unfolding encode_varint
read_varint-encode_varint one v rest h = read_varint_one v rest h
read_varint-encode_varint two v rest h = read_varint_two v rest h
read_varint-encode_varint four_bytes v rest h = read_four v rest h
read_varint-encode_varint eight_bytes v rest h = read_eight v rest h
