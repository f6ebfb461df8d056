-- ===== src/Hytale/Compression.antt =====
-- packet.go of pkg/protohytale: compressed payloads, with the Zstd decoder as a parameter, and the
-- names of packets; the printed UUID and hash of packets_connect.go.
use Prim.Native.Char.{code}
use Prim.Native.String.{String}
use quic_relay.Prelude.{
  ℕ, ◌+◌, ◌-◌, ◌*◌, ◌/◌, ◌%◌, ◌<◌, ◌≡◌, refl, ap, arith, Bool, ltb, leb, ◌==◌, ◌&&◌, Option, some,
  [], ◌∷◌, ◌++◌, All, length, get_or, take, drop, if◌then◌else◌,
}
use quic_relay.Go.{Bytes}
use quic_relay.Hytale.{Packet}
use quic_relay.Hytale.Connect.{ConnectPacket}

-- IsCompressed: the four bytes of `zstdMagic`.
unfoldable pub is_compressed : Packet → Bool
is_compressed p =
    leb 4 (length p.payload)
    && get_or p.payload 0 0 == 0x28
    && get_or p.payload 1 0 == 0xb5
    && get_or p.payload 2 0 == 0x2f
    && get_or p.payload 3 0 == 0xfd

-- Decompress, with DecodeAll, which can fail.
unfoldable pub decompress : (Bytes → Option Bytes) → Packet → Option Bytes
decompress decode_all p = if is_compressed p then decode_all p.payload else some p.payload

abbrev codes : String → Bytes
codes String.[] = []
codes (String.◌∷◌ c s) = code c ∷ codes s

unfoldable pub packet_name : ℕ → Bytes
packet_name id = if id == 0 then codes "Connect" else if id == 1 then codes "Disconnect" else []

-- `%x` of a byte slice.
abbrev pub hex_digit : ℕ → ℕ
hex_digit n = if ltb n 10 then b'0' + n else b'a' + (n - 10)

unfoldable pub hex : Bytes → Bytes
hex [] = []
hex (b ∷ bs) = hex_digit (b / 16) ∷ hex_digit (b % 16) ∷ hex bs

-- UUIDString, of the 16 bytes.
unfoldable pub uuid_string : ConnectPacket → Bytes
uuid_string cp =
    let u = cp.uuid in
    let dash = b'-' ∷ [] in
    hex (take 4 u)
    ++ (dash
        ++ (hex (take 2 (drop 4 u))
            ++ (dash
                ++ (hex (take 2 (drop 6 u))
                    ++ (dash ++ (hex (take 2 (drop 8 u)) ++ (dash ++ hex (take 6 (drop 10 u)))))))))

-- ProtocolHashHex
unfoldable pub protocol_hash_hex : ConnectPacket → Bytes
protocol_hash_hex cp = hex cp.protocol_hash

abbrev pub digit_value : ℕ → ℕ
digit_value c = if ltb c b'a' then c - b'0' else c - b'a' + 10

abbrev pub read_hex : Bytes → Bytes
read_hex [] = []
read_hex (x ∷ []) = []
read_hex (x ∷ y ∷ rest) = (digit_value x * 16 + digit_value y) ∷ read_hex rest

digit_value-hex_digit : (n : ℕ) → n < 16 → digit_value (hex_digit n) ≡ n
digit_value-hex_digit n h = ground (arith, h)

-- The printed hash holds the bytes of the hash.
pub read_hex-hex : (b : Bytes) → All (λ x. x < 256) b → read_hex (hex b) ≡ b
unfolding hex
read_hex-hex [] h = refl
read_hex-hex (x ∷ b) h =
    let high = digit_value-hex_digit (x / 16) (omega (arith, h.0)) in
    let low = digit_value-hex_digit (x % 16) (omega arith) in
    rw (high, low, read_hex-hex b h.1) (ap (λ n. n ∷ b) (omega arith))
