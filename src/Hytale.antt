-- ===== src/Hytale.antt =====
-- pkg/protohytale: the framing of packets on a stream (reader.go), the values in them (encoding.go) and
-- the Connect packet (packets_connect.go). Two readings of a uint32 stand for
-- encoding/binary.
pub mod Reader
pub mod Values
pub mod Floats
pub mod Connect
pub mod Compression
use quic_relay.Prelude.{ℕ, ◌+◌, ◌*◌, ◌/◌, ◌%◌, ◌^◌, get_or, List, [], ◌∷◌}
use quic_relay.Go.{Bytes}

pub data Error : Type 0 where
  eof unexpected_eof packet_too_large : Error
  var_int_too_long string_too_long connect_too_short invalid_packet_id : Error

-- `Packet` of packet.go
pub record Packet : Type 0 where
  pub id : ℕ
  pub payload : Bytes

-- binary.LittleEndian.Uint32 of the first four bytes, and PutUint32.
abbrev pub uint32_at : Bytes → ℕ → ℕ
uint32_at b i =
    get_or b i 0
    + get_or b (i + 1) 0 * 2 ^ 8
    + get_or b (i + 2) 0 * 2 ^ 16
    + get_or b (i + 3) 0 * 2 ^ 24

abbrev pub put_uint32 : ℕ → Bytes
put_uint32 n = n % 2 ^ 8 ∷ n / 2 ^ 8 % 2 ^ 8 ∷ n / 2 ^ 16 % 2 ^ 8 ∷ n / 2 ^ 24 % 2 ^ 8 ∷ []
