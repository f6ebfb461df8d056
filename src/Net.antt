-- ===== src/Net.antt =====
-- What the proxy uses of Go's `net` package: a *net.UDPAddr, with the text that its String method
-- gives, and IP.Equal.
use quic_relay.Prelude.{
  ℕ, Bool, false, ◌&&◌, ◌==◌, [], ◌∷◌, ◌++◌, length, take, drop, replicate, if◌then◌else◌,
}
use quic_relay.Go.{Bytes, bytes_eq}

pub record Addr : Type 0 where
  pub ip : Bytes
  pub port : ℕ
  pub text : Bytes

-- The first twelve bytes of an IPv4 address in its form of sixteen.
abbrev v4_in_v6_prefix : Bytes
v4_in_v6_prefix = replicate 10 0 ++ (255 ∷ 255 ∷ [])

abbrev pub ip_equal : Bytes → Bytes → Bool
ip_equal a b =
    if length a == length b
    then bytes_eq a b
    else if length a == 4 && length b == 16
    then bytes_eq (take 12 b) v4_in_v6_prefix && bytes_eq a (drop 12 b)
    else if length a == 16 && length b == 4
    then bytes_eq (take 12 a) v4_in_v6_prefix && bytes_eq (drop 12 a) b
    else false
