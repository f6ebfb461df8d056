-- ===== src/Quic/Header.antt =====
-- ClassifyPacket, ExtractDCID, ExtractSCID and ExtractDCIDAndSCID of internal/proxy/parser.go: the
-- part of a QUIC header that is not protected. An `int` offset is a sum of a few bytes and does
-- not wrap.
pub mod Layout
pub mod Reads
use quic_relay.Prelude.{ℕ, ◌+◌, ◌/◌, ◌^◌, Bool, not, bit_and, ltb, leb, ◌==◌, length, if◌then◌else◌}
use quic_relay.Go.{Go, ok, err, ◌>>=◌, ◌>>◌, fail_if, Bytes, index, slice}
use quic_relay.Quic.{
  PacketType, unknown, initial, zero_rtt, handshake, retry, short_header, Error, packet_too_short,
  dcid_len_required, too_short_for_dcid, too_short_for_long_header, short_header_has_no_scid,
  too_short_for_scid_len, too_short_for_scid,
}

-- `b&0x80 == 0`
abbrev pub is_short : ℕ → Bool
is_short b = bit_and b 0x80 == 0

-- The `switch` on `(packet[0] & 0x30) >> 4`.
unfoldable pub long_type : ℕ → PacketType
long_type b =
    let kind = bit_and b 0x30 / 2 ^ 4 in
    if kind == 0
    then initial
    else if kind == 1
    then zero_rtt
    else if kind == 2
    then handshake
    else if kind == 3
    then retry
    else unknown

unfoldable pub classify_packet : Bytes → Go Error PacketType
unfolding long_type
classify_packet packet =
    if ltb (length packet) 1
    then ok unknown
    else index packet 0 >>= (λ b. ok (if is_short b then short_header else long_type b))

-- `dcid_len` is a length that was registered, or 0: it is never negative.
unfoldable pub extract_dcid : Bytes → ℕ → Go Error Bytes
extract_dcid packet dcid_len = do
  fail_if (ltb (length packet) 1) packet_too_short
  first ← index packet 0
  if is_short first
      then (do
        fail_if (dcid_len == 0) dcid_len_required
        fail_if (ltb (length packet) (1 + dcid_len)) too_short_for_dcid
        slice packet 1 (1 + dcid_len))
      else (do
        fail_if (ltb (length packet) 6) too_short_for_long_header
        from_packet ← index packet 5
        fail_if (ltb (length packet) (6 + from_packet)) too_short_for_dcid
        slice packet 6 (6 + from_packet))

unfoldable pub extract_scid : Bytes → Go Error Bytes
extract_scid packet = do
  fail_if (ltb (length packet) 1) packet_too_short
  first ← index packet 0
  fail_if (is_short first) short_header_has_no_scid
  fail_if (ltb (length packet) 6) too_short_for_long_header
  dcid_len ← index packet 5
  let offset = 6 + dcid_len
  fail_if (leb (length packet) offset) too_short_for_scid_len
  scid_len ← index packet offset
  fail_if (ltb (length packet) (offset + 1 + scid_len)) too_short_for_scid
  slice packet (offset + 1) (offset + 1 + scid_len)

unfoldable pub extract_dcid_and_scid : Bytes → Go Error (Bytes × Bytes)
extract_dcid_and_scid packet = do
  fail_if (ltb (length packet) 1) packet_too_short
  first ← index packet 0
  fail_if (is_short first) short_header_has_no_scid
  fail_if (ltb (length packet) 6) too_short_for_long_header
  dcid_len ← index packet 5
  fail_if (ltb (length packet) (6 + dcid_len)) too_short_for_dcid
  dcid ← slice packet 6 (6 + dcid_len)
  let offset = 6 + dcid_len
  fail_if (leb (length packet) offset) too_short_for_scid_len
  scid_len ← index packet offset
  fail_if (ltb (length packet) (offset + 1 + scid_len)) too_short_for_scid
  scid ← slice packet (offset + 1) (offset + 1 + scid_len)
  ok (dcid, scid)
