-- ===== src/Quic/Header/Reads.antt =====
-- No read of a header is out of range, and the readers agree with one another.
use quic_relay.Prelude.{
  ℕ, ◌≡◌, ◌<◌, arith, false, length, length-take, length-drop, drop, ◌+◌, ◌-◌, get_or,
}
use quic_relay.Go.{ok, ◌>>=◌, Ensures, Bytes, index, slice}
use quic_relay.Quic.Header.{is_short, extract_dcid, extract_scid, extract_dcid_and_scid}

-- ExtractDCID never panics; what it returns has the length asked for, or at most a byte's value.
pub extract_dcid-Ensures :
    (packet : Bytes) (n : ℕ) → Ensures (λ d. length d < length packet) (extract_dcid packet n)
unfolding extract_dcid index slice
extract_dcid-Ensures packet n = ground (
  arith,
  length-take (1 + n - 1) (drop 1 packet),
  length-drop 1 packet,
  length-take (6 + get_or packet 5 0 - 6) (drop 6 packet),
  length-drop 6 packet,
)

pub extract_scid-Ensures :
    (packet : Bytes) → Ensures (λ s. length s < length packet) (extract_scid packet)
unfolding extract_scid index slice
extract_scid-Ensures packet =
    let offset = 6 + get_or packet 5 0 in
    let size = get_or packet offset 0 in
    ground (
      arith,
      length-take (offset + 1 + size - (offset + 1)) (drop (offset + 1) packet),
      length-drop (offset + 1) packet,
    )

-- On a long header, ExtractDCIDAndSCID returns what ExtractDCID and ExtractSCID return, and fails as
-- the first of them that fails.
pub extract_dcid_and_scid-eq :
    (packet : Bytes) (n : ℕ)
    → is_short (get_or packet 0 0) ≡ false
    → extract_dcid_and_scid packet
      ≡ (extract_dcid packet n >>= λ d. extract_scid packet >>= λ s. ok (d, s))
unfolding extract_dcid extract_scid extract_dcid_and_scid index slice
extract_dcid_and_scid-eq packet n h = ground arith
