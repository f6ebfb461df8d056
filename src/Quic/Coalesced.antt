-- ===== src/Quic/Coalesced.antt =====
-- ExtractAllSCIDs of internal/proxy/parser.go: the source connection IDs of the long header packets
-- that are coalesced in a datagram.
pub mod Total
pub mod Packets
use quic_relay.Prelude.{
  ℕ, zero, suc, ◌+◌, Bool, true, false, not, ◌&&◌, ◌||◌, ltb, leb, ◌==◌, Option, none, some, List,
  [], ◌∷◌, ◌++◌, length, if◌then◌else◌,
}
use quic_relay.Go.{
  Go, ok, err, panic, stuck, ◌>>=◌, Bytes, bytes_eq, contains, index, slice, slice_from,
}
use quic_relay.Quic.{Error}
use quic_relay.Quic.Varint.{read_varint}
use quic_relay.Quic.Header.{is_short}

-- The SCID of a packet, and how far away the next packet begins if the loop goes on.
abbrev pub Found : Type 0
Found = Bytes × Option ℕ

-- The body of the loop behind the SCID: the length field and `nextOffset`. A length is below 2^62,
-- so `int` holds it and the sum.
next_offset : Bytes → ℕ → Go Error (Option ℕ)
next_offset pkt header_offset =
    if leb (length pkt) header_offset
    then ok none
    else slice_from pkt header_offset >>= λ rest. elim (read_varint rest) [
      | ok (pkt_len, len_bytes) ↦
          let next = header_offset + len_bytes + pkt_len in
          if len_bytes == 0 || next == 0 || ltb (length pkt) next then ok none else ok (some next)
      | err e ↦ ok none
      | panic ↦ panic
      | stuck ↦ stuck
    ]

-- The body of the loop on `pkt := datagram[offset:]`, which begins with a long header. `none` is a
-- `break` before an SCID was read.
unfoldable pub read_packet : Bytes → Go Error (Option Found)
unfolding next_offset
read_packet pkt =
    if ltb (length pkt) 6
    then ok none
    else index pkt 5 >>= λ dcid_len.
        let offset = 6 + dcid_len in
        if leb (length pkt) offset
        then ok none
        else index pkt offset >>= λ scid_len.
            let start = offset + 1 in
            if ltb (length pkt) (start + scid_len)
            then ok none
            else slice pkt start (start + scid_len) >>= λ scid.
                next_offset pkt (start + scid_len) >>= λ next. ok (some (scid, next))

-- `if !seen[scidKey] && len(scid) > 0`
unfoldable pub add_scid : Bytes → List Bytes × List Bytes → List Bytes × List Bytes
add_scid scid (seen, scids) =
    if not (contains seen scid) && ltb 0 (length scid)
    then (scid ∷ seen, scids ++ (scid ∷ []))
    else (seen, scids)

unfoldable pub scan : ℕ → Bytes → ℕ → List Bytes × List Bytes → Go Error (List Bytes)
scan zero datagram offset found = stuck
scan (suc fuel) datagram offset found = elim (ltb offset (length datagram)) [
  | false ↦ ok found.1
  | true ↦ index datagram offset >>= λ first.
      if is_short first
      then ok found.1
      else slice_from datagram offset >>= λ pkt. read_packet pkt >>= elim [
        | none ↦ ok found.1
        | some (scid, none) ↦ ok (add_scid scid found).1
        | some (scid, some next) ↦ scan fuel datagram (offset + next) (add_scid scid found)
      ]
]

-- Each round moves the offset on, so one round more than there are bytes is enough.
unfoldable pub extract_all_scids : Bytes → Go Error (List Bytes)
extract_all_scids datagram = scan (length datagram + 1) datagram 0 ([], [])
