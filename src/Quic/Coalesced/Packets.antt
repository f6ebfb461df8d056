-- ===== src/Quic/Coalesced/Packets.antt =====
-- ExtractAllSCIDs on datagrams that are laid out as RFC 9000, sections 12.2 and 17.2, says.
use quic_relay.Prelude.{
  ℕ, zero, suc, ◌+◌, ◌≤◌, ◌<◌, ◌≡◌, ◌∙◌, ◌||◌, refl, sym, ap, true, false, arith, some, List, [],
  ◌∷◌, ◌++◌, append-nil, append_assoc, All, ◌==◌, if◌then◌else◌, length, length-append, drop-append,
  get_or,
}
use quic_relay.Go.{ok, ◌>>=◌, Bytes, slice_from, contains}
use quic_relay.Go.Slices.{get_or-append}
use quic_relay.Quic.Varint.{read_varint}
use quic_relay.Quic.Varint.Reference.{read_varint_one}
use quic_relay.Quic.Varint.Encode.{
  VarintSize, width, limit, encode_varint, length-encode_varint, read_varint-encode_varint,
}
use quic_relay.Quic.Header.{is_short}
use quic_relay.Quic.Header.Layout.{
  long_header, length-packet, dcid_len_read, scid_len_read, scid_read,
}
use quic_relay.Quic.Coalesced.{next_offset, read_packet, add_scid, scan, extract_all_scids}
use quic_relay.Quic.Coalesced.Total.{Inv, add_scid-Inv, continue, scan_long, scan_short}
use native.Mathlib.Numerals.{add-one}

-- A packet with no token (0-RTT or Handshake), its payload's length in a varint of any size.
pub record LongPacket : Type 0 where
  pub first : ℕ
  pub v0 : ℕ
  pub v1 : ℕ
  pub v2 : ℕ
  pub v3 : ℕ
  pub dcid : Bytes
  pub scid : Bytes
  pub payload : Bytes
  pub length_size : VarintSize

-- What stands behind the SCID.
abbrev pub sized : VarintSize → Bytes → Bytes
sized size payload = encode_varint size (length payload) ++ payload

abbrev pub encode : LongPacket → Bytes
encode p = long_header p.first p.v0 p.v1 p.v2 p.v3 p.dcid p.scid (sized p.length_size p.payload)

pub record IsLong (p : LongPacket) : Type 0 where
  pub long : is_short p.first ≡ false
  pub fits : length p.payload < limit p.length_size

next_offset-sized :
    (front payload rest : Bytes) (size : VarintSize) (at : ℕ)
    → at ≡ length front
    → length payload < limit size
    → next_offset (front ++ (sized size payload ++ rest)) at
      ≡ ok (some (at + width size + length payload))
unfolding next_offset slice_from
next_offset-sized front payload rest size at e h =
    let read : read_varint (sized size payload ++ rest) ≡ ok (length payload, width size) =
      rw (append_assoc (encode_varint size (length payload)) payload rest)
        (read_varint-encode_varint size (length payload) (payload ++ rest) h) in
    rw e (
      ground (
        arith,
        drop-append front (sized size payload ++ rest),
        length-append front (sized size payload ++ rest),
        length-append (sized size payload) rest,
        length-append (encode_varint size (length payload)) payload,
        length-encode_varint size (length payload),
        read,
      ))

module _ (first v0 v1 v2 v3 : ℕ) (dcid scid tail : Bytes) (long : is_short first ≡ false) where
  abbrev pkt : Bytes
  pkt = long_header first v0 v1 v2 v3 dcid scid tail

  abbrev header : Bytes
  header = first ∷ v0 ∷ v1 ∷ v2 ∷ v3 ∷ length dcid ∷ (dcid ++ (length scid ∷ scid))

  header-eq : pkt ≡ header ++ tail
  header-eq =
      ap (λ l. first ∷ v0 ∷ v1 ∷ v2 ∷ v3 ∷ length dcid ∷ l)
        (sym (append_assoc dcid (length scid ∷ scid) tail))

  length-header : length header ≡ 7 + length dcid + length scid
  length-header = omega (arith, length-append dcid (length scid ∷ scid))

  read_packet-long_header :
      read_packet pkt
      ≡ (next_offset pkt (6 + length dcid + 1 + length scid) >>= λ next. ok (some (scid, next)))
  unfolding read_packet
  read_packet-long_header = ground (
    arith,
    length-packet first v0 v1 v2 v3 dcid scid tail long,
    dcid_len_read first v0 v1 v2 v3 dcid scid tail long,
    scid_len_read first v0 v1 v2 v3 dcid scid tail long,
    scid_read first v0 v1 v2 v3 dcid scid tail long,
  )

encode-append :
    (p : LongPacket) (rest : Bytes)
    → encode p ++ rest
      ≡ long_header p.first p.v0 p.v1 p.v2 p.v3 p.dcid p.scid
          (sized p.length_size p.payload ++ rest)
encode-append p rest = simp append_assoc

length-encode :
    (p : LongPacket)
    → length (encode p) ≡ 7 + width p.length_size + length p.dcid + length p.scid + length p.payload
length-encode p = omega (
  arith,
  length-append p.dcid (length p.scid ∷ (p.scid ++ sized p.length_size p.payload)),
  length-append p.scid (sized p.length_size p.payload),
  length-append (encode_varint p.length_size (length p.payload)) p.payload,
  length-encode_varint p.length_size (length p.payload),
)

-- A packet at the front of what is left is read whole.
read_packet-encode :
    (p : LongPacket) (rest : Bytes)
    → IsLong p
    → read_packet (encode p ++ rest) ≡ ok (some (p.scid, some (length (encode p))))
read_packet-encode p rest v =
    ap read_packet (encode-append p rest)
    ∙ read_packet-long_header first v0 v1 v2 v3 dcid scid tail v.long
    ∙ ap (λ m. m >>= λ next. ok (some (scid, next)))
        (ap (λ b. next_offset b at) (header-eq first v0 v1 v2 v3 dcid scid tail v.long)
          ∙ next_offset-sized (header first v0 v1 v2 v3 dcid scid tail v.long) payload rest
              p.length_size at (omega (arith, length-append dcid (length scid ∷ scid))) v.fits)
    ∙ ap (λ n. ok (some (scid, some n))) (omega (arith, length-encode p))
  where
    open p use {first, v0, v1, v2, v3, dcid, scid, payload}

    tail : Bytes
    tail = sized p.length_size payload ++ rest

    at : ℕ
    at = 6 + length dcid + 1 + length scid

abbrev pub coalesce : List LongPacket → Bytes
coalesce [] = []
coalesce (p ∷ ps) = encode p ++ coalesce ps

abbrev pub scids_of : List LongPacket → List Bytes
scids_of [] = []
scids_of (p ∷ ps) = p.scid ∷ scids_of ps

-- `known`, and the keys that are not empty and not yet known, in the order in which they come.
abbrev pub distinct_from : List Bytes → List Bytes → List Bytes
distinct_from known [] = known
distinct_from known (s ∷ l) =
    distinct_from (if contains known s || length s == 0 then known else known ++ (s ∷ [])) l

add_scid-known :
    (s : Bytes) (found : List Bytes × List Bytes)
    → Inv found
    → (add_scid s found).1
      ≡ (if contains found.1 s || length s == 0 then found.1 else found.1 ++ (s ∷ []))
unfolding add_scid
add_scid-known s found v = ground (arith, v.same s)

module _ (datagram : Bytes) (p : LongPacket) (rest : Bytes) (v : IsLong p) where
  scan-encode :
      (fuel : ℕ) (front : Bytes) (found : List Bytes × List Bytes)
      → datagram ≡ front ++ (encode p ++ rest)
      → scan (suc fuel) datagram (length front) found
        ≡ scan fuel datagram (length front + length (encode p)) (add_scid p.scid found)
  unfolding continue
  scan-encode fuel front found e =
      scan_long fuel datagram (length front) found (some (p.scid, some (length (encode p))))
        (rw e (omega (arith, length-append front (encode p ++ rest))))
        (rw (e, get_or-append front _ p.first) v.long)
        (rw (e, drop-append front (encode p ++ rest)) (read_packet-encode p rest v))

scan-coalesce :
    (ps : List LongPacket) (fuel : ℕ) (datagram front : Bytes) (found : List Bytes × List Bytes)
    → All IsLong ps
    → length ps < fuel
    → Inv found
    → datagram ≡ front ++ coalesce ps
    → scan fuel datagram (length front) found ≡ ok (distinct_from found.1 (scids_of ps))
scan-coalesce ps zero datagram front found vs h v e = absurd (omega arith)
scan-coalesce [] (suc fuel) datagram front found vs h v e =
    rw (e, append-nil) (unfold scan in ground arith)
scan-coalesce (p ∷ ps) (suc fuel) datagram front found vs h v e =
    scan-encode datagram p (coalesce ps) vs.0 fuel front found e
    ∙ ap (λ n. scan fuel datagram n (add_scid p.scid found)) (sym (length-append front (encode p)))
    ∙ scan-coalesce ps fuel datagram (front ++ encode p) (add_scid p.scid found) vs.1 (omega arith)
        (add_scid-Inv p.scid found v) (e ∙ sym (append_assoc front (encode p) (coalesce ps)))
    ∙ ap (λ k. ok (distinct_from k (scids_of ps))) (add_scid-known p.scid found v)

length-coalesce : (ps : List LongPacket) → length ps ≤ length (coalesce ps)
length-coalesce [] = omega arith
length-coalesce (p ∷ ps) =
    omega (arith, length-coalesce ps, length-append (encode p) (coalesce ps), length-encode p)

-- On a datagram of coalesced 0-RTT and Handshake packets, each with its payload's length in a varint
-- of any of the four sizes that can hold it, ExtractAllSCIDs returns the source connection ID of every
-- one of them, in their order, less the empty ones and the repetitions.
pub extract_all_scids-coalesce :
    (ps : List LongPacket)
    → All IsLong ps
    → extract_all_scids (coalesce ps) ≡ ok (distinct_from [] (scids_of ps))
unfolding extract_all_scids contains
extract_all_scids-coalesce ps vs =
    scan-coalesce ps _ (coalesce ps) [] ([], []) vs (omega (arith, length-coalesce ps))
      (record { same = λ b. refl; distinct = tt; filled = tt }) refl

next_offset_empty :
    (front rest : Bytes) (at : ℕ)
    → at ≡ length front
    → next_offset (front ++ (0 ∷ rest)) at ≡ ok (some (at + 1))
unfolding next_offset slice_from
next_offset_empty front rest at e = rw e (
    ground
      (arith, drop-append front (0 ∷ rest), length-append front (0 ∷ rest), read_varint_one 0 rest))

-- An Initial packet has a token length where ExtractAllSCIDs reads the packet's length. Where the
-- token is empty, as in every Initial of a server, the SCID is not, and the first byte of the length
-- field that follows is below 128, as in every length that is written in one or two bytes, it
-- returns the Initial's own SCID and nothing of the packets behind it.
pub extract_all_scids-initial :
    (first v0 v1 v2 v3 : ℕ) (dcid scid : Bytes) (size : ℕ) (rest : Bytes)
    → is_short first ≡ false
    → is_short size ≡ true
    → 0 < length scid
    → extract_all_scids (long_header first v0 v1 v2 v3 dcid scid (0 ∷ size ∷ rest)) ≡ ok (scid ∷ [])
unfolding extract_all_scids continue
extract_all_scids-initial first v0 v1 v2 v3 dcid scid size rest l s h =
    ap (λ n. scan n datagram 0 ([], [])) (add-one (length datagram))
    ∙ scan_long (length datagram) datagram 0 ([], []) (some (scid, some (at + 1))) (omega arith) l
        (read_packet-long_header first v0 v1 v2 v3 dcid scid tail l
          ∙ ap (λ m. m >>= λ next. ok (some (scid, next)))
              (ap (λ b. next_offset b at) (header-eq first v0 v1 v2 v3 dcid scid tail l)
                ∙ next_offset_empty before (size ∷ rest) at
                    (omega (arith, length-append dcid (length scid ∷ scid)))))
    ∙ scan_short _ datagram (0 + (at + 1)) (add_scid scid ([], []))
        (omega (arith, length-packet first v0 v1 v2 v3 dcid scid tail l)) next_short
    ∙ unfold add_scid contains in ground arith
  where
    tail : Bytes
    tail = 0 ∷ size ∷ rest

    datagram : Bytes
    datagram = long_header first v0 v1 v2 v3 dcid scid tail

    before : Bytes
    before = header first v0 v1 v2 v3 dcid scid tail l

    at : ℕ
    at = 6 + length dcid + 1 + length scid

    next_at : 0 + (at + 1) ≡ length (before ++ (0 ∷ []))
    next_at = omega (arith, length-append before (0 ∷ []), length-append dcid (length scid ∷ scid))

    next_short : is_short (get_or datagram (0 + (at + 1)) 0) ≡ true
    next_short =
        rw
          (
            next_at,
            header-eq first v0 v1 v2 v3 dcid scid tail l,
            ← append_assoc before (0 ∷ []) (size ∷ rest),
            get_or-append (before ++ (0 ∷ [])) rest size,
          )
          s
