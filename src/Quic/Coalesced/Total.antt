-- ===== src/Quic/Coalesced/Total.antt =====
-- ExtractAllSCIDs on any datagram.
use quic_relay.Prelude.{
  ℕ, zero, suc, ◌+◌, ◌≤◌, ◌<◌, ◌≡◌, refl, true, false, arith, none, some, Option, List, [], ◌∷◌,
  ◌++◌, All, Bool-cases, inl, inr, ltb, length, length-drop, drop, get_or,
}
use quic_relay.Go.{
  Go, ok, Returns, Returns-eq, Bytes, index, slice, slice_from, contains, contains-append, Distinct,
  Distinct-append,
}
use native.Mathlib.Decide.{dec_lt}
use quic_relay.Quic.{Error}
use quic_relay.Quic.Varint.Reference.{IsByte, All-drop, read_varint-Ensures}
use quic_relay.Quic.Header.{is_short}
use quic_relay.Quic.Coalesced.{Found, next_offset, read_packet, add_scid, scan, extract_all_scids}

-- The next packet lies further on, and begins inside this one or at its end.
abbrev StepsOn : ℕ → Option ℕ → Type 0
StepsOn size none = Unit
StepsOn size (some n) = (1 ≤ n) × (n ≤ size)

abbrev FoundStepsOn : ℕ → Option Found → Type 0
FoundStepsOn size none = Unit
FoundStepsOn size (some (scid, next)) = StepsOn size next

next_offset-StepsOn :
    (pkt : Bytes) (at : ℕ)
    → All IsByte pkt
    → 0 < at
    → Returns (StepsOn (length pkt)) (next_offset pkt at)
unfolding next_offset slice_from
next_offset-StepsOn pkt at h p =
    ground (arith, read_varint-Ensures (drop at pkt) (All-drop at pkt h))

read_packet-StepsOn :
    (pkt : Bytes) → All IsByte pkt → Returns (FoundStepsOn (length pkt)) (read_packet pkt)
unfolding read_packet index slice
read_packet-StepsOn pkt h =
    let at = 6 + get_or pkt 5 0 in
    ground (arith, next_offset-StepsOn pkt (at + 1 + get_or pkt at 0) h)

-- `seen` holds the keys of `scids`; these are non-empty and all different.
pub record Inv (found : List Bytes × List Bytes) : Type 0 where
  pub same : (b : Bytes) → contains found.0 b ≡ contains found.1 b
  pub distinct : Distinct found.1
  pub filled : All (λ s. 0 < length s) found.1

All-append :
    (l : List Bytes) (s : Bytes)
    → All (λ s. 0 < length s) l
    → 0 < length s
    → All (λ s. 0 < length s) (l ++ (s ∷ []))
All-append [] s h p = (p, tt)
All-append (x ∷ l) s h p = (h.0, All-append l s h.1 p)

pub add_scid-Inv :
    (s : Bytes) (found : List Bytes × List Bytes) → Inv found → Inv (add_scid s found)
unfolding add_scid contains
add_scid-Inv s (seen, scids) v = elim (Bool-cases (contains seen s)) [
  | inl old ↦ rw old v
  | inr new ↦ elim (Bool-cases (ltb 0 (length s))) [
    | inr empty ↦ rw (new, empty) v
    | inl some_bytes ↦
        rw (new, some_bytes)
          (record {
            same = λ b. ground (arith, v.same b, contains-append scids s b);
            distinct = Distinct-append scids s v.distinct (ground (arith, v.same s));
            filled = All-append scids s v.filled (ground arith);
          })
  ]
]

-- What the caller is given: all different, none empty.
abbrev pub AreKeys : List Bytes → Type 0
AreKeys l = Distinct l × All (λ s. 0 < length s) l

pub Inv-AreKeys : (found : List Bytes × List Bytes) → Inv found → AreKeys found.1
Inv-AreKeys found v = (v.distinct, v.filled)

scan_end :
    (fuel : ℕ) (datagram : Bytes) (offset : ℕ) (found : List Bytes × List Bytes)
    → length datagram ≤ offset
    → Inv found
    → Returns AreKeys (scan (suc fuel) datagram offset found)
unfolding scan
scan_end fuel datagram offset found h v = ground (arith, Inv-AreKeys found v)

pub scan_short :
    (fuel : ℕ) (datagram : Bytes) (offset : ℕ) (found : List Bytes × List Bytes)
    → offset < length datagram
    → is_short (get_or datagram offset 0) ≡ true
    → scan (suc fuel) datagram offset found ≡ ok found.1
unfolding scan index
scan_short fuel datagram offset found h s = ground arith

-- One round on a long header.
unfoldable pub continue :
    ℕ → Bytes → ℕ → List Bytes × List Bytes → Option Found → Go Error (List Bytes)
continue fuel datagram offset found none = ok found.1
continue fuel datagram offset found (some (scid, none)) = ok (add_scid scid found).1
continue fuel datagram offset found (some (scid, some next)) =
    scan fuel datagram (offset + next) (add_scid scid found)

pub scan_long :
    (fuel : ℕ) (datagram : Bytes) (offset : ℕ) (found : List Bytes × List Bytes) (r : Option Found)
    → offset < length datagram
    → is_short (get_or datagram offset 0) ≡ false
    → read_packet (drop offset datagram) ≡ ok r
    → scan (suc fuel) datagram offset found ≡ continue fuel datagram offset found r
unfolding scan index slice_from continue
scan_long fuel datagram offset found none h s e = ground arith
scan_long fuel datagram offset found (some (scid, none)) h s e = ground arith
scan_long fuel datagram offset found (some (scid, some next)) h s e = ground arith

module _ (datagram : Bytes) (bytes : All IsByte datagram) where
  continue-total :
      (fuel offset : ℕ) (found : List Bytes × List Bytes) (r : Option Found)
      → offset ≤ length datagram
      → length datagram < suc fuel + offset
      → Inv found
      → FoundStepsOn (length (drop offset datagram)) r
      → ((o : ℕ) (g : List Bytes × List Bytes)
          → o ≤ length datagram
          → length datagram < fuel + o
          → Inv g
          → Returns AreKeys (scan fuel datagram o g))
      → Returns AreKeys (continue fuel datagram offset found r)
  unfolding continue
  continue-total fuel offset found none b h v f rest = Inv-AreKeys found v
  continue-total fuel offset found (some (scid, none)) b h v f rest =
      Inv-AreKeys (add_scid scid found) (add_scid-Inv scid found v)
  continue-total fuel offset found (some (scid, some next)) b h v f rest =
      rest (offset + next) (add_scid scid found) (omega (arith, length-drop offset datagram))
        (omega arith) (add_scid-Inv scid found v)

  scan-total :
      (fuel offset : ℕ) (found : List Bytes × List Bytes)
      → offset ≤ length datagram
      → length datagram < fuel + offset
      → Inv found
      → Returns AreKeys (scan fuel datagram offset found)
  scan-total zero offset found b h v = absurd (omega arith)
  scan-total (suc fuel) offset found b h v = elim (dec_lt offset (length datagram)) [
    | no p ↦ scan_end fuel datagram offset found (omega arith) v
    | yes p ↦ elim (Bool-cases (is_short (get_or datagram offset 0))) [
      | inl s ↦ rw (scan_short fuel datagram offset found p s) (Inv-AreKeys found v)
      | inr l ↦
          let (r, e, f) = Returns-eq _ _ (read_packet-StepsOn _ (All-drop offset datagram bytes)) in
          rw (scan_long fuel datagram offset found r p l e)
            (continue-total fuel offset found r b h v f (scan-total fuel))
    ]
  ]

-- On every datagram ExtractAllSCIDs returns: it does not panic and its loop ends. The connection
-- IDs that it returns are all different, and none is empty.
pub extract_all_scids-AreKeys :
    (datagram : Bytes) → All IsByte datagram → Returns AreKeys (extract_all_scids datagram)
unfolding extract_all_scids contains
extract_all_scids-AreKeys datagram h =
    scan-total datagram h (length datagram + 1) 0 ([], []) (omega arith) (omega arith)
      (record { same = λ b. refl; distinct = tt; filled = tt })
