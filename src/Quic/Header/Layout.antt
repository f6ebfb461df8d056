-- ===== src/Quic/Header/Layout.antt =====
-- The readers on a packet that is laid out as RFC 9000, section 17.2, says.
use quic_relay.Prelude.{
  ℕ, ◌+◌, ◌≡◌, refl, arith, false, [], ◌∷◌, ◌++◌, length, length-append, append_assoc, sym, ◌∙◌,
}
use quic_relay.Go.{ok, Bytes, index, slice}
use quic_relay.Go.Slices.{index-append, slice-append}
use quic_relay.Quic.{Error}
use quic_relay.Quic.Header.{is_short, extract_dcid, extract_scid, extract_dcid_and_scid}
use quic_relay.Quic.Header.Reads.{extract_dcid_and_scid-eq}

-- First byte, version, and the two connection IDs, each behind its length.
abbrev pub long_header : ℕ → ℕ → ℕ → ℕ → ℕ → Bytes → Bytes → Bytes → Bytes
long_header first v0 v1 v2 v3 dcid scid rest =
    first ∷ v0 ∷ v1 ∷ v2 ∷ v3 ∷ length dcid ∷ (dcid ++ (length scid ∷ (scid ++ rest)))

module _ (first v0 v1 v2 v3 : ℕ) (dcid scid rest : Bytes) (long : is_short first ≡ false) where
  abbrev packet : Bytes
  packet = long_header first v0 v1 v2 v3 dcid scid rest

  abbrev front : Bytes
  front = first ∷ v0 ∷ v1 ∷ v2 ∷ v3 ∷ length dcid ∷ []

  pub length-packet : length packet ≡ 7 + length dcid + length scid + length rest
  length-packet =
      omega (arith, length-append dcid (length scid ∷ (scid ++ rest)), length-append scid rest)

  pub first_read : index {E = Error} packet 0 ≡ ok first
  first_read = index-append [] _ first 0 refl

  pub dcid_len_read : index {E = Error} packet 5 ≡ ok (length dcid)
  dcid_len_read =
      index-append (first ∷ v0 ∷ v1 ∷ v2 ∷ v3 ∷ []) (dcid ++ (length scid ∷ (scid ++ rest)))
        (length dcid) 5 refl

  dcid_read : slice {E = Error} packet 6 (6 + length dcid) ≡ ok dcid
  dcid_read = slice-append front dcid (length scid ∷ (scid ++ rest)) 6 _ refl refl

  pub scid_len_read : index {E = Error} packet (6 + length dcid) ≡ ok (length scid)
  scid_len_read = index-append (front ++ dcid) (scid ++ rest) (length scid) _ (omega arith)

  pub scid_read :
      slice {E = Error} packet (6 + length dcid + 1) (6 + length dcid + 1 + length scid) ≡ ok scid
  scid_read = rw (sym (append_assoc dcid (length scid ∷ []) (scid ++ rest))) (
      slice-append (front ++ (dcid ++ (length scid ∷ []))) scid rest _ _
        (omega (arith, length-append dcid (length scid ∷ [])))
        (omega (arith, length-append dcid (length scid ∷ []))))

  extract_dcid-long_header : (n : ℕ) → extract_dcid packet n ≡ ok dcid
  unfolding extract_dcid
  extract_dcid-long_header n = ground (arith, length-packet, first_read, dcid_len_read, dcid_read)

  extract_scid-long_header : extract_scid packet ≡ ok scid
  unfolding extract_scid
  extract_scid-long_header =
      ground (arith, length-packet, first_read, dcid_len_read, scid_len_read, scid_read)

  -- On a long header laid out as the RFC says, whatever follows it, the three readers return the
  -- connection IDs that it holds.
  pub extract_connection_ids :
      (n : ℕ)
      → (extract_dcid packet n ≡ ok dcid)
        × (extract_scid packet ≡ ok scid)
        × (extract_dcid_and_scid packet ≡ ok (dcid, scid))
  extract_connection_ids n = (
    extract_dcid-long_header n,
    extract_scid-long_header,
    extract_dcid_and_scid-eq packet n long
        ∙ rw (extract_dcid-long_header n, extract_scid-long_header) refl,
  )
