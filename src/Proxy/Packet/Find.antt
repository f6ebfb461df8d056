-- ===== src/Proxy/Packet/Find.antt =====
-- What findSession hands to handlePacket.
use quic_relay.Prelude.{
  ℕ, ◌≡◌, sym, subst, true, Option, none, some, List, [], ◌∷◌, Bool-cases, Option-cases, inl, inr,
}
use quic_relay.Go.{Returns, Returns-bind, Bytes, Ensures-cases}
use quic_relay.Map.{lookup, is_some}
use quic_relay.Quic.{PacketType}
use quic_relay.Quic.Header.{extract_dcid}
use quic_relay.Quic.Header.Reads.{extract_dcid-Ensures}
use quic_relay.Sessions.{
  Context, Tables, follow, or_else, find_by_dcid, by_address, sort_reverse, find_by_lengths,
  is_short_header, find_session,
}
use quic_relay.Proxy.Oldest.Removal.{IsSoundTables}

-- A context that stands in the table under its own DCID, with its client's address.
abbrev pub Stored : Tables → Option Context → Type 0
Stored t none = Unit
Stored t (some c) = (lookup c.dcid t.sessions ≡ some c) × (is_some c.client_addr ≡ true)

-- A session that stands in the table, or else, if there is a DCID, none under it.
abbrev pub Finds : Tables → Option Context × Option Bytes → Type 0
Finds t (some c, d) = Stored t (some c)
Finds t (none, some d) = lookup d t.sessions ≡ none
Finds t (none, none) = Unit

module _ {extra : ℕ} (t : Tables) (s : IsSoundTables extra t) where
  lookup-Stored : (j : Bytes) → Stored t (lookup j t.sessions)
  lookup-Stored j = elim (Option-cases (lookup j t.sessions)) [
    | inl e ↦ rw e tt
    | inr (c, e) ↦
        let (same, addr) = s.keyed j c e in
        rw e (subst (λ k. lookup k t.sessions ≡ some c) (sym same) e, addr)
  ]

  follow-Stored : (o : Option Bytes) → Stored t (follow o t)
  follow-Stored none = tt
  follow-Stored (some j) = lookup-Stored j

  or_else-Stored : (o o' : Option Context) → Stored t o → Stored t o' → Stored t (or_else o o')
  or_else-Stored none o' h h' = h'
  or_else-Stored (some c) o' h h' = h

  find_by_dcid-Stored : (d : Bytes) → Stored t (find_by_dcid d t)
  find_by_dcid-Stored d =
      or_else-Stored (lookup d t.sessions) _ (lookup-Stored d)
        (follow-Stored (lookup d t.dcid_aliases))

  by_address-Stored : (addr : Option Bytes) → Stored t (by_address addr t)
  by_address-Stored none = tt
  by_address-Stored (some a) = follow-Stored (lookup a t.client_sessions)

  -- What find_by_lengths found.
  abbrev FindsPair : Option (Context × Bytes) → Type 0
  FindsPair none = Unit
  FindsPair (some (c, d)) = Stored t (some c)

  found-Finds : (packet : Bytes) (l : List ℕ) → Returns FindsPair (find_by_lengths l packet t)
  unfolding find_by_lengths
  found-Finds packet [] = tt
  found-Finds packet (n ∷ l) =
      elim (Ensures-cases _ (extract_dcid packet n) (extract_dcid-Ensures packet n)) [
        | inl (d, e, _) ↦ elim (Option-cases (find_by_dcid d t)) [
          | inl missing ↦ rw (e, missing, find_by_lengths) (found-Finds packet l)
          | inr (c, found) ↦ rw (e, found, find_by_lengths) (stored d c found)
        ]
        | inr (_, e) ↦ rw (e, find_by_lengths) (found-Finds packet l)
      ]
    where
      stored : (d : Bytes) (c : Context) → find_by_dcid d t ≡ some c → Stored t (some c)
      stored d c found = subst (Stored t) found (find_by_dcid-Stored d)

  address-Finds : (addr : Option Bytes) → Finds t (by_address addr t, none)
  address-Finds addr = elim (Option-cases (by_address addr t)) [
    | inl e ↦ rw e tt
    | inr (c, e) ↦ rw e (subst (Stored t) e (by_address-Stored addr))
  ]

  dcid-Finds :
      (d : Bytes) (addr : Option Bytes)
      → Finds t (or_else (find_by_dcid d t) (by_address addr t), some d)
  dcid-Finds d addr = elim (Option-cases (or_else (find_by_dcid d t) (by_address addr t))) [
    | inl e ↦ rw e (elim (Option-cases (lookup d t.sessions)) [
      | inl missing ↦ missing
      | inr (c, found) ↦ cc (e, found)
    ])
    | inr (c, e) ↦ rw e (
        subst (Stored t) e
          (or_else-Stored (find_by_dcid d t) _ (find_by_dcid-Stored d) (by_address-Stored addr)))
  ]

  -- findSession never panics, whatever the packet, and what it finds stands in the table.
  pub find_session-Finds :
      (packet : Bytes) (kind : PacketType) (addr : Option Bytes)
      → Returns (Finds t) (find_session packet kind addr t)
  unfolding find_session
  find_session-Finds packet kind addr = elim (Bool-cases (is_short_header kind)) [
    | inl short ↦
        rw (short, find_session)
          (Returns-bind FindsPair (Finds t) (find_by_lengths (sort_reverse t.dcid_lengths) packet t)
            _ (found-Finds packet (sort_reverse t.dcid_lengths))
            (elim [ some (c, d) ↦ λ h. h | none ↦ λ h. address-Finds addr ]))
    | inr long ↦ elim (Ensures-cases _ (extract_dcid packet 0) (extract_dcid-Ensures packet 0)) [
      | inl (d, e, _) ↦ rw (long, e, find_session) (dcid-Finds d addr)
      | inr (_, e) ↦ rw (long, e, find_session) tt
    ]
  ]
