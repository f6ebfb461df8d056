-- ===== src/Terminator/Redirects.antt =====
-- What TerminatorHandler of internal/handler/terminator_handler.go does to the table of the library
-- and to the context's values.
use quic_relay.Prelude.{
  ◌≡◌, ◌⊎◌, inl, inr, ◌∙◌, refl, arith, ◌==◌, Bool, true, false, Option, none, some, [], ◌∷◌,
  length, if◌then◌else◌, Bool-cases,
}
use quic_relay.Go.{Bytes, bytes_eq}
use quic_relay.Handlers.{continue, Result}
use quic_relay.Values.{string, as_string, Values, set, get_string, get_value, or_zero}
use quic_relay.Values.Typed.{get_value-set}
use quic_relay.Terminator.{
  Error, Library, no_backend, no_dcid_in_packet, backend_key, dcid_key, refuse, terminator_connect,
  terminator_disconnect,
}

-- The library's table holds a backend for each DCID that is registered.
pub record IsTable (t : Library) : Type 0 where
  pub backend_of : Bytes → t.State → Option Bytes
  pub registered :
      (dcid backend d : Bytes) (s : t.State)
      → backend_of d (t.register_backend dcid backend s)
        ≡ (if bytes_eq dcid d then some backend else backend_of d s)
  pub unregistered :
      (dcid d : Bytes) (s : t.State)
      → backend_of d (t.unregister_backend dcid s)
        ≡ (if bytes_eq dcid d then none else backend_of d s)

get_string-set :
    (key k s : Bytes) (values : Values)
    → get_string k (set key (string s) values) ≡ (if bytes_eq key k then s else get_string k values)
unfolding get_string
get_string-set key k s values =
    rw (get_value-set as_string key k (string s) values) (pick (bytes_eq key k))
  where
    pick :
        (b : Bool)
        → or_zero [] (if b then some s else get_value as_string k values)
          ≡ (if b then s else or_zero [] (get_value as_string k values))
    pick true = refl
    pick false = refl

module _ (t : Library) (table : IsTable t) where
  open table use {backend_of}

  -- The connection goes to the internal listener, and the table knows the DCID's backend until the
  -- context's disconnection, whatever the table and the context's other values are by then.
  pub record Redirected (dcid backend : Bytes) (s : t.State) (r : t.State × Values × Result Error)
      : Type 0 where
    pub action : r.2 ≡ record { action = continue; error = none }
    pub redirected : get_string backend_key r.1 ≡ t.internal_addr
    pub known :
        (d : Bytes) → backend_of d r.0 ≡ (if bytes_eq dcid d then some backend else backend_of d s)
    pub forgotten :
        (values : Values)
        → get_string dcid_key values ≡ get_string dcid_key r.1
        → (s' : t.State) (d : Bytes)
        → backend_of d (terminator_disconnect t s' values)
          ≡ (if bytes_eq dcid d then none else backend_of d s')

  abbrev pub Connected : Bytes → t.State → Values → t.State × Values × Result Error → Type 0
  Connected packet s values r =
      ((get_string backend_key values ≡ []) × (r ≡ (s, values, refuse no_backend)))
      ⊎ ((t.parse_quic_dcid packet ≡ []) × (r ≡ (s, values, refuse no_dcid_in_packet)))
      ⊎ Redirected (t.parse_quic_dcid packet) (get_string backend_key values) s r

  empty : (b : Bytes) → (length b == 0) ≡ true → b ≡ []
  empty [] e = refl
  empty (x ∷ b) e = ground arith

  disconnected :
      (dcid : Bytes) (values : Values) (s : t.State) (d : Bytes)
      → (length dcid == 0) ≡ false
      → get_string dcid_key values ≡ dcid
      → backend_of d (terminator_disconnect t s values)
        ≡ (if bytes_eq dcid d then none else backend_of d s)
  unfolding terminator_disconnect
  disconnected dcid values s d some_dcid e = rw (e, some_dcid) (table.unregistered dcid d s)

  redirects :
      (packet : Bytes) (s : t.State) (values : Values)
      → (length (t.parse_quic_dcid packet) == 0) ≡ false
      → let dcid = t.parse_quic_dcid packet in
        let backend = get_string backend_key values in
        Redirected dcid backend s (
          t.register_backend dcid backend s,
          set backend_key (string t.internal_addr) (set dcid_key (string dcid) values),
          record { action = continue; error = none },
        )
  unfolding bytes_eq
  redirects packet s values some_dcid =
      let dcid = t.parse_quic_dcid packet in
      let backend = get_string backend_key values in
      let kept = set dcid_key (string dcid) values in
      let read : get_string dcid_key (set backend_key (string t.internal_addr) kept) ≡ dcid =
        get_string-set backend_key dcid_key t.internal_addr kept
        ∙ get_string-set dcid_key dcid_key dcid values in
      record {
        action = refl;
        redirected = get_string-set backend_key backend_key t.internal_addr kept;
        known = λ d. table.registered dcid backend d s;
        forgotten = λ values' e s' d. disconnected dcid values' s' d some_dcid (e ∙ read);
      }

  -- OnConnect either drops the connection and changes neither the library's table nor the context,
  -- where the context has no backend or the packet no DCID; or it lets the connection go on, to the
  -- library's listener, with the context's backend in the table under the packet's DCID and the other
  -- DCIDs as before. An OnDisconnect after that, with the DCID's value in the context as OnConnect
  -- left it, takes that DCID out of the table, whatever is in it by then, and no other.
  pub terminator_connect-Connected :
      (packet : Bytes) (s : t.State) (values : Values)
      → Connected packet s values (terminator_connect t packet s values)
  unfolding terminator_connect
  terminator_connect-Connected packet s values =
      let backend = get_string backend_key values in
      let dcid = t.parse_quic_dcid packet in
      elim (Bool-cases (length backend == 0)) [
        | inl none_set ↦ rw none_set (inl (empty backend none_set, refl))
        | inr set' ↦ elim (Bool-cases (length dcid == 0)) [
          | inl no_dcid ↦ rw (set', no_dcid) (inr (inl (empty dcid no_dcid, refl)))
          | inr some_dcid ↦ rw (set', some_dcid) (inr (inr (redirects packet s values some_dcid)))
        ]
      ]
