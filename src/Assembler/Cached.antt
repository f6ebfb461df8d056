-- ===== src/Assembler/Cached.antt =====
-- InitCrypto, HasCrypto and GetCrypto of CryptoAssembler in internal/proxy/proxy.go: the keys and ciphers
-- that an assembler keeps for its connection. A nil object is `none`.
use quic_relay.Prelude.{
  ℕ, ◌≡◌, ◌≢◌, ◌⊎◌, inl, inr, ◌∙◌, refl, sym, ap, subst, Bool, true, false, Option, none, some,
  List, [], ◌∷◌, if◌then◌else◌, Bool-cases,
}
use quic_relay.Go.{
  Go, ok, err, panic, stuck, ◌>>=◌, Bytes, bytes_eq, bytes_eq_iff, Returns, Returns-bind,
  Returns-imp,
}
use quic_relay.Map.{is_some}
use quic_relay.Quic.{Error, failed_cipher}
use quic_relay.Quic.Initial.{
  Crypto, derive_initial_keys, decrypt_with_cached_crypto, decrypt_initial_packet,
}
use quic_relay.Quic.Initial.Opens.{Keys, decrypt_initial_packet-cached}

module _ (c : Crypto) where
  pub record Cached : Type 0 where
    pub dcid : Bytes
    pub iv : Bytes
    pub hp_cipher : Option c.Block
    pub aead : Option c.Aead

  abbrev pub new_cached : Cached
  new_cached = record { dcid = []; iv = []; hp_cipher = none; aead = none }

  -- The assignment of the cipher object is made on an error too.
  unfoldable pub init_aead : Option c.Block → Cached → Cached × Option Error
  init_aead none a = (a, some failed_cipher)
  init_aead (some block) a =
      let made = c.new_gcm block in
      (record a { aead = made }, elim made [ none ↦ some failed_cipher | some aead ↦ none ])

  unfoldable pub init_ciphers : Bytes → Option c.Block → Cached → Cached × Option Error
  init_ciphers key none a = (record a { hp_cipher = none }, some failed_cipher)
  init_ciphers key (some block) a =
      init_aead (c.new_cipher key) (record a { hp_cipher = some block })

  unfoldable pub init_derived :
      Bytes → Go Error (Bytes × Bytes × Bytes) → Cached → Go Error (Cached × Option Error)
  init_derived dcid (ok (key, iv, hp)) a =
      ok (init_ciphers key (c.new_cipher hp) (record a { dcid = dcid; iv = iv }))
  init_derived dcid (err e) a = ok (a, some e)
  init_derived dcid panic a = panic
  init_derived dcid stuck a = stuck

  unfoldable pub init_crypto : Bytes → Cached → Go Error (Cached × Option Error)
  init_crypto dcid a =
      if bytes_eq a.dcid dcid
      then ok (a, none)
      else init_derived dcid (derive_initial_keys c dcid) a

  abbrev pub has_crypto : Cached → Bool
  has_crypto a = is_some a.aead

  abbrev pub get_crypto : Cached → Option c.Block × Option c.Aead × Bytes
  get_crypto a = (a.hp_cipher, a.aead, a.iv)

-- Calls of InitCrypto, one after the other.
abbrev pub init_all : (c : Crypto) → List Bytes → Cached c → Go Error (Cached c)
init_all c [] a = ok a
init_all c (dcid ∷ dcids) a = init_crypto c dcid a >>= λ r. init_all c dcids r.0

-- DecryptWithCachedCrypto with what GetCrypto returns; a method of a nil object panics.
abbrev pub decrypt_with :
    (c : Crypto) → Bytes → Bytes → ℕ → Option c.Block × Option c.Aead × Bytes → Go Error Bytes
decrypt_with c packet encrypted at (some hp, some aead, iv) =
    decrypt_with_cached_crypto c packet encrypted at hp aead iv
decrypt_with c packet encrypted at _ = panic

-- The assembler's objects decrypt as decryptInitialPacket does with the keys of the DCID.
abbrev pub Decrypts : (c : Crypto) → Bytes → Cached c → Type 0
Decrypts c dcid a =
    (packet encrypted : Bytes) (at : ℕ)
    → decrypt_with c packet encrypted at (get_crypto c a) ≡ (
        derive_initial_keys c dcid >>= λ (key, iv, hp).
        decrypt_initial_packet c packet encrypted at key iv hp)

record Serves (c : Crypto) (dcid : Bytes) (k : Keys c dcid) (a : Cached c) : Type 0 where
  named : a.dcid ≡ dcid
  hp_cipher : a.hp_cipher ≡ some k.hp_cipher
  aead : a.aead ≡ some k.aead
  iv : a.iv ≡ k.iv

module _ (c : Crypto) (keys : (dcid : Bytes) → Keys c dcid) where
  -- An assembler is new, or serves a DCID.
  abbrev IsCached : Cached c → Type 0
  IsCached a = (a ≡ new_cached c) ⊎ ((d : Bytes) × Serves c d (keys d) a)

  init_crypto-Serves :
      (dcid : Bytes) (a : Cached c)
      → bytes_eq a.dcid dcid ≡ false
      → Returns (λ r. (r.1 ≡ none) × Serves c dcid (keys dcid) r.0) (init_crypto c dcid a)
  unfolding init_crypto init_derived init_ciphers init_aead
  init_crypto-Serves dcid a e =
      let k = keys dcid in
      rw (e, k.derived, k.hp_made, k.aes_made, k.aead_made)
        (refl, record { named = refl; hp_cipher = refl; aead = refl; iv = refl })

  init_crypto-IsCached :
      (dcid : Bytes) (a : Cached c)
      → IsCached a
      → Returns (λ r. IsCached r.0) (init_crypto c dcid a)
  unfolding init_crypto
  init_crypto-IsCached dcid a h = elim (Bool-cases (bytes_eq a.dcid dcid)) [
    | inl same ↦ rw same h
    | inr other ↦
        Returns-imp _ (λ r. IsCached r.0) (init_crypto c dcid a) (λ r s. inr (dcid, s.1))
          (init_crypto-Serves dcid a other)
  ]

  init_all-IsCached :
      (dcids : List Bytes) (a : Cached c) → IsCached a → Returns IsCached (init_all c dcids a)
  init_all-IsCached [] a h = h
  init_all-IsCached (d ∷ ds) a h =
      Returns-bind (λ r. IsCached r.0) IsCached (init_crypto c d a) _ (init_crypto-IsCached d a h)
        λ r. init_all-IsCached ds r.0

  Serves-Decrypts : (dcid : Bytes) (a : Cached c) → Serves c dcid (keys dcid) a → Decrypts c dcid a
  Serves-Decrypts dcid a s packet encrypted at =
      let k = keys dcid in
      rw (s.hp_cipher, s.aead, s.iv, k.derived)
        (sym (decrypt_initial_packet-cached c dcid k packet encrypted at))

  kept :
      (dcid : Bytes) (a : Cached c)
      → dcid ≢ []
      → bytes_eq a.dcid dcid ≡ true
      → IsCached a
      → Serves c dcid (keys dcid) a
  kept dcid a n same (inl e) =
      absurd (n (sym ((bytes_eq_iff a.dcid dcid).0 same) ∙ ap (λ (b : Cached c). b.dcid) e))
  kept dcid a n same (inr (d, s)) =
      subst (λ d'. Serves c d' (keys d') a) (sym s.named ∙ (bytes_eq_iff a.dcid dcid).0 same) s

  init_crypto-now :
      (dcid : Bytes) (a : Cached c)
      → dcid ≢ []
      → IsCached a
      → Returns (λ r. (r.1 ≡ none) × Serves c dcid (keys dcid) r.0) (init_crypto c dcid a)
  unfolding init_crypto
  init_crypto-now dcid a n h = elim (Bool-cases (bytes_eq a.dcid dcid)) [
    | inl same ↦ rw same (refl, kept dcid a n same h)
    | inr other ↦ init_crypto-Serves dcid a other
  ]

  -- Where the keys of every DCID can be derived and the ciphers made of them, InitCrypto with a DCID
  -- that is not empty, after any calls of it with any DCIDs on a new assembler, returns no error and
  -- leaves objects with which DecryptWithCachedCrypto does, on every packet, what deriving the keys
  -- from that DCID and decryptInitialPacket do.
  pub init_crypto-Decrypts :
      (dcids : List Bytes) (dcid : Bytes)
      → dcid ≢ []
      → Returns
          (λ r. (r.1 ≡ none) × (has_crypto c r.0 ≡ true) × Decrypts c dcid r.0)
          (init_all c dcids (new_cached c) >>= init_crypto c dcid)
  init_crypto-Decrypts dcids dcid n =
      Returns-bind IsCached _ (init_all c dcids (new_cached c)) (init_crypto c dcid)
        (init_all-IsCached dcids (new_cached c) (inl refl))
        λ a h.
          Returns-imp _ _ (init_crypto c dcid a)
            (λ r s. (s.0, rw s.1.aead refl, Serves-Decrypts dcid r.0 s.1))
            (init_crypto-now dcid a n h)
