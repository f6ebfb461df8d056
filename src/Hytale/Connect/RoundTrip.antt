-- ===== src/Hytale/Connect/RoundTrip.antt =====
-- A Connect packet laid out field by field is parsed to its fields.
use quic_relay.Prelude.{
  ℕ, suc, ◌+◌, ◌≤◌, ◌<◌, ◌≡◌, ◌∙◌, refl, sym, ap, arith, true, false, ltb, leb, [], ◌∷◌, ◌++◌,
  append_assoc, length, length-append,
}
use quic_relay.Go.{Go, ok, Bytes, index, slice, slice_from}
use quic_relay.Go.Slices.{index-append, slice-append, slice_from-append}
use quic_relay.Hytale.{Error}
use quic_relay.Hytale.Values.{read_string, max_string_length}
use quic_relay.Hytale.Values.RoundTrip.{encoded, encoded_string, read_string-encoded}
use quic_relay.Hytale.Connect.{
  ConnectPacket, connect_packet_min_size, string_or_stop, after_string, parse_referral,
  parse_strings, parse_connect,
}

-- The fields of fixed size, and the whole.
abbrev pub fixed_part : ConnectPacket → Bytes
fixed_part cp = cp.protocol_hash ++ (cp.client_type ∷ cp.uuid)

abbrev pub encode_connect : ConnectPacket → Bytes
encode_connect cp =
    fixed_part cp
    ++ (encoded_string cp.language
        ++ (encoded_string cp.identity_token ++ (encoded_string cp.username ++ cp.referral_data)))

-- A packet whose fields have their sizes, and that is as long as the parser asks for.
pub record IsConnect (cp : ConnectPacket) : Type 0 where
  pub hash : length cp.protocol_hash ≡ 32
  pub uuid : length cp.uuid ≡ 16
  pub language : length cp.language ≤ max_string_length
  pub token : length cp.identity_token ≤ max_string_length
  pub username : length cp.username ≤ max_string_length
  pub long : connect_packet_min_size ≤ length (encode_connect cp)

length-encoded_string : (s : Bytes) → 0 < length (encoded_string s)
length-encoded_string s =
    omega (arith, length-append (encoded 5 (length s)) s, some_bytes (length s))
  where
    some_bytes : (n : ℕ) → 0 < length (encoded 5 n)
    some_bytes n = ground arith

-- A string that stands behind `pre`.
string_or_stop-encoded :
    (pre s rest b : Bytes) (offset : ℕ) (cp : ConnectPacket)
    (k : Bytes → ℕ → Go Error ConnectPacket)
    → b ≡ pre ++ (encoded_string s ++ rest)
    → offset ≡ length pre
    → length s ≤ max_string_length
    → string_or_stop b offset cp k ≡ k s (offset + length (encoded_string s))
unfolding string_or_stop
string_or_stop-encoded pre s rest b offset cp k e at small =
    let tail = encoded_string s ++ rest in
    let total : length b ≡ length pre + length tail = ap length e ∙ length-append pre tail in
    let more = length-append (encoded_string s) rest in
    let here : leb (length b) offset ≡ false =
      ground (arith, total, more, at, length-encoded_string s) in
    let cut : slice_from {E = Error} b offset ≡ ok tail =
      ap (λ l. slice_from l offset) e ∙ slice_from-append pre tail offset at in
    let opened : string_or_stop b offset cp k ≡ after_string offset cp k (read_string tail) =
      rw (string_or_stop, here, cut) refl in
    opened ∙ ap (after_string offset cp k) (read_string-encoded s rest small)

parse_referral-rest :
    (pre rest b : Bytes) (offset : ℕ) (cp : ConnectPacket)
    → b ≡ pre ++ rest
    → offset ≡ length pre
    → cp.referral_data ≡ []
    → parse_referral b offset cp ≡ ok (record cp { referral_data = rest })
unfolding parse_referral
parse_referral-rest pre [] b offset cp e at empty =
    let total : length b ≡ length pre + 0 = ap length e ∙ length-append pre [] in
    let end : ltb offset (length b) ≡ false = ground (arith, total, at) in
    rw (parse_referral, end) (ap (λ r. ok (record cp { referral_data = r })) empty)
parse_referral-rest pre (x ∷ rest) b offset cp e at empty =
    let total : length b ≡ length pre + suc (length rest) =
      ap length e ∙ length-append pre (x ∷ rest) in
    let more : ltb offset (length b) ≡ true = ground (arith, total, at) in
    let cut : slice_from {E = Error} b offset ≡ ok (x ∷ rest) =
      ap (λ l. slice_from l offset) e ∙ slice_from-append pre (x ∷ rest) offset at in
    rw (parse_referral, more, cut) refl

module _ (cp : ConnectPacket) (h : IsConnect cp) where
  abbrev bytes : Bytes
  bytes = encode_connect cp

  abbrev after_user : Bytes
  after_user = encoded_string cp.username ++ cp.referral_data

  abbrev after_token : Bytes
  after_token = encoded_string cp.identity_token ++ after_user

  -- Where the strings stand.
  abbrev to_token : Bytes
  to_token = fixed_part cp ++ encoded_string cp.language

  abbrev to_user : Bytes
  to_user = to_token ++ encoded_string cp.identity_token

  abbrev to_referral : Bytes
  to_referral = to_user ++ encoded_string cp.username

  at_token : bytes ≡ to_token ++ after_token
  at_token = sym (append_assoc (fixed_part cp) (encoded_string cp.language) after_token)

  at_user : bytes ≡ to_user ++ after_user
  at_user = at_token ∙ sym (append_assoc to_token (encoded_string cp.identity_token) after_user)

  at_referral : bytes ≡ to_referral ++ cp.referral_data
  at_referral = at_user ∙ sym (append_assoc to_user (encoded_string cp.username) cp.referral_data)

  fixed : length (fixed_part cp) ≡ 49
  fixed = omega (arith, length-append cp.protocol_hash (cp.client_type ∷ cp.uuid), h.hash, h.uuid)

  abbrev bare : ConnectPacket
  bare = record cp { language = []; identity_token = []; username = []; referral_data = [] }

  strings-eq : parse_strings bytes bare ≡ ok cp
  unfolding parse_strings
  strings-eq =
      let o1 = 49 + length (encoded_string cp.language) in
      let o2 = o1 + length (encoded_string cp.identity_token) in
      let o3 = o2 + length (encoded_string cp.username) in
      let e1 : o1 ≡ length to_token =
        omega (arith, fixed, length-append (fixed_part cp) (encoded_string cp.language)) in
      let e2 : o2 ≡ length to_user =
        omega (arith, e1, length-append to_token (encoded_string cp.identity_token)) in
      let e3 : o3 ≡ length to_referral =
        omega (arith, e2, length-append to_user (encoded_string cp.username)) in
      let cp1 = record bare { language = cp.language } in
      let cp2 = record cp1 { identity_token = cp.identity_token } in
      string_or_stop-encoded (fixed_part cp) cp.language after_token bytes 49 bare _ refl
        (sym fixed) h.language
      ∙ string_or_stop-encoded to_token cp.identity_token after_user bytes o1 cp1 _ at_token e1
          h.token
      ∙ string_or_stop-encoded to_user cp.username cp.referral_data bytes o2 cp2 _ at_user e2
          h.username
      ∙ parse_referral-rest to_referral cp.referral_data bytes o3
          (record cp2 { username = cp.username }) at_referral e3 refl

  -- A Connect packet that is laid out field by field, its strings as WriteString writes them and at most
  -- 256 bytes long, and that is 82 bytes long at least, is parsed to its fields.
  pub parse_connect-encode_connect : parse_connect bytes ≡ ok cp
  unfolding parse_connect
  parse_connect-encode_connect =
      let strings = encoded_string cp.language ++ after_token in
      let long : ltb (length bytes) connect_packet_min_size ≡ false = ground (arith, h.long) in
      let after_hash : bytes ≡ cp.protocol_hash ++ (cp.client_type ∷ (cp.uuid ++ strings)) =
        append_assoc cp.protocol_hash (cp.client_type ∷ cp.uuid) strings in
      let after_kind : bytes ≡ (cp.protocol_hash ++ (cp.client_type ∷ [])) ++ (cp.uuid ++ strings) =
        after_hash
        ∙ sym (append_assoc cp.protocol_hash (cp.client_type ∷ []) (cp.uuid ++ strings)) in
      let kind_at = length-append cp.protocol_hash (cp.client_type ∷ []) in
      let hash : slice {E = Error} bytes 0 32 ≡ ok cp.protocol_hash =
        ap (λ l. slice l 0 32) after_hash
        ∙ slice-append [] cp.protocol_hash (cp.client_type ∷ (cp.uuid ++ strings)) 0 32 refl
            (omega (arith, h.hash)) in
      let kind : index {E = Error} bytes 32 ≡ ok cp.client_type =
        ap (λ l. index l 32) after_hash
        ∙ index-append cp.protocol_hash (cp.uuid ++ strings) cp.client_type 32 (sym h.hash) in
      let uuid : slice {E = Error} bytes 33 49 ≡ ok cp.uuid =
        ap (λ l. slice l 33 49) after_kind
        ∙ slice-append (cp.protocol_hash ++ (cp.client_type ∷ [])) cp.uuid strings 33 49
            (omega (arith, kind_at, h.hash)) (omega (arith, kind_at, h.hash, h.uuid)) in
      let opened : parse_connect bytes ≡ parse_strings bytes bare =
        rw (parse_connect, long, hash, kind, uuid) refl in
      opened ∙ strings-eq
