-- ===== src/Tls/Bodies.antt =====
-- The bodies of the two extensions that parseTLSClientHello reads, as RFC 6066 and RFC 7301 lay them out.
use quic_relay.Prelude.{
  ℕ, zero, suc, ◌+◌, ◌/◌, ◌%◌, ◌≤◌, ◌<◌, ◌≡◌, ◌≢◌, ◌∙◌, refl, sym, ap, arith, List, [], ◌∷◌, ◌++◌,
  append-nil, append_assoc, length, length-append,
}
use quic_relay.Prelude.Bits.{bit_or_disjoint}
use quic_relay.Go.{ok, Bytes, index, slice}
use quic_relay.Go.Slices.{index-append, slice-append}
use quic_relay.Quic.{Error}
use quic_relay.Tls.{ClientHello, u16, parse_sni, read_protocols, parse_alpn, read_extension}

abbrev pub put16 : ℕ → Bytes
put16 n = (n / 256) ∷ (n % 256) ∷ []

pub u16-put16 :
    (front rest : Bytes) (n i : ℕ) → i ≡ length front → u16 (front ++ (put16 n ++ rest)) i ≡ ok n
unfolding u16
u16-put16 front rest n i e =
    rw
      (
        index-append {E = Error} front ((n % 256) ∷ rest) (n / 256) i e,
        sym (append_assoc front ((n / 256) ∷ []) ((n % 256) ∷ rest)),
        index-append {E = Error} (front ++ ((n / 256) ∷ [])) rest (n % 256) (i + 1)
            (omega (arith, e, length-append front ((n / 256) ∷ []))),
      )
      (ap ok (bit_or_disjoint 8 (n / 256) (n % 256) (omega arith) ∙ omega arith))

-- server_name: a list with one host name.
abbrev pub sni_body : Bytes → Bytes
sni_body name = put16 (3 + length name) ++ (0 ∷ (put16 (length name) ++ name))

pub parse_sni-sni_body : (name : Bytes) → parse_sni (sni_body name) ≡ ok name
unfolding parse_sni
parse_sni-sni_body name =
    rw
      (
        index-append {E = Error} (put16 (3 + length name)) (put16 (length name) ++ name) 0 2 refl,
        u16-put16 (put16 (3 + length name) ++ (0 ∷ [])) name (length name) 3 refl,
      )
      (ground (
        arith,
        append-nil name,
        slice-append {E = Error} (put16 (3 + length name) ++ (0 ∷ put16 (length name))) name [] 5
            (5 + length name) refl refl,
      ))

-- application_layer_protocol_negotiation: each protocol behind its length.
abbrev pub protocols_body : List Bytes → Bytes
protocols_body [] = []
protocols_body (p ∷ ps) = length p ∷ (p ++ protocols_body ps)

abbrev pub alpn_body : List Bytes → Bytes
alpn_body ps = put16 (length (protocols_body ps)) ++ protocols_body ps

module _ (b front p rest : Bytes) (o : ℕ) (e : b ≡ front ++ (length p ∷ (p ++ rest)))
    (at : o ≡ length front) where
  abbrev behind : Bytes
  behind = front ++ (length p ∷ [])

  eq_behind : b ≡ behind ++ (p ++ rest)
  eq_behind = e ∙ sym (append_assoc front (length p ∷ []) (p ++ rest))

  at_behind : o + 1 ≡ length behind
  at_behind = omega (arith, at, length-append front (length p ∷ []))

  read_len : index {E = Error} b o ≡ ok (length p)
  read_len = rw e (index-append {E = Error} front (p ++ rest) (length p) o at)

  read_protocol : slice {E = Error} b (o + 1) (o + 1 + length p) ≡ ok p
  read_protocol =
      rw eq_behind (slice-append {E = Error} behind p rest _ _ at_behind (omega (arith, at_behind)))

  length-protocols : o + 1 + length p + length rest ≡ length b
  length-protocols = omega (
    arith,
    ap (λ x. length x) e,
    length-append front (length p ∷ (p ++ rest)),
    length-append p rest,
  )

  read_protocols_step :
      (fuel : ℕ) (l : List Bytes)
      → read_protocols (suc fuel) b o l ≡ read_protocols fuel b (o + 1 + length p) (l ++ (p ∷ []))
  unfolding read_protocols
  read_protocols_step fuel l = ground (arith, length-protocols, read_len, read_protocol)

read_protocols-encode :
    (ps : List Bytes) (fuel : ℕ) (b front : Bytes) (o : ℕ) (l : List Bytes)
    → length ps < fuel
    → b ≡ front ++ protocols_body ps
    → o ≡ length front
    → read_protocols fuel b o l ≡ ok (l ++ ps)
read_protocols-encode ps zero b front o l h e at = absurd (omega arith)
read_protocols-encode [] (suc fuel) b front o l h e at =
    unfold read_protocols in
    ground (arith, ap (λ x. length x) e, length-append front [], append-nil l)
read_protocols-encode (p ∷ ps) (suc fuel) b front o l h e at =
    read_protocols_step b front p (protocols_body ps) o e at fuel l
    ∙ read_protocols-encode ps fuel b (front ++ (length p ∷ p)) (o + 1 + length p) (l ++ (p ∷ []))
        (omega arith) (e ∙ sym (append_assoc front (length p ∷ p) (protocols_body ps)))
        (omega (arith, at, length-append front (length p ∷ p)))
    ∙ ap ok (append_assoc l (p ∷ []) ps)

length-protocols_body : (ps : List Bytes) → length ps ≤ length (protocols_body ps)
length-protocols_body [] = omega arith
length-protocols_body (p ∷ ps) =
    omega (arith, length-protocols_body ps, length-append p (protocols_body ps))

pub parse_alpn-alpn_body : (ps : List Bytes) → parse_alpn (alpn_body ps) ≡ ok ps
unfolding parse_alpn
parse_alpn-alpn_body ps =
    let body = alpn_body ps in
    ground (
      arith,
      read_protocols-encode ps (length body + 1) body (put16 (length (protocols_body ps))) 2 []
          (omega (arith, length-protocols_body ps)) refl refl,
    )

pub data Extension : Type 0 where
  server_name : Bytes → Extension
  alpn : List Bytes → Extension
  other : ℕ → Bytes → Extension

abbrev pub ext_type : Extension → ℕ
ext_type (server_name name) = 0x00
ext_type (alpn ps) = 0x10
ext_type (other ty body) = ty

abbrev pub ext_body : Extension → Bytes
ext_body (server_name name) = sni_body name
ext_body (alpn ps) = alpn_body ps
ext_body (other ty body) = body

abbrev pub encode_extensions : List Extension → Bytes
encode_extensions [] = []
encode_extensions (x ∷ xs) =
    put16 (ext_type x) ++ (put16 (length (ext_body x)) ++ (ext_body x ++ encode_extensions xs))

-- An extension of another type is neither of the two that are read.
abbrev pub IsOther : Extension → Type 0
IsOther (other ty body) = (ty ≢ 0x00) × (ty ≢ 0x10)
IsOther _ = Unit

-- What the extensions say: of each kind, the last one counts.
abbrev pub apply_all : List Extension → ClientHello → ClientHello
apply_all [] h = h
apply_all (server_name name ∷ xs) h = apply_all xs (record h { sni = name })
apply_all (alpn ps ∷ xs) h = apply_all xs (record h { alpn_protocols = ps })
apply_all (other ty body ∷ xs) h = apply_all xs h

pub read_extension-encode :
    (x : Extension) (b : Bytes) (start : ℕ) (h : ClientHello)
    → IsOther x
    → slice {E = Error} b start (start + length (ext_body x)) ≡ ok (ext_body x)
    → read_extension b (ext_type x) start (length (ext_body x)) h ≡ ok (apply_all (x ∷ []) h)
unfolding read_extension
read_extension-encode (server_name name) b start h v e = rw (e, parse_sni-sni_body name) refl
read_extension-encode (alpn ps) b start h v e = rw (e, parse_alpn-alpn_body ps) refl
read_extension-encode (other ty body) b start h v e = ground arith
