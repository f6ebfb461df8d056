-- ===== src/Tls/RoundTrip.antt =====
-- parseTLSClientHello on a ClientHello that is laid out as RFC 8446, section 4.1.2, says.
use quic_relay.Prelude.{
  ℕ, zero, suc, ◌+◌, ◌*◌, ◌/◌, ◌%◌, ◌^◌, ◌≤◌, ◌<◌, ◌≡◌, ◌∙◌, refl, sym, ap, arith, List, [], ◌∷◌,
  ◌++◌, append_assoc, All, length, length-append, bit_or,
}
use quic_relay.Prelude.Bits.{bit_or_disjoint}
use quic_relay.Go.{ok, Bytes, index, slice}
use quic_relay.Go.Slices.{index-append, slice-append}
use quic_relay.Quic.{Error}
use quic_relay.Tls.{ClientHello, u16, u24, read_extensions, find_extensions, parse_tls_client_hello}
use quic_relay.Tls.Bodies.{
  put16, u16-put16, Extension, server_name, alpn, other, ext_type, ext_body, encode_extensions,
  IsOther, apply_all, read_extension-encode,
}

apply_all-cons :
    (x : Extension) (xs : List Extension) (h : ClientHello)
    → apply_all xs (apply_all (x ∷ []) h) ≡ apply_all (x ∷ xs) h
apply_all-cons (server_name name) xs h = refl
apply_all-cons (alpn ps) xs h = refl
apply_all-cons (other ty body) xs h = refl

module _ (b front rest : Bytes) (x : Extension) (o : ℕ)
    (e : b ≡ front ++ (put16 (ext_type x) ++ (put16 (length (ext_body x)) ++ (ext_body x ++ rest))))
    (at : o ≡ length front) where
  abbrev second : Bytes
  second = front ++ put16 (ext_type x)

  abbrev third : Bytes
  third = second ++ put16 (length (ext_body x))

  eq_second : b ≡ second ++ (put16 (length (ext_body x)) ++ (ext_body x ++ rest))
  eq_second = e ∙ sym (append_assoc front (put16 (ext_type x)) _)

  eq_third : b ≡ third ++ (ext_body x ++ rest)
  eq_third =
      eq_second ∙ sym (append_assoc second (put16 (length (ext_body x))) (ext_body x ++ rest))

  at_second : o + 2 ≡ length second
  at_second = omega (arith, at, length-append front (put16 (ext_type x)))

  at_third : o + 4 ≡ length third
  at_third = omega (arith, at_second, length-append second (put16 (length (ext_body x))))

  read_type : u16 b o ≡ ok (ext_type x)
  read_type = rw e (u16-put16 front _ (ext_type x) o at)

  read_size : u16 b (o + 2) ≡ ok (length (ext_body x))
  read_size = rw eq_second (u16-put16 second _ (length (ext_body x)) (o + 2) at_second)

  read_body : slice {E = Error} b (o + 4) (o + 4 + length (ext_body x)) ≡ ok (ext_body x)
  read_body =
      rw eq_third
        (slice-append {E = Error} third (ext_body x) rest _ _ at_third (omega (arith, at_third)))

  length-extension : o + 4 + length (ext_body x) + length rest ≡ length b
  length-extension = omega (
    arith,
    at_third,
    ap (λ l. length l) eq_third,
    length-append third (ext_body x ++ rest),
    length-append (ext_body x) rest,
  )

  read_extensions_step :
      (fuel ext_end : ℕ) (h : ClientHello)
      → IsOther x
      → o < ext_end
      → read_extensions (suc fuel) b ext_end o h
        ≡ read_extensions fuel b ext_end (o + 4 + length (ext_body x)) (apply_all (x ∷ []) h)
  unfolding read_extensions
  read_extensions_step fuel ext_end h v inside = ground (
    arith,
    length-extension,
    read_type,
    read_size,
    read_extension-encode x b (o + 4) h v read_body,
  )

read_extensions-encode :
    (xs : List Extension) (fuel : ℕ) (b front : Bytes) (o : ℕ) (h : ClientHello)
    → All IsOther xs
    → length xs < fuel
    → b ≡ front ++ encode_extensions xs
    → o ≡ length front
    → read_extensions fuel b (length b) o h ≡ ok (apply_all xs h)
read_extensions-encode xs zero b front o h v k e at = absurd (omega arith)
read_extensions-encode [] (suc fuel) b front o h v k e at =
    unfold read_extensions in ground (arith, ap (λ x. length x) e, length-append front [])
read_extensions-encode (x ∷ xs) (suc fuel) b front o h v k e at =
    read_extensions_step b front (encode_extensions xs) x o e at fuel (length b) h v.0
      (omega (arith, length-extension b front (encode_extensions xs) x o e at))
    ∙ read_extensions-encode xs fuel b (third b front (encode_extensions xs) x o e at ++ ext_body x)
        _ (apply_all (x ∷ []) h) v.1 (omega arith)
        (eq_third b front (encode_extensions xs) x o e at
          ∙ sym (
              append_assoc (third b front (encode_extensions xs) x o e at) (ext_body x)
                (encode_extensions xs)))
        (omega (
          arith,
          at_third b front (encode_extensions xs) x o e at,
          length-append (third b front (encode_extensions xs) x o e at) (ext_body x),
        ))
    ∙ ap ok (apply_all-cons x xs h)

-- The parts of a ClientHello that are skipped.
pub record Parts : Type 0 where
  pub version : Bytes
  pub random : Bytes
  pub session_id : Bytes
  pub cipher_suites : Bytes
  pub compression : Bytes
  pub extensions : List Extension

pub record IsParts (p : Parts) : Type 0 where
  pub version_size : length p.version ≡ 2
  pub random_size : length p.random ≡ 32
  pub others : All IsOther p.extensions

abbrev pub fixed_body : Parts → Bytes
fixed_body p =
    p.version
    ++ (p.random
        ++ (length p.session_id
            ∷ (p.session_id
                ++ (put16 (length p.cipher_suites)
                    ++ (p.cipher_suites ++ (length p.compression ∷ p.compression))))))

abbrev pub body : Parts → Bytes
body p = let xs = encode_extensions p.extensions in fixed_body p ++ (put16 (length xs) ++ xs)

-- The handshake message: its type, its length in three bytes, and the parts.
abbrev pub encode_hello : Parts → Bytes
encode_hello p =
    let n = length (body p) in 0x01 ∷ (n / 65536) ∷ (n / 256 % 256) ∷ (n % 256) ∷ body p

pub u24-encode :
    (n : ℕ) (rest : Bytes) → u24 (0x01 ∷ (n / 65536) ∷ (n / 256 % 256) ∷ (n % 256) ∷ rest) 1 ≡ ok n
unfolding u24
u24-encode n rest =
    rw
      (
        index-append {E = Error} (1 ∷ []) ((n / 256 % 256) ∷ (n % 256) ∷ rest) (n / 65536) 1 refl,
        index-append {E = Error} (1 ∷ (n / 65536) ∷ []) ((n % 256) ∷ rest) (n / 256 % 256) 2 refl,
        index-append {E = Error} (1 ∷ (n / 65536) ∷ (n / 256 % 256) ∷ []) rest (n % 256) 3 refl,
        bit_or_disjoint 16 (n / 65536) (n / 256 % 256 * 2 ^ 8) (omega arith),
      )
      (ap ok (or_low (n / 256) _ (n % 256) (omega arith) (omega arith) ∙ omega arith))
  where
    or_low : (high p low : ℕ) → low < 256 → p ≡ high * 2 ^ 8 → bit_or p low ≡ high * 2 ^ 8 + low
    or_low high p low h e = rw e (bit_or_disjoint 8 high low h)

module _ (p : Parts) (v : IsParts p) where
  open p use {version, random, session_id, cipher_suites, compression, extensions}

  abbrev xs : Bytes
  xs = encode_extensions extensions

  abbrev hello : Bytes
  hello = encode_hello p

  abbrev n : ℕ
  n = length (body p)

  abbrev p0 : Bytes
  p0 = 0x01 ∷ (n / 65536) ∷ (n / 256 % 256) ∷ (n % 256) ∷ (version ++ random)

  abbrev p1 : Bytes
  p1 = p0 ++ (length session_id ∷ session_id)

  abbrev p2 : Bytes
  p2 = p1 ++ (put16 (length cipher_suites) ++ cipher_suites)

  abbrev p3 : Bytes
  p3 = p2 ++ (length compression ∷ compression)

  abbrev t4 : Bytes
  t4 = put16 (length xs) ++ xs

  abbrev t3 : Bytes
  t3 = length compression ∷ (compression ++ t4)

  abbrev t2 : Bytes
  t2 = put16 (length cipher_suites) ++ (cipher_suites ++ t3)

  abbrev t1 : Bytes
  t1 = length session_id ∷ (session_id ++ t2)

  eq0 : hello ≡ p0 ++ t1
  eq0 = simp append_assoc

  eq1 : hello ≡ p1 ++ t2
  eq1 = eq0 ∙ sym (append_assoc p0 (length session_id ∷ session_id) t2)

  eq2 : hello ≡ p2 ++ t3
  eq2 = eq1 ∙ sym (append_assoc p1 (put16 (length cipher_suites) ++ cipher_suites) t3)

  eq3 : hello ≡ p3 ++ t4
  eq3 = eq2 ∙ sym (append_assoc p2 (length compression ∷ compression) t4)

  at0 : 38 ≡ length p0
  at0 = omega (arith, v.version_size, v.random_size, length-append version random)

  at1 : 38 + 1 + length session_id ≡ length p1
  at1 = omega (arith, at0, length-append p0 (length session_id ∷ session_id))

  at2 : 38 + 1 + length session_id + 2 + length cipher_suites ≡ length p2
  at2 = omega (arith, at1, length-append p1 (put16 (length cipher_suites) ++ cipher_suites))

  at3 : 38 + 1 + length session_id + 2 + length cipher_suites + 1 + length compression ≡ length p3
  at3 = omega (arith, at2, length-append p2 (length compression ∷ compression))

  length-hello : length p3 + 2 + length xs ≡ length hello
  length-hello = omega (arith, ap (λ l. length l) eq3, length-append p3 t4)

  session_read : index {E = Error} hello 38 ≡ ok (length session_id)
  session_read = rw eq0 (index-append {E = Error} p0 (session_id ++ t2) (length session_id) 38 at0)

  suites_read : u16 hello (38 + 1 + length session_id) ≡ ok (length cipher_suites)
  suites_read = rw eq1 (u16-put16 p1 (cipher_suites ++ t3) (length cipher_suites) _ at1)

  compression_read :
      index {E = Error} hello (38 + 1 + length session_id + 2 + length cipher_suites)
      ≡ ok (length compression)
  compression_read =
      rw eq2 (index-append {E = Error} p2 (compression ++ t4) (length compression) _ at2)

  extensions_read :
      u16 hello (38 + 1 + length session_id + 2 + length cipher_suites + 1 + length compression)
      ≡ ok (length xs)
  extensions_read = rw eq3 (u16-put16 p3 xs (length xs) _ at3)

  find_extensions-hello : find_extensions hello ≡ ok (length p3 + 2, length hello)
  unfolding find_extensions
  find_extensions-hello = ground (
    arith,
    length-hello,
    at0,
    at1,
    at2,
    at3,
    index-append {E = Error} [] ((n / 65536) ∷ (n / 256 % 256) ∷ (n % 256) ∷ body p) 1 0 refl,
    u24-encode n (body p),
    session_read,
    suites_read,
    compression_read,
    extensions_read,
  )

-- A ClientHello has the fixed fields at least.
pub hello_size : (p : Parts) → IsParts p → 38 ≤ length (encode_hello p)
hello_size p v = omega (
  arith,
  length-hello p v,
  length-append (p2 p v) (length p.compression ∷ p.compression),
  at2 p v,
)

length-encode_extensions : (l : List Extension) → length l ≤ length (encode_extensions l)
length-encode_extensions [] = omega arith
length-encode_extensions (x ∷ l) =
    omega (arith, length-encode_extensions l, length-append (ext_body x) (encode_extensions l))

-- On a ClientHello that is laid out as the RFC says, with any session ID, cipher suites, compression
-- methods and extensions, parseTLSClientHello returns the message, the name of its last server_name
-- extension and the protocols of its last ALPN extension, each empty if there is none.
pub parse_tls_client_hello-encode_hello :
    (p : Parts)
    → IsParts p
    → parse_tls_client_hello (encode_hello p)
      ≡ ok (apply_all p.extensions (record { raw = encode_hello p; sni = []; alpn_protocols = [] }))
unfolding parse_tls_client_hello
parse_tls_client_hello-encode_hello p v = rw (find_extensions-hello p v) (
    read_extensions-encode p.extensions (length (hello p v) + 1) (hello p v)
      (p3 p v ++ put16 (length (xs p v))) (length (p3 p v) + 2) _ v.others
      (omega (arith, length-hello p v, length-encode_extensions p.extensions))
      (eq3 p v ∙ sym (append_assoc (p3 p v) (put16 (length (xs p v))) (xs p v)))
      (omega (arith, length-append (p3 p v) (put16 (length (xs p v))))))
