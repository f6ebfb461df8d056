-- ===== src/Tls/Total.antt =====
-- parseTLSClientHello on any bytes.
use quic_relay.Prelude.{
  ℕ, zero, suc, ◌+◌, ◌-◌, ◌≤◌, ◌<◌, ◌≡◌, ◌&&◌, refl, arith, Bool-cases, inl, inr, List, [], ◌∷◌,
  ◌++◌, ltb, leb, length, get_or, bit_or, ◌*◌, ◌^◌, length-take, length-drop, take, drop,
}
use quic_relay.Go.{
  Ensures, Ensures-bind, Ensures-of_Returns, Returns, Returns-bind, Bytes, index, slice,
}
use quic_relay.Tls.{
  ClientHello, u16, u24, parse_sni, read_protocols, parse_alpn, read_extension, read_extensions,
  find_extensions, parse_tls_client_hello,
}

u16-Returns : (b : Bytes) (i : ℕ) → i + 2 ≤ length b → Returns (λ v. Unit {0}) (u16 b i)
unfolding u16 index
u16-Returns b i h = ground arith

u24-Returns : (b : Bytes) (i : ℕ) → i + 3 ≤ length b → Returns (λ v. Unit {0}) (u24 b i)
unfolding u24 index
u24-Returns b i h = ground arith

pub parse_sni-Returns : (b : Bytes) → Returns (λ s. length s ≤ length b) (parse_sni b)
unfolding parse_sni u16 index slice
parse_sni-Returns b =
    let n = bit_or (get_or b 3 0 * 2 ^ 8) (get_or b 4 0) in
    ground (arith, length-take (5 + n - 5) (drop 5 b), length-drop 5 b)

read_protocols-Returns :
    (fuel : ℕ) (b : Bytes) (offset : ℕ) (l : List Bytes)
    → offset ≤ length b
    → length b < fuel + offset
    → Returns (λ r. Unit {0}) (read_protocols fuel b offset l)
unfolding read_protocols index slice
read_protocols-Returns zero b offset l h k = absurd (omega arith)
read_protocols-Returns (suc fuel) b offset l h k =
    let at = offset + 1 + get_or b offset 0 in
    let s = take (at - (offset + 1)) (drop (offset + 1) b) in
    ground (arith, read_protocols-Returns fuel b at (l ++ (s ∷ [])))

parse_alpn-Returns : (b : Bytes) → Returns (λ r. Unit {0}) (parse_alpn b)
unfolding parse_alpn
parse_alpn-Returns b = ground (arith, read_protocols-Returns (length b + 1) b 2 [])

-- What the parser returns: `Raw` is its input, and the name is no longer than that.
abbrev pub IsHelloOf : Bytes → ClientHello → Type 0
IsHelloOf b h = (h.raw ≡ b) × (length h.sni ≤ length b)

read_extension-Returns :
    (b : Bytes) (ty start size : ℕ) (h : ClientHello)
    → start + size ≤ length b
    → IsHelloOf b h
    → Returns (IsHelloOf b) (read_extension b ty start size h)
unfolding read_extension slice
read_extension-Returns b ty start size h inside v =
    let body = take (start + size - start) (drop start b) in
    ground (
      arith,
      parse_sni-Returns body,
      parse_alpn-Returns body,
      length-take (start + size - start) (drop start b),
      length-drop start b,
    )

module _ (b : Bytes) where
  read_extensions-Returns :
      (fuel ext_end offset : ℕ) (h : ClientHello)
      → offset ≤ length b
      → length b < fuel + offset
      → IsHelloOf b h
      → Returns (IsHelloOf b) (read_extensions fuel b ext_end offset h)
  unfolding read_extensions
  read_extensions-Returns zero ext_end offset h i k v = absurd (omega arith)
  read_extensions-Returns (suc fuel) ext_end offset h i k v =
      elim (Bool-cases (ltb offset ext_end && leb (offset + 4) (length b))) [
        | inr done ↦ rw (done, read_extensions) v
        | inl more ↦
            let room : offset + 4 ≤ length b = ground arith in
            rw (more, read_extensions)
              (Returns-bind (λ x. Unit {0}) Q (u16 b offset) _ (u16-Returns b offset (omega arith))
                λ ty _.
                  Returns-bind (λ x. Unit {0}) Q (u16 b (offset + 2)) _
                    (u16-Returns b (offset + 2) (omega arith))
                    λ size _. (elim (Bool-cases (ltb (length b) (offset + 4 + size))) [
                      | inl cut ↦ rw (cut, Returns) v
                      | inr fits ↦
                          rw (fits, Returns)
                            (Returns-bind Q Q (read_extension b ty (offset + 4) size h) _
                              (read_extension-Returns b ty (offset + 4) size h (ground arith) v)
                              λ h' v'.
                                read_extensions-Returns fuel ext_end (offset + 4 + size) h'
                                  (ground arith) (omega arith) v')
                    ]))
      ]
    where
      Q : ClientHello → Type 0
      Q = IsHelloOf b

  find_extensions-Ensures : Ensures (λ r. r.0 ≤ length b) (find_extensions b)
  unfolding find_extensions index u16 u24
  find_extensions-Ensures = ground arith

-- parseTLSClientHello does not panic, and its loops end, on any bytes. What it returns holds its
-- input, and a name that is no longer.
pub parse_tls_client_hello-Ensures : (b : Bytes) → Ensures (IsHelloOf b) (parse_tls_client_hello b)
unfolding parse_tls_client_hello
parse_tls_client_hello-Ensures b =
    Ensures-bind _ (IsHelloOf b) (find_extensions b) _ (find_extensions-Ensures b) λ r inside.
      Ensures-of_Returns (IsHelloOf b) (read_extensions (length b + 1) b r.1 r.0 _) (
        read_extensions-Returns b (length b + 1) r.1 r.0 _ inside (omega arith) (refl, omega arith))
