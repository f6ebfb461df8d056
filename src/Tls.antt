-- ===== src/Tls.antt =====
-- parseTLSClientHello, parseSNI and parseALPN of internal/proxy/parser.go, and ClientHello of
-- internal/handler/context.go. A text is its bytes, and the empty one is []. `Raw` is the parsed
-- slice itself. The offsets are sums of lengths of at most 24 bits, which `int` holds.
pub mod Total
pub mod Bodies
pub mod RoundTrip
pub mod Frames
use quic_relay.Prelude.{
  ℕ, zero, suc, ◌+◌, ◌*◌, ◌^◌, Bool, true, false, not, ◌&&◌, bit_or, ltb, leb, ◌==◌, List, [], ◌∷◌,
  ◌++◌, length, if◌then◌else◌,
}
use quic_relay.Go.{Go, ok, err, stuck, ◌>>=◌, ◌>>◌, fail_if, Bytes, index, slice}
use quic_relay.Quic.{
  Error, tls_record_too_short, client_hello_truncated, too_short_for_session_id, not_client_hello,
  too_short_for_cipher_suites, too_short_for_compression, too_short_for_extensions,
}

pub record ClientHello : Type 0 where
  pub raw : Bytes
  pub sni : Bytes
  pub alpn_protocols : List Bytes

-- `int(b[i])<<8 | int(b[i+1])`
unfoldable pub u16 : Bytes → ℕ → Go Error ℕ
u16 b i = do x ← index b i; y ← index b (i + 1); ok (bit_or (x * 2 ^ 8) y)

unfoldable pub u24 : Bytes → ℕ → Go Error ℕ
u24 b i = do
  x ← index b i
  y ← index b (i + 1)
  z ← index b (i + 2)
  ok (bit_or (bit_or (x * 2 ^ 16) (y * 2 ^ 8)) z)

unfoldable pub parse_sni : Bytes → Go Error Bytes
parse_sni b =
    if ltb (length b) 5
    then ok []
    else index b 2 >>= λ name_type.
        if not (name_type == 0)
        then ok []
        else u16 b 3 >>= λ name_len.
            if ltb (length b) (5 + name_len) then ok [] else slice b 5 (5 + name_len)

unfoldable pub read_protocols : ℕ → Bytes → ℕ → List Bytes → Go Error (List Bytes)
read_protocols zero b offset protocols = stuck
read_protocols (suc fuel) b offset protocols = elim (ltb offset (length b)) [
  | false ↦ ok protocols
  | true ↦ index b offset >>= λ proto_len. elim (ltb (length b) (offset + 1 + proto_len)) [
    | true ↦ ok protocols
    | false ↦ slice b (offset + 1) (offset + 1 + proto_len) >>= λ protocol.
        read_protocols fuel b (offset + 1 + proto_len) (protocols ++ (protocol ∷ []))
  ]
]

-- Each round reads a byte at least.
unfoldable pub parse_alpn : Bytes → Go Error (List Bytes)
parse_alpn b = if ltb (length b) 2 then ok [] else read_protocols (length b + 1) b 2 []

-- The `switch` on the extension's type.
unfoldable pub read_extension : Bytes → ℕ → ℕ → ℕ → ClientHello → Go Error ClientHello
read_extension b ext_type start size hello =
    if ext_type == 0x00
    then (slice b start (start + size) >>= parse_sni >>= λ sni. ok (record hello { sni = sni }))
    else if ext_type == 0x10
    then (slice b start (start + size) >>= parse_alpn >>= λ protocols.
        ok (record hello { alpn_protocols = protocols }))
    else ok hello

unfoldable pub read_extensions : ℕ → Bytes → ℕ → ℕ → ClientHello → Go Error ClientHello
read_extensions zero b ext_end offset hello = stuck
read_extensions (suc fuel) b ext_end offset hello =
    elim (ltb offset ext_end && leb (offset + 4) (length b)) [
      | false ↦ ok hello
      | true ↦ u16 b offset >>= λ ext_type. u16 b (offset + 2) >>= λ ext_len.
          let start = offset + 4 in
          elim (ltb (length b) (start + ext_len)) [
            | true ↦ ok hello
            | false ↦ read_extension b ext_type start ext_len hello >>= λ hello'.
                read_extensions fuel b ext_end (start + ext_len) hello'
          ]
    ]

-- The fixed part: the offset of the first extension, and the one behind the last.
unfoldable pub find_extensions : Bytes → Go Error (ℕ × ℕ)
find_extensions b = do
  fail_if (ltb (length b) 6) tls_record_too_short
  kind ← index b 0
  fail_if (not (kind == 0x01)) (not_client_hello kind)
  hs_len ← u24 b 1
  fail_if (ltb (length b) (4 + hs_len)) client_hello_truncated
  let session = 4 + 2 + 32
  fail_if (leb (length b) session) too_short_for_session_id
  session_id_len ← index b session
  let suites = session + 1 + session_id_len
  fail_if (ltb (length b) (suites + 2)) too_short_for_cipher_suites
  cipher_suites_len ← u16 b suites
  let compression = suites + 2 + cipher_suites_len
  fail_if (leb (length b) compression) too_short_for_compression
  compression_len ← index b compression
  let extensions = compression + 1 + compression_len
  fail_if (ltb (length b) (extensions + 2)) too_short_for_extensions
  extensions_len ← u16 b extensions
  ok (extensions + 2, extensions + 2 + extensions_len)

-- Each extension takes four bytes at least.
unfoldable pub parse_tls_client_hello : Bytes → Go Error ClientHello
parse_tls_client_hello b = do
  (offset, ext_end) ← find_extensions b
  read_extensions (length b + 1) b ext_end offset
      (record { raw = b; sni = []; alpn_protocols = [] })
