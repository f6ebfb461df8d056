-- ===== src/Tests/Relay.antt =====
-- The ClientHello parser, the assembler and the capped maps of internal/proxy, at concrete values.
use quic_relay.Prelude.{
  ℕ, zero, suc, ◌-◌, ◌≤◌, ◌≡◌, ap, ◌∙◌, refl, arith, some, List, [], ◌∷◌, ◌++◌, All, replicate,
  get_or, take, drop,
}
use quic_relay.Go.{ok, Bytes, Ensures, Returns, ◌>>=◌, bytes_eq}
use quic_relay.Tls.{parse_tls_client_hello}
use quic_relay.Tls.Total.{IsHelloOf, parse_tls_client_hello-Ensures}
use quic_relay.Tls.Bodies.{server_name, alpn, other}
use quic_relay.Tls.RoundTrip.{Parts, IsParts, encode_hello, parse_tls_client_hello-encode_hello}
use quic_relay.Assembler.{Assembler, new_crypto_assembler, add_frame, add_frames, try_parse}
use quic_relay.Assembler.Cells.{Adds, get_or-take, add_frame-Adds, new_crypto_assembler-IsValid}
use quic_relay.Assembler.Parse.{Parses, try_parse-Parses}
use quic_relay.Assembler.Reassembly.{IsPartOf, add_frames-try_parse}
use quic_relay.Quic.Frames.{CryptoFrame}
use quic_relay.Map.{lookup}
use quic_relay.Capped.{Capped, max_pending_per_dcid, PendingBuffer, take_pending_packets}
use quic_relay.Capped.Laws.{IsCapped}
use quic_relay.Capped.Pending.{packets_of, buffer_all, buffer_all-take}

-- `ab` as a name and `h3` as a protocol.
abbrev parts : Parts
parts = record {
  version = 3 ∷ 3 ∷ [];
  random = replicate 32 7;
  session_id = [];
  cipher_suites = 0x13 ∷ 0x01 ∷ [];
  compression = 0 ∷ [];
  extensions =
      other 0x33 (1 ∷ 2 ∷ []) ∷ server_name (97 ∷ 98 ∷ []) ∷ alpn ((104 ∷ 51 ∷ []) ∷ []) ∷ [];
}

parts-IsParts : IsParts parts
parts-IsParts = record { version_size = refl; random_size = refl; others = ground arith }

parse_tls_client_hello-encode_hello_example :
    parse_tls_client_hello (encode_hello parts)
    ≡ ok (record {
      raw = encode_hello parts;
      sni = 97 ∷ 98 ∷ [];
      alpn_protocols = (104 ∷ 51 ∷ []) ∷ [];
    })
parse_tls_client_hello-encode_hello_example =
    parse_tls_client_hello-encode_hello parts parts-IsParts

-- A ClientHello that is cut inside its extensions.
parse_tls_client_hello-Ensures_example :
    Ensures
      (IsHelloOf (take 60 (encode_hello parts)))
      (parse_tls_client_hello (take 60 (encode_hello parts)))
parse_tls_client_hello-Ensures_example =
    parse_tls_client_hello-Ensures (take 60 (encode_hello parts))

abbrev empty : Assembler
empty = new_crypto_assembler 0

-- A frame that reaches beyond the end of the buffer.
add_frame-Adds_example :
    Returns (Adds 8190 (1 ∷ 2 ∷ 3 ∷ []) empty) (add_frame 8190 (1 ∷ 2 ∷ 3 ∷ []) empty)
add_frame-Adds_example = add_frame-Adds empty (new_crypto_assembler-IsValid 0) 8190 (1 ∷ 2 ∷ 3 ∷ [])

try_parse-Parses_example : Returns (Parses empty) (try_parse empty)
try_parse-Parses_example = try_parse-Parses empty (new_crypto_assembler-IsValid 0)

get_or-drop : (n : ℕ) (l : Bytes) (i : ℕ) → n ≤ i → get_or (drop n l) (i - n) 0 ≡ get_or l i 0
get_or-drop zero l i h = ap (λ n. get_or l n 0) (omega arith)
get_or-drop (suc n) [] i h = refl
get_or-drop (suc n) (x ∷ l) zero h = absurd (omega arith)
get_or-drop (suc n) (x ∷ l) (suc i) h =
    ap (λ m. get_or (drop n l) m 0) (omega arith) ∙ get_or-drop n l i (omega arith)

-- The end of the message before its beginning, with ten bytes in both frames.
abbrev pieces : List CryptoFrame
pieces =
    record { offset = 30; bytes = drop 30 (encode_hello parts) }
    ∷ record { offset = 0; bytes = take 40 (encode_hello parts) }
    ∷ []

pieces-IsPartOf : All (IsPartOf (encode_hello parts)) pieces
pieces-IsPartOf = (
  (λ i low high. get_or-drop 30 (encode_hello parts) i low),
  (
    (λ i low high.
        ap (λ n. get_or (take 40 (encode_hello parts)) n 0) {x = i - 0} {y = i} (omega arith)
        ∙ get_or-take 40 (encode_hello parts) i high),
    tt,
  ),
)

add_frames-try_parse_example :
    Returns
      (λ r.
        r.1
        ≡ some (record {
          raw = encode_hello parts;
          sni = 97 ∷ 98 ∷ [];
          alpn_protocols = (104 ∷ 51 ∷ []) ∷ [];
        }))
      (add_frames pieces (new_crypto_assembler 0) >>= try_parse)
add_frames-try_parse_example =
    add_frames-try_parse 0 parts pieces parts-IsParts (omega arith) pieces-IsPartOf
      (λ i h. ground (arith, h))

abbrev one : Capped ℕ
one = record { entries = (1 ∷ [], 5) ∷ []; count = 1 }

one-IsCapped : IsCapped 1 one
unfolding lookup
one-IsCapped = record { map = (refl, tt); counted = refl; within = omega arith }

abbrev waiting : Capped PendingBuffer
waiting = record {
  entries = (1 ∷ [], record { packets = (9 ∷ []) ∷ []; created_at = 0 }) ∷ [];
  count = 1;
}

-- Eleven packets behind the one that waits.
abbrev arriving : List Bytes
arriving = replicate 11 (8 ∷ [])

buffer_all-take_example :
    ((take_pending_packets (1 ∷ []) (buffer_all 0 (1 ∷ []) arriving waiting)).1
      ≡ take max_pending_per_dcid (packets_of (1 ∷ []) waiting ++ arriving))
    × (packets_of
          (1 ∷ [])
          (take_pending_packets (1 ∷ []) (buffer_all 0 (1 ∷ []) arriving waiting)).0
        ≡ [])
unfolding lookup bytes_eq
buffer_all-take_example = buffer_all-take 0 (1 ∷ []) arriving waiting (refl, tt) refl (omega arith)
