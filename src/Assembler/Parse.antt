-- ===== src/Assembler/Parse.antt =====
-- TryParse: what it returns, and that a whole ClientHello is returned.
use quic_relay.Prelude.{
  ℕ, zero, suc, ◌+◌, ◌-◌, ◌*◌, ◌/◌, ◌^◌, ◌≤◌, ◌<◌, ◌≡◌, ◌∙◌, refl, sym, ap, ap₂, arith, Bool, true,
  false, Option, none, some, List, [], ◌∷◌, ◌++◌, length, take, take-append-drop, length-take, drop,
  get_or, bit_or,
}
use native.Mathlib.Decide.{dec_lt}
use quic_relay.Go.{ok, Returns, Returns-bind, Returns-imp, Returns-eq, Bytes, index, slice}
use quic_relay.Go.Slices.{index-append, slice-append}
use quic_relay.Quic.{Error}
use quic_relay.Tls.{ClientHello, u24, parse_tls_client_hello}
use quic_relay.Tls.Total.{parse_tls_client_hello-Ensures}
use quic_relay.Tls.Bodies.{apply_all}
use quic_relay.Tls.RoundTrip.{
  Parts, IsParts, body, encode_hello, u24-encode, hello_size, parse_tls_client_hello-encode_hello,
}
use quic_relay.Assembler.{
  Assembler, max_crypto_buffer_size, is_set, all_set, parse_complete, parse_without_gap, needed_for,
  try_parse,
}
use quic_relay.Assembler.Cells.{written?, IsValid, cell, get_or-take}

-- Every byte from i to i + k was written.
abbrev pub AreWritten : List ℕ → ℕ → ℕ → Type 0
AreWritten w i k = (j : ℕ) → i ≤ j → j < i + k → written? w j ≡ true

abbrev Reports : List ℕ → ℕ → ℕ → Bool → Type 0
Reports w i k true = AreWritten w i k
Reports w i k false = (j : ℕ) × (i ≤ j) × (j < i + k) × (written? w j ≡ false)

is_set-Returns :
    (w : List ℕ) (i : ℕ) → i / 64 < length w → Returns (λ b. b ≡ written? w i) (is_set w i)
unfolding is_set index
is_set-Returns w i h = ground arith

extend :
    (w : List ℕ) (i k : ℕ)
    → written? w i ≡ true
    → (b : Bool) → Reports w (i + 1) k b
    → Reports w i (suc k) b
extend w i k e true h = λ j p q. elim (dec_lt i j) [
  | yes r ↦ h j (omega arith) (omega arith)
  | no r ↦ let same : j ≡ i = omega arith in rw same e
]
extend w i k e false h = (h.0, omega arith, omega arith, h.3)

all_set-Reports :
    (k i : ℕ) (w : List ℕ) → i + k ≤ 64 * length w → Returns (Reports w i k) (all_set k i w)
unfolding all_set
all_set-Reports zero i w h = λ j p q. absurd (omega arith)
all_set-Reports (suc k) i w h =
    Returns-bind _ (Reports w i (suc k)) (is_set w i) _ (is_set-Returns w i (omega arith)) (elim [
      | false ↦ λ e. (i, omega arith, omega arith, sym e)
      | true ↦ λ e.
          Returns-imp (Reports w (i + 1) k) (Reports w i (suc k)) (all_set k (i + 1) w)
            (extend w i k (sym e)) (all_set-Reports k (i + 1) w (omega arith))
    ])

all_set-true :
    (k i : ℕ) (w : List ℕ) → i + k ≤ 64 * length w → AreWritten w i k → all_set k i w ≡ ok true
all_set-true k i w h whole =
    go (Returns-eq (Reports w i k) (all_set k i w) (all_set-Reports k i w h))
  where
    go : (b : Bool) × (all_set k i w ≡ ok b) × Reports w i k b → all_set k i w ≡ ok true
    go (true, e, r) = e
    go (false, e, r) = cc (whole r.0 r.1 r.2, r.3)

-- What the message's own length field asks for, and the part of the buffer that is parsed.
abbrev pub needed_of : Assembler → ℕ
needed_of a = needed_for (
    bit_or (bit_or (get_or a.buffer 1 0 * 2 ^ 16) (get_or a.buffer 2 0 * 2 ^ 8))
      (get_or a.buffer 3 0))

abbrev pub Parses : Assembler → Assembler × Option ClientHello → Type 0
Parses a (a', none) = a' ≡ a
Parses a (a', some hello) =
    (a' ≡ record a { complete = true })
    × AreWritten a.written 0 (needed_of a)
    × (parse_tls_client_hello (take (needed_of a) a.buffer) ≡ ok hello)

module _ (a : Assembler) (v : IsValid a) where
  parse_complete-Parses :
      (n : ℕ) → n ≡ needed_of a → AreWritten a.written 0 n → Returns (Parses a) (parse_complete a n)
  unfolding parse_complete slice
  parse_complete-Parses n e h =
      ground (arith, v.buffer_size, parse_tls_client_hello-Ensures (take (n - 0) (drop 0 a.buffer)))

  parse_without_gap-Parses :
      needed_of a ≤ max_crypto_buffer_size → Returns (Parses a) (parse_without_gap a (needed_of a))
  unfolding parse_without_gap
  parse_without_gap-Parses small =
      Returns-bind (Reports a.written 0 (needed_of a)) (Parses a)
        (all_set (needed_of a) 0 a.written) _
        (all_set-Reports (needed_of a) 0 a.written (omega (arith, v.written_size)))
        (elim [
          | false ↦ λ gap. refl
          | true ↦ λ whole. parse_complete-Parses (needed_of a) refl whole
        ])

  needed-le : needed_of a ≤ max_crypto_buffer_size
  needed-le = ground arith

  -- TryParse on a valid assembler never panics. Where it returns no ClientHello the assembler is as
  -- before. Where it returns one, every byte that the message's length asks for had been written, the
  -- ClientHello is what the parser makes of exactly these bytes, and the assembler is complete.
  pub try_parse-Parses : Returns (Parses a) (try_parse a)
  unfolding try_parse index u24
  try_parse-Parses = ground (arith, v.buffer_size, parse_without_gap-Parses needed-le)

-- Lists that agree at every place.
eq_of_get_or :
    (l m : List ℕ)
    → length l ≡ length m
    → ((i : ℕ) → i < length m → get_or l i 0 ≡ get_or m i 0)
    → l ≡ m
eq_of_get_or [] [] e h = refl
eq_of_get_or [] (y ∷ m) e h = absurd (omega arith)
eq_of_get_or (x ∷ l) [] e h = absurd (omega arith)
eq_of_get_or (x ∷ l) (y ∷ m) e h =
    ap₂ ◌∷◌ (h 0 (omega arith)) (eq_of_get_or l m (omega arith) (λ i k. h (suc i) (omega arith)))

module _ (a : Assembler) (v : IsValid a) (p : Parts) (w : IsParts p) where
  abbrev hello : Bytes
  hello = encode_hello p

  abbrev behind : Bytes
  behind = drop (length hello) a.buffer

  module _ (small : length hello ≤ max_crypto_buffer_size)
      (cells : (i : ℕ) → i < length hello → cell a i ≡ some (get_or hello i 0)) where
    front-eq : take (length hello) a.buffer ≡ hello
    front-eq =
        eq_of_get_or (take (length hello) a.buffer) hello
          (omega (arith, length-take (length hello) a.buffer, v.buffer_size))
          (λ i h. ground (arith, get_or-take (length hello) a.buffer i, cells i h))

    buffer-eq : a.buffer ≡ hello ++ behind
    buffer-eq = sym (take-append-drop (length hello) a.buffer) ∙ ap (λ l. l ++ behind) front-eq

    whole : AreWritten a.written 0 (length hello)
    whole = λ j q r. ground (arith, cells j)

    enough : length hello ≤ a.max_offset
    enough = omega (
      arith,
      hello_size p w,
      v.marked (length hello - 1)
          (whole (length hello - 1) (omega arith) (omega (arith, hello_size p w))),
    )

    kind_read : index {E = Error} a.buffer 0 ≡ ok 0x01
    kind_read = rw buffer-eq (index-append {E = Error} [] _ 0x01 0 refl)

    size_read : u24 a.buffer 1 ≡ ok (length (body p))
    size_read = rw buffer-eq (u24-encode (length (body p)) (body p ++ behind))

    no_gap : all_set (length hello) 0 a.written ≡ ok true
    no_gap = all_set-true (length hello) 0 a.written (omega (arith, v.written_size)) whole

    message_read : slice {E = Error} a.buffer 0 (length hello) ≡ ok hello
    message_read =
        rw buffer-eq (slice-append {E = Error} [] hello behind 0 (length hello) refl (omega arith))

    parse_complete-hello :
        parse_complete a (length hello)
        ≡ ok (
          record a { complete = true },
          some (apply_all p.extensions (record { raw = hello; sni = []; alpn_protocols = [] })),
        )
    unfolding parse_complete
    parse_complete-hello = ground (arith, message_read, parse_tls_client_hello-encode_hello p w)

    needed-hello : needed_for (length (body p)) ≡ length hello
    needed-hello = ground arith

    -- A valid assembler that holds every byte of a ClientHello laid out as the RFC says, at most 8192
    -- bytes long, is parsed: TryParse returns the message with its name and protocols, and marks the
    -- assembler complete.
    pub try_parse-hello :
        try_parse a
        ≡ ok (
          record a { complete = true },
          some (apply_all p.extensions (record { raw = hello; sni = []; alpn_protocols = [] })),
        )
    unfolding try_parse parse_without_gap
    try_parse-hello =
        rw (kind_read, size_read, needed-hello)
          (ground (arith, enough, hello_size p w, no_gap, parse_complete-hello))
