-- ===== src/Assembler/Reassembly.antt =====
-- A ClientHello that arrives in CRYPTO frames: AddFrame on each of them, then TryParse.
use quic_relay.Prelude.{
  ℕ, ◌+◌, ◌-◌, ◌≤◌, ◌<◌, ◌≡◌, refl, arith, Bool, true, false, ◌&&◌, ◌||◌, ltb, leb, some, List, [],
  ◌∷◌, All, length, get_or, if◌then◌else◌,
}
use quic_relay.Go.{Returns, Returns-bind, Returns-imp, ◌>>=◌, Bytes}
use quic_relay.Quic.Frames.{CryptoFrame}
use quic_relay.Tls.Bodies.{apply_all}
use quic_relay.Tls.RoundTrip.{Parts, IsParts, encode_hello}
use quic_relay.Assembler.{
  Assembler, new_crypto_assembler, max_crypto_buffer_size, add_frame, add_frames, try_parse,
}
use quic_relay.Assembler.Cells.{IsValid, cell, Adds, add_frame-Adds, new_crypto_assembler-IsValid}
use quic_relay.Assembler.Parse.{try_parse-hello}

-- The frame's bytes are those of the message at its offset.
abbrev pub IsPartOf : Bytes → CryptoFrame → Type 0
IsPartOf m f =
    (i : ℕ)
    → f.offset ≤ i
    → i < f.offset + length f.bytes
    → get_or f.bytes (i - f.offset) 0 ≡ get_or m i 0

-- Some frame holds the byte at an offset.
abbrev pub covered : List CryptoFrame → ℕ → Bool
covered [] i = false
covered (f ∷ fs) i = (leb f.offset i && ltb i (f.offset + length f.bytes)) || covered fs i

module _ (m : Bytes) (small : length m ≤ max_crypto_buffer_size) where
  abbrev Holds : List CryptoFrame → Assembler → Assembler → Type 0
  Holds fs a a' =
      IsValid a'
      × ((i : ℕ)
          → i < length m
          → cell a' i ≡ (if covered fs i then some (get_or m i 0) else cell a i))

  Holds-cons :
      (f : CryptoFrame) (fs : List CryptoFrame) (a a' : Assembler) (r : Assembler × Bool)
      → IsPartOf m f
      → Adds f.offset f.bytes a r
      → Holds fs r.0 a'
      → Holds (f ∷ fs) a a'
  Holds-cons f fs a a' r part adds (valid, held) =
      (valid, λ i h. ground (arith, held i h, adds.cells i, part i))

  add_frames-Holds :
      (fs : List CryptoFrame) (a : Assembler)
      → IsValid a
      → All (IsPartOf m) fs
      → Returns (Holds fs a) (add_frames fs a)
  unfolding add_frames
  add_frames-Holds [] a v parts = (v, λ i h. ground arith)
  add_frames-Holds (f ∷ fs) a v parts =
      Returns-bind (Adds f.offset f.bytes a) (Holds (f ∷ fs) a) (add_frame f.offset f.bytes a) _
        (add_frame-Adds a v f.offset f.bytes)
        λ r adds.
          Returns-imp (Holds fs r.0) (Holds (f ∷ fs) a) (add_frames fs r.0)
            (λ a' held. Holds-cons f fs a a' r parts.0 adds held)
            (add_frames-Holds fs r.0 adds.valid parts.1)

-- A ClientHello laid out as the RFC says, at most 8192 bytes long, is found whatever the CRYPTO
-- frames are in which it comes: in any order, overlapping or repeated, as long as each holds bytes of
-- the message, and every byte of the message is in one of them. A new assembler that is given these
-- frames does not panic, and TryParse then returns the message with its name and protocols.
pub add_frames-try_parse :
    (now : ℕ) (p : Parts) (fs : List CryptoFrame)
    → IsParts p
    → length (encode_hello p) ≤ max_crypto_buffer_size
    → All (IsPartOf (encode_hello p)) fs
    → ((i : ℕ) → i < length (encode_hello p) → covered fs i ≡ true)
    → Returns
        (λ r.
          r.1
          ≡ some (
              apply_all p.extensions
                (record { raw = encode_hello p; sni = []; alpn_protocols = [] })))
        (add_frames fs (new_crypto_assembler now) >>= try_parse)
add_frames-try_parse now p fs w small parts all =
    Returns-bind (Holds (encode_hello p) small fs (new_crypto_assembler now)) _
      (add_frames fs (new_crypto_assembler now)) try_parse
      (add_frames-Holds (encode_hello p) small fs (new_crypto_assembler now)
        (new_crypto_assembler-IsValid now) parts)
      λ a held.
        rw (try_parse-hello a held.0 p w small (λ i h. ground (arith, held.1 i h, all i h))) refl
