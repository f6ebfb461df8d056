-- ===== src/Quic/Frames/RoundTrip.antt =====
-- extractCryptoFrames on a payload of PADDING, PING and CRYPTO frames that is laid out as RFC 9000,
-- section 19, says.
use quic_relay.Prelude.{ℕ, ◌+◌, ◌/◌, ◌%◌, ◌^◌, ◌<◌, List, [], ◌∷◌, ◌++◌, length}
use quic_relay.Go.{Bytes}
use quic_relay.Quic.Frames.{CryptoFrame}

pub data Frame : Type 0 where
  padding ping : Frame
  crypto : CryptoFrame → Frame

abbrev pub two_bytes : ℕ → Bytes
two_bytes n = (64 + n / 256) ∷ (n % 256) ∷ []

-- One frame; the numbers of a CRYPTO frame stand in two bytes each.
abbrev pub encode : Frame → Bytes
encode padding = 0x00 ∷ []
encode ping = 0x01 ∷ []
encode (crypto f) = 0x06 ∷ (two_bytes f.offset ++ (two_bytes (length f.bytes) ++ f.bytes))

abbrev pub encode_all : List Frame → Bytes
encode_all [] = []
encode_all (f ∷ fs) = encode f ++ encode_all fs

abbrev pub IsSmall : Frame → Type 0
IsSmall (crypto f) = (f.offset < 2 ^ 14) × (length f.bytes < 2 ^ 14)
IsSmall _ = Unit

abbrev pub crypto_of : List Frame → List CryptoFrame
crypto_of [] = []
crypto_of (crypto f ∷ fs) = f ∷ crypto_of fs
crypto_of (_ ∷ fs) = crypto_of fs

-- What a round leaves: PADDING frames behind a PADDING frame are skipped with it.
abbrev skip : List Frame → List Frame
skip (padding ∷ fs) = skip fs
skip fs = fs
