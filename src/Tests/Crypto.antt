-- ===== src/Tests/Crypto.antt =====
-- A protected Initial packet of internal/proxy/parser.go, with a cipher that is a toy.
use quic_relay.Prelude.{
  ◌+◌, ◌*◌, ◌≡◌, ◌<◌, ℕ, List, min, get_or, refl, arith, true, none, some, [], ◌∷◌, ◌++◌, length,
  length-append, replicate, drop,
}
use quic_relay.Go.{slice, ok, ◌>>=◌, Bytes, Returns, bytes_eq}
use quic_relay.Assembler.Cached.{
  init_crypto, new_cached, init_all, has_crypto, Decrypts, init_crypto-Decrypts,
}
use quic_relay.Quic.Frames.{CryptoFrame, extract_crypto_frames}
use quic_relay.Tls.Frames.{max_hello_size, max_end, copy_frame, copy_frames, reassemble_crypto_data}
use quic_relay.Tls.Frames.Covers.{extent, last_byte, reassemble_crypto_data-last_byte}
use quic_relay.Quic.Header.{long_type}
use quic_relay.Quic.Varint.Encode.{one, two, encode_varint}
use quic_relay.Quic.Frames.RoundTrip.{encode_all, crypto}
use quic_relay.Quic.Initial.{
  Crypto, derive_initial_keys, hkdf_expand_label, extract_crypto_frames_from_packet,
}
use quic_relay.Quic.Initial.Protection.{Header, IsHeader}
use quic_relay.Quic.Initial.Opens.{Keys, Seals, protect, extract_crypto_frames_from_packet-protect}

-- A block cipher that counts its sample, and a GCM that puts a tag in front.
abbrev toy_crypto : Crypto
toy_crypto = record {
  Block = Unit;
  Aead = Unit;
  hkdf_extract = λ secret salt. replicate 32 0;
  hkdf_expand = λ secret info size. some (replicate size 3);
  new_cipher = λ key. some tt;
  new_gcm = λ block. some tt;
  encrypt = λ block sample. (length sample * 9 + 5) ∷ replicate 15 0xab;
  open_sealed = λ aead nonce text aad. some (drop 16 text);
}

abbrev toy_seal : Bytes → Bytes → Bytes → Bytes
toy_seal nonce plain aad = replicate 16 7 ++ plain

toy_seal-Seals : Seals toy_crypto tt toy_seal
toy_seal-Seals = record {
  size = λ nonce plain aad. omega (arith, length-append (replicate 16 7) plain);
  opens = λ nonce plain aad. refl;
}

abbrev header : Header
header = record {
  first = 0xc1;
  dcid = 1 ∷ 2 ∷ 3 ∷ [];
  scid = 4 ∷ [];
  token = [];
  number = 0x12 ∷ 0x34 ∷ [];
  token_size = one;
  length_size = two;
}

header-IsHeader : IsHeader header
unfolding long_type
header-IsHeader = record {
  byte = omega arith;
  long = refl;
  kind = refl;
  token = omega arith;
  size = refl;
  number = ground arith;
}

keys_of : (dcid : Bytes) → Keys toy_crypto dcid
unfolding derive_initial_keys hkdf_expand_label
keys_of dcid = record {
  key = replicate 16 3;
  iv = replicate 12 3;
  hp = replicate 16 3;
  hp_cipher = tt;
  aes_cipher = tt;
  aead = tt;
  derived = refl;
  hp_made = refl;
  aes_made = refl;
  aead_made = refl;
  wide = refl;
}

abbrev plain : Bytes
plain = encode_all (crypto (record { offset = 0; bytes = 1 ∷ 2 ∷ 3 ∷ [] }) ∷ [])

extract_crypto_frames_from_packet-protect_example :
    extract_crypto_frames_from_packet toy_crypto
      (protect toy_crypto header (keys_of header.dcid) toy_seal plain (9 ∷ []))
    ≡ extract_crypto_frames plain
unfolding encode_varint
extract_crypto_frames_from_packet-protect_example =
    extract_crypto_frames_from_packet-protect toy_crypto (λ b s. refl) header (keys_of header.dcid)
      toy_seal plain (9 ∷ []) header-IsHeader toy_seal-Seals (omega arith) (omega arith)
      (omega arith)

-- Keys of another DCID were cached before.
init_crypto-Decrypts_example :
    Returns
      (λ r. (r.1 ≡ none) × (has_crypto toy_crypto r.0 ≡ true) × Decrypts toy_crypto header.dcid r.0)
      (init_all toy_crypto ((7 ∷ []) ∷ []) (new_cached toy_crypto)
        >>= init_crypto toy_crypto header.dcid)
init_crypto-Decrypts_example =
    init_crypto-Decrypts toy_crypto keys_of ((7 ∷ []) ∷ []) header.dcid (λ e. ground (arith, e))

-- With an empty DCID nothing is derived, and no error is returned.
init_crypto-empty :
    init_crypto toy_crypto [] (new_cached toy_crypto) ≡ ok (new_cached toy_crypto, none)
unfolding init_crypto bytes_eq
init_crypto-empty = refl

-- Two frames that overlap, and a gap before a third.
abbrev overlapping : List CryptoFrame
overlapping =
    record { offset = 0; bytes = 1 ∷ 2 ∷ 3 ∷ [] }
    ∷ record { offset = 1; bytes = 9 ∷ [] }
    ∷ record { offset = 5; bytes = 7 ∷ [] }
    ∷ []

overlapping-run : reassemble_crypto_data overlapping ≡ ok (1 ∷ 9 ∷ 3 ∷ 0 ∷ 0 ∷ 7 ∷ [])
unfolding reassemble_crypto_data copy_frames copy_frame max_end slice
overlapping-run = refl

reassemble_crypto_data-last_byte_example :
    Returns
      (λ b.
        (length b ≡ min max_hello_size (extent overlapping))
        × ((i : ℕ) → i < length b → get_or b i 0 ≡ last_byte overlapping i 0))
      (reassemble_crypto_data overlapping)
reassemble_crypto_data-last_byte_example =
    reassemble_crypto_data-last_byte overlapping (omega arith, (omega arith, (omega arith, tt)))
