-- ===== src/Tests/Quic.antt =====
-- Packets, varints and frames of internal/proxy/parser.go, at concrete bytes.
use quic_relay.Prelude.{
  ◌<◌, ◌^◌, ◌++◌, ◌≡◌, refl, arith, some, List, [], ◌∷◌, All, length, replicate,
}
use quic_relay.Go.{ok, err, panic, ◌>>=◌, Bytes, Ensures, Returns, index, slice, slice_from}
use quic_relay.Quic.{too_short_for_dcid}
use quic_relay.Quic.Varint.{read_varint}
use quic_relay.Quic.Varint.Reference.{IsByte, reference, read_varint-reference}
use quic_relay.Quic.Header.{
  classify_packet, extract_dcid, extract_scid, extract_dcid_and_scid, long_type,
}
use quic_relay.Quic.Header.Reads.{extract_dcid_and_scid-eq}
use quic_relay.Quic.Header.Layout.{long_header}
use quic_relay.Quic.Coalesced.{extract_all_scids}
use quic_relay.Quic.Varint.Encode.{four_bytes}
use quic_relay.Quic.Coalesced.Packets.{
  LongPacket, coalesce, scids_of, distinct_from, IsLong, extract_all_scids-coalesce,
  extract_all_scids-initial,
}
use quic_relay.Quic.Frames.{
  extract_crypto_frames, read_frames, read_frame, read_crypto, next_varint,
}
use quic_relay.Quic.Frames.Total.{IsFrame, extract_crypto_frames-AreFrames}
use quic_relay.Quic.Frames.RoundTrip.{Frame, padding, ping, crypto}
use quic_relay.Quic.Initial.{
  Crypto, extract_crypto_frames_from_packet, find_dcid, find_token_end, find_payload,
  derive_initial_keys, decrypt_initial_packet, decrypt_with_cached_crypto, copy_packet, unmask,
  read_packet_number, mix_nonce, hkdf_label, hkdf_expand_label, open_payload,
}
use quic_relay.Quic.Initial.Safety.{
  CryptoLaws, initial_packet, extract_crypto_frames_from_packet-Ensures,
  extract_crypto_frames_from_packet-panic,
}

-- The four sample varints of RFC 9000, section A.1.
varints :
    (read_varint (0xc2 ∷ 0x19 ∷ 0x7c ∷ 0x5e ∷ 0xff ∷ 0x14 ∷ 0xe8 ∷ 0x8c ∷ [])
      ≡ ok (151288809941952652, 8))
    × (read_varint (0x9d ∷ 0x7f ∷ 0x3e ∷ 0x7d ∷ []) ≡ ok (494878333, 4))
    × (read_varint (0x7b ∷ 0xbd ∷ []) ≡ ok (15293, 2))
    × (read_varint (0x25 ∷ 0xff ∷ []) ≡ ok (37, 1))
unfolding read_varint index
varints = (refl, refl, refl, refl)

abbrev two : Bytes
two = 0x7b ∷ 0xbd ∷ 0x01 ∷ []

two-IsByte : All IsByte two
two-IsByte = ground arith

read_varint-reference_example : read_varint two ≡ reference two
read_varint-reference_example = read_varint-reference two two-IsByte

abbrev server : Bytes
server = 0xa1 ∷ 0xa2 ∷ 0xa3 ∷ []

abbrev client : Bytes
client = 0xc1 ∷ 0xc2 ∷ []

-- A long header whose DCID is cut short.
abbrev cut : Bytes
cut = 0xe0 ∷ 0 ∷ 0 ∷ 0 ∷ 1 ∷ 9 ∷ 0xc1 ∷ []

extract_dcid_and_scid-cut : extract_dcid_and_scid cut ≡ err too_short_for_dcid
unfolding extract_dcid_and_scid index
extract_dcid_and_scid-cut = refl

extract_dcid_and_scid-eq_example :
    extract_dcid_and_scid cut ≡ (extract_dcid cut 8 >>= λ d. extract_scid cut >>= λ s. ok (d, s))
extract_dcid_and_scid-eq_example = extract_dcid_and_scid-eq cut 8 refl

abbrev datagram : Bytes
datagram = long_header 0xe0 0 0 0 1 client server (0x40 ∷ 0x01 ∷ 0x99 ∷ [])

datagram-IsByte : All IsByte datagram
datagram-IsByte = ground arith

abbrev packet_of : Bytes → Bytes → LongPacket
packet_of scid payload = record {
  first = 0xe0;
  v0 = 0;
  v1 = 0;
  v2 = 0;
  v3 = 1;
  dcid = client;
  scid = scid;
  payload = payload;
  length_size = four_bytes;
}

abbrev packets : List LongPacket
packets =
    packet_of server (1 ∷ [])
    ∷ packet_of [] (2 ∷ 3 ∷ [])
    ∷ packet_of client []
    ∷ packet_of server (4 ∷ [])
    ∷ []

packets-IsLong : All IsLong packets
packets-IsLong = (
  record { long = refl; fits = omega arith },
  (
    record { long = refl; fits = omega arith },
    (record { long = refl; fits = omega arith }, (record { long = refl; fits = omega arith }, tt)),
  ),
)

extract_all_scids-coalesce_example :
    extract_all_scids (coalesce packets) ≡ ok (distinct_from [] (scids_of packets))
extract_all_scids-coalesce_example = extract_all_scids-coalesce packets packets-IsLong

-- The server's Handshake packet in the same datagram is not reached.
extract_all_scids-initial_example :
    extract_all_scids (
      long_header 0xc0 0 0 0 1 client server
        (0 ∷ 3 ∷ 7 ∷ 7 ∷ 7 ∷ coalesce (packet_of client [] ∷ [])))
    ≡ ok (server ∷ [])
extract_all_scids-initial_example =
    extract_all_scids-initial 0xc0 0 0 0 1 client server 3
      (7 ∷ 7 ∷ 7 ∷ coalesce (packet_of client [] ∷ [])) refl refl (omega arith)

abbrev frames : List Frame
frames =
    padding
    ∷ ping
    ∷ crypto (record { offset = 300; bytes = 5 ∷ 6 ∷ [] })
    ∷ padding
    ∷ padding
    ∷ crypto (record { offset = 0; bytes = 1 ∷ [] })
    ∷ []

-- An ACK frame that claims more ranges than there are, before a CRYPTO frame.
abbrev ack : Bytes
ack = 2 ∷ 5 ∷ 0 ∷ 255 ∷ 255 ∷ 255 ∷ 255 ∷ 255 ∷ 255 ∷ 255 ∷ 255 ∷ 0 ∷ 6 ∷ 0 ∷ 1 ∷ 9 ∷ []

ack-IsByte : All IsByte ack
ack-IsByte = ground arith

extract_crypto_frames-AreFrames_example :
    Returns (All (IsFrame (length ack))) (extract_crypto_frames ack)
extract_crypto_frames-AreFrames_example = extract_crypto_frames-AreFrames ack ack-IsByte

-- A cryptography that decrypts every text to one CRYPTO frame.
abbrev pub plain_crypto : Crypto
plain_crypto = record {
  Block = Unit;
  Aead = Unit;
  hkdf_extract = λ secret salt. replicate 32 0;
  hkdf_expand = λ secret info size. some (replicate size 0);
  new_cipher = λ key. some tt;
  new_gcm = λ block. some tt;
  encrypt = λ block sample. replicate 16 0;
  open_sealed = λ aead nonce text aad. some (6 ∷ 0 ∷ 1 ∷ 9 ∷ []);
}

pub plain_crypto-CryptoLaws : CryptoLaws plain_crypto
plain_crypto-CryptoLaws = record {
  encrypt_size = λ b s. refl;
  open_bytes = λ aead nonce text aad plain e. ground (arith, e);
}

abbrev pub client_initial : Bytes
client_initial = initial_packet 0xc0 client 3 (server ++ (0 ∷ 24 ∷ replicate 24 7))

client_initial-run :
    extract_crypto_frames_from_packet plain_crypto client_initial
    ≡ ok (record { offset = 0; bytes = 9 ∷ [] } ∷ [])
unfolding extract_crypto_frames_from_packet find_dcid find_token_end find_payload
    derive_initial_keys decrypt_initial_packet decrypt_with_cached_crypto read_varint index slice
    slice_from classify_packet long_type copy_packet unmask read_packet_number mix_nonce hkdf_label
    hkdf_expand_label open_payload extract_crypto_frames read_frames read_frame read_crypto
    next_varint
client_initial-run = refl

pub client_initial-IsByte : All IsByte client_initial
client_initial-IsByte = ground arith

extract_crypto_frames_from_packet-Ensures_example :
    Ensures
      (All (λ f. f.offset < 2 ^ 62))
      (extract_crypto_frames_from_packet plain_crypto client_initial)
unfolding read_varint index
extract_crypto_frames_from_packet-Ensures_example =
    extract_crypto_frames_from_packet-Ensures plain_crypto plain_crypto-CryptoLaws client_initial
      client_initial-IsByte (omega arith) (omega arith) (omega arith)

extract_crypto_frames_from_packet-panic_example :
    extract_crypto_frames_from_packet plain_crypto (initial_packet 0xc0 client 200 server) ≡ panic
unfolding long_type
extract_crypto_frames_from_packet-panic_example =
    extract_crypto_frames_from_packet-panic plain_crypto plain_crypto-CryptoLaws 0xc0 200 client
      server refl refl (omega arith)
