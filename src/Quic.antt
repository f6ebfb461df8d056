-- ===== src/Quic.antt =====
-- internal/proxy/parser.go: QUIC version 1 packets. The errors of the file, one constructor for
-- each message (the values printed into a message are left out, but for the packet type).
pub mod Varint
pub mod Header
pub mod Coalesced
pub mod Frames
pub mod Initial
use quic_relay.Prelude.{ℕ}

-- PacketType
pub data PacketType : Type 0 where
  unknown initial zero_rtt handshake retry short_header : PacketType

pub data Error : Type 0 where
  empty_data too_short_for_varint : Error
  packet_too_short dcid_len_required too_short_for_dcid too_short_for_long_header : Error
  short_header_has_no_scid too_short_for_scid_len too_short_for_scid : Error
  too_short_for_dcid_len unsupported_version too_short_for_payload : Error
  packet_type_error : PacketType → PacketType → Error
  token_length payload_length failed_to_decrypt : Error → Error
  encrypted_too_short failed_to_derive_keys failed_cipher decryption_failed : Error
  tls_record_too_short client_hello_truncated too_short_for_session_id : Error
  not_client_hello : ℕ → Error
  too_short_for_cipher_suites too_short_for_compression too_short_for_extensions : Error
  no_crypto_data no_crypto_data_after_reassembly : Error
