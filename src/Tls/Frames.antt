-- ===== src/Tls/Frames.antt =====
-- parseFrames and reassembleCryptoData of internal/proxy/parser.go: a ClientHello from the CRYPTO
-- frames of one packet.
pub mod Covers
use quic_relay.Prelude.{
  ℕ, zero, suc, min, max, ◌+◌, ◌-◌, ◌%◌, ◌^◌, ◌≤◌, ◌<◌, ◌≡◌, ◌∙◌, refl, sym, ap, arith, Bool, true,
  false, ltb, leb, ◌==◌, ◌&&◌, List, [], ◌∷◌, All, length, replicate, length-replicate, get_or,
  take, length-take, if◌then◌else◌, Bool-cases, inl, inr,
}
use quic_relay.Go.{
  Go, ok, err, panic, stuck, ◌>>=◌, ◌>>◌, fail_if, Bytes, copy_at, length-copy_at, slice,
}
use quic_relay.Quic.{Error, no_crypto_data, no_crypto_data_after_reassembly}
use quic_relay.Quic.Frames.{CryptoFrame, extract_crypto_frames}
use quic_relay.Tls.{ClientHello, parse_tls_client_hello}
use quic_relay.Assembler.Cells.{get_or-copy_at}

abbrev pub max_hello_size : ℕ
max_hello_size = 16384

-- The loop that finds `maxEnd`, on uint64s.
unfoldable pub max_end : List CryptoFrame → ℕ → ℕ
max_end [] so_far = so_far
max_end (f ∷ fs) so_far =
    let end = (f.offset + length f.bytes) % 2 ^ 64 in
    max_end fs (if ltb so_far end then end else so_far)

-- A round of the loop that copies: `f.Data[:copyLen]` goes to `buffer[f.Offset:]`.
unfoldable pub copy_frame : ℕ → CryptoFrame → Bytes → Go Error Bytes
copy_frame limit f buffer =
    if ltb f.offset limit
    then (let size =
          if ltb limit ((f.offset + length f.bytes) % 2 ^ 64)
          then limit - f.offset
          else length f.bytes in
        slice f.bytes 0 size >>= λ part. ok (copy_at buffer f.offset part))
    else ok buffer

unfoldable pub copy_frames : ℕ → List CryptoFrame → Bytes → Go Error Bytes
copy_frames limit [] buffer = ok buffer
copy_frames limit (f ∷ fs) buffer = copy_frame limit f buffer >>= copy_frames limit fs

abbrev pub limited : ℕ → ℕ
limited n = if ltb max_hello_size n then max_hello_size else n

-- `nil` is the empty slice.
unfoldable pub reassemble_crypto_data : List CryptoFrame → Go Error Bytes
reassemble_crypto_data [] = ok []
reassemble_crypto_data (f ∷ fs) =
    let size = limited (max_end (f ∷ fs) 0) in copy_frames size (f ∷ fs) (replicate size 0)

unfoldable pub parse_frames : Bytes → Go Error ClientHello
parse_frames b = do
  frames ← extract_crypto_frames b
  fail_if (length frames == 0) no_crypto_data
  crypto_data ← reassemble_crypto_data frames
  fail_if (length crypto_data == 0) no_crypto_data_after_reassembly
  parse_tls_client_hello crypto_data
