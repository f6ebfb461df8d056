-- ===== src/Tls/Frames/Covers.antt =====
-- What reassembleCryptoData of internal/proxy/parser.go makes of overlapping and missing frames.
use quic_relay.Prelude.{
  ℕ, zero, suc, min, max, ◌+◌, ◌-◌, ◌%◌, ◌^◌, ◌≤◌, ◌<◌, ◌≡◌, ◌⊎◌, ◌∙◌, refl, ap, arith, Bool, ltb,
  leb, ◌&&◌, List, [], ◌∷◌, All, length, replicate, length-replicate, get_or, take, length-take,
  if◌then◌else◌, Bool-cases, inl, inr,
}
use quic_relay.Go.{ok, Bytes, Returns, Returns-bind, Returns-imp, copy_at, length-copy_at, slice}
use quic_relay.Quic.{Error}
use quic_relay.Quic.Frames.{CryptoFrame}
use quic_relay.Assembler.Cells.{get_or-copy_at, get_or-take}
use quic_relay.Tls.Frames.{
  max_hello_size, max_end, copy_frame, copy_frames, limited, reassemble_crypto_data,
}

-- The byte at i of the last frame that covers it.
abbrev pub covers : ℕ → CryptoFrame → Bool
covers i f = leb f.offset i && ltb i (f.offset + length f.bytes)

abbrev pub last_byte : List CryptoFrame → ℕ → ℕ → ℕ
last_byte [] i so_far = so_far
last_byte (f ∷ fs) i so_far =
    last_byte fs i (if covers i f then get_or f.bytes (i - f.offset) 0 else so_far)

-- How far the frames reach.
abbrev pub extent : List CryptoFrame → ℕ
extent [] = 0
extent (f ∷ fs) = max (f.offset + length f.bytes) (extent fs)

-- No end passes 2^64.
abbrev pub Ends : CryptoFrame → Type 0
Ends f = f.offset + length f.bytes < 2 ^ 64

max_end-extent :
    (fs : List CryptoFrame) (so_far : ℕ) → All Ends fs → max_end fs so_far ≡ max so_far (extent fs)
unfolding max_end
max_end-extent [] so_far h = omega arith
max_end-extent (f ∷ fs) so_far h =
    let end = (f.offset + length f.bytes) % 2 ^ 64 in
    ground (arith, h.0, max_end-extent fs (if ltb so_far end then end else so_far) h.1)

-- A buffer after a frame was copied.
record Copied (limit : ℕ) (f : CryptoFrame) (buffer b : Bytes) : Type 0 where
  size : length b ≡ limit
  bytes :
      (i : ℕ)
      → i < limit
      → get_or b i 0 ≡ (if covers i f then get_or f.bytes (i - f.offset) 0 else get_or buffer i 0)

copy_part :
    (limit n : ℕ) (f : CryptoFrame) (buffer : Bytes)
    → length buffer ≡ limit
    → n ≤ length f.bytes
    → f.offset + n ≤ limit
    → (n ≡ length f.bytes) ⊎ (f.offset + n ≡ limit)
    → Copied limit f buffer (copy_at buffer f.offset (take n f.bytes))
copy_part limit n f buffer e small fits all =
    let part = length-take n f.bytes in
    record {
      size = length-copy_at buffer f.offset (take n f.bytes) ∙ e;
      bytes = λ i h. ground (
        arith,
        all,
        part,
        get_or-copy_at buffer f.offset (take n f.bytes) i,
        get_or-take n f.bytes (i - f.offset),
      );
    }

slice_front : (b : Bytes) (n : ℕ) → n ≤ length b → slice {E = Error} b 0 n ≡ ok (take n b)
unfolding slice
slice_front b n h = let e : n - 0 ≡ n = omega arith in rw e (ground arith)

copy_frame-Copied :
    (limit : ℕ) (f : CryptoFrame) (buffer : Bytes)
    → Ends f
    → length buffer ≡ limit
    → Returns {E = Error} (Copied limit f buffer) (copy_frame limit f buffer)
unfolding copy_frame
copy_frame-Copied limit f buffer ends e =
    let n = length f.bytes in
    elim (Bool-cases (ltb f.offset limit)) [
      | inl inside ↦ elim (Bool-cases (ltb limit ((f.offset + n) % 2 ^ 64))) [
        | inl over ↦
            rw (copy_frame, inside, over, slice_front f.bytes (limit - f.offset) (ground arith))
              (copy_part limit (limit - f.offset) f buffer e (ground arith) (ground arith)
                (inr (ground arith)))
        | inr fits ↦
            rw (copy_frame, inside, fits, slice_front f.bytes n (omega arith))
              (copy_part limit n f buffer e (omega arith) (ground arith) (inl refl))
      ]
      | inr outside ↦
          rw (copy_frame, outside) (record { size = e; bytes = λ i h. ground (arith, outside) })
    ]

-- A buffer after the frames were copied over another.
record Reassembled (limit : ℕ) (fs : List CryptoFrame) (buffer b : Bytes) : Type 0 where
  size : length b ≡ limit
  bytes : (i : ℕ) → i < limit → get_or b i 0 ≡ last_byte fs i (get_or buffer i 0)

copy_frames-Reassembled :
    (limit : ℕ) (fs : List CryptoFrame) (buffer : Bytes)
    → All Ends fs
    → length buffer ≡ limit
    → Returns {E = Error} (Reassembled limit fs buffer) (copy_frames limit fs buffer)
unfolding copy_frames
copy_frames-Reassembled limit [] buffer h e = record { size = e; bytes = λ i lt. refl }
copy_frames-Reassembled limit (f ∷ fs) buffer h e =
    Returns-bind (Copied limit f buffer) (Reassembled limit (f ∷ fs) buffer)
      (copy_frame limit f buffer) (copy_frames limit fs) (copy_frame-Copied limit f buffer h.0 e)
      λ b c.
        Returns-imp (Reassembled limit fs b) (Reassembled limit (f ∷ fs) buffer)
          (copy_frames limit fs b)
          (λ b' r. record {
            size = r.size;
            bytes = λ i lt. r.bytes i lt ∙ ap (last_byte fs i) (c.bytes i lt);
          })
          (copy_frames-Reassembled limit fs b h.1 c.size)

get_or-replicate : (n i : ℕ) → ◌≡◌ {A = ℕ} (get_or (replicate n 0) i 0) 0
get_or-replicate zero i = refl
get_or-replicate (suc n) zero = refl
get_or-replicate (suc n) (suc i) = get_or-replicate n i

-- reassembleCryptoData returns, on frames whose ends an uint64 holds, a buffer that reaches as far as the
-- farthest frame, but not beyond 16384 bytes. A byte of it is that of the last frame that covers
-- it, and 0 where no frame does: a gap is not told from zeros.
pub reassemble_crypto_data-last_byte :
    (frames : List CryptoFrame)
    → All Ends frames
    → Returns
        (λ b.
          (length b ≡ min max_hello_size (extent frames))
          × ((i : ℕ) → i < length b → get_or b i 0 ≡ last_byte frames i 0))
        (reassemble_crypto_data frames)
unfolding reassemble_crypto_data
reassemble_crypto_data-last_byte [] h = (omega arith, λ i lt. absurd (omega arith))
reassemble_crypto_data-last_byte (f ∷ fs) h =
    let size = limited (max_end (f ∷ fs) 0) in
    let known : size ≡ min max_hello_size (extent (f ∷ fs)) =
      ground (arith, max_end-extent (f ∷ fs) 0 h) in
    Returns-imp (Reassembled size (f ∷ fs) (replicate size 0)) _
      (copy_frames size (f ∷ fs) (replicate size 0))
      (λ b r. (
        r.size ∙ known,
        λ i lt.
            r.bytes i (omega (arith, r.size, lt))
            ∙ ap (last_byte (f ∷ fs) i) (get_or-replicate size i),
      ))
      (copy_frames-Reassembled size (f ∷ fs) (replicate size 0) h (length-replicate size 0))
