-- ===== src/Assembler/Cells.antt =====
-- AddFrame on the bytes that the assembler holds: which are written, and what they are.
use quic_relay.Prelude.{
  ℕ, zero, suc, ◌+◌, ◌-◌, ◌*◌, ◌/◌, ◌%◌, ◌^◌, ◌≤◌, ◌<◌, ◌≡◌, ◌∙◌, refl, arith, Bool, true, ◌&&◌,
  ◌||◌, ltb, leb, ◌==◌, Option, none, some, List, [], ◌∷◌, length, length-set, length-take,
  length-replicate, replicate, take, min, get_or, set, bit_or, if◌then◌else◌, Bool-cases, inl, inr,
}
use quic_relay.Prelude.BitSet.{has_bit, has_bit-bit_or, has_bit-zero}
use quic_relay.Go.{Returns, Returns-bind, Returns-imp, index, overwrite, copy_at, length-copy_at}
use quic_relay.Assembler.{
  Assembler, max_crypto_buffer_size, written_bitset_size, set_bit, set_bits, clip, write_at,
  add_frame, new_crypto_assembler,
}

-- Whether byte i was written, from the bitset.
abbrev pub written? : List ℕ → ℕ → Bool
written? w i = has_bit (get_or w (i / 64) 0) (i % 64)

get_or-set :
    (l : List ℕ) (i j v : ℕ)
    → i < length l
    → get_or (set l i v) j 0 ≡ (if i == j then v else get_or l j 0)
get_or-set [] i j v h = absurd (omega arith)
get_or-set (x ∷ l) zero zero v h = refl
get_or-set (x ∷ l) zero (suc j) v h = ground arith
get_or-set (x ∷ l) (suc i) zero v h = ground arith
get_or-set (x ∷ l) (suc i) (suc j) v h = ground (arith, get_or-set l i j v (omega arith))

-- What a marking leaves: as many words, and exactly the bytes from i to i + k added.
abbrev Marks : List ℕ → ℕ → ℕ → List ℕ → Type 0
Marks w i k w' =
    (length w' ≡ length w)
    × ((j : ℕ) → written? w' j ≡ ((leb i j && ltb j (i + k)) || written? w j))

set_bit-word :
    (w : List ℕ) (i j : ℕ)
    → i / 64 < length w
    → written? (set w (i / 64) (bit_or (get_or w (i / 64) 0) (2 ^ (i % 64)))) j
      ≡ (i == j || written? w j)
set_bit-word w i j h = ground (
  arith,
  get_or-set w (i / 64) (j / 64) (bit_or (get_or w (i / 64) 0) (2 ^ (i % 64))) h,
  has_bit-bit_or (get_or w (i / 64) 0) (i % 64) (j % 64),
)

set_bit-Returns :
    (w : List ℕ) (i : ℕ)
    → i / 64 < length w
    → Returns (λ x. x ≡ set w (i / 64) (bit_or (get_or w (i / 64) 0) (2 ^ (i % 64)))) (set_bit w i)
unfolding set_bit index
set_bit-Returns w i h = ground arith

set_bits-Marks :
    (k i : ℕ) (w : List ℕ) → i + k ≤ 64 * length w → Returns (Marks w i k) (set_bits k i w)
unfolding set_bits
set_bits-Marks zero i w h = (refl, λ j. ground arith)
set_bits-Marks (suc k) i w h =
    Returns-bind _ (Marks w i (suc k)) (set_bit w i) _ (set_bit-Returns w i inside) λ x e. rw e (
      Returns-imp (Marks w1 (i + 1) k) (Marks w i (suc k)) (set_bits k (i + 1) w1)
        (λ w' m. (omega (arith, m.0, same), λ j. ground (arith, m.1 j, set_bit-word w i j inside)))
        (set_bits-Marks k (i + 1) w1 (omega (arith, same))))
  where
    inside : i / 64 < length w
    inside = omega arith

    w1 : List ℕ
    w1 = set w (i / 64) (bit_or (get_or w (i / 64) 0) (2 ^ (i % 64)))

    same : length w1 ≡ length w
    same = length-set w (i / 64) (bit_or (get_or w (i / 64) 0) (2 ^ (i % 64)))

get_or-overwrite :
    (d s : List ℕ) (j : ℕ)
    → length s ≤ length d
    → get_or (overwrite d s) j 0 ≡ (if ltb j (length s) then get_or s j 0 else get_or d j 0)
get_or-overwrite [] [] j h = ground arith
get_or-overwrite [] (y ∷ s) j h = absurd (omega arith)
get_or-overwrite (x ∷ d) [] j h = ground arith
get_or-overwrite (x ∷ d) (y ∷ s) zero h = ground arith
get_or-overwrite (x ∷ d) (y ∷ s) (suc j) h = ground (arith, get_or-overwrite d s j)

pub get_or-copy_at :
    (d : List ℕ) (at : ℕ) (s : List ℕ) (j : ℕ)
    → at + length s ≤ length d
    → get_or (copy_at d at s) j 0
      ≡ (if leb at j && ltb j (at + length s) then get_or s (j - at) 0 else get_or d j 0)
get_or-copy_at d zero s j h = ground (arith, get_or-overwrite d s j)
get_or-copy_at [] (suc at) s j h = absurd (omega arith)
get_or-copy_at (x ∷ d) (suc at) s zero h = ground arith
get_or-copy_at (x ∷ d) (suc at) s (suc j) h = ground (arith, get_or-copy_at d at s j)

pub get_or-take : (n : ℕ) (l : List ℕ) (j : ℕ) → j < n → get_or (take n l) j 0 ≡ get_or l j 0
get_or-take zero l j h = absurd (omega arith)
get_or-take (suc n) [] j h = refl
get_or-take (suc n) (x ∷ l) zero h = refl
get_or-take (suc n) (x ∷ l) (suc j) h = get_or-take n l j (omega arith)

-- Both arrays keep their size, and no byte behind the highest offset is marked.
pub record IsValid (a : Assembler) : Type 0 where
  pub buffer_size : length a.buffer ≡ max_crypto_buffer_size
  pub written_size : length a.written ≡ written_bitset_size
  pub bound : a.max_offset ≤ max_crypto_buffer_size
  pub marked : (i : ℕ) → written? a.written i ≡ true → i < a.max_offset

get_or-replicate : (n i : ℕ) → get_or {A = ℕ} (replicate n 0) i 0 ≡ 0
get_or-replicate zero i = refl
get_or-replicate (suc n) zero = refl
get_or-replicate (suc n) (suc i) = get_or-replicate n i

pub new_crypto_assembler-IsValid : (now : ℕ) → IsValid (new_crypto_assembler now)
unfolding new_crypto_assembler
new_crypto_assembler-IsValid now = record {
  buffer_size = length-replicate {A = ℕ} max_crypto_buffer_size 0;
  written_size = length-replicate {A = ℕ} written_bitset_size 0;
  bound = omega arith;
  marked = λ i h.
      ground (arith, has_bit-zero (i % 64), get_or-replicate written_bitset_size (i / 64), h);
}

-- The byte at an offset of the CRYPTO stream, where one was received.
abbrev pub cell : Assembler → ℕ → Option ℕ
cell a i = if written? a.written i then some (get_or a.buffer i 0) else none

clip-lem :
    (offset : ℕ) (bytes : List ℕ) (j : ℕ)
    → offset < max_crypto_buffer_size
    → (offset + length (clip offset bytes) ≡ min (offset + length bytes) max_crypto_buffer_size)
      × (j < length (clip offset bytes) → get_or (clip offset bytes) j 0 ≡ get_or bytes j 0)
clip-lem offset bytes j h = ground (
  arith,
  length-take (max_crypto_buffer_size - offset) bytes,
  get_or-take (max_crypto_buffer_size - offset) bytes j,
)

-- What AddFrame promises: the assembler stays valid, the answer tells whether the frame begins inside the
-- buffer, and the bytes of the frame that fit are there, in place of what was there before.
pub record Adds (offset : ℕ) (bytes : List ℕ) (a : Assembler) (r : Assembler × Bool) : Type 0 where
  pub valid : IsValid r.0
  pub accepted : r.1 ≡ ltb offset max_crypto_buffer_size
  pub cells :
      (i : ℕ)
      → cell r.0 i ≡ (
          if leb offset i && ltb i (min (offset + length bytes) max_crypto_buffer_size)
          then some (get_or bytes (i - offset) 0)
          else cell a i)

module _ (a : Assembler) (v : IsValid a) (offset : ℕ) (bytes : List ℕ) where
  abbrev clipped : List ℕ
  clipped = clip offset bytes

  write_at-Returns :
      offset < max_crypto_buffer_size
      → Returns (λ b. b ≡ copy_at a.buffer offset clipped) (write_at a.buffer offset clipped)
  unfolding write_at
  write_at-Returns h = ground (arith, clip-lem offset bytes 0 h, v.buffer_size)

  added :
      (written : List ℕ)
      → offset < max_crypto_buffer_size
      → Marks a.written offset (length clipped) written
      → Adds offset bytes a (
        record a {
          buffer = copy_at a.buffer offset clipped;
          written = written;
          max_offset =
              if ltb a.max_offset (offset + length clipped)
              then offset + length clipped
              else a.max_offset;
        },
        true,
      )
  added written h m = record {
    valid = record {
      buffer_size = length-copy_at a.buffer offset clipped ∙ v.buffer_size;
      written_size = m.0 ∙ v.written_size;
      bound = ground (arith, v.bound, clip-lem offset bytes 0 h);
      marked = λ i. ground (arith, v.marked i, m.1 i);
    };
    accepted = ground arith;
    cells = λ i. ground (
      arith,
      m.1 i,
      v.buffer_size,
      clip-lem offset bytes (i - offset) h,
      get_or-copy_at a.buffer offset clipped i,
    );
  }

  -- AddFrame on a valid assembler never panics, for any offset and any data. It keeps the assembler
  -- valid, answers `true` exactly if the offset lies inside the buffer, and changes just the cells of the
  -- frame that lie inside it, to the bytes of the frame.
  pub add_frame-Adds : Returns (Adds offset bytes a) (add_frame offset bytes a)
  unfolding add_frame
  add_frame-Adds = elim (Bool-cases (leb max_crypto_buffer_size offset)) [
    | inl beyond ↦
        rw (beyond, add_frame)
          (record { valid = v; accepted = ground arith; cells = λ i. ground arith })
    | inr inside ↦
        let h : offset < max_crypto_buffer_size = ground arith in
        rw (inside, add_frame)
          (Returns-bind _ (Adds offset bytes a) (write_at a.buffer offset clipped) _
            (write_at-Returns h)
            λ b e.
              Returns-bind (Marks a.written offset (length clipped)) (Adds offset bytes a)
                (set_bits (length clipped) offset a.written) _
                (set_bits-Marks (length clipped) offset a.written
                  (omega (arith, v.written_size, clip-lem offset bytes 0 h)))
                λ written m. rw e (added written h m))
  ]
