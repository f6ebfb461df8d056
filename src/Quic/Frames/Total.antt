-- ===== src/Quic/Frames/Total.antt =====
-- extractCryptoFrames on any decrypted payload.
use quic_relay.Prelude.{
  ℕ, zero, suc, ◌+◌, ◌≤◌, ◌<◌, ◌^◌, arith, Bool-cases, inl, inr, true, false, none, some, Option,
  List, [], ◌∷◌, ◌++◌, All, ltb, length, length-drop, length-take, drop, Bool, ◌-◌, ◌==◌,
  if◌then◌else◌,
}
use quic_relay.Go.{Go, ok, ◌>>=◌, Returns, Returns-bind, Bytes, slice, slice_from}
use quic_relay.Quic.{Error}
use quic_relay.Quic.Varint.Reference.{IsByte, All-drop, read_varint-Ensures}
use quic_relay.Quic.Frames.{
  CryptoFrame, next_varint, skip_varints, skip_ranges, skip_ack, Round, go_on, read_crypto, zeros,
  read_frame, read_frames, extract_crypto_frames,
}

-- A frame that Initial packets may carry: its data ends inside the stream of 2^62 bytes.
abbrev pub IsFrame : ℕ → CryptoFrame → Type 0
IsFrame size f = (f.offset < 2 ^ 62) × (length f.bytes ≤ size)

module _ (b : Bytes) (bytes : All IsByte b) where
  -- An integer is read inside the payload, and moves the offset on.
  abbrev Reads : ℕ → Option (ℕ × ℕ) → Type 0
  Reads offset none = Unit
  Reads offset (some (v, o)) = (v < 2 ^ 62) × (offset < o) × (o ≤ length b)

  abbrev Skips : ℕ → Option ℕ → Type 0
  Skips offset none = Unit
  Skips offset (some o) = (offset ≤ o) × (o ≤ length b)

  abbrev Rounds : ℕ → Round → Type 0
  Rounds offset none = Unit
  Rounds offset (some (o, fs)) = (offset ≤ o) × (o ≤ length b) × All (IsFrame (length b)) fs

  next_varint-Reads : (o : ℕ) → o ≤ length b → Returns (Reads o) (next_varint b o)
  unfolding next_varint slice_from
  next_varint-Reads o h =
      ground (arith, read_varint-Ensures (drop o b) (All-drop o b bytes), length-drop o b)

  skip_varints-Skips :
      (k lo o : ℕ) → lo ≤ o → o ≤ length b → Returns (Skips lo) (skip_varints k b o)
  unfolding skip_varints
  skip_varints-Skips zero lo o l h = omega arith
  skip_varints-Skips (suc k) lo o l h =
      Returns-bind (Reads o) (Skips lo) (next_varint b o) _ (next_varint-Reads o h) (elim [
        | none ↦ λ p. tt
        | some (v, o') ↦ λ p. skip_varints-Skips k lo o' (omega arith) (omega arith)
      ])

  skip_ranges-Skips : (k lo o : ℕ) → lo ≤ o → o ≤ length b → Returns (Skips lo) (skip_ranges k b o)
  unfolding skip_ranges
  skip_ranges-Skips zero lo o l h = omega arith
  skip_ranges-Skips (suc k) lo o l h =
      Returns-bind (Skips o) (Skips lo) (skip_varints 2 b o) _
        (skip_varints-Skips 2 o o (omega arith) h)
        (elim [
          | none ↦ λ p. tt
          | some o' ↦ λ p. skip_ranges-Skips k lo o' (omega arith) (omega arith)
        ])

  -- The offset that a step hands to the next one.
  chain :
      (lo o : ℕ) (m : Go Error (Option ℕ)) (f : ℕ → Go Error (Option ℕ))
      → lo ≤ o
      → Returns (Skips o) m
      → ((o' : ℕ) → lo ≤ o' → o' ≤ length b → Returns (Skips lo) (f o'))
      → Returns (Skips lo) (m >>= elim [ none ↦ ok none | some o' ↦ f o' ])
  chain lo o m f l h k =
      Returns-bind (Skips o) (Skips lo) m _ h
        (elim [ none ↦ λ p. tt | some o' ↦ λ p. k o' (omega arith) p.1 ])

  skip_ecn-Skips :
      (ecn : Bool) (lo o : ℕ)
      → lo ≤ o
      → o ≤ length b
      → Returns (Skips lo) (if ecn then skip_varints 3 b o else ok (some o))
  skip_ecn-Skips true lo o l h = skip_varints-Skips 3 lo o l h
  skip_ecn-Skips false lo o l h = omega arith

  skip_ack-Skips : (ecn : Bool) (o : ℕ) → o ≤ length b → Returns (Skips o) (skip_ack ecn b o)
  unfolding skip_ack
  skip_ack-Skips ecn o h =
      chain o o _ _ (omega arith) (skip_varints-Skips 2 o o (omega arith) h) λ o0 l0 h0.
        Returns-bind (Reads o0) (Skips o) (next_varint b o0) _ (next_varint-Reads o0 h0) (elim [
          | none ↦ λ p. tt
          | some (range_count, o1) ↦ λ p.
              chain o o1 _ _ (omega arith) (skip_varints-Skips 1 o1 o1 (omega arith) p.2)
                λ o2 l2 h2.
                  chain o o2 _ _ l2 (skip_ranges-Skips range_count o2 o2 (omega arith) h2)
                    λ o3 l3 h3. skip_ecn-Skips ecn o o3 l3 h3
        ])

  zeros-le : (c : Bytes) → zeros c ≤ length c
  unfolding zeros
  zeros-le [] = omega arith
  zeros-le (x ∷ c) = ground (arith, zeros-le c)

  read_crypto-Rounds : (o : ℕ) → o ≤ length b → Returns (Rounds o) (read_crypto b o)
  unfolding read_crypto
  read_crypto-Rounds o h =
      Returns-bind (Reads o) (Rounds o) (next_varint b o) _ (next_varint-Reads o h) (elim [
        | none ↦ λ p. (omega arith, h, tt)
        | some (at, o1) ↦ λ p.
            Returns-bind (Reads o1) (Rounds o) (next_varint b o1) _ (next_varint-Reads o1 p.2)
              (elim [
                | none ↦ λ q. (omega arith, omega arith, tt)
                | some (size, o2) ↦ λ q.
                    unfold slice in
                    ground (arith, length-take (o2 + size - o2) (drop o2 b), length-drop o2 b)
              ])
      ])

  go_on-Rounds :
      (o : ℕ) (m : Go Error (Option ℕ))
      → Returns (Skips o) m
      → Returns (Rounds o) (m >>= λ r. ok (go_on r))
  go_on-Rounds o m h =
      Returns-bind (Skips o) (Rounds o) m _ h
        (elim [ none ↦ λ p. tt | some o' ↦ λ p. (p.0, p.1, tt) ])

  read_frame-Rounds : (ty o : ℕ) → o ≤ length b → Returns (Rounds o) (read_frame b ty o)
  unfolding read_frame
  read_frame-Rounds ty o h = ground (
    arith,
    zeros-le (drop o b),
    length-drop o b,
    read_crypto-Rounds o h,
    go_on-Rounds o (skip_ack (ty == 3) b o) (skip_ack-Skips (ty == 3) o h),
  )

  All-join :
      (fs gs : List CryptoFrame)
      → All (IsFrame (length b)) fs
      → All (IsFrame (length b)) gs
      → All (IsFrame (length b)) (fs ++ gs)
  All-join [] gs p q = q
  All-join (f ∷ fs) gs p q = (p.0, All-join fs gs p.1 q)

  read_frames-AreFrames :
      (fuel o : ℕ) (fs : List CryptoFrame)
      → o ≤ length b
      → length b < fuel + o
      → All (IsFrame (length b)) fs
      → Returns (All (IsFrame (length b))) (read_frames fuel b o fs)
  unfolding read_frames
  read_frames-AreFrames zero o fs h l v = absurd (omega arith)
  read_frames-AreFrames (suc fuel) o fs h l v = elim (Bool-cases (ltb o (length b))) [
    | inr done ↦ rw (done, read_frames) v
    | inl more ↦
        rw (more, read_frames)
          (Returns-bind (Reads o) Good (next_varint b o) _ (next_varint-Reads o h) (elim [
            | none ↦ λ p. v
            | some (ty, o1) ↦ λ p.
                Returns-bind (Rounds o1) Good (read_frame b ty o1) _ (read_frame-Rounds ty o1 p.2)
                  (elim [
                    | none ↦ λ q. v
                    | some (o2, gs) ↦ λ q.
                        read_frames-AreFrames fuel o2 (fs ++ gs) q.1 (omega arith)
                          (All-join fs gs v q.2)
                  ])
          ]))
  ]
    where
      Good : List CryptoFrame → Type 0
      Good = All (IsFrame (length b))

-- On every payload extractCryptoFrames returns: it does not panic and its loop ends, whatever
-- range count an ACK frame claims. Each frame that it returns has an offset below 2^62, and no
-- more data than the payload.
pub extract_crypto_frames-AreFrames :
    (b : Bytes) → All IsByte b → Returns (All (IsFrame (length b))) (extract_crypto_frames b)
unfolding extract_crypto_frames
extract_crypto_frames-AreFrames b h =
    read_frames-AreFrames b h (length b + 1) 0 [] (omega arith) (omega arith) tt
