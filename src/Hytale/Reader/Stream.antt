-- ===== src/Hytale/Reader/Stream.antt =====
-- The bytes that a PacketReader has yet to give out are those of its buffer and of its source: to make
-- sure of some of them changes neither.
use quic_relay.Prelude.{
  ℕ, zero, suc, ◌+◌, ◌-◌, ◌≤◌, ◌<◌, ◌≡◌, ◌∙◌, refl, sym, ap, subst, arith, true, false, ◌&&◌, ltb,
  leb, ◌==◌, Option, none, some, [], ◌∷◌, ◌++◌, append-nil, append_assoc, length, length-append,
  length-take, length-drop, length-replicate, take, drop, replicate, take-append-drop, Bool-cases,
  inl, inr, if◌then◌else◌,
}
use quic_relay.Go.{
  ok, Bytes, Returns, Returns-bind, Returns-imp, slice, copy_at, overwrite, length-copy_at,
}
use quic_relay.Hytale.{Error, eof, unexpected_eof}
use quic_relay.Hytale.Reader.{
  Source, new_size, read, PacketReader, compact, grow, received, read_error, fill, rounds,
  ensure_bytes,
}

-- Every Read that returns bytes succeeds, and the end comes in a Read of its own. An io.Reader may also
-- return its last bytes with io.EOF; such a source is not calm.
abbrev pub IsCalm : Source → Type 0
IsCalm [] = Unit
IsCalm ((chunk, none) ∷ rest) = IsCalm rest
IsCalm ((chunk, some e) ∷ rest) = ⊥

abbrev pub bytes_of : Source → Bytes
bytes_of [] = []
bytes_of ((chunk, e) ∷ rest) = chunk ++ bytes_of rest

abbrev pub unread : PacketReader → Bytes
unread pr = take (pr.buffered - pr.offset) (drop pr.offset pr.buf)

abbrev pub stream : PacketReader → Bytes
stream pr = unread pr ++ bytes_of pr.r

pub record IsReader (pr : PacketReader) : Type 0 where
  pub start : pr.offset ≤ pr.buffered
  pub end : pr.buffered ≤ length pr.buf
  pub calm : IsCalm pr.r

take-overwrite :
    (dst src : Bytes) → length src ≤ length dst → take (length src) (overwrite dst src) ≡ src
take-overwrite dst [] h = refl
take-overwrite [] (y ∷ src) h = absurd (omega arith)
take-overwrite (x ∷ dst) (y ∷ src) h = ap (λ l. y ∷ l) (take-overwrite dst src (omega arith))

take-copy_at :
    (dst : Bytes) (at : ℕ) (src : Bytes) (n : ℕ)
    → n ≡ at + length src
    → n ≤ length dst
    → take n (copy_at dst at src) ≡ take at dst ++ src
take-copy_at dst zero src n e h =
    let whole : n ≡ length src = omega (arith, e) in
    ap (λ k. take k (overwrite dst src)) whole ∙ take-overwrite dst src (omega (arith, h, whole))
take-copy_at dst (suc at) src zero e h = absurd (omega (arith, e))
take-copy_at [] (suc at) src (suc n) e h = absurd (omega (arith, h))
take-copy_at (x ∷ dst) (suc at) src (suc n) e h =
    ap (λ l. x ∷ l) (take-copy_at dst at src n (omega (arith, e)) (omega (arith, h)))

-- A reader with its unread bytes at the start, which are the ones given, and the same source.
pub record Starts (pr : PacketReader) (bytes : Bytes) (pr' : PacketReader) : Type 0 where
  pub start : pr'.offset ≡ 0
  pub source : pr'.r ≡ pr.r
  pub front : take pr'.buffered pr'.buf ≡ bytes
  pub end : pr'.buffered ≤ length pr'.buf

length-unread : (pr : PacketReader) → IsReader pr → length (unread pr) ≡ pr.buffered - pr.offset
length-unread pr h = omega (
  arith,
  length-take (pr.buffered - pr.offset) (drop pr.offset pr.buf),
  length-drop pr.offset pr.buf,
  h.start,
  h.end,
)

abbrev pub front : PacketReader → Bytes
front pr = take pr.buffered pr.buf

unread-front : (pr : PacketReader) → pr.offset ≡ 0 → unread pr ≡ front pr
unread-front pr e =
    let whole : pr.buffered - pr.offset ≡ pr.buffered = omega (arith, e) in
    ap (λ k. take k (drop pr.offset pr.buf)) whole ∙ ap (λ k. take pr.buffered (drop k pr.buf)) e

compact-Starts : (pr : PacketReader) → IsReader pr → Returns (Starts pr (unread pr)) (compact pr)
unfolding compact slice
compact-Starts pr h = elim (Bool-cases (ltb 0 pr.offset)) [
  | inl moved ↦
      let inside : (leb pr.offset pr.buffered && leb pr.buffered (length pr.buf)) ≡ true =
        ground (arith, h.start, h.end) in
      let size = length-unread pr h in
      rw (compact, slice, moved, inside)
        (record {
          start = refl;
          source = refl;
          front =
              take-copy_at pr.buf 0 (unread pr) (pr.buffered - pr.offset) (omega (arith, size))
                (omega (arith, h.end));
          end = omega (arith, length-copy_at pr.buf 0 (unread pr), h.end);
        })
  | inr still ↦
      let zero_offset : pr.offset ≡ 0 = ground (arith, still) in
      rw (compact, still)
        (record {
          start = zero_offset;
          source = refl;
          front = sym (unread-front pr zero_offset);
          end = h.end;
        })
]

grow-Starts :
    (n : ℕ) (pr pr0 : PacketReader) (bytes : Bytes)
    → Starts pr0 bytes pr
    → Returns (λ pr'. Starts pr0 bytes pr' × (n ≤ length pr'.buf)) (grow n pr)
unfolding grow slice
grow-Starts n pr pr0 bytes h = elim (Bool-cases (ltb (length pr.buf) n)) [
  | inl small ↦
      let inside : (leb 0 pr.buffered && leb pr.buffered (length pr.buf)) ≡ true =
        ground (arith, h.end) in
      let old = take pr.buffered pr.buf in
      let size : length old ≡ pr.buffered = omega (arith, length-take pr.buffered pr.buf, h.end) in
      let fresh = replicate {A = ℕ} (new_size n pr) 0 in
      let room : n ≤ length fresh = ground (arith, length-replicate {A = ℕ} (new_size n pr) 0) in
      let whole : pr.buffered - 0 ≡ pr.buffered = omega arith in
      let below : length pr.buf < n = ground (arith, small) in
      let kept = length-copy_at fresh 0 old in
      rw (grow, slice, small, inside, whole)
        (
          record {
            start = h.start;
            source = h.source;
            front =
                take-copy_at fresh 0 old pr.buffered (omega (arith, size))
                  (omega (arith, room, h.end, below))
                ∙ h.front;
            end = omega (arith, kept, room, h.end, below);
          },
          omega (arith, kept, room),
        )
  | inr large ↦ rw (grow, large) (h, ground (arith, large))
]

-- The error at the end of a stream that is too short.
abbrev pub end_error : Bytes → Error
end_error s = if length s == 0 then eof else unexpected_eof

-- What the loop leaves: enough bytes, or too few in the whole stream.
abbrev Enough : ℕ → PacketReader → Bytes → Option Error → Type 0
Enough n pr s none = n ≤ pr.buffered
Enough n pr s (some e) = (length s < n) × (e ≡ end_error s)

record Fills (n : ℕ) (s : Bytes) (r : PacketReader × Option Error) : Type 0 where
  start : r.0.offset ≡ 0
  end : r.0.buffered ≤ length r.0.buf
  calm : IsCalm r.0.r
  same : front r.0 ++ bytes_of r.0.r ≡ s
  enough : Enough n r.0 s r.1

front-received :
    (chunk : Bytes) (pr : PacketReader)
    → pr.buffered + length chunk ≤ length pr.buf
    → (front (received chunk pr) ≡ front pr ++ chunk)
      × ((received chunk pr).buffered ≤ length (received chunk pr).buf)
unfolding received
front-received chunk pr h = (
  take-copy_at pr.buf pr.buffered chunk (pr.buffered + length chunk) refl h,
  omega (arith, length-copy_at pr.buf pr.buffered chunk, h),
)

module _ (n : ℕ) (buf : Bytes) (buffered : ℕ) (end : buffered ≤ length buf)
    (room : n ≤ length buf) where
  abbrev at_start : Source → PacketReader
  at_start r = record { r = r; buf = buf; buffered = buffered; offset = 0 }

  length-front : (r : Source) → length (front (at_start r)) ≡ buffered
  length-front r = omega (arith, length-take buffered buf, end)

  -- The source is at its end.
  ended-Fills :
      leb n buffered ≡ false
      → Fills n
          (front (at_start []) ++ [])
          (received [] (at_start []), some (read_error n (received [] (at_start [])) eof))
  unfolding received read_error
  ended-Fills missing =
      let (same, end') = front-received [] (at_start []) (omega (arith, end)) in
      record {
        start = refl;
        end = end';
        calm = tt;
        same = ap (λ l. l ++ []) same ∙ append-nil (front (at_start []) ++ []);
        enough = ground (arith, missing, length-front [], length-append (front (at_start [])) []);
      }

  -- A Read that the buffer has no room for fills it.
  full-Fills :
      (chunk : Bytes) (rest : Source) (e : Option Error)
      → IsCalm ((drop (length buf - buffered) chunk, e) ∷ rest)
      → leb (length chunk) (length buf - buffered) ≡ false
      → let pr' =
          received
            (take (length buf - buffered) chunk)
            (at_start ((drop (length buf - buffered) chunk, e) ∷ rest)) in
        (n ≤ pr'.buffered) × Fills n (front (at_start []) ++ (chunk ++ bytes_of rest)) (pr', none)
  unfolding received
  full-Fills chunk rest e calm over =
      let free = length buf - buffered in
      let r : Source = (drop free chunk, e) ∷ rest in
      let size : length (take free chunk) ≡ free = ground (arith, over, length-take free chunk) in
      let (same, end') = front-received (take free chunk) (at_start r) (omega (arith, size, end)) in
      let enough : n ≤ buffered + length (take free chunk) = omega (arith, size, end, room) in
      (
        enough,
        record {
          start = refl;
          end = end';
          calm = calm;
          same =
              ap (λ l. l ++ (drop free chunk ++ bytes_of rest)) same
              ∙ append_assoc (front (at_start r)) (take free chunk)
                  (drop free chunk ++ bytes_of rest)
              ∙ ap (λ l. front (at_start r) ++ l)
                  (sym (append_assoc (take free chunk) (drop free chunk) (bytes_of rest))
                    ∙ ap (λ l. l ++ bytes_of rest) (take-append-drop free chunk));
          enough = enough;
        },
      )

read-end : (room : ℕ) → read room [] ≡ ([], some eof, [])
unfolding read
read-end room = refl

read-fits :
    (room : ℕ) (chunk : Bytes) (rest : Source) (e : Option Error)
    → leb (length chunk) room ≡ true
    → read room ((chunk, e) ∷ rest) ≡ (chunk, e, rest)
unfolding read
read-fits room chunk rest e fits = rw fits refl

read-over :
    (room : ℕ) (chunk : Bytes) (rest : Source) (e : Option Error)
    → leb (length chunk) room ≡ false
    → read room ((chunk, e) ∷ rest) ≡ (take room chunk, none, (drop room chunk, e) ∷ rest)
unfolding read
read-over room chunk rest e over = rw over refl

fill-ends : (k n : ℕ) (pr : PacketReader) → 0 < k → n ≤ pr.buffered → fill k n pr ≡ ok (pr, none)
unfolding fill
fill-ends zero n pr pos h = absurd (omega arith)
fill-ends (suc k) n pr pos h =
    let there : leb n pr.buffered ≡ true = ground (arith, h) in rw (fill, there) refl

-- The loop, with the unread bytes at the start and room for what is asked for.
fill-Fills :
    (k n : ℕ) (r : Source) (buf : Bytes) (buffered : ℕ)
    → length r + 2 ≤ k
    → buffered ≤ length buf
    → IsCalm r
    → n ≤ length buf
    → Returns
        (Fills n (take buffered buf ++ bytes_of r))
        (fill k n (record { r = r; buf = buf; buffered = buffered; offset = 0 }))
unfolding fill received
fill-Fills zero n r buf buffered fuel end calm room = absurd (omega (arith, fuel))
fill-Fills (suc k) n [] buf buffered fuel end calm room = elim (Bool-cases (leb n buffered)) [
  | inl there ↦
      rw (fill, there)
        (record {
          start = refl;
          end = end;
          calm = calm;
          same = refl;
          enough = ground (arith, there);
        })
  | inr missing ↦
      rw (fill, missing, read-end (length buf - buffered))
        (ended-Fills n buf buffered end room missing)
]
fill-Fills (suc k) n ((chunk, some e) ∷ rest) buf buffered fuel end calm room = absurd calm
fill-Fills (suc k) n ((chunk, none) ∷ rest) buf buffered fuel end calm room =
    elim (Bool-cases (leb n buffered)) [
      | inl there ↦
          rw (fill, there)
            (record {
              start = refl;
              end = end;
              calm = calm;
              same = refl;
              enough = ground (arith, there);
            })
      | inr missing ↦
          let free = length buf - buffered in
          elim (Bool-cases (leb (length chunk) free)) [
            | inl fits ↦
                let pr : PacketReader = record {
                  r = rest;
                  buf = buf;
                  buffered = buffered;
                  offset = 0;
                } in
                let size : buffered + length chunk ≤ length buf = ground (arith, fits, end) in
                let (same, end') = front-received chunk pr size in
                let kept = length-copy_at buf buffered chunk in
                rw (fill, missing, read-fits free chunk rest none fits)
                  (subst (λ s. Returns (Fills n s) (fill k n (received chunk pr)))
                    (ap (λ l. l ++ bytes_of rest) same
                      ∙ append_assoc (take buffered buf) chunk (bytes_of rest))
                    (fill-Fills k n rest (copy_at buf buffered chunk) (buffered + length chunk)
                      (omega (arith, fuel)) end' calm (omega (arith, kept, room))))
            | inr over ↦
                let pr : PacketReader = record {
                  r = (drop free chunk, none) ∷ rest;
                  buf = buf;
                  buffered = buffered;
                  offset = 0;
                } in
                let (enough, full) = full-Fills n buf buffered end room chunk rest none calm over in
                rw (fill, missing, read-over free chunk rest none over)
                  (rw (fill-ends k n (received (take free chunk) pr) (omega (arith, fuel)) enough)
                    full)
          ]
    ]

-- What ensureBytes leaves: at least `n` unread bytes, or the error of a stream that has fewer; the stream
-- is the same.
pub record Ensured (n : ℕ) (pr : PacketReader) (r : PacketReader × Option Error) : Type 0 where
  pub valid : IsReader r.0
  pub same : stream r.0 ≡ stream pr
  pub there : r.1 ≡ none → n ≤ r.0.buffered - r.0.offset
  pub short : (e : Error) → r.1 ≡ some e → (length (stream pr) < n) × (e ≡ end_error (stream pr))

Fills-Ensured :
    (n : ℕ) (pr : PacketReader) (r : PacketReader × Option Error)
    → Fills n (stream pr) r
    → Ensured n pr r
Fills-Ensured n pr (pr', none) f = record {
  valid = record { start = omega (arith, f.start); end = f.end; calm = f.calm };
  same = ap (λ l. l ++ bytes_of pr'.r) (unread-front pr' f.start) ∙ f.same;
  there = λ _. omega (arith, f.start, f.enough);
  short = λ e impossible. absurd (cc impossible);
}
Fills-Ensured n pr (pr', some e) f = record {
  valid = record { start = omega (arith, f.start); end = f.end; calm = f.calm };
  same = ap (λ l. l ++ bytes_of pr'.r) (unread-front pr' f.start) ∙ f.same;
  there = λ impossible. absurd (cc impossible);
  short = λ e' same. (f.enough.0, cc (same, f.enough.1));
}

pub ensure_bytes-Ensured :
    (n : ℕ) (pr : PacketReader) → IsReader pr → Returns (Ensured n pr) (ensure_bytes n pr)
unfolding ensure_bytes
ensure_bytes-Ensured n pr h = elim (Bool-cases (leb n (pr.buffered - pr.offset))) [
  | inl there ↦
      rw (ensure_bytes, there)
        (record {
          valid = h;
          same = refl;
          there = λ _. ground (arith, there);
          short = λ e impossible. absurd (cc impossible);
        })
  | inr missing ↦
      rw (ensure_bytes, missing)
        (Returns-bind (Starts pr (unread pr)) (Ensured n pr) (compact pr) _ (compact-Starts pr h)
          λ pr1 s1.
            Returns-bind (λ pr2. Starts pr (unread pr) pr2 × (n ≤ length pr2.buf)) (Ensured n pr)
              (grow n pr1) _ (grow-Starts n pr1 pr (unread pr) s1)
              λ pr2 (s2, room). filled pr2 s2 room)
]
  where
    filled :
        (pr2 : PacketReader)
        → Starts pr (unread pr) pr2
        → n ≤ length pr2.buf
        → Returns (Ensured n pr) (fill (rounds pr2) n pr2)
    filled pr2 s room =
        let at_zero : PacketReader = record {
          r = pr2.r;
          buf = pr2.buf;
          buffered = pr2.buffered;
          offset = 0;
        } in
        let same : pr2 ≡ at_zero =
          ap (λ o. record { r = pr2.r; buf = pr2.buf; buffered = pr2.buffered; offset = o })
            s.start in
        let bytes : take pr2.buffered pr2.buf ++ bytes_of pr2.r ≡ stream pr =
          ap (λ l. l ++ bytes_of pr2.r) s.front ∙ ap (λ r. unread pr ++ bytes_of r) s.source in
        let done =
          fill-Fills (rounds pr2) n pr2.r pr2.buf pr2.buffered (omega arith) s.end
            (subst IsCalm (sym s.source) h.calm) room in
        let filled' =
          subst
            (λ q.
              Returns (Fills n (take pr2.buffered pr2.buf ++ bytes_of pr2.r))
                (fill (rounds pr2) n q))
            (sym same) done in
        Returns-imp (Fills n (stream pr)) (Ensured n pr) (fill (rounds pr2) n pr2)
          (Fills-Ensured n pr)
          (subst (λ l. Returns (Fills n l) (fill (rounds pr2) n pr2)) bytes filled')
