-- ===== src/Proxy/Oldest/Choice.antt =====
-- The sessions that cleanupOldestSessions chooses: as many as it is asked for, and the oldest.
use quic_relay.Prelude.{
  ℕ, suc, ◌+◌, ◌≤◌, ◌<◌, ◌≡◌, refl, ap, subst, sym, ◌∙◌, lt→ltb, arith, Bool, true, false, ◌||◌,
  min, ltb, leb, List, [], ◌∷◌, All, length, Bool-cases, inl, inr, ◌⊎◌,
}
use quic_relay.Go.{Bytes, bytes_eq, bytes_eq_iff, bytes_eq_self, contains, Distinct}
use quic_relay.Map.{Map, lookup, size, is_some, IsMap}
use quic_relay.Sessions.{Context}
use quic_relay.Proxy.Oldest.{SessionAge, push, consider, collect}

abbrev pub keys : List SessionAge → List Bytes
keys [] = []
keys (a ∷ h) = a.key ∷ keys h

abbrev IsSorted : List SessionAge → Type 0
IsSorted [] = Unit
IsSorted (a ∷ h) = All (λ b. a.idle ≤ b.idle) h × IsSorted h

length-push : (a : SessionAge) (h : List SessionAge) → length (push a h) ≡ length h + 1
unfolding push
length-push a [] = omega arith
length-push a (b ∷ h) = ground (arith, length-push a h)

contains-push :
    (a : SessionAge) (h : List SessionAge) (j : Bytes)
    → contains (keys (push a h)) j ≡ (bytes_eq a.key j || contains (keys h) j)
unfolding push contains
contains-push a [] j = refl
contains-push a (b ∷ h) j = ground (arith, contains-push a h j)

All-push :
    (P : SessionAge → Type 0) (a : SessionAge) (h : List SessionAge)
    → P a
    → All P h
    → All P (push a h)
unfolding push
All-push P a [] p ps = (p, tt)
All-push P a (b ∷ h) p ps = elim (Bool-cases (leb a.idle b.idle)) [
  | inl le ↦ rw (le, push) (p, ps)
  | inr gt ↦ rw (gt, push) (ps.0, All-push P a h p ps.1)
]

push-Distinct :
    (a : SessionAge) (h : List SessionAge)
    → contains (keys h) a.key ≡ false
    → Distinct (keys h)
    → Distinct (keys (push a h))
unfolding push contains
push-Distinct a [] n d = (refl, tt)
push-Distinct a (b ∷ h) n d = ground (
  arith,
  push-Distinct a h,
  contains-push a h b.key,
  bytes_eq_iff a.key b.key,
  bytes_eq_iff b.key a.key,
)

All-le : (m n : ℕ) (h : List SessionAge) → m ≤ n → All (λ b. n ≤ b.idle) h → All (λ b. m ≤ b.idle) h
All-le m n [] le all = tt
All-le m n (b ∷ h) le all = (omega (arith, all.0), All-le m n h le all.1)

push-IsSorted : (a : SessionAge) (h : List SessionAge) → IsSorted h → IsSorted (push a h)
unfolding push
push-IsSorted a [] s = (tt, tt)
push-IsSorted a (b ∷ h) s = elim (Bool-cases (leb a.idle b.idle)) [
  | inl le ↦
      rw (le, push) (((ground (arith, le)), All-le a.idle b.idle h (ground (arith, le)) s.0), s)
  | inr gt ↦
      rw (gt, push)
        (All-push (λ c. b.idle ≤ c.idle) a h (ground (arith, gt)) s.0, push-IsSorted a h s.1)
]

-- The choice of `n` among `count` sessions: no session twice, and a session that is left out is no
-- older than any that is chosen.
pub record Chosen (n : ℕ) (idle : Bytes → ℕ) (count : ℕ) (seen : Bytes → Bool) (h : List SessionAge)
    : Type 0 where
  pub number : length h ≡ min n count
  pub sorted : IsSorted h
  pub distinct : Distinct (keys h)
  pub aged : All (λ a. a.idle ≡ idle a.key) h
  pub within : (j : Bytes) → contains (keys h) j ≡ true → seen j ≡ true
  pub oldest :
      (j : Bytes)
      → seen j ≡ true
      → (contains (keys h) j ≡ true) ⊎ ((length h ≡ n) × All (λ a. idle j ≤ a.idle) h)

module _ (n : ℕ) (pos : 0 < n) (idle : Bytes → ℕ) (key : Bytes) where
  abbrev age : SessionAge
  age = record { key = key; idle = idle key }

  module _ (count : ℕ) (seen : Bytes → Bool) (new : seen key ≡ false) where
    abbrev seen' : Bytes → Bool
    seen' j = bytes_eq key j || seen j

    push-Chosen :
        (h : List SessionAge)
        → length h < n
        → Chosen n idle count seen h
        → Chosen n idle (count + 1) seen' (push age h)
    push-Chosen h room c = record {
      number = omega (arith, length-push age h, c.number);
      sorted = push-IsSorted age h c.sorted;
      distinct = push-Distinct age h (ground (arith, c.within key, new)) c.distinct;
      aged = All-push (λ a. a.idle ≡ idle a.key) age h refl c.aged;
      within = λ j e. ground (arith, e, contains-push age h j, c.within j);
      oldest = λ j e. elim (Bool-cases (bytes_eq key j)) [
        | inl same ↦ inl (ground (arith, same, contains-push age h j))
        | inr other ↦ elim (c.oldest j (ground (arith, e, other))) [
          | inl chosen ↦ inl (ground (arith, chosen, contains-push age h j))
          | inr full ↦ absurd (omega (arith, full.0))
        ]
      ];
    }

    -- The youngest that was chosen makes room for an older session.
    replace-Chosen :
        (first : SessionAge) (rest : List SessionAge)
        → n ≤ length (first ∷ rest)
        → first.idle < idle key
        → Chosen n idle count seen (first ∷ rest)
        → Chosen n idle (count + 1) seen' (push age rest)
    unfolding contains
    replace-Chosen first rest full older c = record {
      number = omega (arith, length-push age rest, c.number);
      sorted = push-IsSorted age rest c.sorted.1;
      distinct = push-Distinct age rest (ground (arith, c.within key, new)) c.distinct.1;
      aged = All-push (λ a. a.idle ≡ idle a.key) age rest refl c.aged.1;
      within = λ j e. ground (arith, e, contains-push age rest j, c.within j);
      oldest = λ j e. elim (Bool-cases (bytes_eq key j)) [
        | inl same ↦ inl (ground (arith, same, contains-push age rest j))
        | inr other ↦ elim (Bool-cases (contains (keys rest) j)) [
          | inl chosen ↦ inl (ground (arith, chosen, contains-push age rest j))
          | inr out ↦ inr (
            omega (arith, length-push age rest, c.number),
            All-push (λ a. idle j ≤ a.idle) age rest (omega (arith, at_most j e other out))
                (All-le (idle j) first.idle rest (at_most j e other out) c.sorted.0),
          )
        ]
      ];
    }
      where
        at_most :
            (j : Bytes)
            → seen' j ≡ true
            → bytes_eq key j ≡ false
            → contains (keys rest) j ≡ false
            → idle j ≤ first.idle
        at_most j e other out = elim (c.oldest j (ground (arith, e, other))) [
          | inl chosen ↦ elim (Bool-cases (bytes_eq first.key j)) [
            | inl hit ↦ omega (arith, ap idle ((bytes_eq_iff first.key j).0 hit), c.aged.0)
            | inr miss ↦ absurd (ground (arith, chosen, out, miss))
          ]
          | inr left ↦ left.1.0
        ]

    keep-Chosen :
        (first : SessionAge) (rest : List SessionAge)
        → n ≤ length (first ∷ rest)
        → idle key ≤ first.idle
        → Chosen n idle count seen (first ∷ rest)
        → Chosen n idle (count + 1) seen' (first ∷ rest)
    keep-Chosen first rest full younger c = record {
      number = omega (arith, c.number);
      sorted = c.sorted;
      distinct = c.distinct;
      aged = c.aged;
      within = λ j e. ground (arith, c.within j, e);
      oldest = λ j e. elim (Bool-cases (bytes_eq key j)) [
        | inl same ↦ inr (
          omega (arith, c.number),
          subst (λ k. All (λ a. idle k ≤ a.idle) (first ∷ rest)) ((bytes_eq_iff key j).0 same)
              (younger, All-le (idle key) first.idle rest younger c.sorted.0),
        )
        | inr other ↦ c.oldest j (ground (arith, e, other))
      ];
    }

    consider-Chosen :
        (h : List SessionAge)
        → Chosen n idle count seen h
        → Chosen n idle (count + 1) seen' (consider n age h)
    unfolding consider
    consider-Chosen [] c = rw ((lt→ltb 0 n pos), consider) (push-Chosen [] pos c)
    consider-Chosen (first ∷ rest) c = elim (Bool-cases (ltb (length (first ∷ rest)) n)) [
      | inl room ↦ rw (room, consider) (push-Chosen (first ∷ rest) (ground (arith, room)) c)
      | inr full ↦ elim (Bool-cases (ltb first.idle (idle key))) [
        | inl older ↦
            rw (full, older, consider)
              (replace-Chosen first rest (ground (arith, full)) (ground (arith, older)) c)
        | inr younger ↦
            rw (full, younger, consider)
              (keep-Chosen first rest (ground (arith, full)) (ground (arith, younger)) c)
      ]
    ]

Chosen-imp :
    (n : ℕ) (idle : Bytes → ℕ) (m m' : ℕ) (seen seen' : Bytes → Bool) (h : List SessionAge)
    → m ≡ m'
    → ((j : Bytes) → seen j ≡ seen' j)
    → Chosen n idle m seen h
    → Chosen n idle m' seen' h
Chosen-imp n idle m m' seen seen' h e f c = record {
  number = omega (arith, e, c.number);
  sorted = c.sorted;
  distinct = c.distinct;
  aged = c.aged;
  within = λ j k. sym (f j) ∙ c.within j k;
  oldest = λ j k. c.oldest j (f j ∙ k);
}

collect-Chosen :
    (n : ℕ) (pos : 0 < n) (idle : Bytes → ℕ) (m : Map Context) (count : ℕ) (seen : Bytes → Bool)
    (h : List SessionAge)
    → IsMap m
    → ((j : Bytes) → is_some (lookup j m) ≡ true → seen j ≡ false)
    → Chosen n idle count seen h
    → Chosen n idle (count + size m) (λ j. is_some (lookup j m) || seen j) (collect n idle m h)
unfolding collect lookup
collect-Chosen n pos idle [] count seen h maps new c =
    Chosen-imp n idle count (count + 0) seen _ h (omega arith) (λ j. refl) c
collect-Chosen n pos idle ((key, ctx) ∷ m) count seen h maps new c =
    Chosen-imp n idle (count + 1 + size m) (count + suc (size m)) _ _ _ (omega arith)
      (λ j. ground arith)
      (collect-Chosen n pos idle m (count + 1) (seen' n pos idle key count seen fresh)
        (consider n (age n pos idle key) h) maps.1
        (λ j e. ground (arith, e, new j, maps.0, bytes_eq_iff key j))
        (consider-Chosen n pos idle key count seen fresh h c))
  where
    fresh : seen key ≡ false
    fresh = ground (arith, new key, bytes_eq_self key)

-- The selection of cleanupOldestSessions among the sessions of a table, for a number above 0: it has
-- as many as asked for, or all if there are fewer; each is a session, and none is there twice; and
-- no session that is left out has been idle for longer than one that is chosen.
pub collect-Chosen_all :
    (n : ℕ) (idle : Bytes → ℕ) (m : Map Context)
    → 0 < n
    → IsMap m
    → Chosen n idle (size m) (λ j. is_some (lookup j m)) (collect n idle m [])
unfolding contains
collect-Chosen_all n idle m pos maps =
    Chosen-imp n idle (0 + size m) (size m) _ _ _ (omega arith) (λ j. ground arith)
      (collect-Chosen n pos idle m 0 (λ j. false) [] maps (λ j e. refl)
        (record {
          number = omega arith;
          sorted = tt;
          distinct = tt;
          aged = tt;
          within = λ j e. ground (arith, e);
          oldest = λ j e. ground (arith, e);
        }))
