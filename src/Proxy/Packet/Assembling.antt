-- ===== src/Proxy/Packet/Assembling.antt =====
-- The assemblers while handlePacket uses them: the map is capped, and each assembler in it valid.
use quic_relay.Prelude.{
  ℕ, ◌+◌, ◌≡◌, sym, subst, arith, true, false, ◌||◌, Option, none, some, List, [], ◌∷◌, Bool-cases,
  Option-cases, inl, inr, if◌then◌else◌, leb,
}
use quic_relay.Go.{Bytes, Returns, Returns-bind, Ensures, bytes_eq, bytes_eq_self, Ensures-cases}
use quic_relay.Quic.Frames.{CryptoFrame}
use quic_relay.Quic.Initial.{Crypto, extract_crypto_frames_from_packet}
use quic_relay.Map.{lookup, store, is_some}
use quic_relay.Map.Laws.{lookup-store, lookup-delete, store-IsMap, size-store}
use quic_relay.Tls.{ClientHello}
use quic_relay.Assembler.{Assembler, new_crypto_assembler, add_frame, add_frames, is_expired}
use quic_relay.Assembler.Cells.{IsValid, new_crypto_assembler-IsValid, add_frame-Adds}
use quic_relay.Assembler.Parse.{Parses}
use quic_relay.Capped.{
  Capped, max_assemblers, load_or_create_assembler, store_assembler, delete_assembler, store_capped,
  delete_capped,
}
use quic_relay.Capped.Laws.{IsCapped, delete_capped-IsCapped, load_or_create_lem, replace-IsCapped}
use quic_relay.Proxy.Packet.{obtain_assembler, feed}

pub record IsReady (t : Capped Assembler) : Type 0 where
  pub capped : IsCapped max_assemblers t
  pub valid : (k : Bytes) (a : Assembler) → lookup k t.entries ≡ some a → IsValid a

-- The assembler that handlePacket goes on with stands in the map.
abbrev pub Obtained : Bytes → Capped Assembler × Option Assembler → Type 0
Obtained key (t, none) = IsReady t
Obtained key (t, some a) = IsReady t × IsValid a × (lookup key t.entries ≡ some a)

module _ (key : Bytes) (t : Capped Assembler) (r : IsReady t) where
  store-IsValid :
      (a : Assembler)
      → IsValid a
      → (k : Bytes) (b : Assembler) → lookup k (store key a t.entries) ≡ some b
      → IsValid b
  store-IsValid a v k b e = elim (Bool-cases (bytes_eq key k)) [
    | inl hit ↦ subst IsValid (same (ground (arith, e, hit, lookup-store key k a t.entries))) v
    | inr miss ↦ r.valid k b (ground (arith, e, miss, lookup-store key k a t.entries))
  ]
    where
      same : some a ≡ some b → a ≡ b
      same h = cc h

  pub put-IsReady :
      (a : Assembler)
      → IsValid a
      → is_some (lookup key t.entries) ≡ true
      → IsReady (record t { entries = store key a t.entries })
  put-IsReady a v there = record {
    capped = replace-IsCapped max_assemblers (omega arith) key a t there r.capped;
    valid = store-IsValid a v;
  }

  pub delete_assembler-IsReady : IsReady (delete_assembler key t)
  unfolding delete_assembler delete_capped
  delete_assembler-IsReady = record {
    capped = delete_capped-IsCapped max_assemblers (omega arith) key t r.capped;
    valid = λ k a e. r.valid k a (ground (arith, e, lookup-delete key k t.entries r.capped.map));
  }

  -- storeAssembler: no change, or a new entry.
  store_assembler_lem :
      (a : Assembler)
      → store_assembler key a t ≡ (
          if leb max_assemblers t.count || is_some (lookup key t.entries)
          then (t, false)
          else (record { entries = store key a t.entries; count = t.count + 1 }, true))
  unfolding store_assembler store_capped
  store_assembler_lem a = ground (arith, r.capped.within)

  new-IsReady :
      (a : Assembler)
      → IsValid a
      → lookup key t.entries ≡ none
      → leb max_assemblers t.count ≡ false
      → Obtained key (record { entries = store key a t.entries; count = t.count + 1 }, some a)
  new-IsReady a v free room = (
    record {
      capped = record {
        map = store-IsMap key a t.entries r.capped.map;
        counted = ground (arith, free, r.capped.counted, size-store key a t.entries);
        within = ground (arith, room);
      };
      valid = store-IsValid a v;
    },
    v,
    ground (arith, lookup-store key key a t.entries, bytes_eq_self key),
  )

  store_assembler-Obtained :
      (a : Assembler)
      → IsValid a
      → lookup key t.entries ≡ none
      → Obtained key
          ((store_assembler key a t).0, if (store_assembler key a t).1 then some a else none)
  store_assembler-Obtained a v free =
      rw (store_assembler_lem a, free)
        (elim (Bool-cases (leb max_assemblers t.count)) [
          | inl full ↦ rw full r
          | inr room ↦ rw room (new-IsReady a v free room)
        ])

module _ (now : ℕ) (key : Bytes) (t : Capped Assembler) (r : IsReady t) where
  renewed-Obtained :
      let t2 = store_assembler key (new_crypto_assembler now) (delete_assembler key t) in
      Obtained key (t2.0, if t2.1 then some (new_crypto_assembler now) else none)
  unfolding delete_assembler delete_capped
  renewed-Obtained =
      store_assembler-Obtained key (delete_assembler key t) (delete_assembler-IsReady key t r)
        (new_crypto_assembler now) (new_crypto_assembler-IsValid now)
        (ground (arith, lookup-delete key key t.entries r.capped.map, bytes_eq_self key))

  load_or_create_assembler_lem : load_or_create_assembler now key t ≡ elim (lookup key t.entries) [
    | some a ↦ (t, some (a, true))
    | none ↦ if leb max_assemblers t.count then (t, none) else (
      record { entries = store key (new_crypto_assembler now) t.entries; count = t.count + 1 },
      some (new_crypto_assembler now, false),
    )
  ]
  unfolding load_or_create_assembler
  load_or_create_assembler_lem =
      load_or_create_lem max_assemblers (omega arith) key (new_crypto_assembler now) t

  -- What handlePacket gets from a map that is in order: an assembler that stands in it, new where the
  -- old one was too old, or none at the limit; and the map is still in order.
  pub obtain_assembler-Obtained : Obtained key (obtain_assembler now key t)
  unfolding obtain_assembler
  obtain_assembler-Obtained = elim (Option-cases (lookup key t.entries)) [
    | inr (a, e) ↦
        rw (obtain_assembler, load_or_create_assembler_lem, e)
          (elim (Bool-cases (is_expired now a)) [
            | inl expired ↦ rw (expired, load_or_create_assembler_lem, e) renewed-Obtained
            | inr fresh ↦ rw (fresh, load_or_create_assembler_lem, e) (r, r.valid key a e, e)
          ])
    | inl free ↦
        rw (obtain_assembler, load_or_create_assembler_lem, free)
          (elim (Bool-cases (leb max_assemblers t.count)) [
            | inl full ↦ rw (full, load_or_create_assembler_lem, free, full) r
            | inr room ↦
                rw (room, load_or_create_assembler_lem, free, room)
                  (new-IsReady key t r (new_crypto_assembler now) (new_crypto_assembler-IsValid now)
                    free room)
          ])
  ]

add_frames-IsValid :
    (fs : List CryptoFrame) (a : Assembler) → IsValid a → Returns IsValid (add_frames fs a)
unfolding add_frames
add_frames-IsValid [] a v = v
add_frames-IsValid (f ∷ fs) a v =
    Returns-bind _ IsValid (add_frame f.offset f.bytes a) (λ r. add_frames fs r.0)
      (add_frame-Adds a v f.offset f.bytes) λ r h. add_frames-IsValid fs r.0 h.valid

-- The frames of a packet go into a valid assembler, which stays valid, whatever the packet.
pub feed-IsValid :
    (c : Crypto) (packet : Bytes) (a : Assembler)
    → IsValid a
    → Ensures (λ fs. Unit {0}) (extract_crypto_frames_from_packet c packet)
    → Returns IsValid (feed c packet a)
unfolding feed
feed-IsValid c packet a v h =
    elim (Ensures-cases _ (extract_crypto_frames_from_packet c packet) h) [
      | inl (fs, e, _) ↦ rw (e, feed) (add_frames-IsValid fs a v)
      | inr (_, e) ↦ rw (e, feed) v
    ]

pub parsed-IsValid :
    (a : Assembler) (r : Assembler × Option ClientHello) → IsValid a → Parses a r → IsValid r.0
parsed-IsValid a (a', none) v e = subst IsValid (sym e) v
parsed-IsValid a (a', some hello) v h = subst IsValid (sym h.0) (record {
  buffer_size = v.buffer_size;
  written_size = v.written_size;
  bound = v.bound;
  marked = v.marked;
})
