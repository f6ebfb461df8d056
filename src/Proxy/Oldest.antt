-- ===== src/Proxy/Oldest.antt =====
-- cleanupOldestSessions and sessionHeap of internal/proxy/proxy.go. The heap of container/heap is a list
-- in ascending order, whose head is what Pop takes. `idle` is IdleDuration of a session, which
-- reads the clock.
pub mod Choice
pub mod Removal
use quic_relay.Prelude.{ℕ, ltb, leb, ◌==◌, Option, none, some, List, [], ◌∷◌, length, if◌then◌else◌}
use quic_relay.Go.{Bytes}
use quic_relay.Map.{Map, lookup}
use quic_relay.Sessions.{Context}
use quic_relay.Proxy.State.{Proxy, end_session}

pub record SessionAge : Type 0 where
  pub key : Bytes
  pub idle : ℕ

-- heap.Push
unfoldable pub push : SessionAge → List SessionAge → List SessionAge
push a [] = a ∷ []
push a (b ∷ h) = let rest = push a h in if leb a.idle b.idle then a ∷ b ∷ h else b ∷ rest

-- The callback of `p.sessions.Range`.
unfoldable pub consider : ℕ → SessionAge → List SessionAge → List SessionAge
consider n age [] = if ltb 0 n then push age [] else []
consider n age (first ∷ rest) =
    if ltb (length (first ∷ rest)) n
    then push age (first ∷ rest)
    else if ltb first.idle age.idle
    then push age rest
    else first ∷ rest

unfoldable pub collect : ℕ → (Bytes → ℕ) → Map Context → List SessionAge → List SessionAge
collect n idle [] h = h
collect n idle ((key, ctx) ∷ m) h =
    collect n idle m (consider n (record { key = key; idle = idle key }) h)

-- `for h.Len() > 0`
unfoldable pub remove_all : List SessionAge → Proxy → Proxy
remove_all [] p = p
remove_all (age ∷ h) p =
    remove_all h
      (elim (lookup age.key p.tables.sessions) [ some ctx ↦ end_session age.key ctx p | none ↦ p ])

unfoldable pub cleanup_oldest_sessions : ℕ → (Bytes → ℕ) → Proxy → Proxy
cleanup_oldest_sessions n idle p =
    if leb n 0 then p else remove_all (collect n idle p.tables.sessions []) p
