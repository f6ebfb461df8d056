-- ===== src/Chains/Safety.antt =====
-- Which chains are shut down, and when, over any sequence of connections, disconnections and reloads.
use quic_relay.Prelude.{
  Bool, ltb, ℕ, ◌+◌, ◌-◌, ◌≤◌, ◌<◌, ◌≡◌, ◌≢◌, refl, arith, true, false, ◌||◌, ◌==◌, none, ◌⊎◌,
}
use quic_relay.Map.{is_some}
use quic_relay.Chains.{
  Chains, put, count_of, new_chains, shutdown_chain, retain_chain, release_chain, retire_chain,
  reload_chain,
}

-- The chains together with the number of sessions that each of them serves, and which were loaded.
pub record World : Type 0 where
  pub chains : Chains
  pub serving : ℕ → ℕ
  pub loaded : ℕ → Bool

-- A session that is stored retains the current chain, and one that is deleted releases its own. A
-- reload brings a chain that was not there before, or the current one again.
pub data Step : World → World → Type 0 where
  connect :
      (w : World)
      → Step w (record {
        chains = retain_chain w.chains.chain w.chains;
        serving = put w.chains.chain (w.serving w.chains.chain + 1) w.serving;
        loaded = w.loaded;
      })
  disconnect :
      (w : World) (c : ℕ)
      → 0 < w.serving c
      → Step w (record {
        chains = release_chain c w.chains;
        serving = put c (w.serving c - 1) w.serving;
        loaded = w.loaded;
      })
  reload :
      (w : World) (c : ℕ)
      → w.chains.chain_refs c ≡ none
      → w.chains.shut c ≡ 0
      → Step w (record w { chains = reload_chain c w.chains; loaded = put c true w.loaded })
  reload_same : (w : World) → Step w (record w { chains = reload_chain w.chains.chain w.chains })

pub data Reachable (first : ℕ) : World → Type 0 where
  start :
      Reachable first (record {
        chains = new_chains first;
        serving = λ c. 0;
        loaded = put first true (λ c. false);
      })
  next : (w w' : World) → Reachable first w → Step w w' → Reachable first w'

-- What holds of a chain: it is current, retired, shut down, or never was loaded.
pub record IsSound (s : Chains) (serving : ℕ → ℕ) (loaded : ℕ → Bool) (c : ℕ) : Type 0 where
  pub counted : count_of (s.chain_refs c) ≡ serving c
  pub current : is_some (s.chain_refs s.chain) ≡ true
  pub present : is_some (s.chain_refs c) ≡ (s.chain == c || s.retired_chains c)
  pub waits : s.retired_chains c ≡ true → 0 < serving c
  pub live : s.retired_chains s.chain ≡ false
  pub gone : is_some (s.chain_refs c) ≡ true → s.shut c ≡ 0
  pub once : s.shut c ≤ 1
  pub somewhere : loaded c ≡ true → (is_some (s.chain_refs c) || ltb 0 (s.shut c)) ≡ true

abbrev Sound : World → Type 0
Sound w = (c : ℕ) → IsSound w.chains w.serving w.loaded c

start-Sound :
    (first : ℕ)
    → Sound (record {
      chains = new_chains first;
      serving = λ c. 0;
      loaded = put first true (λ c. false);
    })
unfolding new_chains
start-Sound first c = record {
  counted = ground arith;
  current = ground arith;
  present = ground arith;
  waits = λ h. ground (arith, h);
  live = refl;
  gone = λ h. refl;
  once = omega arith;
  somewhere = λ r. ground (arith, r);
}

connect-Sound :
    (w : World)
    → Sound w
    → Sound (record {
      chains = retain_chain w.chains.chain w.chains;
      serving = put w.chains.chain (w.serving w.chains.chain + 1) w.serving;
      loaded = w.loaded;
    })
unfolding retain_chain
connect-Sound w h c =
    let a = h c in
    let b = h w.chains.chain in
    record {
      counted = ground (arith, a.counted, b.counted);
      current = ground (arith, b.current);
      present = ground (arith, a.present, b.present, b.current);
      waits = λ r. ground (arith, a.waits, r);
      live = ground (arith, a.live);
      gone = λ r. ground (arith, a.gone, b.gone, b.current, r);
      once = a.once;
      somewhere = λ r. ground (arith, a.somewhere, b.somewhere, r);
    }

disconnect-Sound :
    (w : World) (d : ℕ)
    → 0 < w.serving d
    → Sound w
    → Sound (record {
      chains = release_chain d w.chains;
      serving = put d (w.serving d - 1) w.serving;
      loaded = w.loaded;
    })
unfolding release_chain shutdown_chain
disconnect-Sound w d busy h c =
    let a = h c in
    let b = h d in
    record {
      counted = ground (arith, a.counted, b.counted, busy);
      current = ground (arith, a.current, b.current, a.live, b.live, b.counted, busy);
      present = ground (arith, a.present, b.present, a.current, a.live, b.counted, busy);
      waits = λ r. ground (arith, a.waits, b.waits, b.counted, r, busy);
      live = ground (arith, a.live);
      gone = λ r. ground (arith, a.gone, b.gone, b.counted, r, busy);
      once = ground (arith, a.once, b.gone, b.counted, busy);
      somewhere = λ r. ground (arith, a.somewhere, b.somewhere, b.counted, busy, r);
    }

reload-Sound :
    (w : World) (d : ℕ)
    → w.chains.chain_refs d ≡ none
    → w.chains.shut d ≡ 0
    → Sound w
    → Sound (record w { chains = reload_chain d w.chains; loaded = put d true w.loaded })
unfolding reload_chain retire_chain shutdown_chain
reload-Sound w d new unshut h c =
    let a = h c in
    let b = h d in
    let o = h w.chains.chain in
    record {
      counted = ground (arith, a.counted, b.counted, new, o.counted);
      current = ground (arith, a.current, b.current, o.current, new);
      present = ground (arith, a.present, b.present, a.current, a.live, b.counted, new, o.counted);
      waits = λ r. ground (arith, a.waits, b.waits, b.counted, r, new, o.counted);
      live = ground (arith, a.live, b.present, b.waits, b.counted, new);
      gone = λ r. ground (arith, a.gone, b.gone, b.counted, r, new, o.gone, o.current, unshut);
      once = ground (arith, a.once, b.gone, b.counted, new, o.gone, o.current, unshut);
      somewhere = λ r. ground (
        arith, a.somewhere, b.somewhere, o.somewhere, b.counted, new, o.gone, o.current, unshut, r,
      );
    }

reload_same-Sound :
    (w : World) → Sound w → Sound (record w { chains = reload_chain w.chains.chain w.chains })
unfolding reload_chain
reload_same-Sound w h c =
    let a = h c in
    let b = h w.chains.chain in
    record {
      counted = ground (arith, a.counted, b.counted);
      current = ground (arith, a.current, b.current);
      present = ground (arith, a.present, b.present, b.current);
      waits = λ r. ground (arith, a.waits, r);
      live = ground (arith, a.live);
      gone = λ r. ground (arith, a.gone, b.gone, b.current, r);
      once = ground (arith, a.once);
      somewhere = λ r. ground (arith, a.somewhere, b.somewhere, r);
    }

Step-Sound : (w w' : World) → Step w w' → Sound w → Sound w'
Step-Sound _ _ (connect w) h = connect-Sound w h
Step-Sound _ _ (disconnect w c busy) h = disconnect-Sound w c busy h
Step-Sound _ _ (reload w c new unshut) h = reload-Sound w c new unshut h
Step-Sound _ _ (reload_same w) h = reload_same-Sound w h

Reachable-Sound : (first : ℕ) (w : World) → Reachable first w → Sound w
Reachable-Sound first _ start = start-Sound first
Reachable-Sound first _ (next w w' r s) = Step-Sound w w' s (Reachable-Sound first w r)

-- What the reference counts are for: a chain that was shut down is not current and serves no
-- session, and it was shut down once.
pub record IsSafe (w : World) (c : ℕ) : Type 0 where
  pub idle : 0 < w.chains.shut c → w.serving c ≡ 0
  pub replaced : 0 < w.chains.shut c → w.chains.chain ≢ c
  pub once : w.chains.shut c ≤ 1
  pub kept : 0 < w.serving c → (w.chains.chain ≡ c) ⊎ (w.chains.retired_chains c ≡ true)
  pub counted : count_of (w.chains.chain_refs c) ≡ w.serving c
  pub freed : w.loaded c ≡ true → w.serving c ≡ 0 → w.chains.chain ≢ c → w.chains.shut c ≡ 1

-- After any sequence of connections, disconnections and reloads, a reload bringing a chain that is
-- new or the current one: a chain that was shut down is not the current one, serves no session, and
-- was shut down once; a chain that was loaded, is not current and serves no session was shut down; a
-- chain that serves a session is current or retired; and the reference count of each chain is the
-- number of the sessions that it serves.
pub Reachable-IsSafe : (first : ℕ) (w : World) → Reachable first w → (c : ℕ) → IsSafe w c
Reachable-IsSafe first w r c =
    let a = Reachable-Sound first w r c in
    record {
      idle = λ h. ground (arith, a.gone, a.counted, h);
      replaced = λ h e. ground (arith, a.gone, a.current, h, e);
      once = a.once;
      kept = λ h. ground (arith, a.present, a.counted, h);
      counted = a.counted;
      freed = λ l n r. ground (arith, a.somewhere, a.present, a.waits, a.once, l, n, r);
    }
