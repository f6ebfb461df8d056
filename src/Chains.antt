-- ===== src/Chains.antt =====
-- The handler chains of internal/proxy/proxy.go: ReloadChain, retainChain, releaseChain, retireChain
-- and shutdownRetiredChains. A chain is a number, for its pointer; `shut` counts the calls of its
-- Shutdown. Each function takes the lock once, so it is one step.
pub mod Safety
use quic_relay.Prelude.{
  ℕ, ◌+◌, ◌-◌, Bool, true, false, not, ◌==◌, Option, none, some, if◌then◌else◌,
}

pub record Chains : Type 0 where
  pub chain : ℕ
  pub chain_refs : ℕ → Option ℕ
  pub retired_chains : ℕ → Bool
  pub shut : ℕ → ℕ

-- `m[k] = v`; with `none`, `delete(m, k)`.
abbrev pub put : {V : Type 0} → ℕ → V → (ℕ → V) → ℕ → V
put k v m j = if k == j then v else m j

-- `m[k]` of a map of numbers: 0 where there is none.
abbrev pub count_of : Option ℕ → ℕ
count_of none = 0
count_of (some n) = n

unfoldable pub new_chains : ℕ → Chains
new_chains c = record {
  chain = c;
  chain_refs = put c (some 0) (λ d. none);
  retired_chains = λ d. false;
  shut = λ d. 0;
}

unfoldable pub shutdown_chain : ℕ → Chains → Chains
shutdown_chain c s = record s { shut = put c (s.shut c + 1) s.shut }

unfoldable pub retain_chain : ℕ → Chains → Chains
retain_chain c s = record s {
  chain_refs = put c (some (count_of (s.chain_refs c) + 1)) s.chain_refs;
}

-- The session's chain. `refs` is not lowered below 0.
unfoldable pub release_chain : ℕ → Chains → Chains
release_chain c s = elim (s.chain_refs c) [
  | none ↦ s
  | some n ↦
      let left = record s { chain_refs = put c (some (n - 1)) s.chain_refs } in
      if n - 1 == 0
      then (if s.retired_chains c
          then shutdown_chain c (record s {
            chain_refs = put c none s.chain_refs;
            retired_chains = put c false s.retired_chains;
          })
          else left)
      else left
]

unfoldable pub retire_chain : ℕ → Chains → Chains
retire_chain c s =
    if count_of (s.chain_refs c) == 0
    then shutdown_chain c (record s { chain_refs = put c none s.chain_refs })
    else record s { retired_chains = put c true s.retired_chains }

abbrev pub known : Option ℕ → Option ℕ
known none = some 0
known (some n) = some n

unfoldable pub reload_chain : ℕ → Chains → Chains
reload_chain c s =
    let swapped = record s {
      chain = c;
      chain_refs = put c (known (s.chain_refs c)) s.chain_refs;
    } in
    if s.chain == c then swapped else retire_chain s.chain swapped

-- The loop over the retired chains visits each of them once.
unfoldable pub shutdown_retired_chains : Chains → Chains
shutdown_retired_chains s = record s {
  chain_refs = λ c. if s.retired_chains c then none else s.chain_refs c;
  retired_chains = λ c. false;
  shut = λ c. if s.retired_chains c then s.shut c + 1 else s.shut c;
}
