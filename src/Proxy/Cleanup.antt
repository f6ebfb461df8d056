-- ===== src/Proxy/Cleanup.antt =====
-- cleanupSessions and Stop of internal/proxy/proxy.go: one tick of the ticker, and the end. A call
-- runs by itself, so a Range visits the entries that were there when it began. The idle time of a
-- session, in nanoseconds, is a parameter; of Stop this is the part behind its workers, which Server
-- has.
pub mod Ends
pub mod Sweep
use quic_relay.Prelude.{
  ℕ, ◌+◌, ◌-◌, ◌*◌, ◌/◌, ◌%◌, ◌^◌, Bool, true, false, ◌||◌, ltb, leb, List, [], ◌∷◌, if◌then◌else◌,
}
use quic_relay.Go.{Bytes}
use quic_relay.Map.{Map}
use quic_relay.Assembler.{Assembler, is_expired, is_complete, assembler_timeout}
use quic_relay.Capped.{Capped, PendingBuffer, delete_capped, max_assemblers}
use quic_relay.Chains.{shutdown_chain, shutdown_retired_chains}
use quic_relay.Sessions.{Context, Tables}
use quic_relay.Proxy.State.{Proxy, end_session}
use quic_relay.Proxy.Packet.{with_tables}

-- The Range over the sessions that ends those with an idle time above the timeout, and the one of
-- Stop, which ends them all.
unfoldable pub end_where : (Bytes → Bool) → Map Context → Proxy → Proxy
end_where test [] p = p
end_where test ((key, ctx) ∷ m) p = end_where test m (if test key then end_session key ctx p else p)

-- A Range that deletes the entries whose value passes the test.
unfoldable pub sweep : {V : Type 0} → (V → Bool) → Map V → Capped V → Capped V
sweep test [] t = t
sweep test ((key, v) ∷ m) t = sweep test m (if test v then delete_capped key t else t)

-- `assemblerCount`
abbrev pub count_others : {V : Type 0} → (V → Bool) → Map V → ℕ
count_others test [] = 0
count_others test ((key, v) ∷ m) = if test v then count_others test m else count_others test m + 1

abbrev pub is_old_assembler : ℕ → Assembler → Bool
is_old_assembler now a = is_complete a || ltb (2 * 10 ^ 9) (now - a.created_at)

unfoldable pub sweep_assemblers : ℕ → Capped Assembler → Capped Assembler
sweep_assemblers now t =
    let t' = sweep (is_expired now) t.entries t in
    if leb (max_assemblers * 9 / 10) (count_others (is_expired now) t.entries)
    then sweep (is_old_assembler now) t'.entries t'
    else t'

abbrev pub is_old_buffer : ℕ → PendingBuffer → Bool
is_old_buffer now buf = ltb assembler_timeout (now - buf.created_at)

-- `time.Duration(timeout) * time.Second`, the bits of an int64.
abbrev pub duration : ℕ → ℕ
duration timeout = timeout * 10 ^ 9 % 2 ^ 64

-- Whether a session is idle for more than the timeout, which is negative from 2^63 on.
abbrev pub is_idle : ℕ → (Bytes → ℕ) → Bytes → Bool
is_idle timeout idle key = leb (2 ^ 63) (duration timeout) || ltb (duration timeout) (idle key)

unfoldable pub cleanup_sessions : ℕ → (Bytes → ℕ) → Proxy → Proxy
cleanup_sessions now idle p =
    let q = end_where (is_idle p.session_timeout idle) p.tables.sessions p in
    record q {
      assemblers = sweep_assemblers now q.assemblers;
      pending = sweep (is_old_buffer now) q.pending.entries q.pending;
    }

unfoldable pub stop : Proxy → Proxy
stop p =
    let q = end_where (λ key. true) p.tables.sessions p in
    with_tables
      (λ t. record t { chains = shutdown_chain t.chains.chain (shutdown_retired_chains t.chains) })
      q
