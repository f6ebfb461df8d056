-- ===== src/Proxy/State.antt =====
-- The state of Proxy in internal/proxy/proxy.go. Calls of handlers that reach the network are kept as
-- lists of what was called: OnDisconnect with the chain and the session's DCID, and OnPacket with the
-- packet too.
use quic_relay.Prelude.{ℕ, Bool, false, List, [], ◌∷◌, ◌++◌, leb, if◌then◌else◌}
use quic_relay.Go.{Bytes}
use quic_relay.Assembler.{Assembler}
use quic_relay.Capped.{Capped, PendingBuffer}
use quic_relay.Chains.{new_chains}
use quic_relay.Sessions.{Context, Tables, delete_session}

pub record Delivery : Type 0 where
  pub chain : ℕ
  pub dcid : Bytes
  pub packet : Bytes

pub record Proxy : Type 0 where
  pub tables : Tables
  pub assemblers : Capped Assembler
  pub pending : Capped PendingBuffer
  pub allow_migration : Bool
  pub session_timeout : ℕ
  pub disconnected : List (ℕ × Bytes)
  pub delivered : List Delivery

abbrev pub default_session_timeout : ℕ
default_session_timeout = 7200

-- New, with the first handler chain.
unfoldable pub new_proxy : ℕ → Proxy
new_proxy chain = record {
  tables = record {
    sessions = [];
    session_count = 0;
    dcid_aliases = [];
    session_aliases = [];
    client_sessions = [];
    dcid_lengths = [];
    chains = new_chains chain;
  };
  assemblers = record { entries = []; count = 0 };
  pending = record { entries = []; count = 0 };
  allow_migration = false;
  session_timeout = default_session_timeout;
  disconnected = [];
  delivered = [];
}

-- SetSessionTimeout; what is not above 0 is 0 here.
unfoldable pub set_session_timeout : ℕ → Proxy → Proxy
set_session_timeout seconds p = record p {
  session_timeout = if leb seconds 0 then default_session_timeout else seconds;
}

-- SetAllowConnectionMigration
unfoldable pub set_allow_connection_migration : Bool → Proxy → Proxy
set_allow_connection_migration allow p = record p { allow_migration = allow }

-- `p.contextChain(ctx).OnDisconnect(ctx); p.deleteSession(key, ctx)`
unfoldable pub end_session : Bytes → Context → Proxy → Proxy
end_session key ctx p = record p {
  tables = delete_session key ctx p.tables;
  disconnected = p.disconnected ++ ((ctx.chain, ctx.dcid) ∷ []);
}

-- `p.contextChain(ctx).OnPacket(ctx, packet, handler.Inbound)` for a packet of a session.
unfoldable pub deliver : ℕ → Context → Bytes → Proxy → Proxy
deliver chain ctx packet p = record p {
  delivered = p.delivered ++ (record { chain = chain; dcid = ctx.dcid; packet = packet } ∷ []);
}
