-- ===== src/Lib.antt =====
-- quic-relay: a UDP proxy that routes QUIC connections by the server name in their ClientHello.
--
-- A packet arrives in internal/proxy/proxy.go. Its connection IDs are read by internal/proxy/parser.go;
-- an Initial packet of an unknown connection is decrypted there, its CRYPTO frames go to the
-- connection's CryptoAssembler, and once they make up a ClientHello, the chain of handlers of
-- internal/handler decides where the connection goes. Packets that come too early wait in a buffer.
--
-- Files:
--   Prelude, Prelude/*: the library's names, Boolean tests, lists and bits on native numbers.
--   Go, Go/Slices: what a call of a Go function can do. `ok` is a result, `err` an error that it
--     returns, `panic` a runtime panic (an index or a slice out of range), and `stuck` a loop that has
--     used up its fuel. `index`, `slice` and `slice_from` are s[i], s[a:b] and s[a:].
--   Quic: packet types and the errors of parser.go.
--   Quic/Varint: readVarInt; Varint/Reference is the same encoding by a formula, Varint/Encode writes it
--     in its four sizes.
--   Quic/Header: ClassifyPacket, ExtractDCID, ExtractSCID, ExtractDCIDAndSCID; Header/Layout is a long
--     header as RFC 9000 lays it out, Header/Reads has the readers' bounds.
--   Quic/Coalesced: ExtractAllSCIDs, a round of its loop by `read_packet` and `add_scid`.
--     Coalesced/Packets lays out whole datagrams.
--   Quic/Frames: extractCryptoFrames, a round of its loop by `read_frame`. Frames/RoundTrip lays out
--     payloads.
--   Quic/Initial: ExtractCryptoFramesFromPacket in the steps find_dcid, find_token_end, find_payload,
--     then deriveInitialKeys, hkdfExpandLabel, decryptInitialPacket and DecryptWithCachedCrypto.
--     Initial/Protection, Opening and Opens are RFC 9001's protection and what undoes it.
--   Tls: parseTLSClientHello, parseSNI, parseALPN. Tls/Bodies lays out extensions, Tls/RoundTrip whole
--     messages.
--   Tls/Frames: parseFrames and reassembleCryptoData; Frames/Covers says which frame a byte comes from.
--   Assembler: CryptoAssembler of proxy.go with AddFrame and TryParse. Assembler/Cells reads its buffer
--     and bitset as a partial function from offsets to bytes.
--     Assembler/Cached: InitCrypto and the ciphers that it caches.
--   Map: a sync.Map, as a list of keys and values.
--   Capped: the maps `assemblers` and `pendingPackets` of proxy.go with their counters, and the
--     packets buffered for a connection ID.
--   Chains: the handler chains of proxy.go with their reference counts, ReloadChain to shutdownChain.
--     Chains/Safety has the steps: a connection, a disconnection, a reload.
--   Sessions: findSession, learnServerSCID, deleteSession and the alias sets of proxy.go.
--   Net: a UDP address, with the text that the proxy uses as a key.
--   Proxy/State: the Proxy itself, with New and its two settings. Calls of handlers that reach the
--     network are kept as lists of what was called.
--   Proxy/Oldest: cleanupOldestSessions; Oldest/Choice and Oldest/Removal are its two halves.
--   Proxy/Packet: handlePacket with storeSession, flushPendingPackets and the session slots, in the
--     order of its numbered steps. Its children carry one invariant, Packet/Store.IsSound, through them:
--     Find through findSession, Assembling through the assemblers, Store and Steps through the session
--     tables, Sound through the whole.
--   Proxy/Cleanup: a tick of cleanupSessions, and Stop.
--   Pool: WorkerPool of internal/proxy/pool.go; Pool/Order has the steps of submissions and workers,
--     Pool/Drained what Stop leaves.
--   Forwarder: the session of internal/handler/forwarder.go and context.go; Forwarder/Closed its end.
--   Values: the values of a Context of internal/handler/context.go and Drop. Terminator: OnConnect and
--     OnDisconnect of terminator_handler.go, over the library that terminates TLS; Terminator/Config its
--     configuration.
--   Registry: Register and BuildChain of internal/handler/registry.go; Registry/Builds what a chain has.
--   Main: cmd/proxy/main.go, from the configuration to the running proxy, and SIGHUP. Main/Runs takes it
--     through any sequence of packets, ticks and reloads.
--   Server: the loop of Run, the workers and Stop of proxy.go, together. A read of the socket is an
--     event, and so is what main loads at a SIGHUP; a datagram of a backend is not. Server/Shutdown takes
--     the whole from its start to the end of Stop, if Run submits nothing after the queues are closed.
--   Limits: internal/handler/ratelimit_global.go. Routers: simple_router.go and sni_router.go there.
--   Hytale, Hytale/Reader: PacketReader and PacketWriter of pkg/protohytale/reader.go. Reader/Stream
--     reads the buffer and the source as one stream of bytes, Reader/Frames cuts it into packets.
--     Reader/Window is ReadPacketNoCopy.
--   Hytale/Values: VarInts and the other values of encoding.go there. Hytale/Connect: ParseConnect and
--     ParseDisconnect of packets_connect.go, which Connect/RoundTrip lays out.
--   Hytale/Compression: packet.go there, and the printed values of a Connect packet.
--   Hytale/Floats: the signed integer and the floats of encoding.go. Floats/Exact has the numbers that
--     IEEE 754 gives to the patterns.
--   Handlers: Chain of internal/handler/handler.go, over handlers that are any functions on a state.
--   Tests: runs at concrete values.
--
-- Numbers are natural numbers. A byte is one below 256, where a theorem needs it; wrap-around is written
-- out where the source can reach it: the shift in a packet number, the bytes of an HkdfLabel, a counter
-- below 0. A varint is below 2^62, so no sum of an offset and a length passes an int.
--
-- A loop whose rounds are not counted by the data runs on fuel: the length of its input and one more.
-- Each round reads a byte at least, which is why no loop of a theorem below ends `stuck`; a factory of the
-- registry, which is a parameter, may.
--
-- AES, GCM and HKDF are the parameter `Crypto`. A theorem that needs it asks that AES writes 16 bytes and
-- that GCM opens to bytes (`CryptoLaws`), that the keys of a DCID can be derived (`Keys`), and that GCM
-- opens what its other half sealed (`Seals`); Tests has an instance of each.
--
-- The loop of ensureBytes has a round for each piece of its source and two more: a Read takes a piece off
-- the source or fills the buffer.
--
-- The handlers that handlePacket calls are a parameter: any list of handlers for each chain. Where a
-- theorem needs it, it asks that they raise the session counter by the slot they leave reserved. Of a
-- configuration that main loads it asks this of the chain that BuildChain gives, and that no factory of it
-- panics (`IsSafeConfig`): two ratelimit-global handlers in a chain, or a null target of the terminator,
-- are not safe.
--
-- Methods run one at a time: mutexes and atomic counters are not interleaved, and a CompareAndSwap
-- succeeds at once. So a whole handlePacket, tick or Stop is one step, and a Range visits the entries that
-- were there when it began; in Chains/Safety, Pool/Order and Server the steps interleave. Not modelled: the
-- sockets, goroutines and timers of the proxy and the forwarder, the client and echo commands and the
-- flags, which are input and output, and that main ends when Run returns. Files, JSON, the environment and the registered factories are
-- parameters, and so are the calls of the library that terminates TLS.
pub mod Prelude
pub mod Go
pub mod Quic
pub mod Tls
pub mod Assembler
pub mod Net
pub mod Map
pub mod Capped
pub mod Chains
pub mod Sessions
pub mod Handlers
pub mod Proxy
pub mod Pool
pub mod Forwarder
pub mod Values
pub mod Terminator
pub mod Registry
pub mod Main
pub mod Server
pub mod Hytale
pub mod Limits
pub mod Routers
pub mod Tests
