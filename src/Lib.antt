-- ===== src/Lib.antt =====
-- A model of the DLEP implementation (RFC 8175) and its theorems.
--
-- The program. Routers and modems exchange signals (datagrams that find a peer) and messages (frames
-- of a TCP stream) which carry data items. crates/dlep-core has the types and the codec,
-- crates/dlep-net cuts frames out of a stream, crates/dlep-fsm has the state machines of a session,
-- which validate each message, track the requests that await a response and keep sets of addresses.
-- crates/dlep-daemon runs the state machines on sockets and timers; crates/dlep-modem and
-- crates/dlep-router are programs over it.
--
-- The files.
--   Base          Names and lemmas that all modules share: outcomes with panics (Base/Outcome), octet
--                 strings, Boolean tests, lists, maps, decidable equality.
--   Core/Ids, Core/Mac, Core/Status, Core/Metrics, Core/Item, Core/Error
--                 crates/dlep-core/src/ids.rs, mac.rs, status.rs, metrics.rs, data_item.rs with
--                 message.rs and signal.rs, error.rs.
--   Core/Ipnet    The crate ipnet, which is not part of the repository: a parameter with the laws that
--                 its documentation promises; Core/Ipnet/Masked has functions that meet them.
--   Core/Utf8     The test of `String::from_utf8`, from the standard library.
--   Core/Codec    crates/dlep-core/src/codec.rs. Codec/Raw: `RawDataItem::decode` (decode_raw) and the
--                 helpers; Codec/Encode: `DataItem::encode` (encode_item); Codec/Decode:
--                 `DataItem::decode` (decode_item); Codec/Frame: `Message` and `Signal`
--                 (encode_message, decode_message, encode_signal, decode_signal). Codec/Wire is the
--                 wire format as plain functions, which the code is compared with. Encode/Item,
--                 Decode/Total, RoundTrip, Frame/Written, Frame/RoundTrip, Frame/Total and
--                 Frame/Stable have the theorems.
--   Net/Framed    crates/dlep-net/src/framed.rs: decode_frame and encode_frame are the `Decoder` and
--                 `Encoder` of `MessageCodec`. Framed/Stream has the theorems.
--   Fsm/Transaction, Fsm/Addresses, Fsm/Validation
--                 crates/dlep-fsm/src/transaction.rs, addresses.rs and validation.rs, each with its
--                 theorems in the modules below it.
--                 Validation/Transactions is validate_transaction.
--   Fsm/Events    crates/dlep-fsm/src/events.rs, commands.rs and timers.rs, as data types.
--   Fsm/Discovery crates/dlep-fsm/src/discovery_common.rs, and in Discovery/Machines
--                 discovery_modem.rs (modem_step) and discovery_router.rs (router_step).
--                 Discovery/Candidates says apart from the code which endpoints an offer names,
--                 which of them can be reached, and in which order they come.
--   Fsm/Common    crates/dlep-fsm/src/session_common.rs: heartbeat intervals and local address updates
--                 (apply_local_address_update), and in Common/Builders the builders and extractors of
--                 messages.
--   Fsm/Session   What the two session machines share: timers, the actions of a shutdown, a missed
--                 heartbeat and a protocol error, and `Run`, the actions and the machine that a step
--                 returns, or a panic. Session/Lifecycle is the abstract life of a session in five
--                 phases, Session/Machine the interface that both machines fill, with what follows for
--                 runs (run), and Session/Ending how a session comes to its end.
--   Fsm/Router    crates/dlep-fsm/src/session_router.rs. Router/Checks: `check_command` and the checks
--                 of a received message; Router/Basic and Router/Handlers: the arms for messages
--                 in session; Router/Step: `step` with the arms for each state. Router/Sound has
--                 the invariant, and Router/Refines, Router/Course and Router/Refused the theorems.
--   Fsm/Modem     crates/dlep-fsm/src/session_modem.rs, in the same way, with the commands of the
--                 application in Modem/Commands.
--   Fsm/Receipt   The first checks of a receiver's `step` on messages that the builders build.
--   Fsm/Handshake, Fsm/Teardown
--                 The two session machines against each other: the first messages of a session, and
--                 its end.
--   Daemon/Connections
--                 crates/dlep-daemon/src/connections.rs: `ConnectionRegistry` and `ConnectionTracker`
--                 (register, establish, release, prune_locked), each one step under its lock, with the
--                 time as an argument. Connections/Calls has the sequences of calls, and
--                 Connections/Accounts and Connections/Capacity what they keep.
--   Examples      Runs on concrete data.
--
-- How the code is read. A machine integer is a natural number, with the bound of its type as a
-- hypothesis where it matters and conversions written out with their remainder. A buffer is the list
-- of its octets, a method on a mutable argument returns the new value, and a Rust panic (an index out
-- of range, a failed expect) is an outcome of its own, so that its absence is a statement about the
-- code. A HashMap is an association list read through get, insert and remove, a HashSet a list without
-- duplicates.
--
-- Bounds. The decoding loop takes four octets at least in each round, so the length of the body is
-- enough fuel; running out would be a panic. All other loops are structural. usize is not bounded.
--
-- A step of a session machine takes an event and returns the actions for the runtime with the new
-- machine. An `expect`, an `unwrap` on a lookup and `unreachable!()` are panics of the step. What the
-- code computes before a match and needs in several arms is a definition of its own.
--
-- Not modelled: the extension registry, sockets, TLS, the tasks of the daemon, its table of connected
-- routers, the two programs, and the texts of errors and addresses.
pub mod Base
pub mod Core
pub mod Net
pub mod Fsm
pub mod Daemon
mod Examples
