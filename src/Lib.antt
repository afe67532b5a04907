-- ===== src/Lib.antt =====
-- RDoWS, RDMA semantics over WebSockets: a model of the protocol code and its proofs.
--
-- The program's parts, and the files that model them:
--   * Core models crates/rdows-core/src. Core/Opcode, Core/Error and Core/Memory are opcode.rs,
--     error.rs and memory.rs (a newtype is the number that it holds). Core/Frame is frame.rs, the
--     header of 24 bytes. Core/Queue is queue.rs. Core/Message has a file for each payload of
--     message.rs with its encode, decode and encoded_len; Core/Message/Defs has the messages.
--   * Server models crates/rdows-server/src. Server/Store/Defs is memory_store.rs: the regions under
--     their L_Keys, the table from R_Keys to L_Keys, the R_Keys ever drawn, and the methods.
--     Server/Session/Defs and Server/Session/Messages are session.rs, Server/Session/Handlers is
--     handler.rs. A handler is an action on a World: the session and the messages handed to the sink.
--     Server/Tracker is the part of lib.rs that counts the sessions of each address and checks the
--     subprotocol, whose name and test are in Core/Subprotocol.
--   * Client models crates/rdows-client/src. Client/CompletionQueue is completion.rs. Client/Wire and
--     Client/Connect are connection.rs, Client/Connection is lib.rs. Client/Verbs is verbs.rs, and
--     Client/LocalMemory the ranges of the local buffers in it. A verb is an action on a Client: the
--     fields of the connection, and the two halves of its stream. Client/Ending cuts the work requests
--     at the answer of the server, and Client/Waiting has the loop that waits for it without fuel.
--   * Kv models crates/rdows-kv/src/kv.rs. Kv/Slot has the slots and the hash, Kv/Dump the hexadecimal
--     lines, Kv/Results what the operations return, Kv/Store the operations.
--   * Link joins the two: Link/Defs makes a session of the server the other side of a client, over a
--     stream that delivers every frame in order, and Link/Read and Link/Write follow a READ and a WRITE
--     from the client's call to its return. Kv/ReadSlot and Kv/WriteSlot do so for a slot of the table,
--     and Kv/Lookup has the probing in the bytes of a table, `find_in`, for Kv/GetPut.
--   * Prelude and Bytes carry what these share: results with a value for a panic, dictionaries,
--     big-endian integers, UTF-8, and rules for encoders and decoders.
--
-- How they interact: `run_session` decodes each binary frame with `decode`, gives the message to
-- `handle_message`, which goes by the state of the session to `handle_connect` or, if the sequence
-- number is the one that is due, to `handle_ready` and `dispatch`; a handler calls the methods of
-- the store and answers through `next_header` and `send_message`, which encodes.
--
-- The operations of the key-value store call `rdma_read`, `rdma_write`, `poll_cq` and the local
-- buffers; a verb sends through `next_header` and `send_message`, and waits in `recv_app_message`,
-- which calls `recv_message`.
--
-- Code of other crates is a parameter. `BufApi` (Bytes/Api) stands for the methods of the crate
-- `bytes` that the codecs call, and `IsBufApi` for what its documentation says of them;
-- Bytes/ListApi gives an instance. `Env` (Server/Session/Defs) holds the connection, the random
-- source and the clock. For the client `Env` (Client/Wire) holds the other side, a `Peer`: to each
-- frame that is sent it gives the error of the send, if it fails, and what arrives then. A stream
-- that has nothing more to give is an `await` that does not return, the outcome `waiting`
-- (Prelude/Actions). TCP, TLS and the upgrade are an argument of `connect`. A `HashMap` or
-- `HashSet` is a list; nothing here depends on the order of iteration.
--
-- Integers are natural numbers; a width appears where the code wraps, panics or truncates.
-- `Profile` says whether the build has overflow checks. `usize` has 64 bits, and a vector holds
-- less than 2 ^ 63 bytes. The bounds are the source's own: the 1000 rounds in which an R_Key is
-- drawn, the ten digits of a `u32` in decimal notation, and the 64 rounds of a probing. The loop of
-- `recv_app_message` runs on fuel, one more than what has arrived: each round but the last takes
-- something of it. Code under `await` runs in the order of the source, since a session is owned by
-- one task.
--
-- Not modelled: TLS, sockets, the accept loop, the reading of arguments and certificates, the HTTP
-- routes of the key-value store (crates/rdows-server/src/main.rs, crates/rdows-client/src/main.rs,
-- crates/rdows-kv/src/main.rs and api.rs), log lines and Display texts, and that memory runs out.
pub mod Prelude
pub mod Bytes
pub mod Core
pub mod Client
pub mod Kv
pub mod Link
pub mod Server
