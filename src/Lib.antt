-- ===== src/Lib.antt =====
-- UPMessenger: an end-to-end encrypted messenger with a relay server. This library models its Rust core.
--
-- The parts, and how they interact. Two clients agree on keys by an X3DH-style handshake over a bundle that
-- the server publishes, and then run a double ratchet: each message is encrypted under a key of its own, and
-- each change of direction renews the root key. The server stores accounts, device keys, one-time prekeys,
-- opaque envelopes and attachment slots in SQLite, and lets a device in by a signature over a challenge.
--
--   Base        shared names, tests, lists, byte strings, results, and state passing with errors
--   Codec       server/upm-server/src/util.rs: hexadecimal and base64; the functions of the same names at the
--               end of crates/upm-core/src/ratchet.rs have the same text and are modelled by it too
--   Protocol    crates/upm-protocol/src/lib.rs: versions, identifiers, envelopes
--   RateLimit   server/upm-server/src/ratelimit.rs
--   Crypto      crates/upm-crypto/src/lib.rs: wrappers; the libraries are the record Primitives, and what their
--               documentation promises the record Laws
--   Blobs       crates/upm-core/src/attachments.rs
--   Handshake   crates/upm-core/src/handshake.rs
--   Ratchet     crates/upm-core/src/ratchet.rs: state, key derivation, beginning and snapshots of a session
--   Session     crates/upm-core/src/ratchet.rs: encryption, decryption and the ratchet step
--   Server      server/upm-server/src/db.rs and auth.rs: the tables, and one module for each group of operations
--               (Accounts, Prekeys, Queue, Attachments, Identity and Auth, Maintenance)
--   Api         server/upm-server/src/api.rs: a request from its arrival to the answer: Paths and Requests (URL,
--               headers, log), Accounts, Login, Keys with Checks, Messages, Files with Folder (the handlers),
--               Routes (the route table) and Service (limiter, body and reply)
--   Sweep       server/upm-server/src/main.rs: run_sweep, which deletes what has expired, rows and files
--   Admin       server/upm-server/src/admin.rs: the dashboard: origin, routes, deletion, and the rows of the page
--   LocalStore  clients/upm-windows/src/local_store.rs: the encrypted database of a client: Records (pinned keys,
--               the two commits), Outbox, and the history and sessions in the parent
--   Samples     a concrete library that satisfies the laws, for the examples
--
-- State and operations. A method that takes `&mut self` or a connection is a function from the state to a
-- result beside the new state, also where it fails, since what was written before an error stays written. The
-- functions keep the names of the source; a block of a long function that has a purpose of its own is a
-- function of its own. A secret that the source draws at random, the clock, SHA-256, `to_lowercase` and
-- serde_json are arguments. A `[u8; N]`, a `Vec<u8>` and a `String` are lists of byte values, and a `HashMap`
-- is an association list. Counters of the ratchet and of the limiter are u32 and wrap as in a release build.
--
-- Tables. A table is the list of its rows in the order of their insertion. Primary keys, UNIQUE columns and
-- foreign keys that a statement can violate give the error of rusqlite. Rows with equal sort keys come in the
-- order of their insertion. The server's mutex around the connection makes each operation one step. An
-- `opaque_size` is positive, as the HTTP API checks before the call; the times that clients send are compared
-- as i64. The client's database is modelled in the same way; its clock is a natural number.
--
-- Requests. A handler is a chain of steps on the state of the server - database, limiters, files - whose early
-- returns are its errors; each lock of the connection is one step. tiny_http gives the method, URL, headers and
-- body of a request; serde_json's parsers are fields of the record Services, and an answer is the JSON value
-- before it is written as text. The clock at each place where it is read, and the random identifiers,
-- come with the request (Draws), and so does what the file system does (Disk); the one-time prekeys of one
-- publication share the time of its start. Requests that run at the same time on several threads are not
-- interleaved: a request is one step of the server.
--
-- Conversations. Session/Conversation, Session/Dialogue and Session/Beginning put the two sides together: the
-- handshake, both initial sessions, and a run of messages, each delivered before the next one is written.
--
-- Fuel. The `while` loop of `skip_receiving_keys` runs on fuel for `until` rounds: the counter moves up by one
-- in a round, so that there are not more numbers before `until`. The digits of a number are written with one round
-- more than the number: a round divides it by ten.
--
-- Not modelled: tiny_http and sockets, start-up and migrations, the generation of identifiers and keys, the
-- fixed text of the dashboard, and the clients' key store, HTTP calls and user interface, which are input and output around these parts. Each record of the client's database is sealed under a nonce
-- that is an argument, and statements of its SQLite that can only fail by a fault of the file are taken to succeed.
pub mod Base
pub mod Codec
pub mod Protocol
pub mod RateLimit
pub mod Crypto
pub mod Blobs
pub mod Handshake
pub mod Ratchet
pub mod Session
pub mod Samples
pub mod Server
pub mod Api
pub mod LocalStore
pub mod Sweep
pub mod Admin
