-- ===== src/Lib.antt =====
-- pgCK: the Rust side of the PostgreSQL extension, which bridges governed writes to NATS and decides
-- who may connect to the broker.
--
-- The program. `src/nats/` is a small NATS server: `parser.rs` reads a client's control lines and
-- `router.rs` keeps the subscriptions of one connection. `src/jwt_verify.rs` decides whether a token
-- proves an identity; `src/auth_callout.rs` answers the broker's authorization requests with a signed
-- user JWT whose permissions follow from that decision and from the kernels of the policy, which
-- `src/lib.rs` keeps in caches that the worker refreshes. `src/nats_client.rs` routes what connections
-- publish to the governed dispatch, under the identity that the subject names.
--
-- The modules.
--   Prelude        shared names, Boolean tests, lists, i64 (with its wrap-around) and `Result`
--   Text           `str` as a list of code points: splitting, trimming, decimals, words, UTF-8
--   BTreeMap       an ordered map as an association list with ascending keys
--   Json           `serde_json::Value`, its accessors and `json!`
--   Libraries      third-party code as parameters: base64, serde_json, Ed25519, nkeys, digests
--   Nats.Parser    src/nats/parser.rs: `parse_line` and the arms of its match
--   Nats.Router    src/nats/router.rs: `Router` and `matches`; `Router::remove` is `unsubscribe`
--   Jwt            src/jwt_verify.rs: `verify_eddsa`, `Jwks::parse` (`parse_jwks`), `verify_jwt`,
--                  `AuthConfig` and `callout_identity`
--   Policy         src/lib.rs: the settings and the two caches, `refresh_callout_policy` and the rest
--   Relay          src/nats_client.rs: `route_inbound`, headers, credentials and the retry delays
--   Callout        src/auth_callout.rs: `Grants`, `Request` and `Mint` hold the operations,
--                  `handle_request` composes them; `Claims` is what the broker reads of them, the other
--                  children hold the proofs
--   Nats.Server    src/nats/server.rs: `read_client_message` on a stream, `handle_client` as steps
--   Nats.Hub       src/nats/server.rs: `serve`, all connections over one broadcast channel
--   Client         src/nats_client.rs: the command queue, `publish`, `publish_js` and the thread's loop
--   Outbox         src/publish_drain.rs: `drain_once` on what its query returns
--   Inbound        src/inbound_dispatch.rs and the relay's loop: the queue, `dispatch_one`, the replies
--   Worker         src/bgworker.rs: a tick of each build, and ticks in a row
--   Bridge         src/lib.rs: `_PG_init` and `pgck_bridge_main`
--   Drains         src/materialize_drain.rs and src/orbit_drain.rs: `drain_once` of each
--   Threads        src/nats_client.rs: `run_relay_thread`, `run_callout`, `init_relay`
--   Identity       one theorem over admission, policy, grants, routing and dispatch
--   Answered       one theorem over the relay, the dispatch and the publisher
--   Tests          concrete libraries, runs, and the theorems applied to concrete inputs
--
-- State and errors. State is passed explicitly; a missing value is an `Option` and an error a `Result`
-- with the source's error. Texts are code points; bytes are numbers. An i64 addition wraps, as in a
-- release build. base64, serde_json, Ed25519 and nkeys are arguments of the definitions; the laws that
-- the proofs use of them are `CodecLaws` (decoding undoes encoding, base64url has no dot, what
-- `json!` builds prints and parses back) and a signing key that signs. PostgreSQL is the argument `Spi`,
-- and `SpiLaws` says that `set_config` sets the setting it names and no other. What happens at the same
-- time is a sequence of steps: the events of a connection, the actions that arrive between two ticks.
--
-- Fuel. `connect_with_retry` has fuel for the attempts; any fuel above the number of failed attempts is
-- enough. Every other loop is structural.
--
-- The broker outside the process is a parameter too: whether it takes a subscription, and what each
-- stream yields. `BroadcastLaws` is what tokio documents of its broadcast channel, and
-- `ReloadLaws` what PostgreSQL documents of a reload of its configuration file.
--
-- Not modelled: PostgreSQL's SQL functions, the registration of the worker, the version strings (the
-- build supplies them), write errors of sockets, poisoned locks, and logging.
mod Prelude
pub mod Text
pub mod BTreeMap
pub mod Nats
pub mod Json
pub mod Libraries
pub mod Jwt
pub mod Policy
pub mod Relay
pub mod Callout
pub mod Client
pub mod Outbox
pub mod Inbound
pub mod Drains
pub mod Threads
pub mod Identity
pub mod Answered
pub mod Worker
pub mod Bridge
mod Tests
