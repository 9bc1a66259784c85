-- ===== src/Lib.antt =====
-- Shared Rust crates of an office automation system: common types, authentication, storage and an
-- event bus.
--
-- The program is a library of four crates. Services answer requests with the errors and pages of
-- crates/common; they find out who calls by crates/auth-sdk, keep files by crates/storage, and tell
-- each other what happened by crates/bus. The files correspond to the source as follows.
--
-- * Common (crates/common/src): Error is error.rs, with AppError, AppError::status, code, problem
--   and into_response; Pagination is pagination.rs; Validate is validate.rs.
-- * Auth (crates/auth-sdk/src): Claims is claims.rs; Access is extract.rs and guard.rs, the path of
--   a request from its Authorization header to the identity that a handler sees; ServiceToken is
--   service_token.rs; Jwt and Jwks are jwt.rs and jwks.rs.
-- * Storage (crates/storage/src): Traits is traits.rs, and Traits.Contract is the abstract
--   specification that both backends refine; Key is validate_key and resolve_within of local.rs;
--   Local is the rest of local.rs; S3 is s3.rs (S3.Construction is S3Backend::new).
-- * Bus (crates/bus/src): Message is message.rs; Client is client.rs, its commands as lists of
--   arguments (Client.Connecting is Bus::connect); Outbox is outbox.rs, with the loop of drain_once
--   as a recursion on the fetched rows; Audit is audit.rs, its statements as texts with bound
--   values (record and find are record_change and find_change); Audit.Sql reads what such a text
--   says, and the laws of the database are about what it says.
-- * Bus.Outbox.Consuming joins outbox.rs and client.rs: a round of drain_once and the read of a
--   consumer that follows it.
-- * Auth.Jwks.Issuing joins claims, jwt.rs and jwks.rs: a token from its signing to its
--   verification by another service.
-- * The Wire modules (Auth.Claims.Wire, Auth.Jwks.Wire, Common.Error.Wire, Common.Pagination.Wire)
--   are the JSON forms that serde derives from the attributes of the structs' fields, over the
--   operations of Deps.Serde; a struct is read from an object.
-- * The UnitTests modules run the repository's own unit tests on the model, each test as the
--   equations that it asserts, with parameters that are small programs.
-- * Base, Std and Deps are shared: tests and results, the parts of Rust's standard library that the
--   crates use (strings as code points, UTF-8, decimal numbers, i64 and i32 with the overflow of
--   both build profiles, paths), and the third-party crates as records of operations and laws.
--   Deps.Samples, Storage.Samples, Auth.Jwt.Samples, Bus.Samples, Bus.Outbox.Samples and the
--   Examples modules hold concrete parameters and runs.
--
-- Effects are explicit: an operation that may change a file system, an object store, a database or
-- Redis takes the state and returns a result with the next state. Those systems are parameters,
-- with their documented behaviour as named laws (FileLaws, StoreLaws, TableLaws, LogLaws,
-- TrailLaws, WireLaws, TokenLaws, Crypto). Loops are structural recursions on the data that they
-- run over, so no fuel is needed. Machine integers are written out where the code can leave their
-- range: i64 in the window of a service token, i32 in the attempts of the outbox, u32 in its count.
-- Other numbers are unbounded, and a lemma shows that the code stays in range (page offsets).
--
-- Not modelled: id.rs (a call of uuid), the Debug of S3Backend, the serde derives of types that the
-- crates never turn into JSON themselves, logging in the outbox, the SQL texts that create tables,
-- the integration tests, and what needs a real clock or real randomness. Instants are abstract
-- (Chrono), and the addition of a waiting time to an instant is taken to stay in range. A query or
-- a command is one step; what other connections do between two steps is not modelled.
pub mod Base
pub mod Std
pub mod Deps
pub mod Common
pub mod Auth
pub mod Storage
pub mod Bus
