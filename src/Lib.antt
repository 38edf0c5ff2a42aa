-- ===== src/Lib.antt =====
-- Verification library of zerolease, a vault that leases secrets to agents.
--
-- An agent asks the vault for a lease on a secret for one domain. The policy decides; the lease that is
-- issued is used through `access_secret` for hosts that its domain covers, until it expires, is used up
-- or is revoked. Sessions bound to tools narrow this further, and a server gives the operations to
-- clients by role. The files, and the code that each models:
--
--   Prelude      byte strings as lists of numbers, native lists, signed numbers, std's UTF-8 check
--   Types        crates/zerolease-types: ids, `DomainScope::matches`, terms, grants, kinds, times
--   Error, Env   src/error.rs; the clock, uuids and random bytes that an operation draws, numbered
--   Map          std's `HashMap` as a list of its entries
--   Policy       src/policy/mod.rs, `PolicyEngine::evaluate`
--   Lease        src/lease.rs, the lease and its checks
--   Session      src/session.rs, sessions and their tool bindings
--   Audit        src/audit/mod.rs, the entries; the log is an interface
--   Crypto       src/crypto.rs, with the aead crates as a parameter
--   Store        src/store/mod.rs, the interface of stores and the parsers of stored names
--   Sqlite       crates/zerolease-store-rusqlite/src/store.rs, the store as a table of rows; its child AuditLog is
--                src/audit.rs there, the log as a table whose rows are chained by hashes
--   Postgres     crates/zerolease-store-postgres/src/store.rs, the same table with the statements of Postgres
--   SecretsManager  crates/zerolease-store-aws-sm/src/store.rs, the store on AWS: Operations, and Listing for `list`;
--                Backend puts the vault on it
--   KeySources   src/keysource/env.rs, keychain.rs and kms.rs, where the key comes from
--   Vault        src/vault.rs: State (the vault and its parameters), Leases, Renewal, Secrets and Sessions
--                hold the operations under the names they have there. A long operation is cut at its
--                numbered steps: `request_lease_scoped` is `check_session`, then `lease_in_session`.
--                Moves, Settings, Steps and Invariant view the vault as a state machine; the other children prove
--                properties of the operations and of runs.
--   Transport    src/transport/mod.rs, who a peer is
--   Auth         src/auth.rs, roles and the table of tokens
--   Protocol     src/protocol/mod.rs and frame.rs, messages, error codes and framing
--   Server       src/server.rs: Dispatch is `dispatch`, Connection is `handle_connection`
--   Client       src/client.rs, the calls over a stream; Remote puts the request loop at its other end
--   Agent        crates/zerolease-agent, a child for each part. The proxy: LeaseState, Refresh, Connect, Sni and
--                Transparent, from src/lease_state.rs and src/proxy. The provisioner: Manifest, Template, Shell and
--                Provision, from src/manifest.rs, config_writer.rs and provision.rs. The git helper: GitCredential.
--   Provider     crates/zerolease-provider/src, credentials for tools and the worker that revokes their leases
--   Tests        small backends that run, and the theorems at concrete inputs
--
-- State is passed explicitly: an operation takes the vault and gives a result with the vault that it
-- leaves, also when it fails. In a step or a run an operation goes from its first lock to its last
-- with no other in between. `Vault.Interleaving` cuts `request_lease` where the code gives its lock
-- back, between the check of the cap and the rest, and lets every other call in there; of the other
-- operations, what happens between their locks is not modelled. Instants and durations are
-- nanoseconds in ℤ, ids are numbers, a `u32` wraps at 2^32. The store, the audit log, the key source,
-- the cipher crates, serde_json, base64, SHA-256, KMS, Secrets Manager, the keychain, the resolver of
-- names and the authenticator are parameters. A table of SQLite is the list of its rows in the order
-- of insertion. Rows with equal timestamps keep that order: when the whole log is sorted, by its index
-- on the time, the newest of them is the last; when a query selects by another column, its index
-- gives them in that order, and the sort by descending time leaves it. What a time column of Postgres
-- keeps of a time is a parameter. `Vault.Stored` names what the vault relies on of a store, and
-- `Vault.Stranding` what a rotation does. Of a write to Secrets Manager that ends with an error other
-- than those of the service, such as a timeout, it is open whether it was made. A stream of the client
-- is a function of the bytes that are sent to it, and in Remote that function is the server's request
-- loop on the bytes of one request. The provisioner and the git helper make the client's calls through
-- a record, and a file is a path that can be written or not.
--
-- Fuel: the request loop of a connection takes one unit per frame, and each frame takes at least four
-- bytes of the input, so that one more than its length is enough. The SNI parser takes one unit for
-- each name (three bytes at least) and for each extension (four bytes), the words of a line one for
-- each byte, and the decimal digits of a number are at most as many as the number, or one; each has
-- one unit more than that. To trim a text takes one unit for each byte, and a listing of Secrets
-- Manager one for each page; a listing as such has no bound on its pages.
--
-- Not modelled: the wiping of memory, logging, the accept loops and their tasks, the copying of bytes
-- through a tunnel, sockets and TLS, the audit log on Postgres, the configuration files and the
-- command line of the agent, and the modes of the files that it writes.
--
mod Prelude
pub mod Types
pub mod Error
mod Map
mod Env
pub mod Policy
pub mod KeySources
pub mod Lease
pub mod Session
pub mod Audit
pub mod Client
pub mod Crypto
pub mod Store
pub mod Vault
pub mod Transport
pub mod Auth
mod Tests
pub mod Protocol
pub mod Sqlite
pub mod Postgres
pub mod SecretsManager
pub mod Server
pub mod Agent
pub mod Provider
