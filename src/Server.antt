-- ===== src/Server.antt =====
-- src/server.rs: the dispatch of requests by role, and the handling of one connection.
--
-- serde_json and base64 are parameters: `Codec`, over a type of JSON values. A request finds the
-- vault as the requests before it, on any connection, left it.
pub mod Dispatch
pub mod Access
pub mod Connection
pub mod Handler
