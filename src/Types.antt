-- ===== src/Types.antt =====
-- crates/zerolease-types/src: the types that every other part shares.
pub mod Identity
pub mod Time
pub mod Secrets
pub mod Coverage
