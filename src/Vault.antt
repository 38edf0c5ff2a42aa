-- ===== src/Vault.antt =====
-- src/vault.rs: the vault, which ties policy, store, keys, leases, sessions and audit together.
pub mod State
pub mod Leases
pub mod Renewal
pub mod Secrets
pub mod Sessions
pub mod Moves
pub mod Settings
pub mod Steps
pub mod Stored
pub mod Invariant
pub mod Access
pub mod Authority
pub mod Interleaving
pub mod Cap
pub mod Revocation
pub mod Finality
pub mod Renewals
pub mod Granting
pub mod Scoped
pub mod Collection
pub mod Rotation
pub mod Stranding
