-- ===== src/KeySources.antt =====
-- src/keysource: where the key of the vault comes from. Environment reads it from a
-- variable, Keychain keeps it in an entry of the operating system, Kms keeps it in a file,
-- sealed by a service.
pub mod Environment
pub mod Keychain
pub mod Kms
