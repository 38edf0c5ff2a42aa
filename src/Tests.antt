-- ===== src/Tests.antt =====
-- Concrete runs: a small set of backends, and the theorems at concrete inputs.
pub mod Sample
mod Components
mod Vaults
mod AuditLogs
mod Clients
mod Keys
mod Provisioning
mod Servers
mod Operations
mod Aws
mod LogQueries
mod Providers
mod SecretsManagers
mod Agents
mod Stores
mod Strandings
