-- ===== src/Agent.antt =====
-- crates/zerolease-agent: the agent's side, in the virtual machine that uses the secrets.
pub mod LeaseState
pub mod Pruning
pub mod Refresh
pub mod Address
pub mod Connect
pub mod Tunnel
pub mod Sni
pub mod Transparent
pub mod Manifest
pub mod Shell
pub mod Template
pub mod Provision
pub mod GitCredential
