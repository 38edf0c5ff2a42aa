-- ===== src/Agent/LeaseState.antt =====
-- crates/zerolease-agent/src/lease_state.rs: the domains that the proxy lets through. The file that
-- holds them is not modelled.
use zerolease.Prelude.{ℕ, Bool, false, none, some, [], Text, text_eq}
use zerolease.Types.Time.{DateTime, later_than}
use zerolease.Map.{Map, get, retain}

pub record LeaseInfo : Type 0 where
  pub lease_id : Text
  pub expires_at : DateTime

pub record LeaseState : Type 0 where
  pub version : ℕ
  pub leases : Map Text LeaseInfo

abbrev pub lease_state_version : ℕ
lease_state_version = 1

unfoldable pub new : LeaseState
new = record { version = lease_state_version; leases = [] }

abbrev pub is_current : DateTime → LeaseInfo → Bool
is_current now info = later_than info.expires_at now

unfoldable pub is_allowed : LeaseState → DateTime → Text → Bool
is_allowed s now domain = elim (get s.leases domain) [
  | none ↦ false
  | some info ↦ is_current now info
]

unfoldable pub prune_expired : LeaseState → DateTime → LeaseState
prune_expired s now = record s { leases = retain (is_current now) s.leases }
