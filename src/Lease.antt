-- ===== src/Lease.antt =====
-- src/lease.rs: a lease and its methods. `LeaseGuard` is a pair of the lease's id and the secret;
-- its zeroing on drop is not modelled.
pub mod Lifecycle
use mathlib.Core.Option
use zerolease.Prelude.{
  ℕ, ◌+◌, ◌-◌, ◌%◌, Bool, true, false, Option, none, some, List, Text, any, leb, ◌+ℤ◌, ◌-ℤ◌,
  if◌then◌else◌,
}
use zerolease.Types.Identity.{AgentId, SecretName, DomainScope, LeaseId, SessionId, matches}
use zerolease.Types.Time.{TimeDelta, DateTime, later_than}
use zerolease.Types.Secrets.{LeaseTerms, LeaseGrant}
use zerolease.Error.{
  Error, lease_revoked, lease_expired, access_denied, invalid_config, not_renewable, Result, ok,
  err, ◌>>=◌, ◌>>◌,
}
use zerolease.Env.{Env}

-- A `u32` counter, in a release build.
abbrev pub u32_mod : ℕ
u32_mod = 4294967296

abbrev pub inc_u32 : ℕ → ℕ
inc_u32 n = (n + 1) % u32_mod

pub record Lease : Type 0 where
  pub id : LeaseId
  pub agent : AgentId
  pub secret_name : SecretName
  pub allowed_domains : List DomainScope
  pub issued_at : DateTime
  pub expires_at : DateTime
  pub renewable : Bool
  pub max_uses : Option ℕ
  pub use_count : ℕ
  pub revoked : Bool
  pub session_id : Option SessionId
  pub renewal_count : ℕ

-- `Lease::new`, at the time `now` and with the id that is drawn.
unfoldable pub new :
    DateTime → LeaseId → AgentId → SecretName → List DomainScope → LeaseTerms → Lease
new now id agent secret_name allowed_domains terms = record {
  id = id;
  agent = agent;
  secret_name = secret_name;
  allowed_domains = allowed_domains;
  issued_at = now;
  expires_at = now +ℤ terms.ttl;
  renewable = terms.renewable;
  max_uses = terms.max_uses;
  use_count = 0;
  revoked = false;
  session_id = none;
  renewal_count = 0;
}

-- `if let Some(max) = self.max_uses && self.use_count >= max`
unfoldable pub is_exhausted : Option ℕ → ℕ → Bool
is_exhausted none use_count = false
is_exhausted (some max) use_count = leb max use_count

unfoldable pub validate : Lease → DateTime → Text → Result (Unit {0})
unfolding is_exhausted
validate l now target_domain =
    if l.revoked
    then err (lease_revoked l.id)
    else (if later_than now l.expires_at
        then err (lease_expired l.id)
        else (if is_exhausted l.max_uses l.use_count
            then err (lease_expired l.id)
            else (if any (λ d. matches d target_domain) l.allowed_domains
                then ok tt
                else err (access_denied l.agent l.secret_name target_domain))))

unfoldable pub record_use : Lease → Result Lease
unfolding is_exhausted
record_use l =
    if is_exhausted l.max_uses l.use_count
    then err (lease_expired l.id)
    else ok (record l { use_count = inc_u32 l.use_count })

unfoldable pub renew : Lease → DateTime → TimeDelta → Result Lease
renew l now extension =
    if l.revoked
    then err (lease_revoked l.id)
    else (if l.renewable
        then ok
            (record l { expires_at = now +ℤ extension; renewal_count = inc_u32 l.renewal_count })
        else err (invalid_config (not_renewable l.id)))

unfoldable pub revoke : Lease → Lease
revoke l = record l { revoked = true }

unfoldable pub time_remaining : Lease → DateTime → TimeDelta
time_remaining l now = l.expires_at -ℤ now

-- `LeaseGrant::from(&lease)`; `saturating_sub` is `-` on ℕ.
unfoldable pub grant_of : Lease → LeaseGrant
grant_of l = record {
  lease_id = l.id;
  secret_name = l.secret_name;
  allowed_domains = l.allowed_domains;
  expires_at = l.expires_at;
  renewable = l.renewable;
  remaining_uses = Option.map (λ max. max - l.use_count) l.max_uses;
}

-- What the holder of a lease gets: the id of the lease and the secret.
pub record LeaseGuard : Type 0 where
  pub lease_id : LeaseId
  pub value : Text
