-- ===== src/Session.antt =====
-- src/session.rs: sessions, their policy, and the tool-to-secret bindings.
pub mod Bindings
use zerolease.Prelude.{
  ℕ, Bool, true, false, not, ◌&&◌, List, [], ◌∷◌, Text, any, ◌+ℤ◌, ◌-ℤ◌, pos, ◌==◌, text_eq,
  if◌then◌else◌,
}
use zerolease.Types.Identity.{AgentId, SecretName, DomainScope, SessionId, matches}
use zerolease.Types.Time.{TimeDelta, DateTime, later_than, hours}
use zerolease.Error.{Error, access_denied, Result, ok, err}

pub record ToolCredentialBinding : Type 0 where
  pub tool_name : Text
  pub allowed_secrets : List SecretName
  pub allowed_domains : List DomainScope

pub record SessionPolicy : Type 0 where
  pub max_session_duration : TimeDelta
  pub max_concurrent_leases : ℕ
  pub max_renewals_per_lease : ℕ
  pub tool_bindings : List ToolCredentialBinding

unfoldable pub default_dev : SessionPolicy
unfolding hours
default_dev = record {
  max_session_duration = hours 1;
  max_concurrent_leases = 10;
  max_renewals_per_lease = 3;
  tool_bindings = [];
}

pub record Session : Type 0 where
  pub id : SessionId
  pub user : Text
  pub channel : Text
  pub created_at : DateTime
  pub expires_at : DateTime
  pub policy : SessionPolicy
  pub active_lease_count : ℕ
  pub revoked : Bool

unfoldable pub new : DateTime → SessionId → Text → Text → SessionPolicy → Session
new now id user channel policy = record {
  id = id;
  user = user;
  channel = channel;
  created_at = now;
  expires_at = now +ℤ policy.max_session_duration;
  policy = policy;
  active_lease_count = 0;
  revoked = false;
}

unfoldable pub is_expired : Session → DateTime → Bool
is_expired s now = later_than now s.expires_at

unfoldable pub is_active : Session → DateTime → Bool
unfolding is_expired
is_active s now = not s.revoked && not (is_expired s now)

unfoldable pub time_remaining : Session → DateTime → TimeDelta
time_remaining s now = s.expires_at -ℤ now

unfoldable pub revoke : Session → Session
revoke s = record s { revoked = true }

abbrev pub binding_allows : ToolCredentialBinding → SecretName → DomainScope → Bool
binding_allows b secret_name domain =
    any (λ s. s == secret_name) b.allowed_secrets && any (λ d. matches d domain) b.allowed_domains

-- The loop of `check_tool_binding`.
unfoldable pub check_bindings :
    List ToolCredentialBinding → Text → SecretName → DomainScope → Result (Unit {0})
check_bindings [] tool_name secret_name domain = err (access_denied tool_name secret_name domain)
check_bindings (b ∷ rest) tool_name secret_name domain =
    let next = check_bindings rest tool_name secret_name domain in
    if b.tool_name == tool_name
    then (if binding_allows b secret_name domain then ok tt else next)
    else next

unfoldable pub check_tool_binding : Session → Text → SecretName → DomainScope → Result (Unit {0})
unfolding check_bindings
check_tool_binding s tool_name secret_name domain =
    check_bindings s.policy.tool_bindings tool_name secret_name domain
