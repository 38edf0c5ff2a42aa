-- ===== src/Policy.antt =====
-- src/policy/mod.rs: the policy engine. `PolicyEngine::new` only logs warnings on suspicious
-- grants; the parsing of the configuration file is serde's.
pub mod Evaluate
use zerolease.Prelude.{
  ℕ, Bool, true, false, Option, none, some, List, [], ◌∷◌, Text, starts_with, any, filter, ◌==◌,
  text_eq, if◌then◌else◌,
}
use zerolease.Types.Identity.{AgentId, SecretName, DomainScope, matches}
use zerolease.Types.Secrets.{LeaseTerms}
use zerolease.Error.{Error, access_denied, Result, ok, err}

pub data AgentPattern : Type 0 where
  exact : AgentId → AgentPattern
  prefix : Text → AgentPattern
  any_agent : AgentPattern

pub data SecretPattern : Type 0 where
  exact : SecretName → SecretPattern
  prefix : Text → SecretPattern
  any_secret : SecretPattern

unfoldable pub agent_matches : AgentPattern → AgentId → Bool
agent_matches (AgentPattern.exact id) agent = id == agent
agent_matches (AgentPattern.prefix p) agent = starts_with agent p
agent_matches any_agent agent = true

unfoldable pub secret_matches : SecretPattern → SecretName → Bool
secret_matches (SecretPattern.exact n) name = n == name
secret_matches (SecretPattern.prefix p) name = starts_with name p
secret_matches any_secret name = true

pub record PolicyGrant : Type 0 where
  pub agent : AgentPattern
  pub secret : SecretPattern
  pub allowed_domains : List DomainScope
  pub lease_terms : Option LeaseTerms

pub record PolicyConfig : Type 0 where
  pub default_lease_terms : LeaseTerms
  pub grants : List PolicyGrant

abbrev pub any_domain : List DomainScope → Text → Bool
any_domain domains host = any (λ d. matches d host) domains

-- `lease_terms.clone().unwrap_or_else(|| default)`
unfoldable pub terms_of : PolicyConfig → PolicyGrant → LeaseTerms
terms_of config grant = elim grant.lease_terms [
  | none ↦ config.default_lease_terms
  | some terms ↦ terms
]

-- The loop of `evaluate`; each `continue` is the call on the rest.
unfoldable pub evaluate_grants :
    PolicyConfig → List PolicyGrant → AgentId → SecretName → DomainScope → Result LeaseTerms
evaluate_grants config [] agent secret domain = err (access_denied agent secret domain)
evaluate_grants config (grant ∷ rest) agent secret domain =
    let next = evaluate_grants config rest agent secret domain in
    if agent_matches grant.agent agent
    then (if secret_matches grant.secret secret
        then (if any_domain grant.allowed_domains domain then ok (terms_of config grant) else next)
        else next)
    else next

unfoldable pub evaluate : PolicyConfig → AgentId → SecretName → DomainScope → Result LeaseTerms
unfolding evaluate_grants
evaluate config agent secret domain = evaluate_grants config config.grants agent secret domain

unfoldable pub grants_for_agent : PolicyConfig → AgentId → List PolicyGrant
grants_for_agent config agent = filter (λ g. agent_matches g.agent agent) config.grants
