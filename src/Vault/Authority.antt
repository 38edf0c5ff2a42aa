-- ===== src/Vault/Authority.antt =====
-- src/vault.rs: what the leases of a vault may reach, given its policy.
use zerolease.Prelude.{◌≡◌, refl, true, some, [], ◌∷◌, Text, any, arith, Member, nat_eq}
use zerolease.Types.Identity.{AgentId, SecretName, DomainScope, LeaseId, matches}
use zerolease.Types.Secrets.{LeaseTerms}
use zerolease.Types.Time.{DateTime}
use zerolease.Error.{ok}
use zerolease.Env.{Env}
use zerolease.Map.{get}
use zerolease.Map.Every.{All-get}
use zerolease.Policy.{PolicyConfig, PolicyGrant, evaluate}
use zerolease.Policy.Evaluate.{Applies, evaluate-narrows}
use zerolease.Lease.{Lease, LeaseGuard, record_use}
use zerolease.Lease
use zerolease.Vault.State.{Vault, Backends}
use zerolease.Vault.Leases.{access_secret, read_secret}
use zerolease.Vault.Access.{access_secret-ok}
use zerolease.Vault.Steps.{Run}
use zerolease.Vault.Invariant.{Kept, Run-All}

-- Each host that the lease's scopes cover is allowed by a grant of the policy, to the lease's agent
-- and for the lease's secret.
abbrev pub InPolicy : PolicyConfig → LeaseId → Lease → Type 0
InPolicy policy k l =
    (host : Text)
    → any (λ d. matches d host) l.allowed_domains ≡ true
    → (g : PolicyGrant) × Member g policy.grants × Applies g l.agent l.secret_name host

abbrev pub Anything : Env → Type 0
Anything env = Unit {0}

InPolicy-fields :
    (policy : PolicyConfig) (k : LeaseId) (l l' : Lease)
    → l'.agent ≡ l.agent
    → l'.secret_name ≡ l.secret_name
    → l'.allowed_domains ≡ l.allowed_domains
    → InPolicy policy k l
    → InPolicy policy k l'
InPolicy-fields policy k l l' a s d p host h = rw (a, s) (p host (rw d at h))

InPolicy-new :
    (policy : PolicyConfig) (now : DateTime) (id : LeaseId) (agent : AgentId) (secret : SecretName)
    (domain : DomainScope) (terms : LeaseTerms)
    → evaluate policy agent secret domain ≡ ok terms
    → InPolicy policy id (Lease.new now id agent secret (domain ∷ []) terms)
unfolding Lease.new any
InPolicy-new policy now id agent secret domain terms granted host h =
    evaluate-narrows policy agent secret domain host granted (ground arith)

InPolicy-Kept : (policy : PolicyConfig) → Kept policy Anything (InPolicy policy)
unfolding record_use Lease.renew Lease.revoke
InPolicy-Kept policy = record {
  on_issue = λ env agent secret domain terms _ granted.
      InPolicy-new policy (env.now 0) (env.uuid 0) agent secret domain terms granted;
  on_use =
      λ k l l' e p. InPolicy-fields policy k l l' (ground arith) (ground arith) (ground arith) p;
  on_renew = λ k l l' now extension e p.
      InPolicy-fields policy k l l' (ground arith) (ground arith) (ground arith) p;
  on_revoke = λ k l p. p;
  on_tie = λ k l s p. p;
}

module _ {KS SS AS : Type 0} (b : Backends KS SS AS) where
  -- No secret leaves the vault outside its policy: after any run of a vault that began with no
  -- lease, when `access_secret` reveals a secret for a host, it is through a stored lease, and some
  -- grant of the policy allows the agent of that lease the lease's secret for that very host.
  pub access_secret-Applies :
      {v w : Vault KS SS AS}
      → v.leases ≡ []
      → Run b Anything v w
      → (env : Env) (id : LeaseId) (host peer : Text) {guard : LeaseGuard}
      → (access_secret b env w id host peer).0 ≡ ok guard
      → (l : Lease) × (g : PolicyGrant) × (get w.leases id ≡ some l)
        × (read_secret b w l.secret_name ≡ ok guard.value)
        × Member g v.policy.grants
        × Applies g l.agent l.secret_name host
  access_secret-Applies {v} {w} empty run env id host peer h =
      let (l, found, usable, _, secret, _) = access_secret-ok b env w id host peer h in
      let (_, _, all) =
        Run-All v.policy v.max_leases_per_agent Anything (InPolicy v.policy)
          (InPolicy-Kept v.policy) b run refl refl (rw empty tt) in
      let (g, member, applies) =
        All-get (InPolicy v.policy) w.leases id l all found host usable.in_scope in
      (l, g, found, secret, member, applies)
