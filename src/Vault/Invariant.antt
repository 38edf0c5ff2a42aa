-- ===== src/Vault/Invariant.antt =====
-- src/vault.rs: properties of every lease of the table, through any run of the vault.
use zerolease.Prelude.{
  ℕ, ◌+◌, inl, inr, ◌≡◌, ◌∙◌, Bool, not, ◌&&◌, some, [], ◌∷◌, nat_eq, Bool-cases, if◌then◌else◌,
}
use zerolease.Types.Identity.{AgentId, SecretName, DomainScope, LeaseId, SessionId}
use zerolease.Types.Secrets.{LeaseTerms}
use zerolease.Types.Time.{DateTime, TimeDelta}
use zerolease.Error.{ok}
use zerolease.Env.{Env}
use zerolease.Map.{Map}
use zerolease.Map.Every.{All, All-get, All-insert, All-set, All-map_values}
use zerolease.Policy.{PolicyConfig, evaluate}
use zerolease.Lease.{Lease, record_use}
use zerolease.Lease
use zerolease.Vault.State.{Vault, Backends}
use zerolease.Vault.Renewal.{retain_alive, is_alive}
use zerolease.Vault.Moves.{
  LeaseMove, keep, issue, spend, renew, revoke_one, revoke_some, tie, collect, both, revoke_if,
}
use zerolease.Vault.Steps.{Run, done, then_step, same_LeaseMove, Step-Refines}

-- What a property of the leases must satisfy to hold through every move.
pub record Kept (policy : PolicyConfig) (Draws : Env → Type 0) (P : LeaseId → Lease → Type 0)
    : Type 0 where
  pub on_issue :
      (env : Env) (agent : AgentId) (secret : SecretName) (domain : DomainScope)
      (terms : LeaseTerms)
      → Draws env
      → evaluate policy agent secret domain ≡ ok terms
      → P (env.uuid 0) (Lease.new (env.now 0) (env.uuid 0) agent secret (domain ∷ []) terms)
  pub on_use : (k : LeaseId) (l l' : Lease) → record_use l ≡ ok l' → P k l → P k l'
  pub on_renew :
      (k : LeaseId) (l l' : Lease) (now : DateTime) (extension : TimeDelta)
      → Lease.renew l now extension ≡ ok l'
      → P k l
      → P k l'
  pub on_revoke : (k : LeaseId) (l : Lease) → P k l → P k (Lease.revoke l)
  pub on_tie :
      (k : LeaseId) (l : Lease) (s : SessionId) → P k l → P k (record l { session_id = some s })

pub All-retain_alive :
    (P : LeaseId → Lease → Type 0) (env : Env) (i : ℕ) (m : Map LeaseId Lease)
    → All P m
    → All P (retain_alive env i m)
unfolding retain_alive
All-retain_alive P env i [] a = tt
All-retain_alive P env i ((j, l) ∷ m) a =
    let rest = All-retain_alive P env (if l.revoked then i else i + 1) m a.1 in
    elim (Bool-cases (is_alive env i l)) [
      | inl alive ↦ rw alive (a.0, rest)
      | inr dead ↦ rw dead rest
    ]

module _ (policy : PolicyConfig) (cap : ℕ) (Draws : Env → Type 0) (P : LeaseId → Lease → Type 0)
    (kept : Kept policy Draws P) where
  revoked_if : (sel : Lease → Bool) (k : LeaseId) (l : Lease) → P k l → P k (revoke_if sel l)
  revoked_if sel k l p = elim (Bool-cases (sel l && not l.revoked)) [
    | inl hit ↦ rw hit (kept.on_revoke k l p)
    | inr miss ↦ rw miss p
  ]

  pub LeaseMove-All : {m n : Map LeaseId Lease} → LeaseMove policy cap Draws m n → All P m → All P n
  LeaseMove-All (keep e) a = rw e a
  LeaseMove-All (issue m env agent secret domain terms d e below) a =
      All-insert P m _ _ a (kept.on_issue env agent secret domain terms d e)
  LeaseMove-All (spend m id l l' now host found valid used) a =
      All-set P m id l' a (kept.on_use id l l' used (All-get P m id l a found))
  LeaseMove-All (renew m id l l' now extension found e) a =
      All-set P m id l' a (kept.on_renew id l l' now extension e (All-get P m id l a found))
  LeaseMove-All (revoke_one m id l found) a =
      All-set P m id _ a (kept.on_revoke id l (All-get P m id l a found))
  LeaseMove-All (revoke_some m sel) a = All-map_values P (revoke_if sel) m (revoked_if sel) a
  LeaseMove-All (tie m id l session found) a =
      All-set P m id _ a (kept.on_tie id l session (All-get P m id l a found))
  LeaseMove-All (collect m env i) a = All-retain_alive P env i m a
  LeaseMove-All (both p q) a = LeaseMove-All q (LeaseMove-All p a)

  pub Run-All :
      {KS SS AS : Type 0} (b : Backends KS SS AS) {v w : Vault KS SS AS}
      → Run b Draws v w
      → v.policy ≡ policy
      → v.max_leases_per_agent ≡ cap
      → All P v.leases
      → (w.policy ≡ policy) × (w.max_leases_per_agent ≡ cap) × All P w.leases
  Run-All b done p c a = (p, c, a)
  Run-All b (then_step r s) p c a =
      let (q, d, x) = Run-All b r p c a in
      let ((same, same'), move) = Step-Refines b Draws s in
      (same ∙ q, same' ∙ d, LeaseMove-All (same_LeaseMove b Draws q d move) x)
