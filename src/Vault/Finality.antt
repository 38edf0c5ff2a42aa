-- ===== src/Vault/Finality.antt =====
-- src/vault.rs: the revocation of a lease is final.
use zerolease.Prelude.{
  ℕ, ◌+◌, ◌≡◌, ◌≢◌, refl, ◌⊎◌, inl, inr, true, some, [], ◌∷◌, Text, arith, nat_eq, if◌then◌else◌,
  Bool-cases, Option-cases,
}
use zerolease.Types.Identity.{LeaseId}
use zerolease.Types.Secrets.{RevocationReason}
use zerolease.Error.{lease_not_found, lease_revoked, err}
use zerolease.Env.{Env}
use zerolease.Map.{Map, get, set}
use zerolease.Map.Every.{All, All-get, All-set}
use zerolease.Map.Distinct.{Distinct, Distinct-insert, Distinct-set, Distinct-map_values, set-only}
use zerolease.Policy.{PolicyConfig}
use zerolease.Lease.{Lease, LeaseGuard, validate, record_use}
use zerolease.Lease
use zerolease.Vault.State.{Vault, Backends, trace_and_record}
use zerolease.Vault.Leases.{access_secret, revoke_lease, use_lease}
use zerolease.Vault.Renewal.{retain_alive, is_alive}
use zerolease.Vault.Moves.{
  LeaseMove, keep, issue, spend, renew, revoke_one, revoke_some, tie, collect, both, revoke_if,
}
use zerolease.Vault.Steps.{Run, done, then_step, Step-Refines}
use zerolease.Vault.Invariant.{Kept, Run-All, All-retain_alive}

-- The ids that `LeaseId::new` draws are not the id `k`: uuids are drawn at random.
abbrev pub Avoids : LeaseId → Env → Type 0
Avoids k env = env.uuid 0 ≢ k

abbrev pub Some : Env → Type 0
Some env = Unit {0}

-- Each lease stands under its own id, and the one under `id` is revoked.
abbrev pub Dead : LeaseId → LeaseId → Lease → Type 0
Dead id k l = (l.id ≡ k) × (k ≡ id → l.revoked ≡ true)

abbrev OwnId : LeaseId → Lease → Type 0
OwnId k l = l.id ≡ k

OwnId-Kept : (policy : PolicyConfig) → Kept policy Some OwnId
unfolding record_use Lease.new Lease.renew Lease.revoke
OwnId-Kept policy = record {
  on_issue = λ env agent secret domain terms _ _. refl;
  on_use = λ k l l' e p. ground arith;
  on_renew = λ k l l' now extension e p. ground arith;
  on_revoke = λ k l p. p;
  on_tie = λ k l s p. p;
}

Dead-Kept : (policy : PolicyConfig) (id : LeaseId) → Kept policy (Avoids id) (Dead id)
unfolding record_use Lease.new Lease.renew Lease.revoke
Dead-Kept policy id = record {
  on_issue = λ env agent secret domain terms fresh _. (refl, λ p. absurd (fresh p));
  on_use = λ k l l' e p. (ground (arith, p.0), λ h. ground (arith, p.1 h));
  on_renew = λ k l l' now extension e p. (ground (arith, p.0), λ h. ground (arith, p.1 h));
  on_revoke = λ k l p. (p.0, λ _. refl);
  on_tie = λ k l s p. p;
}

Distinct-retain_alive :
    (env : Env) (i : ℕ) (m : Map LeaseId Lease) → Distinct m → Distinct (retain_alive env i m)
unfolding retain_alive
Distinct-retain_alive env i [] d = tt
Distinct-retain_alive env i ((j, l) ∷ m) d =
    let i' = if l.revoked then i else i + 1 in
    let rest = Distinct-retain_alive env i' m d.1 in
    elim (Bool-cases (is_alive env i l)) [
      | inl alive ↦ rw alive (All-retain_alive (λ k _. k ≢ j) env i' m d.0, rest)
      | inr dead ↦ rw dead rest
    ]

revoke-OwnId : (k : LeaseId) (l : Lease) → OwnId k l → OwnId k (Lease.revoke l)
unfolding Lease.revoke
revoke-OwnId k l p = p

revoke-revoked : (l : Lease) → (Lease.revoke l).revoked ≡ true
unfolding Lease.revoke
revoke-revoked l = refl

module _ (policy : PolicyConfig) (cap : ℕ) (Draws : Env → Type 0) where
  LeaseMove-Distinct :
      {m n : Map LeaseId Lease} → LeaseMove policy cap Draws m n → Distinct m → Distinct n
  LeaseMove-Distinct (keep e) d = rw e d
  LeaseMove-Distinct (issue m env agent secret domain terms _ e below) d = Distinct-insert m _ _ d
  LeaseMove-Distinct (spend m id l l' now host found valid used) d = Distinct-set m id l' d
  LeaseMove-Distinct (renew m id l l' now extension found e) d = Distinct-set m id l' d
  LeaseMove-Distinct (revoke_one m id l found) d = Distinct-set m id _ d
  LeaseMove-Distinct (revoke_some m sel) d = Distinct-map_values (revoke_if sel) m d
  LeaseMove-Distinct (tie m id l session found) d = Distinct-set m id _ d
  LeaseMove-Distinct (collect m env i) d = Distinct-retain_alive env i m d
  LeaseMove-Distinct (both p q) d = LeaseMove-Distinct q (LeaseMove-Distinct p d)

All-both :
    (P Q : LeaseId → Lease → Type 0) (m : Map LeaseId Lease)
    → All P m
    → All Q m
    → All (λ k l. P k l × Q k l) m
All-both P Q [] a b = tt
All-both P Q ((j, l) ∷ m) a b = ((a.0, b.0), All-both P Q m a.1 b.1)

module _ {KS SS AS : Type 0} (b : Backends KS SS AS) where
  Run-Distinct :
      (Draws : Env → Type 0) {v w : Vault KS SS AS}
      → Run b Draws v w
      → Distinct v.leases
      → Distinct w.leases
  Run-Distinct Draws done d = d
  Run-Distinct Draws (then_step r s) d =
      LeaseMove-Distinct _ _ Draws (Step-Refines b Draws s).1 (Run-Distinct Draws r d)

  revoke_lease-keeps :
      (env : Env) (v : Vault KS SS AS) (id : LeaseId) (reason : RevocationReason) (peer : Text)
      (l : Lease)
      → get v.leases id ≡ some l
      → let w = (revoke_lease b env v id reason peer).1 in
        (w.leases ≡ set v.leases id (Lease.revoke l))
        × (w.policy ≡ v.policy)
        × (w.max_leases_per_agent ≡ v.max_leases_per_agent)
  unfolding revoke_lease trace_and_record
  revoke_lease-keeps env v id reason peer l found = (ground arith, ground arith, ground arith)

  use_lease-Dead :
      (env : Env) (v : Vault KS SS AS) (id : LeaseId) (host : Text)
      → All (Dead id) v.leases
      → (use_lease env v id host ≡ (err (lease_not_found id), v))
        ⊎ (use_lease env v id host ≡ (err (lease_revoked id), v))
  unfolding use_lease validate
  use_lease-Dead env v id host all = elim (Option-cases (get v.leases id)) [
    | inl missing ↦ inl (ground arith)
    | inr (l, found) ↦
        let (own, dead) = All-get (Dead id) v.leases id l all found in
        inr (ground (arith, own, dead refl))
  ]

  -- A revoked lease never reveals a secret again: once `revoke_lease` was called on a lease
  -- of a vault that began with none, whether or not the audit log then took the entry, no
  -- later operation brings it back, as long as no new lease is drawn under the same id;
  -- `access_secret` refuses it as revoked, or as not found once it was collected, and
  -- changes nothing.
  pub revoke_lease-final :
      {u v w : Vault KS SS AS}
      → u.leases ≡ []
      → Run b Some u v
      → (env : Env) (id : LeaseId) (reason : RevocationReason) (peer : Text) (l : Lease)
      → get v.leases id ≡ some l
      → Run b (Avoids id) (revoke_lease b env v id reason peer).1 w
      → (env' : Env) (host peer' : Text)
      → (access_secret b env' w id host peer' ≡ (err (lease_not_found id), w))
        ⊎ (access_secret b env' w id host peer' ≡ (err (lease_revoked id), w))
  unfolding access_secret
  revoke_lease-final {u} {v} {w} empty before env id reason peer l found after env' host peer' =
      let x = (revoke_lease b env v id reason peer).1 in
      let (moved, _, _) = revoke_lease-keeps env v id reason peer l found in
      let distinct = Run-Distinct Some before (rw empty tt) in
      let (_, _, own) =
        Run-All u.policy u.max_leases_per_agent Some OwnId (OwnId-Kept u.policy) b before refl refl
          (rw empty tt) in
      let own' =
        All-set OwnId v.leases id (Lease.revoke l) own
          (revoke-OwnId id l (All-get OwnId v.leases id l own found)) in
      let only =
        set-only (λ k. k.revoked ≡ true) v.leases id (Lease.revoke l) distinct (revoke-revoked l) in
      let start : All (Dead id) x.leases = rw moved (
        All-both OwnId (λ j k. j ≡ id → k.revoked ≡ true) (set v.leases id (Lease.revoke l)) own'
          only) in
      let (_, _, all) =
        Run-All x.policy x.max_leases_per_agent (Avoids id) (Dead id) (Dead-Kept x.policy id) b
          after refl refl start in
      elim (use_lease-Dead env' w id host all) [ inl e ↦ inl (rw e refl) | inr e ↦ inr (rw e refl) ]
