-- ===== src/Vault/Collection.antt =====
-- src/vault.rs: which leases `gc_leases` keeps.
use zerolease.Prelude.{
  ℕ, ◌+◌, ◌≤◌, ◌≡◌, ◌≢◌, refl, ap, subst, ◌∙◌, inl, inr, Bool, none, some, [], ◌∷◌, arith, nat_eq,
  ◌==◌, if◌then◌else◌, length, Bool-cases, nat_beq_iff,
}
use zerolease.Types.Identity.{LeaseId}
use zerolease.Env.{Env}
use zerolease.Map.{Map, get}
use zerolease.Map.Distinct.{Distinct, Absent, get-Absent}
use zerolease.Lease.{Lease}
use zerolease.Vault.State.{Vault}
use zerolease.Vault.Renewal.{is_alive, retain_alive, gc_leases}
use zerolease.Vault.Invariant.{All-retain_alive}

module _ (env : Env) (id : LeaseId) (l : Lease) (t : Bool)
    (steady : (i : ℕ) → is_alive env i l ≡ t) where
  get-retain_alive :
      (i : ℕ) (m : Map LeaseId Lease)
      → Distinct m
      → get m id ≡ some l
      → get (retain_alive env i m) id ≡ (if t then some l else none)
  unfolding retain_alive get
  get-retain_alive i [] d found = absurd (ground arith)
  get-retain_alive i ((j, k) ∷ m) d found =
      let i' = if k.revoked then i else i + 1 in
      elim (Bool-cases (j == id)) [
        | inl same ↦
            let gone : Absent id m = subst (λ x. Absent x m) ((nat_beq_iff j id).0 same) d.0 in
            let after =
              get-Absent (retain_alive env i' m) id
                (All-retain_alive (λ x _. x ≢ id) env i' m gone) in
            let e : k ≡ l = ground arith in
            let alive : is_alive env i k ≡ t = ap (is_alive env i) e ∙ steady i in
            elim (Bool-cases t) [
              | inl lives ↦ rw (alive, lives, same, e) refl
              | inr dies ↦ rw (alive, dies) after
            ]
        | inr other ↦
            let rest = get-retain_alive i' m d.1 (ground arith) in
            elim (Bool-cases (is_alive env i k)) [
              | inl lives ↦ rw (lives, other) rest
              | inr dies ↦ rw dies rest
            ]
      ]

length-retain_alive-le :
    (env : Env) (i : ℕ) (m : Map LeaseId Lease) → length (retain_alive env i m) ≤ length m
unfolding retain_alive
length-retain_alive-le env i [] = omega arith
length-retain_alive-le env i ((j, k) ∷ m) =
    let rest = length-retain_alive-le env (if k.revoked then i else i + 1) m in
    elim (Bool-cases (is_alive env i k)) [
      | inl lives ↦ rw lives (omega arith)
      | inr dies ↦ rw dies (omega arith)
    ]

module _ {KS SS AS : Type 0} (env : Env) (v : Vault KS SS AS) where
  -- A collection keeps, unchanged, each lease that is alive (not revoked, with at least a
  -- second left) at every reading of the clock during the pass, drops each that is dead at
  -- every reading, and answers with the number of leases that it dropped.
  pub gc_leases-alive :
      (id : LeaseId) (l : Lease) (t : Bool)
      → Distinct v.leases
      → get v.leases id ≡ some l
      → ((i : ℕ) → is_alive env i l ≡ t)
      → (get (gc_leases env v).1.leases id ≡ (if t then some l else none))
        × ((gc_leases env v).0 + length (gc_leases env v).1.leases ≡ length v.leases)
  unfolding gc_leases
  gc_leases-alive id l t d found steady =
      let le = length-retain_alive-le env 0 v.leases in
      (get-retain_alive env id l t steady 0 v.leases d found, omega arith)
