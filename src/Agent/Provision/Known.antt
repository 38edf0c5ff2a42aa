-- ===== src/Agent/Provision/Known.antt =====
-- crates/zerolease-agent/src/provision.rs with src/vault.rs: the leases that the vault
-- holds while the provisioner acquires its credentials, against the list that it keeps.
use zerolease.Prelude.{
  ℕ, ◌+◌, ◌≡◌, refl, sym, ap, ◌∙◌, inl, inr, none, some, List, [], ◌∷◌, ◌++◌, Text, codes, arith,
  nat_eq, ◌==◌, Member, here, there, Bool-cases, Option-cases,
}
use zerolease.Types.Identity.{Uuid, LeaseId, AgentId, SecretName, DomainScope}
use zerolease.Types.Secrets.{LeaseGrant}
use zerolease.Env.{Env}
use zerolease.Error.{Result, ok, err, Result-cases}
use zerolease.Map.{Map, get, set, insert, get-insert, get-set_ne}
use zerolease.Lease.{Lease, validate, record_use}
use zerolease.Lease
use zerolease.Vault.State.{Vault, Backends}
use zerolease.Vault.Leases.{use_lease, revoke_lease}
use zerolease.Vault.Leases
use zerolease.Vault.Moves.{access_secret-leases}
use zerolease.Vault.Granting.{issued, request_lease-ok, request_lease-err}
use zerolease.Client.Remote.{Serving}
use zerolease.Agent.Manifest.{CredentialEntry, CredentialManifest}
use zerolease.Agent.Provision.{
  VaultCalls, Machine, Provisioned, Acquiring, use_grant, acquire_entry, acquire_credentials, go_on,
}
use zerolease.Agent.Provision.Acquired.{provide-acquired}

abbrev pub Server : Type 0 → Type 0 → Type 0 → Type 0
Server KS SS AS = Serving KS SS AS

-- What the second table holds, the first held under the same id.
abbrev pub Kept : Map LeaseId Lease → Map LeaseId Lease → Type 0
Kept m n = (id : LeaseId) (l : Lease) → get n id ≡ some l → (k : Lease) × (get m id ≡ some k)

-- The ids of what the table holds and did not hold before are in the list.
abbrev pub Listed : Map LeaseId Lease → List Uuid → Map LeaseId Lease → Type 0
Listed before ids m =
    (id : LeaseId) (l : Lease) → get before id ≡ none → get m id ≡ some l → Member id ids

pub start-Listed : (m : Map LeaseId Lease) → Listed m [] m
start-Listed m id l absent found = absurd (ground arith)

Kept-Listed :
    (before m n : Map LeaseId Lease) (ids : List Uuid)
    → Kept m n
    → Listed before ids m
    → Listed before ids n
Kept-Listed before m n ids kept listed id l absent found =
    let (k, held) = kept id l found in listed id k absent held

pub set-Kept :
    (m : Map LeaseId Lease) (id : LeaseId) (l k : Lease) → get m id ≡ some l → Kept m (set m id k)
set-Kept m id l k found j x e = elim (Bool-cases (id == j)) [
  | inl same ↦ let q : id ≡ j = ground arith in (l, ap (get m) (sym q) ∙ found)
  | inr other ↦ (x, sym (get-set_ne m id k j (λ q. absurd (ground arith))) ∙ e)
]

Member-last : (id : Uuid) (ids : List Uuid) → Member id (ids ++ (id ∷ []))
Member-last id [] = here []
Member-last id (x ∷ ids) = there x (ids ++ (id ∷ [])) (Member-last id ids)

Member-before : (id j : Uuid) (ids : List Uuid) → Member id ids → Member id (ids ++ (j ∷ []))
Member-before id j _ (here ids) = here (ids ++ (j ∷ []))
Member-before id j _ (there x ids m) = there x (ids ++ (j ∷ [])) (Member-before id j ids m)

insert-Listed :
    (before m : Map LeaseId Lease) (ids : List Uuid) (k : LeaseId) (x : Lease)
    → Listed before ids m
    → Listed before (ids ++ (k ∷ [])) (insert m k x)
insert-Listed before m ids k x listed id l absent found = elim (Bool-cases (k == id)) [
  | inl same ↦ let q : k ≡ id = ground arith in rw (← q) (Member-last k ids)
  | inr other ↦
      let held : get m id ≡ some l = sym (get-insert m k x id ∙ (rw other refl)) ∙ found in
      Member-before id k ids (listed id l absent held)
]

module _ {KS SS AS : Type 0} (b : Backends KS SS AS) (envs : ℕ → Env) (peer : Text) where
  -- The next call, and what it leaves.
  abbrev called :
      {A : Type 0}
      → Server KS SS AS
      → (Env → Vault KS SS AS → A × Vault KS SS AS)
      → A × Server KS SS AS
  called s operation =
      let r = operation (envs s.next) s.vault in (r.0, record { next = s.next + 1; vault = r.1 })

  -- The requests reach the vault as they are made.
  abbrev pub vault_calls : VaultCalls (Server KS SS AS)
  vault_calls = record {
    request_lease = λ s agent secret domain.
        called s (λ env v. Leases.request_lease b env v agent secret domain peer);
    access_secret = λ s id domain.
        let r = Leases.access_secret b (envs s.next) s.vault id domain peer in
        (
          elim r.0 [ err e ↦ err e | ok guard ↦ ok guard.value ],
          record { next = s.next + 1; vault = r.1 },
        );
    revoke_lease = λ s id reason. called s (λ env v. revoke_lease b env v id reason peer);
  }

  use_lease-Kept :
      (env : Env) (v : Vault KS SS AS) (id : LeaseId) (host : Text)
      → Kept v.leases (use_lease env v id host).1.leases
  unfolding use_lease
  use_lease-Kept env v id host = elim (Option-cases (get v.leases id)) [
    | inl missing ↦ rw (missing, use_lease) (λ j l e. (l, e))
    | inr (lease, found) ↦ elim (Result-cases (validate lease (env.now 0) host)) [
      | inr (e, bad) ↦ rw (found, use_lease, bad) (λ j l e. (l, e))
      | inl (good, valid) ↦ elim (Result-cases (record_use lease)) [
        | inr (e, bad) ↦ rw (found, use_lease, valid, bad) (λ j l e. (l, e))
        | inl (used, counted) ↦
            rw (found, use_lease, valid, counted) (set-Kept v.leases id lease used found)
      ]
    ]
  ]

  abbrev noted : Result LeaseGrant → List Uuid → List Uuid
  noted (err e) ids = ids
  noted (ok grant) ids = ids ++ (grant.lease_id ∷ [])

  request_lease-Listed :
      (before : Map LeaseId Lease) (ids : List Uuid) (env : Env) (v : Vault KS SS AS)
      (agent : AgentId) (secret : SecretName) (domain : DomainScope)
      → Listed before ids v.leases
      → let r = Leases.request_lease b env v agent secret domain peer in
        Listed before (noted r.0 ids) r.1.leases
  unfolding Lease.grant_of Lease.new
  request_lease-Listed before ids env v agent secret domain listed =
      let r = Leases.request_lease b env v agent secret domain peer in
      elim (Result-cases r.0) [
        | inr (e, bad) ↦
            let (same, _, _) = request_lease-err b env v agent secret domain peer e bad in
            rw (bad, same) listed
        | inl (g, good) ↦
            let (terms, stored, _, _, _, granted, stores) =
              request_lease-ok b env v agent secret domain peer good in
            let id : g.lease_id ≡ env.uuid 0 = ap (λ x. x.lease_id) granted in
            rw (good, stores, id)
              (insert-Listed before v.leases ids (env.uuid 0)
                (issued b env v agent secret domain peer terms) listed)
      ]

  module _ (machine : Machine) (before : Map LeaseId Lease) where
    -- What the loop has done so far is listed.
    abbrev pub Follows : Acquiring machine vault_calls → Type 0
    Follows a = Listed before a.1.0.acquired_leases a.1.1.vault.leases

    use_grant-Follows :
        (entry : CredentialEntry) (grant : LeaseGrant) (p : Provisioned) (s : Server KS SS AS)
        → Listed before p.acquired_leases s.vault.leases
        → Follows (use_grant machine vault_calls entry grant p s)
    unfolding use_grant
    use_grant-Follows entry grant p s listed =
        let domain = entry.target_domain in
        let r = Leases.access_secret b (envs s.next) s.vault grant.lease_id domain peer in
        let kept : Kept s.vault.leases r.1.leases =
          rw
            (access_secret-leases b (λ e. Unit {0}) (envs s.next) s.vault grant.lease_id domain
              peer)
            (use_lease-Kept (envs s.next) s.vault grant.lease_id domain) in
        let listed' = Kept-Listed before s.vault.leases r.1.leases p.acquired_leases kept listed in
        elim (Result-cases r.0) [
          | inr (e, bad) ↦ rw (bad, use_grant) listed'
          | inl (guard, good) ↦
              rw (good, use_grant, provide-acquired vault_calls machine entry grant guard.value p)
                listed'
        ]

    acquire_entry-Follows :
        (entry : CredentialEntry) (p : Provisioned) (s : Server KS SS AS)
        → Listed before p.acquired_leases s.vault.leases
        → Follows (acquire_entry machine vault_calls entry p s)
    unfolding acquire_entry
    acquire_entry-Follows entry p s listed =
        let who = codes "provisioner" in
        let r =
          Leases.request_lease b (envs s.next) s.vault who entry.secret_name entry.target_domain
            peer in
        let listed' =
          request_lease-Listed before p.acquired_leases (envs s.next) s.vault who entry.secret_name
            entry.target_domain listed in
        elim (Result-cases r.0) [
          | inr (e, bad) ↦ rw (bad, acquire_entry) (rw bad at listed')
          | inl (grant, good) ↦
              rw (good, acquire_entry)
                (use_grant-Follows entry grant
                  (record p { acquired_leases = p.acquired_leases ++ (grant.lease_id ∷ []) })
                  (record { next = s.next + 1; vault = r.1 }) (rw good at listed'))
        ]

    go_on-Follows :
        (more : CredentialManifest) (a : Acquiring machine vault_calls)
        → Follows a
        → ((p : Provisioned) (s : Server KS SS AS)
            → Listed before p.acquired_leases s.vault.leases
            → Follows (acquire_credentials machine vault_calls more p s))
        → Follows
            (go_on machine vault_calls (λ p s. acquire_credentials machine vault_calls more p s) a)
    go_on-Follows more (some failure, (p, s)) h rest = h
    go_on-Follows more (none, (p, s)) h rest = rest p s h

    pub acquire_credentials-Listed :
        (manifest : CredentialManifest) (p : Provisioned) (s : Server KS SS AS)
        → Listed before p.acquired_leases s.vault.leases
        → Follows (acquire_credentials machine vault_calls manifest p s)
    unfolding acquire_credentials
    acquire_credentials-Listed [] p s listed = listed
    acquire_credentials-Listed (entry ∷ more) p s listed =
        go_on-Follows more (acquire_entry machine vault_calls entry p s)
          (acquire_entry-Follows entry p s listed) (λ q t h. acquire_credentials-Listed more q t h)
