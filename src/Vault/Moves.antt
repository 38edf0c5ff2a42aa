-- ===== src/Vault/Moves.antt =====
-- src/vault.rs: an abstract view of the lease table. Every operation of the vault changes the table
-- by the moves below, and by nothing else.
use zerolease.Prelude.{
  ℕ, suc, ◌+◌, ◌<◌, ◌≡◌, refl, ap, ◌∙◌, ◌⊎◌, inl, inr, Bool, not, ◌&&◌, some, [], ◌∷◌, Text, arith,
  ℤ, nat_eq, text_eq, ◌==◌, if◌then◌else◌, Option-cases,
}
use zerolease.Types.Identity.{AgentId, SecretName, DomainScope, LeaseId, SessionId}
use zerolease.Types.Secrets.{LeaseTerms, LeaseGrant, RevocationReason, admin_revoked}
use zerolease.Types.Time.{DateTime, TimeDelta, seconds, num_seconds}
use zerolease.Error.{Error, Result, ok, err, Result-cases}
use zerolease.Env.{Env}
use zerolease.Map.{Map, get, set, insert, map_values, count}
use zerolease.Policy.{PolicyConfig, evaluate}
use zerolease.Lease.{Lease, validate, record_use, grant_of}
use zerolease.Lease
use zerolease.Audit
use zerolease.Audit.{success, entry_new}
use zerolease.Vault.State.{Vault, Backends, trace_and_record, ◌>>>◌, >>>-keeps}
use zerolease.Vault.Leases.{
  deny_lease, check_request, issue_lease, finish_request, request_lease, active_count, use_lease,
  access_secret, revoke_lease, revoke_matching, revoke_all_for_agent,
}
use zerolease.Vault.Renewal.{renewed, renew_lease, retain_alive, gc_leases}

abbrev pub revoke_if : (Lease → Bool) → Lease → Lease
revoke_if sel l = if sel l && not l.revoked then Lease.revoke l else l

-- `Draws` is what is known of the surroundings of a request, such as that ids are fresh.
pub data LeaseMove (policy : PolicyConfig) (cap : ℕ) (Draws : Env → Type 0)
    : Map LeaseId Lease → Map LeaseId Lease → Type 0 where
  keep : {m n : Map LeaseId Lease} → n ≡ m → LeaseMove policy cap Draws m n
  issue :
      (m : Map LeaseId Lease) (env : Env) (agent : AgentId) (secret : SecretName)
      (domain : DomainScope) (terms : LeaseTerms)
      → Draws env
      → evaluate policy agent secret domain ≡ ok terms
      → active_count agent m < cap
      → LeaseMove policy cap Draws m (
          insert m
            (env.uuid 0)
            (Lease.new (env.now 0) (env.uuid 0) agent secret (domain ∷ []) terms))
  spend :
      (m : Map LeaseId Lease) (id : LeaseId) (l l' : Lease) (now : DateTime) (host : Text)
      → get m id ≡ some l
      → validate l now host ≡ ok tt
      → record_use l ≡ ok l'
      → LeaseMove policy cap Draws m (set m id l')
  renew :
      (m : Map LeaseId Lease) (id : LeaseId) (l l' : Lease) (now : DateTime) (extension : TimeDelta)
      → get m id ≡ some l
      → Lease.renew l now extension ≡ ok l'
      → LeaseMove policy cap Draws m (set m id l')
  revoke_one :
      (m : Map LeaseId Lease) (id : LeaseId) (l : Lease)
      → get m id ≡ some l
      → LeaseMove policy cap Draws m (set m id (Lease.revoke l))
  revoke_some :
      (m : Map LeaseId Lease) (sel : Lease → Bool)
      → LeaseMove policy cap Draws m (map_values (revoke_if sel) m)
  tie :
      (m : Map LeaseId Lease) (id : LeaseId) (l : Lease) (session : SessionId)
      → get m id ≡ some l
      → LeaseMove policy cap Draws m (set m id (record l { session_id = some session }))
  collect :
      (m : Map LeaseId Lease) (env : Env) (i : ℕ)
      → LeaseMove policy cap Draws m (retain_alive env i m)
  both :
      {m n o : Map LeaseId Lease}
      → LeaseMove policy cap Draws m n
      → LeaseMove policy cap Draws n o
      → LeaseMove policy cap Draws m o

module _ {KS SS AS : Type 0} (b : Backends KS SS AS) where
  pub revoke_matching-map_values :
      (sel : Lease → Bool) (who : Lease → AgentId) (reason : RevocationReason) (peer : Text)
      (env : Env) (i : ℕ) (m : Map LeaseId Lease) (log : AS)
      → ((revoke_matching b sel who reason peer env i m log).0 ≡ map_values (revoke_if sel) m)
        × ((revoke_matching b sel who reason peer env i m log).1
            ≡ count (λ l. sel l && not l.revoked) m)
  unfolding revoke_matching map_values count
  revoke_matching-map_values sel who reason peer env i [] log = (refl, refl)
  revoke_matching-map_values sel who reason peer env i ((j, l) ∷ m) log =
      let i' = if sel l && not l.revoked then i + 1 else i in
      let log' =
        if sel l && not l.revoked
        then (b.log.record_entry log (
            entry_new (env.now i) (env.uuid i) (Audit.lease_revoked l.id reason) (who l) peer
              success)).1
        else log in
      let (ih, n) = revoke_matching-map_values sel who reason peer env i' m log' in
      (ap (◌∷◌ (j, revoke_if sel l)) ih, ap (λ k. if sel l && not l.revoked then suc k else k) n)

  module _ (Draws : Env → Type 0) (env : Env) (v : Vault KS SS AS) where
    -- How the lease table of the vault has moved.
    abbrev pub Moved : Vault KS SS AS → Type 0
    Moved w = LeaseMove v.policy v.max_leases_per_agent Draws v.leases w.leases

    either_leases :
        (r : Result (Unit {0}) × Vault KS SS AS) (g : LeaseGrant)
        (f : Vault KS SS AS → Map LeaseId Lease)
        → let w = (r >>> λ _ w. (ok g, record w { leases = f w })).1 in
          (w.leases ≡ r.1.leases) ⊎ (w.leases ≡ f r.1)
    either_leases (ok _, s) g f = inr refl
    either_leases (err e, s) g f = inl refl

    deny_lease-leases :
        (agent : AgentId) (secret : SecretName) (domain : DomainScope) (peer : Text) (e : Error)
        → (deny_lease b env v agent secret domain peer e).1.leases ≡ v.leases
    unfolding deny_lease trace_and_record
    deny_lease-leases agent secret domain peer e = ground arith

    deny_lease-err :
        (agent : AgentId) (secret : SecretName) (domain : DomainScope) (peer : Text) (e : Error)
        → (x : Error) × ((deny_lease b env v agent secret domain peer e).0 ≡ err x)
    unfolding deny_lease trace_and_record
    deny_lease-err agent secret domain peer e =
        elim (Result-cases (deny_lease b env v agent secret domain peer e).0) [
          | inl (terms, granted) ↦ absurd (ground arith)
          | inr refused ↦ refused
        ]

    issue_lease-leases :
        (agent : AgentId) (secret : SecretName) (domain : DomainScope) (peer : Text)
        (terms : LeaseTerms)
        → let w = (issue_lease b env v agent secret domain peer terms).1 in
          (w.leases ≡ v.leases)
          ⊎ (w.leases
              ≡ insert v.leases
                  (env.uuid 0)
                  (Lease.new (env.now 0) (env.uuid 0) agent secret (domain ∷ []) terms))
    unfolding issue_lease trace_and_record Lease.new
    issue_lease-leases agent secret domain peer terms =
        let l = Lease.new (env.now 0) (env.uuid 0) agent secret (domain ∷ []) terms in
        let event = Audit.lease_granted l.id secret (domain ∷ []) (num_seconds terms.ttl) in
        either_leases (trace_and_record b env 1 v event agent peer success) (grant_of l)
          (λ w. insert w.leases l.id l)

    pub access_secret-leases :
        (id : LeaseId) (host peer : Text)
        → (access_secret b env v id host peer).1.leases ≡ (use_lease env v id host).1.leases
    unfolding access_secret trace_and_record
    access_secret-leases id host peer = ground arith

    -- The check changes no lease, and what it accepts the policy granted, to an agent below
    -- the cap.
    pub check_request-leases :
        (agent : AgentId) (secret : SecretName) (domain : DomainScope) (peer : Text)
        → (check_request b env v agent secret domain peer).1.leases ≡ v.leases
    unfolding check_request deny_lease trace_and_record
    check_request-leases agent secret domain peer = ground arith

    pub check_request-ok :
        (agent : AgentId) (secret : SecretName) (domain : DomainScope) (peer : Text)
        (terms : LeaseTerms)
        → (check_request b env v agent secret domain peer).0 ≡ ok terms
        → (evaluate v.policy agent secret domain ≡ ok terms)
          × (active_count agent v.leases < v.max_leases_per_agent)
    unfolding check_request
    check_request-ok agent secret domain peer terms h =
        elim (Result-cases (evaluate v.policy agent secret domain)) [
          | inr (e, refused) ↦
              let (x, stops) = deny_lease-err agent secret domain peer e in absurd (ground arith)
          | inl (given, granted) ↦ (ground arith, ground arith)
        ]

    -- The rest of the request stores the lease, or changes none.
    pub finish_request-leases :
        (agent : AgentId) (secret : SecretName) (domain : DomainScope) (peer : Text)
        (terms : LeaseTerms)
        → let w = (finish_request b env v agent secret domain peer terms).1 in
          (w.leases ≡ v.leases)
          ⊎ (w.leases
              ≡ insert v.leases
                  (env.uuid 0)
                  (Lease.new (env.now 0) (env.uuid 0) agent secret (domain ∷ []) terms))
    unfolding finish_request
    finish_request-leases agent secret domain peer terms =
        elim (Result-cases (b.secrets.get v.store secret)) [
          | inr (e, missing) ↦ rw (missing, finish_request) (inl refl)
          | inl (s, found) ↦
              rw (found, finish_request) (issue_lease-leases agent secret domain peer terms)
        ]

    use_lease-LeaseMove : (id : LeaseId) (host : Text) → Moved (use_lease env v id host).1
    unfolding use_lease
    use_lease-LeaseMove id host = elim (Option-cases (get v.leases id)) [
      | inl missing ↦ rw (missing, use_lease) (keep refl)
      | inr (l, found) ↦ elim (Result-cases (validate l (env.now 0) host)) [
        | inr (e, refused) ↦ rw (found, use_lease, refused) (keep refl)
        | inl (_, valid) ↦ elim (Result-cases (record_use l)) [
          | inr (e, spent) ↦ rw (found, use_lease, valid, spent) (keep refl)
          | inl (l', used) ↦
              rw (found, use_lease, valid, used)
                (spend v.leases id l l' (env.now 0) host found valid used)
        ]
      ]
    ]

    pub access_secret-LeaseMove :
        (id : LeaseId) (host peer : Text) → Moved (access_secret b env v id host peer).1
    access_secret-LeaseMove id host peer =
        rw (access_secret-leases id host peer) (use_lease-LeaseMove id host)

    pub revoke_lease-LeaseMove :
        (id : LeaseId) (reason : RevocationReason) (peer : Text)
        → Moved (revoke_lease b env v id reason peer).1
    unfolding revoke_lease trace_and_record
    revoke_lease-LeaseMove id reason peer = elim (Option-cases (get v.leases id)) [
      | inl missing ↦ rw (missing, revoke_lease) (keep refl)
      | inr (l, found) ↦ rw (found, revoke_lease) (revoke_one v.leases id l found)
    ]

    pub revoke_all_for_agent-LeaseMove :
        (agent : AgentId) (peer : Text) → Moved (revoke_all_for_agent b env v agent peer).1
    unfolding revoke_all_for_agent
    revoke_all_for_agent-LeaseMove agent peer =
        rw
          (revoke_matching-map_values (λ l. l.agent == agent) (λ _. agent) admin_revoked peer env 0
            v.leases v.audit).0
          (revoke_some v.leases _)

    renew_lease-leases :
        (id : LeaseId) (secs : ℤ) (peer : Text) (l l' : Lease)
        → get v.leases id ≡ some l
        → renewed env v.sessions l secs ≡ ok l'
        → (renew_lease b env v id secs peer).1.leases ≡ set v.leases id l'
    unfolding renew_lease trace_and_record
    renew_lease-leases id secs peer l l' found e = ground arith

    renewed-renew :
        (l l' : Lease) (secs : ℤ)
        → renewed env v.sessions l secs ≡ ok l'
        → Lease.renew l (env.now 1) (seconds secs) ≡ ok l'
    unfolding renewed
    renewed-renew l l' secs e = ground arith

    pub renew_lease-LeaseMove :
        (id : LeaseId) (secs : ℤ) (peer : Text) → Moved (renew_lease b env v id secs peer).1
    unfolding renew_lease
    renew_lease-LeaseMove id secs peer = elim (Option-cases (get v.leases id)) [
      | inl missing ↦ rw (missing, renew_lease) (keep refl)
      | inr (l, found) ↦ elim (Result-cases (renewed env v.sessions l secs)) [
        | inr (e, refused) ↦ rw (found, renew_lease, refused) (keep refl)
        | inl (l', done) ↦
            rw (renew_lease-leases id secs peer l l' found done) (
              renew v.leases id l l' (env.now 1) (seconds secs) found
                (renewed-renew l l' secs done))
      ]
    ]

    pub gc_leases-LeaseMove : Moved (gc_leases env v).1
    unfolding gc_leases
    gc_leases-LeaseMove = collect v.leases env 0

  module _ (Draws : Env → Type 0) (env : Env) (v : Vault KS SS AS) where
    pub request_lease-LeaseMove :
        (agent : AgentId) (secret : SecretName) (domain : DomainScope) (peer : Text)
        → Draws env
        → Moved Draws env v (request_lease b env v agent secret domain peer).1
    unfolding request_lease
    request_lease-LeaseMove agent secret domain peer d =
        let r = check_request b env v agent secret domain peer in
        let kept = check_request-leases Draws env v agent secret domain peer in
        >>>-keeps (Moved Draws env v) r
          (λ terms w. finish_request b env w agent secret domain peer terms) (keep kept)
          (λ terms accepted.
            let (granted, room) =
              check_request-ok Draws env v agent secret domain peer terms accepted in
            elim (finish_request-leases Draws env r.1 agent secret domain peer terms) [
              | inl same ↦ keep (same ∙ kept)
              | inr new ↦
                  rw (new, kept) (issue v.leases env agent secret domain terms d granted room)
            ])
