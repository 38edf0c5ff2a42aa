-- ===== src/Agent/Provision/Acquired.antt =====
-- crates/zerolease-agent/src/provision.rs: what the loop records of the leases that it was granted.
use zerolease.Prelude.{
  ◌≡◌, refl, ap, ◌∙◌, inl, inr, none, some, List, [], ◌∷◌, ◌++◌, Text, codes, text_eq, from_utf8,
  Bool-cases, Option-cases,
}
use zerolease.Types.Identity.{Uuid}
use zerolease.Types.Secrets.{Bytes, LeaseGrant}
use zerolease.Error.{Result, ok, err, Result-cases}
use zerolease.Agent.Manifest.{
  InjectMechanism, env, file, git_credential, CredentialEntry, CredentialManifest,
}
use zerolease.Agent.Template.{expand_tilde}
use zerolease.Agent.Provision.{
  VaultCalls, Machine, Provisioned, Acquiring, nothing_yet, inject_all, provide, use_grant,
  acquire_entry, acquire_credentials, go_on,
}

module _ {S : Type 0} (calls : VaultCalls S) where
  abbrev noted : Result LeaseGrant → List Uuid → List Uuid
  noted (err e) log = log
  noted (ok grant) log = log ++ (grant.lease_id ∷ [])

  -- The same calls, with a list of the leases that were granted.
  abbrev pub recording : VaultCalls (S × List Uuid)
  recording = record {
    request_lease = λ (s, log) agent secret domain.
        let r = calls.request_lease s agent secret domain in (r.0, (r.1, noted r.0 log));
    access_secret =
        λ (s, log) id domain. let r = calls.access_secret s id domain in (r.0, (r.1, log));
    revoke_lease =
        λ (s, log) id reason. let r = calls.revoke_lease s id reason in (r.0, (r.1, log));
  }

  module _ (machine : Machine) where
    inject_all-acquired :
        (secret : Text) (ms : List InjectMechanism) (p : Provisioned)
        → (inject_all machine secret ms p).1.acquired_leases ≡ p.acquired_leases
    unfolding inject_all
    inject_all-acquired secret [] p = refl
    inject_all-acquired secret (env var ∷ more) p = inject_all-acquired secret more _
    inject_all-acquired secret (git_credential host ∷ more) p = inject_all-acquired secret more p
    inject_all-acquired secret (file path template ∷ more) p =
        elim (Bool-cases (machine.writable (expand_tilde machine.home path))) [
          | inl written ↦ rw written (inject_all-acquired secret more _)
          | inr failed ↦ rw failed refl
        ]

    pub provide-acquired :
        (entry : CredentialEntry) (grant : LeaseGrant) (secret : Bytes) (p : Provisioned)
        → (provide machine entry grant secret p).1.acquired_leases ≡ p.acquired_leases
    unfolding provide
    provide-acquired entry grant secret p = elim (Option-cases (from_utf8 secret)) [
      | inl bad ↦ rw (bad, provide) refl
      | inr (text, good) ↦ rw (good, provide) (inject_all-acquired text entry.inject _)
    ]

    -- The list that is rolled back is the list of what was granted.
    abbrev IsNoted : Acquiring machine recording → Type 0
    IsNoted a = a.1.0.acquired_leases ≡ a.1.1.1

    use_grant-IsNoted :
        (entry : CredentialEntry) (grant : LeaseGrant) (p : Provisioned) (s : S) (log : List Uuid)
        → p.acquired_leases ≡ log
        → IsNoted (use_grant machine recording entry grant p (s, log))
    unfolding use_grant
    use_grant-IsNoted entry grant p s log e =
        elim (Result-cases (calls.access_secret s grant.lease_id entry.target_domain).0) [
          | inr (x, bad) ↦ rw (bad, use_grant) e
          | inl (secret, good) ↦ rw (good, use_grant) (provide-acquired entry grant secret p ∙ e)
        ]

    acquire_entry-IsNoted :
        (entry : CredentialEntry) (p : Provisioned) (s : S) (log : List Uuid)
        → p.acquired_leases ≡ log
        → IsNoted (acquire_entry machine recording entry p (s, log))
    unfolding acquire_entry
    acquire_entry-IsNoted entry p s log e =
        elim (Result-cases
          (calls.request_lease s (codes "provisioner") entry.secret_name entry.target_domain).0) [
            | inr (x, bad) ↦
                let r =
                  calls.request_lease s (codes "provisioner") entry.secret_name
                    entry.target_domain in
                let same : log ≡ noted r.0 log = rw bad refl in rw (bad, acquire_entry) (e ∙ same)
            | inl (grant, good) ↦
                let r =
                  calls.request_lease s (codes "provisioner") entry.secret_name
                    entry.target_domain in
                let more : log ++ (grant.lease_id ∷ []) ≡ noted r.0 log = rw good refl in
                rw (good, acquire_entry)
                  (use_grant-IsNoted entry grant
                    (record p { acquired_leases = p.acquired_leases ++ (grant.lease_id ∷ []) }) r.1
                    (noted r.0 log) (ap (λ ids. ids ++ (grant.lease_id ∷ [])) e ∙ more))
          ]

    acquire_credentials-IsNoted :
        (manifest : CredentialManifest) (p : Provisioned) (s : S) (log : List Uuid)
        → p.acquired_leases ≡ log
        → IsNoted (acquire_credentials machine recording manifest p (s, log))
    unfolding acquire_credentials
    acquire_credentials-IsNoted [] p s log e = e
    acquire_credentials-IsNoted (entry ∷ more) p s log e =
        let first = acquire_entry-IsNoted entry p s log e in
        go_on-IsNoted more (acquire_entry machine recording entry p (s, log)) first
          (λ q t l h. acquire_credentials-IsNoted more q t l h)
      where
        go_on-IsNoted :
            (more : CredentialManifest) (a : Acquiring machine recording)
            → IsNoted a
            → ((q : Provisioned) (t : S) (l : List Uuid)
                → q.acquired_leases ≡ l
                → IsNoted (acquire_credentials machine recording more q (t, l)))
            → IsNoted
                (go_on machine recording (λ q t. acquire_credentials machine recording more q t) a)
        go_on-IsNoted more (some failure, (q, (t, l))) h rest = h
        go_on-IsNoted more (none, (q, (t, l))) h rest = rest q t l h

    -- However the acquisition of the credentials ends, the leases that it lists, to be
    -- revoked if it failed, are those that were granted to it, in their order: also the
    -- last one, when its secret could not be read or a file could not be written.
    pub acquire_credentials-granted :
        (manifest : CredentialManifest) (s : S)
        → let a = acquire_credentials machine recording manifest nothing_yet (s, []) in
          a.1.0.acquired_leases ≡ a.1.1.1
    unfolding nothing_yet
    acquire_credentials-granted manifest s =
        acquire_credentials-IsNoted manifest nothing_yet s [] refl
