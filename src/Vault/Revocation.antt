-- ===== src/Vault/Revocation.antt =====
-- src/vault.rs: what revocation reaches, and that it is final.
use mathlib.Core.Option
use zerolease.Prelude.{
  ◌≡◌, refl, ap, ◌∙◌, inl, inr, Bool, true, not, ◌&&◌, some, Text, arith, nat_eq, text_eq, ◌==◌,
  if◌then◌else◌, Bool-cases,
}
use zerolease.Types.Identity.{AgentId, SecretName, LeaseId, SessionToken}
use zerolease.Types.Secrets.{RevocationReason, admin_revoked, secret_deleted}
use zerolease.Types.Secrets
use zerolease.Error.{ok}
use zerolease.Env.{Env}
use zerolease.Map.{Map, get, set, map_values, count, get-map_values}
use zerolease.Lease.{Lease, LeaseGuard, validate, record_use}
use zerolease.Lease
use zerolease.Session.{Session}
use zerolease.Session
use zerolease.Vault.State.{Vault, Backends, trace_and_record}
use zerolease.Vault.Leases.{revoke_all_for_agent}
use zerolease.Vault.Secrets.{delete_secret}
use zerolease.Vault.Sessions.{revoke_session, belongs_to}
use zerolease.Vault.Moves.{revoke_if, revoke_matching-map_values}
use zerolease.Vault.Settings.{delete_secret-same}

revoke-twice : (l : Lease) → l.revoked ≡ true → l ≡ Lease.revoke l
unfolding Lease.revoke
revoke-twice l old = λ i. record l { revoked = old i }

revoke_if-eq :
    (sel : Lease → Bool) (l : Lease) → revoke_if sel l ≡ (if sel l then Lease.revoke l else l)
revoke_if-eq sel l = elim (Bool-cases (sel l)) [
  | inr miss ↦ rw miss refl
  | inl hit ↦ elim (Bool-cases l.revoked) [
    | inl old ↦ ground (arith, revoke-twice l old)
    | inr live ↦ ground arith
  ]
]

get-revoke_if :
    (sel : Lease → Bool) (m : Map LeaseId Lease) (id : LeaseId) (l : Lease)
    → get m id ≡ some l
    → get (map_values (revoke_if sel) m) id ≡ some (if sel l then Lease.revoke l else l)
get-revoke_if sel m id l found =
    get-map_values (revoke_if sel) m id
    ∙ ap (Option.map (revoke_if sel)) found
    ∙ ap some (revoke_if-eq sel l)

module _ {KS SS AS : Type 0} (b : Backends KS SS AS) (env : Env) (v : Vault KS SS AS) where
  -- `revoke_all_for_agent` revokes every lease of the agent and leaves all others as they were; it
  -- always succeeds, and answers with the number of leases that it found active.
  pub revoke_all_for_agent-get :
      (agent : AgentId) (peer : Text) (id : LeaseId) (l : Lease)
      → get v.leases id ≡ some l
      → ((revoke_all_for_agent b env v agent peer).0
          ≡ ok (count (λ l. l.agent == agent && not l.revoked) v.leases))
        × (get (revoke_all_for_agent b env v agent peer).1.leases id
            ≡ some (if l.agent == agent then Lease.revoke l else l))
  unfolding revoke_all_for_agent
  revoke_all_for_agent-get agent peer id l found =
      let (leases, n) =
        revoke_matching-map_values b (λ l. l.agent == agent) (λ _. agent) admin_revoked peer env 0
          v.leases v.audit in
      (ap ok n, rw leases (get-revoke_if (λ l. l.agent == agent) v.leases id l found))

  -- `delete_secret` revokes every lease for the secret and leaves all others as they were, also
  -- when the store then fails to delete the secret or the audit log to take the entry.
  pub delete_secret-get :
      (name : SecretName) (peer : Text) (id : LeaseId) (l : Lease)
      → get v.leases id ≡ some l
      → get (delete_secret b env v name peer).1.leases id
        ≡ some (if l.secret_name == name then Lease.revoke l else l)
  delete_secret-get name peer id l found =
      rw
        (
          (delete_secret-same b env v name peer).1,
          (revoke_matching-map_values b (λ l. l.secret_name == name) (λ l. l.agent) secret_deleted
              peer env 0 v.leases v.audit).0,
        )
        (get-revoke_if (λ l. l.secret_name == name) v.leases id l found)

  -- `revoke_session` marks the session revoked, revokes every lease that belongs to it and leaves
  -- all other leases as they were, also when the audit log fails.
  pub revoke_session-get :
      (token : SessionToken) (peer : Text) (s : Session) (id : LeaseId) (l : Lease)
      → get v.sessions token ≡ some s
      → get v.leases id ≡ some l
      → ((revoke_session b env v token peer).1.sessions
          ≡ set v.sessions token (record s { revoked = true }))
        × (get (revoke_session b env v token peer).1.leases id
            ≡ some (if belongs_to s.id l then Lease.revoke l else l))
  unfolding revoke_session trace_and_record Session.revoke
  revoke_session-get token peer s id l live found = (
    rw (live, revoke_session),
    rw (live, revoke_session)
        (rw
          (revoke_matching-map_values b (belongs_to s.id) (λ l. l.agent) Secrets.session_revoked
            peer env 0 v.leases v.audit).0
          (get-revoke_if (belongs_to s.id) v.leases id l found)),
  )
