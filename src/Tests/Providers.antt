-- ===== src/Tests/Providers.antt =====
-- The theorem on the provider, at a concrete input.
use zerolease.Prelude.{
  ◌+◌, ◌≡◌, refl, true, none, some, List, [], ◌∷◌, codes, nat_eq, arith, here, ℕ, text_beq,
  starts_with, strip_prefix, strip_suffix, ends_with_byte, any, find, ◌+ℤ◌,
}
use zerolease.Types.Secrets.{Bytes}
use zerolease.Types.Identity.{matches, is_subdomain}
use zerolease.Error.{ok}
use zerolease.Env.{Env}
use zerolease.Map.{get, insert, set, count}
use zerolease.Policy.{evaluate, evaluate_grants, agent_matches, secret_matches, terms_of}
use zerolease.Crypto
use zerolease.Lease
use zerolease.Lease.{Lease}
use zerolease.Audit.{AuditEntry, entry_new}
use zerolease.Store.{StoredSecret}
use zerolease.Vault.State
use zerolease.Vault.State.{initialize, trace_and_record, encrypt}
use zerolease.Vault.Leases.{
  check_request, finish_request, request_lease, issue_lease, active_count, revoke_lease,
}
use zerolease.Vault.Secrets.{store_secret}
use zerolease.Client.Remote.{Serving}
use zerolease.Agent.Provision.Known.{vault_calls}
use zerolease.Provider.{CredentialGuard, drop_guard, try_send, revocation_worker, revoke_one}
use zerolease.Provider.Revoked.{drop_all, worker-revoked}
use zerolease.Tests.Sample
use zerolease.Tests.Sample.{fresh}
use zerolease.Tests.Vaults.{ready, stocked, leased, lease}

abbrev serving : Serving Bytes (List StoredSecret) (List AuditEntry)
serving = record { next = 0; vault = leased }

abbrev draws : ℕ → Env
draws i = Sample.at_time i (30 + i)

abbrev token : CredentialGuard
token = record {
  secret = codes "pw";
  lease_id = 20;
  target_domain = codes "api.github.com";
  revoke_tx = true;
}

abbrev after_worker : Serving Bytes (List StoredSecret) (List AuditEntry)
after_worker =
    revocation_worker (λ s. (ok tt, s)) (vault_calls Sample.backends draws (codes "vm"))
      (drop_all (token ∷ []) []) serving

abbrev left : Lease
left = elim (get after_worker.vault.leases 20) [ none ↦ lease | some l ↦ l ]

found_left : get after_worker.vault.leases 20 ≡ some left
unfolding leased stocked ready fresh State.new initialize store_secret request_lease check_request
    finish_request issue_lease trace_and_record encrypt Crypto.encrypt Crypto.seal_with evaluate
    evaluate_grants agent_matches secret_matches terms_of matches is_subdomain strip_prefix
    strip_suffix ends_with_byte text_beq starts_with active_count count get insert set Lease.new
    entry_new any find ◌+ℤ◌ drop_guard try_send revocation_worker revoke_one revoke_lease
    Lease.revoke
found_left = refl

worker-revoked_example : left.revoked ≡ true
worker-revoked_example =
    worker-revoked Sample.backends draws (codes "vm") (λ s. (ok tt, s)) (token ∷ []) token []
      serving left (λ s. refl) (here []) refl (omega arith) found_left
