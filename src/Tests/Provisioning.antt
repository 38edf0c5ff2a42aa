-- ===== src/Tests/Provisioning.antt =====
-- The theorems on the provisioner and the git helper, at concrete inputs.
use zerolease.Prelude.{
  nat_eq, ℕ, ◌+◌, ◌≡◌, refl, true, false, none, some, List, [], ◌∷◌, ◌++◌, Text, codes, pos,
  text_beq, from_utf8, utf8_run, continuation,
}
use zerolease.Types.Secrets.{Bytes, LeaseGrant, pat, aes256_gcm}
use zerolease.Error.{ok, err, secret_not_found}
use zerolease.Env.{Env}
use zerolease.Map.{get, insert}
use zerolease.Agent.Shell.{plain, quoted, shell_word, shell_word-quoted}
use zerolease.Agent.Manifest.{
  CredentialEntry, CredentialManifest, git_credential, git_host_map, map_entries, map_hosts,
  last_serving,
}
use zerolease.Agent.Provision.{
  VaultCalls, Machine, nothing_yet, acquire_credentials, acquire_entry, use_grant, run,
}
use zerolease.Agent.Provision.Acquired.{recording}
use zerolease.Agent.GitCredential.{
  CredentialRequest, HelperCalls, handle_get, fetch, write_credential, written,
}
use zerolease.Agent.GitCredential.Answers.{Fetched, handle_get-written}
use zerolease.Policy.{PolicyGrant, AgentPattern}
use zerolease.Lease
use zerolease.Lease.{Lease}
use zerolease.Audit.{AuditEntry}
use zerolease.Store.{StoredSecret}
use zerolease.Vault.State
use zerolease.Vault.Leases.{revoke_lease, request_lease, access_secret}
use zerolease.Client.Remote.{Serving}
use zerolease.Agent.Provision.Known.{vault_calls}
use zerolease.Tests.Sample
use zerolease.Tests.Vaults.{lease}

shell_word-quoted_example :
    shell_word plain (quoted (codes "it's $HOME") ++ (codes "\n" ++ codes "export B='x'"))
    ≡ some (codes "it's $HOME", codes "\n" ++ codes "export B='x'")
shell_word-quoted_example = shell_word-quoted (codes "it's $HOME") (codes "export B='x'")

abbrev github : Text
github = codes "github.com"

abbrev entry : CredentialEntry
entry = record {
  secret_name = codes "pat";
  target_domain = github;
  inject = git_credential github ∷ [];
}

abbrev manifest : CredentialManifest
manifest = entry ∷ []

abbrev grant : LeaseGrant
grant = record {
  lease_id = 20;
  secret_name = codes "pat";
  allowed_domains = github ∷ [];
  expires_at = pos 9;
  renewable = false;
  remaining_uses = none;
}

-- The lease is granted, and the secret is gone.
abbrev calls : VaultCalls ℕ
calls = record {
  request_lease = λ s agent secret domain. (ok grant, s + 1);
  access_secret = λ s id domain. (err (secret_not_found (codes "pat")), s + 1);
  revoke_lease = λ s id reason. (ok tt, s + 1);
}

abbrev machine : Machine
machine = record { show_uuid = λ id. []; home = none; writable = λ path. true }

one-granted :
    (acquire_credentials machine (recording calls) manifest nothing_yet (0, [])).1.1.1 ≡ 20 ∷ []
unfolding acquire_credentials acquire_entry use_grant nothing_yet
one-granted = refl

abbrev helper : HelperCalls ℕ
helper = record {
  connect_with_token = λ token. ok 0;
  request_lease = λ s agent secret domain. (ok grant, s + 1);
  access_secret = λ s id domain. (ok (codes "pw"), s + 1);
}

abbrev asking : CredentialRequest
asking = record {
  protocol = some (codes "https");
  host = some github;
  path = none;
  username = none;
}

answered :
    handle_get helper asking (git_host_map manifest) (codes "token")
    ≡ written (write_credential (codes "x-access-token") (codes "pw"))
unfolding handle_get fetch git_host_map map_entries map_hosts insert get text_beq from_utf8 utf8_run
    continuation
answered = refl

handle_get-written_example :
    (host : Text) × (secret_name : Text) × (target_domain : Text) × (client : ℕ) × (asking.host
      ≡ some host)
    × (last_serving host manifest ≡ some (secret_name, target_domain))
    × (helper.connect_with_token (codes "token") ≡ ok client)
    × Fetched helper client secret_name target_domain
        (write_credential (codes "x-access-token") (codes "pw"))
handle_get-written_example =
    handle_get-written helper asking manifest (codes "token")
      (write_credential (codes "x-access-token") (codes "pw")) answered

abbrev provisioner_grant : PolicyGrant
provisioner_grant = record Sample.grant { agent = AgentPattern.exact (codes "provisioner") }

abbrev api_entry : CredentialEntry
api_entry = record {
  secret_name = codes "gh-token";
  target_domain = codes "api.github.com";
  inject = [];
}

abbrev stored : StoredSecret
stored = record {
  id = 1;
  name = codes "gh-token";
  ciphertext = [];
  nonce = [];
  algorithm = aes256_gcm;
  kind = pat;
  description = none;
  created_at = pos 0;
  updated_at = pos 0;
  version = 1;
}

-- The vault grants the lease, and its key is not loaded.
abbrev locked : Serving Bytes (List StoredSecret) (List AuditEntry)
locked = record {
  next = 0;
  vault = record Sample.fresh {
    store = stored ∷ [];
    policy = record Sample.policy { grants = provisioner_grant ∷ [] };
  };
}

abbrev draws : ℕ → Env
draws i = Sample.at_time i (20 + i)

abbrev vault : VaultCalls (Serving Bytes (List StoredSecret) (List AuditEntry))
vault = vault_calls Sample.backends draws (codes "vm")

abbrev kept : Text → Text
kept lines = lines

abbrev after_run : Serving Bytes (List StoredSecret) (List AuditEntry)
after_run = (run machine vault kept true true (api_entry ∷ []) locked).1

abbrev left : Lease
left = elim (get after_run.vault.leases 20) [ none ↦ lease | some l ↦ l ]
