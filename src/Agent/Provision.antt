-- ===== src/Agent/Provision.antt =====
-- crates/zerolease-agent/src/provision.rs: the run of the provisioner, from the manifest and the
-- connection on. The calls of the client are an interface over a type of states; the file
-- system says which paths can be written.
pub mod Known
pub mod Rollback
pub mod Acquired
use zerolease.Prelude.{
  ℕ, Bool, true, false, not, ◌&&◌, Option, none, some, List, [], ◌∷◌, ◌++◌, Text, codes, text_eq,
  from_utf8, if◌then◌else◌,
}
use zerolease.Types.Identity.{Uuid}
use zerolease.Types.Secrets.{Bytes, LeaseGrant, RevocationReason, admin_revoked}
use zerolease.Error.{Error, Result, ok, err}
use zerolease.Map.{insert}
use zerolease.Agent.LeaseState.{LeaseState, LeaseInfo, new}
use zerolease.Agent.Manifest.{
  InjectMechanism, env, file, git_credential, CredentialEntry, CredentialManifest,
}
use zerolease.Agent.Template.{expand_tilde, expand_template}
use zerolease.Agent.Shell.{export_line, escape_quotes}

-- The calls of `VaultClient` that the provisioner makes.
pub record VaultCalls (S : Type 0) : Type 0 where
  pub request_lease : S → Text → Text → Text → Result LeaseGrant × S
  pub access_secret : S → Uuid → Text → Result Bytes × S
  pub revoke_lease : S → Uuid → RevocationReason → Result (Unit {0}) × S

-- What the provisioner has of its machine: the printer of ids (uuid), HOME, and the paths that
-- `write_config` can write.
pub record Machine : Type 0 where
  pub show_uuid : Uuid → Text
  pub home : Option Text
  pub writable : Text → Bool

pub data Failure : Type 0 where
  lease_failed : Text → Error → Failure
  access_failed : Text → Error → Failure
  not_utf8 : Text → Failure
  write_failed : Text → Failure

-- The variables that the loop fills, and the files that it wrote, the last first.
pub record Provisioned : Type 0 where
  pub env_lines : Text
  pub lease_state : LeaseState
  pub acquired_leases : List Uuid
  pub files : List (Text × Text)

unfoldable pub nothing_yet : Provisioned
unfolding new
nothing_yet = record { env_lines = []; lease_state = new; acquired_leases = []; files = [] }

-- The lines for the tools, after the secrets.
unfoldable pub env_content : Text → Text → Option Text → Text → Text → Text
unfolding escape_quotes
env_content lines vault_addr credential_token self_path manifest =
    lines
    ++ (codes "export ZEROLEASE_VAULT_ADDR='"
        ++ (vault_addr
            ++ (codes "'\n"
                ++ (elim credential_token [
                  | none ↦ []
                  | some token ↦ export_line (codes "ZEROLEASE_CREDENTIAL_TOKEN") token
                ]
                    ++ (codes "export GIT_TERMINAL_PROMPT=0\nexport GIT_CONFIG_COUNT=1\n"
                        ++ (codes
                              "export GIT_CONFIG_KEY_0='credential.helper'\nexport GIT_CONFIG_VALUE_0='"
                            ++ (self_path
                                ++ (codes " credential-fill --manifest "
                                    ++ (manifest
                                        ++ (codes "'\nexport HTTPS_PROXY='http://127.0.0.1:8080'\n"
                                            ++ codes
                                                "export HTTP_PROXY='http://127.0.0.1:8080'\n"))))))))))

-- How a run ended: its exit code is success only when all was written.
pub data Exit : Type 0 where
  failed : Failure → Exit
  env_file_failed lease_file_failed : Exit
  succeeded : Text → LeaseState → Exit

module _ {S : Type 0} (calls : VaultCalls S) where
  -- The loop that revokes; what a call answers is only logged.
  unfoldable pub rollback : List Uuid → S → S
  rollback [] s = s
  rollback (id ∷ ids) s = rollback ids (calls.revoke_lease s id admin_revoked).1

module _ (machine : Machine) where
  -- The loop over the mechanisms of an entry.
  unfoldable pub inject_all :
      Text → List InjectMechanism → Provisioned → Option Failure × Provisioned
  unfolding expand_tilde expand_template escape_quotes
  inject_all secret [] p = (none, p)
  inject_all secret (env var ∷ more) p =
      inject_all secret more (record p { env_lines = p.env_lines ++ export_line var secret })
  inject_all secret (git_credential host ∷ more) p = inject_all secret more p
  inject_all secret (file path template ∷ more) p =
      let expanded = expand_tilde machine.home path in
      let written =
        inject_all secret more
          (record p { files = (expanded, expand_template template secret) ∷ p.files }) in
      if machine.writable expanded then written else (some (write_failed expanded), p)

  abbrev pub info_of : LeaseGrant → LeaseInfo
  info_of grant = record {
    lease_id = machine.show_uuid grant.lease_id;
    expires_at = grant.expires_at;
  }

  -- An entry whose secret was read, from `String::from_utf8` on.
  unfoldable pub provide :
      CredentialEntry → LeaseGrant → Bytes → Provisioned → Option Failure × Provisioned
  unfolding inject_all
  provide entry grant secret_bytes p = elim (from_utf8 secret_bytes) [
    | none ↦ (some (not_utf8 entry.secret_name), p)
    | some secret ↦ inject_all secret entry.inject (record p {
      lease_state = record p.lease_state {
        leases = insert p.lease_state.leases entry.target_domain (info_of grant);
      };
    })
  ]

  module _ {S : Type 0} (calls : VaultCalls S) where
    -- What the loop has done, and the other end.
    abbrev pub Acquiring : Type 0
    Acquiring = Option Failure × (Provisioned × S)

    abbrev pub with_calls : Option Failure × Provisioned → S → Acquiring
    with_calls (failure, p) s = (failure, (p, s))

    -- After the lease was granted.
    unfoldable pub use_grant : CredentialEntry → LeaseGrant → Provisioned → S → Acquiring
    unfolding provide
    use_grant entry grant p s =
        let (secret, s') = calls.access_secret s grant.lease_id entry.target_domain in
        elim secret [
          | err e ↦ (some (access_failed entry.secret_name e), (p, s'))
          | ok secret_bytes ↦ with_calls (provide entry grant secret_bytes p) s'
        ]

    -- One round of the loop.
    unfoldable pub acquire_entry : CredentialEntry → Provisioned → S → Acquiring
    unfolding use_grant
    acquire_entry entry p s =
        let (grant, s') =
          calls.request_lease s (codes "provisioner") entry.secret_name entry.target_domain in
        elim grant [
          | err e ↦ (some (lease_failed entry.secret_name e), (p, s'))
          | ok grant ↦
              use_grant entry grant
                (record p { acquired_leases = p.acquired_leases ++ (grant.lease_id ∷ []) }) s'
        ]

    -- The rest of the loop, unless a round failed.
    abbrev pub go_on : (Provisioned → S → Acquiring) → Acquiring → Acquiring
    go_on rest (some failure, (p, s)) = (some failure, (p, s))
    go_on rest (none, (p, s)) = rest p s

    unfoldable pub acquire_credentials : CredentialManifest → Provisioned → S → Acquiring
    unfolding acquire_entry
    acquire_credentials [] p s = (none, (p, s))
    acquire_credentials (entry ∷ more) p s =
        go_on (λ q t. acquire_credentials more q t) (acquire_entry entry p s)

    -- `run` after the connection, for a machine that can write the env file or not, and the
    -- lease file or not. The first argument makes the content of the env file of its lines.
    unfoldable pub finish : (Text → Text) → Bool → Bool → Acquiring → Exit × S
    unfolding rollback
    finish content env_file lease_file (some failure, (p, s)) =
        (failed failure, rollback calls p.acquired_leases s)
    finish content env_file lease_file (none, (p, s)) =
        if not env_file
        then (env_file_failed, s)
        else if not lease_file
        then (lease_file_failed, s)
        else (succeeded (content p.env_lines) p.lease_state, s)

    unfoldable pub run : (Text → Text) → Bool → Bool → CredentialManifest → S → Exit × S
    unfolding finish acquire_credentials nothing_yet
    run content env_file lease_file manifest s =
        finish content env_file lease_file (acquire_credentials manifest nothing_yet s)
