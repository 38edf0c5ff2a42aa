-- ===== src/Agent/GitCredential/Answers.antt =====
-- crates/zerolease-agent/src/git_credential.rs: what a credential on the output comes from.
use zerolease.Prelude.{
  ◌≡◌, refl, sym, ◌∙◌, inl, inr, Option, none, some, Text, codes, arith, text_eq, from_utf8,
  Option-cases,
}
use zerolease.Types.Secrets.{Bytes, LeaseGrant}
use zerolease.Error.{ok, Result-cases}
use zerolease.Map.{get}
use zerolease.Agent.Manifest.{CredentialManifest, git_host_map, last_serving, get-git_host_map}
use zerolease.Agent.GitCredential.{
  CredentialRequest, HelperCalls, written, answer_of, write_credential, fetch, handle_get,
}

module _ {S : Type 0} (calls : HelperCalls S) where
  -- The secret is what a lease on it for the domain gave, in a connection of the client.
  abbrev pub Fetched : S → Text → Text → Text → Type 0
  Fetched client secret_name target_domain out =
      let asked =
        calls.request_lease client (codes "credential-helper") secret_name target_domain in
      (grant : LeaseGrant) × (bytes : Bytes) × (secret : Text) × (asked.0 ≡ ok grant)
      × ((calls.access_secret asked.1 grant.lease_id target_domain).0 ≡ ok bytes)
      × (from_utf8 bytes ≡ some secret)
      × (out ≡ write_credential (codes "x-access-token") secret)

  answer_of-written :
      (o : Option Text) (out : Text)
      → answer_of calls o ≡ written out
      → (secret : Text) × (o ≡ some secret)
        × (out ≡ write_credential (codes "x-access-token") secret)
  answer_of-written none out e = absurd (ground arith)
  answer_of-written (some secret) out e = (secret, refl, ground arith)

  fetch-written :
      (client : S) (secret_name target_domain out : Text)
      → fetch calls client secret_name target_domain ≡ written out
      → Fetched client secret_name target_domain out
  unfolding fetch
  fetch-written client secret_name target_domain out e =
      let asked =
        calls.request_lease client (codes "credential-helper") secret_name target_domain in
      elim (Result-cases asked.0) [
        | inr (x, bad) ↦ absurd (ground arith)
        | inl (grant, good) ↦
            elim (Result-cases (calls.access_secret asked.1 grant.lease_id target_domain).0) [
              | inr (x, bad) ↦ absurd (ground arith)
              | inl (bytes, read) ↦
                  let answered : answer_of calls (from_utf8 bytes) ≡ written out = ground arith in
                  let (secret, text, same) = answer_of-written (from_utf8 bytes) out answered in
                  (grant, bytes, secret, good, read, text, same)
            ]
      ]

  -- The helper writes a credential only for a host that a git_credential mechanism of the manifest
  -- names. It then writes the secret of the last entry that serves this host, which it read
  -- under a lease on that secret for that entry's domain.
  pub handle_get-written :
      (request : CredentialRequest) (manifest : CredentialManifest) (token out : Text)
      → handle_get calls request (git_host_map manifest) token ≡ written out
      → (host : Text) × (secret_name : Text) × (target_domain : Text) × (client : S) × (request.host
          ≡ some host)
        × (last_serving host manifest ≡ some (secret_name, target_domain))
        × (calls.connect_with_token token ≡ ok client)
        × Fetched client secret_name target_domain out
  unfolding handle_get
  handle_get-written request manifest token out e = elim (Option-cases request.host) [
    | inl missing ↦ absurd (ground arith)
    | inr (host, asked) ↦ elim (Option-cases (get (git_host_map manifest) host)) [
      | inl unknown ↦ absurd (ground arith)
      | inr ((secret_name, target_domain), ours) ↦
          elim (Result-cases (calls.connect_with_token token)) [
            | inr (x, bad) ↦ absurd (ground arith)
            | inl (client, connected) ↦ (
              host,
              secret_name,
              target_domain,
              client,
              asked,
              sym (get-git_host_map manifest host) ∙ ours,
              connected,
              fetch-written client secret_name target_domain out (ground arith),
            )
          ]
    ]
  ]
