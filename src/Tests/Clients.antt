-- ===== src/Tests/Clients.antt =====
-- The theorems on the client, at concrete inputs.
use zerolease.Prelude.{
  ℕ, ◌≡◌, refl, sym, ap, ◌∙◌, true, Option, none, some, List, [], Text, codes, arith,
}
use zerolease.Types.Secrets.{Bytes, pat, admin_revoked}
use zerolease.Error.{Result, ok, err}
use zerolease.Env.{Env}
use zerolease.Auth.{ConnectionIdentity, agent}
use zerolease.Protocol.{Complaint, success}
use zerolease.Server.Dispatch.{Codec, json_response, access_secret_method}
use zerolease.Client.{ClientCodec, access_secret}
use zerolease.Client.Remote.{Serving, server, at_rest}
use zerolease.Client.Calls.{
  remotely, map_ok, then_at, Exchanges, reply_of, access_secret-dispatch, access_secret-remote,
}
use zerolease.Vault.Leases
use zerolease.Audit.{AuditEntry}
use zerolease.Store.{StoredSecret}
use zerolease.Lease.{LeaseGuard}
use zerolease.Tests.Sample.{backends, at_time}
use zerolease.Tests.Vaults.{Running, leased, ci, api, peer, guard, reveals}

-- Each frame names a method; a value in JSON is a text.
abbrev codec : Codec Text
codec = record {
  parse_hello = λ _. none;
  print_hello = λ _. none;
  parse_request = λ frame. some (record { id = 1; method = frame; params = [] });
  print_response = λ r. r.result;
  store_params = λ _. none;
  request_params = λ _. none;
  access_params = λ _. some (record { lease_id = 20; target_domain = api });
  revoke_params = λ _. none;
  revoke_all_params = λ _. none;
  renew_params = λ _. none;
  delete_params = λ _. none;
  kind_of = λ _. some pat;
  reason_of = λ _. some admin_revoked;
  print_metadata = λ _. none;
  print_grant = λ _. none;
  print_secret = λ t. some t;
  print_count = λ _. none;
  print_secrets = λ _. none;
  empty_object = [];
  base64_decode = λ t. some t;
  base64_encode = λ t. t;
}

abbrev client_codec : ClientCodec Text
client_codec = record {
  print_client_hello = λ _. none;
  parse_server_hello = λ _. none;
  print_request = λ r. some r.method;
  parse_response =
      λ frame. some (record { id = 1; succeeded = true; result = some frame; error = none });
  store_json = λ _. none;
  request_json = λ _. none;
  access_json = λ _. some [];
  revoke_json = λ _. none;
  revoke_all_json = λ _. none;
  renew_json = λ _. none;
  delete_json = λ _. none;
  kind_json = λ _. none;
  reason_json = λ _. none;
  metadata_of_json = λ _. none;
  grant_of_json = λ _. none;
  secret_of_json = λ t. some t;
  count_of_json = λ _. none;
  secrets_of_json = λ _. none;
  no_params = [];
  encode = λ t. t;
  decode = λ t. some t;
}

abbrev envs : ℕ → Env
envs i = at_time 3 30

abbrev ci_agent : ConnectionIdentity
ci_agent = record { role = agent; agent_id = some ci; label = codes "ci runner" }

abbrev show : Complaint → Text
show _ = codes "failed"

abbrev serving : Serving Bytes (List StoredSecret) (List AuditEntry)
serving = record { next = 0; vault = leased }

abbrev print : LeaseGuard → Option Text
print guard = codec.print_secret (codec.base64_encode guard.value)

revealed :
    (r : Result LeaseGuard × Running)
    → r.0 ≡ ok guard
    → (json_response codec backends print 1 r).0 ≡ success 1 (codes "pw")
unfolding json_response success
revealed (ok g, w) e = ground arith
revealed (err x, w) e = absurd (ground arith)

abbrev accessed : Result LeaseGuard × Running
accessed = Leases.access_secret backends (at_time 3 30) leased 20 api peer

access_exchange :
    Exchanges codec client_codec backends envs peer ci_agent show serving 1 access_secret_method []
      (json_response codec backends print 1 accessed).0
unfolding success
access_exchange =
    let answered = revealed accessed reveals in
    record {
      request_bytes = access_secret_method;
      printed = refl;
      parsed = refl;
      request_fits = omega arith;
      response_bytes = codes "pw";
      answer =
          ap (λ x. codec.print_response x.0)
            (access_secret-dispatch codec client_codec backends envs peer ci_agent show serving 1 []
              20 api refl)
          ∙ ap (λ x. codec.print_response x) answered;
      understood = sym (
          ap (λ x. some (reply_of codec client_codec backends envs peer ci_agent show x)) answered);
      response_fits = omega arith;
    }

access_secret-remote_example :
    access_secret client_codec
      (server codec client_codec backends envs peer ci_agent)
      (at_rest codec client_codec backends envs peer ci_agent serving)
      1
      20
      api
    ≡ (
      remotely show (map_ok (λ g. g.value) accessed.0),
      then_at codec client_codec backends envs peer ci_agent show serving accessed.1,
    )
access_secret-remote_example =
    access_secret-remote codec client_codec backends envs peer ci_agent show serving 1 20 api []
      refl refl access_exchange (λ t. (t, refl, refl)) (λ x. refl)
