-- ===== src/Tests/Servers.antt =====
-- The theorems on tokens, frames, dispatch and connections, at concrete inputs.
use zerolease.Prelude.{List, ◌≡◌, none, some, [], ◌∷◌, ◌++◌, Text, codes, pos, text_beq, text_eq}
use zerolease.Types.Secrets.{Bytes, pat, admin_revoked}
use zerolease.Error.{ok}
use zerolease.Auth.{ConnectionIdentity, agent, token_authenticator, authenticate}
use zerolease.Auth.Tokens.{TokenCall, registers, revokes, run_calls, authenticate-latest}
use zerolease.Transport.{PeerIdentity, anonymous}
use zerolease.Protocol.{Request}
use zerolease.Protocol.Frame.{read_frame, write_frame}
use zerolease.Protocol.Frame.RoundTrip.{read_frame-write_frame}
use zerolease.Server.Dispatch.{Codec, request_lease_method}
use zerolease.Server.Connection.{handle_connection}
use zerolease.Server.Handler.{Ends, Outcome, handle_connection-Ends}
use zerolease.Vault.Authority.{Anything}
use zerolease.Tests.Sample.{backends, at_time, fresh}

abbrev ci : Text
ci = codes "ci"

abbrev ci_agent : ConnectionIdentity
ci_agent = record { role = agent; agent_id = some ci; label = codes "ci runner" }

abbrev same_text : Text → Text
same_text t = t

abbrev calls : List TokenCall
calls = revokes (codes "old") ∷ registers (codes "tok") ci_agent ∷ []

abbrev nobody : PeerIdentity (Unit {0})
nobody = anonymous

authenticate-latest_example :
    (authenticate same_text (run_calls same_text calls) nobody (some (codes "tok")) ≡ some ci_agent)
    × (authenticate same_text (run_calls same_text calls) nobody none ≡ none)
unfolding text_beq
authenticate-latest_example = authenticate-latest same_text calls nobody (codes "tok")

read_frame-write_frame_example :
    (wire : Bytes) × (write_frame (codes "hi") ≡ ok wire)
    × (read_frame (wire ++ codes "more") ≡ ok (codes "hi", codes "more"))
read_frame-write_frame_example = read_frame-write_frame (codes "hi") (codes "more")

-- Each frame names a method, and the params are fixed.
abbrev codec : Codec (Unit {0})
codec = record {
  parse_hello =
      λ frame. some (record { protocol = frame; version = 1; token = some (codes "tok") });
  print_hello = λ _. some (codes "hello");
  parse_request = λ frame. some (record { id = 1; method = frame; params = tt });
  print_response = λ _. some (codes "done");
  store_params = λ _.
      some
        (record { name = codes "gh-token"; plaintext = codes "pw"; kind = tt; description = none });
  request_params = λ _. some (record {
    agent = codes "someone";
    secret_name = codes "gh-token";
    domain = codes "api.github.com";
  });
  access_params = λ _. some (record { lease_id = 20; target_domain = codes "api.github.com" });
  revoke_params = λ _. some (record { lease_id = 20; reason = tt });
  revoke_all_params = λ _. some (codes "someone");
  renew_params = λ _. some (20, pos 60);
  delete_params = λ _. some (codes "gh-token");
  kind_of = λ _. some pat;
  reason_of = λ _. some admin_revoked;
  print_metadata = λ _. some tt;
  print_grant = λ _. some tt;
  print_secret = λ _. some tt;
  print_count = λ _. some tt;
  print_secrets = λ _. some tt;
  empty_object = tt;
  base64_decode = λ t. some t;
  base64_encode = λ t. t;
}

abbrev request : Request (Unit {0})
request = record { id = 1; method = request_lease_method; params = tt }

abbrev no_address : Unit {0} → Text
no_address _ = []

abbrev input : Bytes
input = 0 ∷ 0 ∷ 0 ∷ 9 ∷ codes "zerolease" ++ (0 ∷ 0 ∷ 0 ∷ 13 ∷ codes "request_lease")

handle_connection-Ends_example :
    Ends codec backends Anything
      (Outcome codec backends Anything same_text no_address
        (token_authenticator same_text)
        (run_calls same_text calls)
        (at_time 1)
        (λ _. tt)
        fresh
        nobody
        input)
      (handle_connection codec backends same_text no_address
        (token_authenticator same_text)
        (run_calls same_text calls)
        (at_time 1)
        fresh
        input
        nobody)
handle_connection-Ends_example =
    handle_connection-Ends codec backends Anything same_text no_address
      (token_authenticator same_text) (run_calls same_text calls) (at_time 1) (λ _. tt) fresh nobody
      input
