-- ===== src/Client.antt =====
-- src/client.rs: the typed client. The other end of the stream is a parameter: a type of states and
-- what it writes upon the bytes that the client wrote. The client's state is that of the other end,
-- with the bytes that are not yet read. Writing fails only by the size of a frame.
pub mod Calls
pub mod Leasing
pub mod Remote
use zerolease.Prelude.{
  ℕ, Bool, true, false, not, Option, none, some, List, [], ◌∷◌, ◌++◌, Text, codes, ℤ, if◌then◌else◌,
}
use zerolease.Types.Identity.{Uuid}
use zerolease.Types.Secrets.{Bytes, SecretKind, RevocationReason, LeaseGrant, SecretMetadata}
use zerolease.Error.{Error, transport, text, remote, Result, ok, err, ◌>>=◌}
use zerolease.Protocol.{
  ClientHello, protocol_name, current_version, Request, StoreSecretRequest, RequestLeaseRequest,
  AccessSecretRequest, RevokeLeaseRequest,
}
use zerolease.Protocol.Frame.{read_frame, write_frame}
use zerolease.Server.Dispatch.{
  store_secret_method, request_lease_method, access_secret_method, revoke_lease_method,
  revoke_all_for_agent_method, list_secrets_method, renew_lease_method, delete_secret_method,
}
use zerolease.Vault.State.{◌>>>◌}

-- `Response` and `ServerHello` as a client reads them: the message of an error is a text.
pub record Reply (J : Type 0) : Type 0 where
  pub id : Uuid
  pub succeeded : Bool
  pub result : Option J
  pub error : Option (Text × Text)

pub record HelloReply : Type 0 where
  pub accepted : Bool
  pub error : Option Text

-- What the code asks of serde_json, per type, and of base64. `none` is an error.
pub record ClientCodec (J : Type 0) : Type 0 where
  pub print_client_hello : ClientHello → Option Bytes
  pub parse_server_hello : Bytes → Option HelloReply
  pub print_request : Request J → Option Bytes
  pub parse_response : Bytes → Option (Reply J)
  pub store_json : StoreSecretRequest J → Option J
  pub request_json : RequestLeaseRequest → Option J
  pub access_json : AccessSecretRequest → Option J
  pub revoke_json : RevokeLeaseRequest J → Option J
  pub revoke_all_json : Text → Option J
  pub renew_json : Uuid × ℤ → Option J
  pub delete_json : Text → Option J
  pub kind_json : SecretKind → Option J
  pub reason_json : RevocationReason → Option J
  pub metadata_of_json : J → Option SecretMetadata
  pub grant_of_json : J → Option LeaseGrant
  pub secret_of_json : J → Option Text
  pub count_of_json : J → Option ℕ
  pub secrets_of_json : J → Option (List J)
  pub no_params : J
  pub encode : Bytes → Text
  pub decode : Text → Option Bytes

-- `map_err(|e| Error::Transport(format!(…)))`
abbrev pub or_transport : {A : Type 0} → Text → Option A → Result A
or_transport message none = err (transport (text message))
or_transport message (some a) = ok a

abbrev pub or_default : {J : Type 0} → Option J → J → J
or_default none j = j
or_default (some j) k = j

abbrev pub remote_error : Option (Text × Text) → Error
remote_error none = remote (codes "unknown") (codes "server returned an error with no payload")
remote_error (some (code, message)) = remote code message

pub record Client (S : Type 0) : Type 0 where
  pub peer : S
  pub unread : Bytes

abbrev pub Call : Type 0 → Type 0 → Type 0
Call S A = Result A × Client S

module _ {J S : Type 0} (c : ClientCodec J) (answer : S → Bytes → Bytes × S) where
  -- `write_frame`: the other end answers what was written.
  unfoldable pub send_frame : Client S → Bytes → Call S (Unit {0})
  send_frame client payload = elim (write_frame payload) [
    | err e ↦ (err e, client)
    | ok wire ↦
        let (reply, peer) = answer client.peer wire in
        (ok tt, record { peer = peer; unread = client.unread ++ reply })
  ]

  unfoldable pub receive_frame : Client S → Call S Bytes
  receive_frame client = elim (read_frame client.unread) [
    | err e ↦ (err e, client)
    | ok (payload, rest) ↦ (ok payload, record client { unread = rest })
  ]

  -- A value that may fail, and the client as it is.
  abbrev pub lift : {A : Type 0} → Result A → Client S → Call S A
  lift r client = (r, client)

  unfoldable pub hello_result : HelloReply → Result (Unit {0})
  hello_result hello =
      if not hello.accepted then err (transport (text (codes "handshake rejected"))) else ok tt

  -- `connect_with_hello`, on a stream of which nothing is read.
  unfoldable pub connect_with_hello : S → ClientHello → Call S (Unit {0})
  unfolding send_frame receive_frame hello_result
  connect_with_hello peer hello =
      lift (or_transport (codes "failed to serialize hello") (c.print_client_hello hello))
        (record { peer = peer; unread = [] })
      >>> λ hello_bytes client. send_frame client hello_bytes >>> λ _ client.
          receive_frame client >>> λ resp_bytes client.
          lift
            (or_transport (codes "invalid server hello") (c.parse_server_hello resp_bytes)
              >>= λ server_hello. hello_result server_hello)
            client

  -- `ClientHello::new` and `ClientHello::with_token`
  abbrev pub hello_new : ClientHello
  hello_new = record { protocol = protocol_name; version = current_version; token = none }

  abbrev pub hello_with_token : Text → ClientHello
  hello_with_token token = record {
    protocol = protocol_name;
    version = current_version;
    token = some token;
  }

  unfoldable pub connect : S → Call S (Unit {0})
  unfolding connect_with_hello
  connect peer = connect_with_hello peer hello_new

  unfoldable pub connect_with_token : S → Text → Call S (Unit {0})
  unfolding connect_with_hello
  connect_with_token peer token = connect_with_hello peer (hello_with_token token)

  unfoldable pub response_result : Reply J → Result J
  response_result response =
      if response.succeeded
      then ok (or_default response.result c.no_params)
      else err (remote_error response.error)

  -- `request`; `id` is the draw of `Uuid::now_v7()`.
  unfoldable pub request : Client S → Uuid → Text → J → Call S J
  unfolding send_frame receive_frame response_result
  request client id method params =
      lift
        (or_transport (codes "failed to serialize request")
          (c.print_request (record { id = id; method = method; params = params })))
        client
      >>> λ req_bytes client. send_frame client req_bytes >>> λ _ client.
          receive_frame client >>> λ resp_bytes client.
          lift
            (or_transport (codes "invalid response") (c.parse_response resp_bytes) >>= λ response.
              response_result response)
            client

  -- A request whose params may not print.
  abbrev pub request_of : Client S → Uuid → Text → Option J → Call S J
  request_of client id method params =
      lift (or_transport (codes "failed to serialize params") params) client >>> λ j client.
      request client id method j

  -- `parse_result`
  abbrev pub parse_result : {A : Type 0} → (J → Option A) → Call S J → Call S A
  parse_result parse call =
      call >>> λ j client. lift (or_transport (codes "failed to parse response") (parse j)) client

  -- A call whose result is dropped.
  abbrev pub done : Call S J → Call S (Unit {0})
  done call = call >>> λ _ client. lift (ok tt) client

  unfoldable pub store_secret :
      Client S → Uuid → Text → Bytes → SecretKind → Option Text → Call S SecretMetadata
  unfolding request
  store_secret client id name plaintext kind description =
      lift (or_transport (codes "failed to serialize kind") (c.kind_json kind)) client
      >>> λ kind client. parse_result c.metadata_of_json (
          request_of client id store_secret_method (
            c.store_json (record {
              name = name;
              plaintext = c.encode plaintext;
              kind = kind;
              description = description;
            })))

  unfoldable pub request_lease : Client S → Uuid → Text → Text → Text → Call S LeaseGrant
  unfolding request
  request_lease client id agent secret_name domain = parse_result c.grant_of_json (
      request_of client id request_lease_method
        (c.request_json (record { agent = agent; secret_name = secret_name; domain = domain })))

  unfoldable pub access_secret : Client S → Uuid → Uuid → Text → Call S Bytes
  unfolding request
  access_secret client id lease_id target_domain =
      parse_result c.secret_of_json (
        request_of client id access_secret_method
          (c.access_json (record { lease_id = lease_id; target_domain = target_domain })))
      >>> λ secret client.
          lift (or_transport (codes "invalid base64 in server response") (c.decode secret)) client

  unfoldable pub revoke_lease : Client S → Uuid → Uuid → RevocationReason → Call S (Unit {0})
  unfolding request
  revoke_lease client id lease_id reason =
      lift (or_transport (codes "failed to serialize reason") (c.reason_json reason)) client
      >>> λ reason client. done (
          request_of client id revoke_lease_method
            (c.revoke_json (record { lease_id = lease_id; reason = reason })))

  unfoldable pub revoke_all_for_agent : Client S → Uuid → Text → Call S ℕ
  unfolding request
  revoke_all_for_agent client id agent =
      parse_result c.count_of_json
        (request_of client id revoke_all_for_agent_method (c.revoke_all_json agent))

  unfoldable pub metadata_list : List J → Result (List SecretMetadata)
  metadata_list [] = ok []
  metadata_list (j ∷ js) =
      or_transport (codes "failed to parse secret metadata") (c.metadata_of_json j) >>= λ m.
      metadata_list js >>= λ ms. ok (m ∷ ms)

  unfoldable pub list_secrets : Client S → Uuid → Call S (List SecretMetadata)
  unfolding request metadata_list
  list_secrets client id =
      parse_result c.secrets_of_json (request client id list_secrets_method c.no_params)
      >>> λ secrets client. lift (metadata_list secrets) client

  unfoldable pub renew_lease : Client S → Uuid → Uuid → ℤ → Call S LeaseGrant
  unfolding request
  renew_lease client id lease_id extension_secs =
      parse_result c.grant_of_json
        (request_of client id renew_lease_method (c.renew_json (lease_id, extension_secs)))

  unfoldable pub delete_secret : Client S → Uuid → Text → Call S (Unit {0})
  unfolding request
  delete_secret client id name =
      done (request_of client id delete_secret_method (c.delete_json name))
