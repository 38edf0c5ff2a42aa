-- ===== src/Client/Calls.antt =====
-- src/client.rs with src/server.rs: the typed calls, against the operations of the vault.
use zerolease.Prelude.{
  ℕ, ◌+◌, ◌≡◌, refl, ap, ◌∙◌, inl, inr, Option, none, some, Text, codes, text_beq, any,
  Option-cases,
}
use zerolease.Types.Identity.{Uuid}
use zerolease.Types.Secrets.{Bytes}
use zerolease.Error.{remote, Result, ok, err, ◌>>=◌, Result-cases}
use zerolease.Env.{Env}
use zerolease.Lease.{LeaseGuard}
use zerolease.Auth.{ConnectionIdentity}
use zerolease.Protocol.{Response, Complaint, of_error, error_to_code, success, from_error}
use zerolease.Vault.State.{Vault, Backends, ◌>>>◌}
use zerolease.Vault.Leases
use zerolease.Server.Dispatch.{
  Codec, dispatch, call_method, json_response, is_refused, on_access_secret, access_secret_method,
}
use zerolease.Client.{
  Reply, ClientCodec, Client, Call, request, response_result, or_transport, access_secret,
}
use zerolease.Client.Remote.{Serving, server, Exchange, at_rest, request-Exchange}

abbrev pub map_ok : {A B : Type 0} → (A → B) → Result A → Result B
map_ok f (ok a) = ok (f a)
map_ok f (err e) = err e

-- An error of the vault, as the client has it.
abbrev pub remotely : {A : Type 0} → (Complaint → Text) → Result A → Result A
remotely show (ok a) = ok a
remotely show (err e) = err (remote (error_to_code e) (show (of_error e)))

-- Two steps that leave the client alone are one.
lift_lift :
    {S A B C : Type 0} (call : Call S A) (p : A → Result B) (q : B → Result C)
    → ((call >>> λ a client. (p a, client)) >>> λ x client. (q x, client))
      ≡ (call >>> λ a client. (p a >>= q, client))
lift_lift (err e, client) p q = refl
lift_lift (ok a, client) p q = elim (Result-cases (p a)) [
  | inl (x, good) ↦ rw good refl
  | inr (e, bad) ↦ rw bad refl
]

module _ {J KS SS AS : Type 0} (c : Codec J) (k : ClientCodec J) (b : Backends KS SS AS)
    (envs : ℕ → Env) (peer : Text) (identity : ConnectionIdentity) (show : Complaint → Text) where
  -- A response as the client parses it: the message of its error is printed.
  abbrev pub reply_of : Response J → Reply J
  reply_of r = record {
    id = r.id;
    succeeded = r.succeeded;
    result = r.result;
    error = elim r.error [ none ↦ none | some p ↦ some (p.code, show p.message) ];
  }

  abbrev pub Server : Type 0
  Server = Serving KS SS AS

  -- The server after a request that left the vault so.
  abbrev pub then_at : Server → Vault KS SS AS → Client Server
  then_at s w = at_rest c k b envs peer identity (record { next = s.next + 1; vault = w })

  -- The exchange of the request whose params are `j`, when its response is `r`.
  abbrev pub Exchanges : Server → Uuid → Text → J → Response J → Type 0
  Exchanges s id method j r =
      Exchange c k b envs peer identity s (record { id = id; method = method; params = j })
        (reply_of r)

  on_access_secret_lem :
      (s : Server) (id : Uuid) (j : J) (lease_id : Uuid) (host : Text)
      → c.access_params j ≡ some (record { lease_id = lease_id; target_domain = host })
      → on_access_secret c b (envs s.next) s.vault id j peer
        ≡ json_response c b
            (λ guard. c.print_secret (c.base64_encode guard.value))
            id
            (Leases.access_secret b (envs s.next) s.vault lease_id host peer)
  unfolding on_access_secret
  on_access_secret_lem s id j lease_id host e = rw (e, on_access_secret) refl

  pub access_secret-dispatch :
      (s : Server) (id : Uuid) (j : J) (lease_id : Uuid) (host : Text)
      → c.access_params j ≡ some (record { lease_id = lease_id; target_domain = host })
      → dispatch c b
          (envs s.next)
          s.vault
          (record { id = id; method = access_secret_method; params = j })
          peer
          identity
        ≡ json_response c b
            (λ guard. c.print_secret (c.base64_encode guard.value))
            id
            (Leases.access_secret b (envs s.next) s.vault lease_id host peer)
  unfolding dispatch is_refused call_method any text_beq
  access_secret-dispatch s id j lease_id host e = on_access_secret_lem s id j lease_id host e

  -- What the server prints of a result, the client reads as `f` of it.
  abbrev pub Reads : {A B : Type 0} → (A → Option J) → (J → Result B) → (A → B) → Type 0
  Reads {A} print read f = (a : A) → (j : J) × (print a ≡ some j) × (read j ≡ ok (f a))

  json_response-remote :
      {A B : Type 0} (print : A → Option J) (read : J → Result B) (f : A → B) (id : Uuid)
      (r : Result A × Vault KS SS AS)
      → Reads print read f
      → (response_result k
            (server c k b envs peer identity)
            (reply_of (json_response c b print id r).0)
          >>= read)
        ≡ remotely show (map_ok f r.0)
  unfolding json_response response_result success from_error
  json_response-remote print read f id (ok a, w) reads =
      let (j, printed, back) = reads a in rw (printed, json_response) back
  json_response-remote print read f id (err e, w) reads = refl

  json_response-vault :
      {A : Type 0} (print : A → Option J) (id : Uuid) (r : Result A × Vault KS SS AS)
      → (json_response c b print id r).1 ≡ r.1
  unfolding json_response
  json_response-vault print id (err e, w) = refl
  json_response-vault print id (ok a, w) = elim (Option-cases (print a)) [
    | inl fails ↦ rw (fails, json_response) refl
    | inr (j, prints) ↦ rw (prints, json_response) refl
  ]

  -- A request that the server answers by `json_response`, with what the client reads.
  pub call-remote :
      {A B : Type 0} (print : A → Option J) (read : J → Result B) (f : A → B) (s : Server)
      (id : Uuid) (method : Text) (params : J) (r : Result A × Vault KS SS AS)
      → dispatch c b
          (envs s.next)
          s.vault
          (record { id = id; method = method; params = params })
          peer
          identity
        ≡ json_response c b print id r
      → Exchanges s id method params (json_response c b print id r).0
      → Reads print read f
      → (request k
            (server c k b envs peer identity)
            (at_rest c k b envs peer identity s)
            id
            method
            params
          >>> λ j client. (read j, client))
        ≡ (remotely show (map_ok f r.0), then_at s r.1)
  call-remote print read f s id method params r same x reads =
      let got = request-Exchange c k b envs peer identity s _ _ x in
      ap (λ call. call >>> λ j client. (read j, client)) got
      ∙ after_lift
          (response_result k (server c k b envs peer identity)
            (reply_of (json_response c b print id r).0))
          read _
      ∙ (rw same (
          rw (json_response-vault print id r)
            (ap (λ x. (x, then_at s r.1)) (json_response-remote print read f id r reads))))
    where
      after_lift :
          {A B : Type 0} (m : Result A) (read : A → Result B) (client : Client Server)
          → ((m, client) >>> λ j client. (read j, client)) ≡ (m >>= read, client)
      after_lift (ok a) read client = refl
      after_lift (err e) read client = refl

  -- Take a server that runs the request loop on a connection, and a client with nothing left to
  -- read. The texts of the request and of the response fit in a frame and are parsed as they were
  -- printed. Then the client's call to access a secret has the outcome that the vault's operation
  -- has on the server, for the peer of the connection: the secret, or the code and the message of
  -- the error; the vault is left as the operation leaves it.
  pub access_secret-remote :
      (s : Server) (id lease_id : Uuid) (host : Text) (params : J)
      → k.access_json (record { lease_id = lease_id; target_domain = host }) ≡ some params
      → c.access_params params ≡ some (record { lease_id = lease_id; target_domain = host })
      → Exchanges s id access_secret_method params
          (json_response c b
            (λ guard. c.print_secret (c.base64_encode guard.value))
            id
            (Leases.access_secret b (envs s.next) s.vault lease_id host peer)).0
      → ((t : Text) → (j : J) × (c.print_secret t ≡ some j) × (k.secret_of_json j ≡ some t))
      → ((x : Bytes) → k.decode (c.base64_encode x) ≡ some x)
      → let r = Leases.access_secret b (envs s.next) s.vault lease_id host peer in
        access_secret k
          (server c k b envs peer identity)
          (at_rest c k b envs peer identity s)
          id
          lease_id
          host
        ≡ (remotely show (map_ok (λ guard. guard.value) r.0), then_at s r.1)
  unfolding access_secret
  access_secret-remote s id lease_id host params printed parsed x secrets base64 =
      let print = λ (guard : LeaseGuard). c.print_secret (c.base64_encode guard.value) in
      let secret_of =
        λ (j : J). or_transport (codes "failed to parse response") (k.secret_of_json j) in
      let bytes_of =
        λ (t : Text). or_transport (codes "invalid base64 in server response") (k.decode t) in
      let reads : Reads print (λ j. secret_of j >>= bytes_of) (λ guard. guard.value) = λ guard.
        let (j, prints, back) = secrets (c.base64_encode guard.value) in
        (j, prints, rw (back, base64 guard.value) refl) in
      let r = Leases.access_secret b (envs s.next) s.vault lease_id host peer in
      let sent =
        request k (server c k b envs peer identity) (at_rest c k b envs peer identity s) id
          access_secret_method params in
      let remote_call =
        call-remote print (λ j. secret_of j >>= bytes_of) (λ guard. guard.value) s id
          access_secret_method params r (access_secret-dispatch s id params lease_id host parsed) x
          reads in
      rw (printed, access_secret) (lift_lift sent secret_of bytes_of ∙ remote_call)
