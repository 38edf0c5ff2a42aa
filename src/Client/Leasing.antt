-- ===== src/Client/Leasing.antt =====
-- src/client.rs with src/server.rs: the request for a lease, against the operation of the vault.
use zerolease.Prelude.{ℕ, ◌≡◌, refl, some, Text, codes, text_beq, any}
use zerolease.Types.Identity.{Uuid}
use zerolease.Types.Secrets.{LeaseGrant}
use zerolease.Env.{Env}
use zerolease.Auth.{ConnectionIdentity}
use zerolease.Protocol.{Complaint}
use zerolease.Vault.State.{Backends}
use zerolease.Vault.Leases
use zerolease.Server.Dispatch.{
  Codec, dispatch, call_method, json_response, is_refused, resolve_agent, on_request_lease,
  request_lease_method,
}
use zerolease.Client.{ClientCodec, or_transport, request_lease}
use zerolease.Client.Remote.{Serving, server, at_rest}
use zerolease.Client.Calls.{map_ok, remotely, Exchanges, then_at, Reads, call-remote}

module _ {J KS SS AS : Type 0} (c : Codec J) (k : ClientCodec J) (b : Backends KS SS AS)
    (envs : ℕ → Env) (peer : Text) (identity : ConnectionIdentity) (show : Complaint → Text) where
  on_request_lease_lem :
      (s : Serving KS SS AS) (id : Uuid) (j : J) (agent secret_name domain : Text)
      → c.request_params j
        ≡ some (record { agent = agent; secret_name = secret_name; domain = domain })
      → on_request_lease c b (envs s.next) s.vault id j peer identity
        ≡ json_response c b c.print_grant id (
            Leases.request_lease b
              (envs s.next)
              s.vault
              (resolve_agent identity agent)
              secret_name
              domain
              peer)
  unfolding on_request_lease
  on_request_lease_lem s id j agent secret_name domain e = rw (e, on_request_lease) refl

  request_lease-dispatch :
      (s : Serving KS SS AS) (id : Uuid) (j : J) (agent secret_name domain : Text)
      → c.request_params j
        ≡ some (record { agent = agent; secret_name = secret_name; domain = domain })
      → dispatch c b
          (envs s.next)
          s.vault
          (record { id = id; method = request_lease_method; params = j })
          peer
          identity
        ≡ json_response c b c.print_grant id (
            Leases.request_lease b
              (envs s.next)
              s.vault
              (resolve_agent identity agent)
              secret_name
              domain
              peer)
  unfolding dispatch is_refused call_method any text_beq
  request_lease-dispatch s id j agent secret_name domain e =
      on_request_lease_lem s id j agent secret_name domain e

  -- With the same server and client, and texts that fit and are parsed as they were printed: the
  -- client's request for a lease has the outcome that the vault's operation has on the server
  -- for the agent that the connection may act for, the grant or the code and the message of the
  -- error, and leaves the vault as the operation does.
  pub request_lease-remote :
      (s : Serving KS SS AS) (id : Uuid) (agent secret_name domain : Text) (params : J)
      → k.request_json (record { agent = agent; secret_name = secret_name; domain = domain })
        ≡ some params
      → c.request_params params
        ≡ some (record { agent = agent; secret_name = secret_name; domain = domain })
      → Exchanges c k b envs peer identity show s id request_lease_method params
          (json_response c b c.print_grant id (
            Leases.request_lease b
              (envs s.next)
              s.vault
              (resolve_agent identity agent)
              secret_name
              domain
              peer)).0
      → ((g : LeaseGrant) → (j : J) × (c.print_grant g ≡ some j) × (k.grant_of_json j ≡ some g))
      → let r =
          Leases.request_lease b
            (envs s.next)
            s.vault
            (resolve_agent identity agent)
            secret_name
            domain
            peer in
        request_lease k
          (server c k b envs peer identity)
          (at_rest c k b envs peer identity s)
          id
          agent
          secret_name
          domain
        ≡ (remotely show (map_ok (λ g. g) r.0), then_at c k b envs peer identity show s r.1)
  unfolding request_lease
  request_lease-remote s id agent secret_name domain params printed parsed x grants =
      let grant_of =
        λ (j : J). or_transport (codes "failed to parse response") (k.grant_of_json j) in
      let reads : Reads c k b envs peer identity show c.print_grant grant_of (λ g. g) =
        λ g. let (j, prints, back) = grants g in (j, prints, rw back refl) in
      let r =
        Leases.request_lease b (envs s.next) s.vault (resolve_agent identity agent) secret_name
          domain peer in
      rw (printed, request_lease)
        (call-remote c k b envs peer identity show c.print_grant grant_of (λ g. g) s id
          request_lease_method params r
          (request_lease-dispatch s id params agent secret_name domain parsed) x reads)
