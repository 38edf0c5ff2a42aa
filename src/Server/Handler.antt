-- ===== src/Server/Handler.antt =====
-- src/server.rs: what a whole connection does to the vault, and that it ends.
use zerolease.Prelude.{
  ℕ, zero, suc, ◌+◌, ◌<◌, ◌≤◌, ◌≡◌, refl, subst, ◌⊎◌, inl, inr, Option, none, some, Text, arith,
  length, ◌++◌, Bool-cases, Option-cases, ltb, ◌==◌, text_eq, text_beq_iff,
}
use zerolease.Types.Secrets.{Bytes}
use zerolease.Error.{ok, Result-cases}
use zerolease.Env.{Env}
use zerolease.Transport.{TokenHash, PeerIdentity, display}
use zerolease.Auth.{Authenticator, ConnectionIdentity}
use zerolease.Protocol.{
  ClientHello, accept, protocol_name, current_version, unknown_protocol, unsupported_version,
  Refusal,
}
use zerolease.Protocol.Frame.{read_frame}
use zerolease.Protocol.Frame.RoundTrip.{length-read_frame}
use zerolease.Vault.State.{Vault, Backends}
use zerolease.Server.Dispatch.{Codec, dispatch}
use zerolease.Server.Access.{Allowed, dispatch-Allowed}
use zerolease.Server.Connection.{
  Ended, send, after_wire, request_loop, refuse, known_peer, serve_client, handle_connection,
}

module _ {J KS SS AS : Type 0} (c : Codec J) (b : Backends KS SS AS) (Draws : Env → Type 0) where
  -- Requests of a connection, one after the other.
  pub data Served (identity : ConnectionIdentity) : Vault KS SS AS → Vault KS SS AS → Type 0 where
    stop : {v : Vault KS SS AS} → Served identity v v
    more :
        {v w u : Vault KS SS AS}
        → Allowed b Draws identity v w
        → Served identity w u
        → Served identity v u

  -- It ends, and the vault that it leaves satisfies `P`.
  abbrev pub Ends : (Vault KS SS AS → Type 0) → Option (Ended KS SS AS) → Type 0
  Ends P o = (e : Ended KS SS AS) × (o ≡ some e) × P e.vault

  abbrev Serves : ConnectionIdentity → Vault KS SS AS → Option (Ended KS SS AS) → Type 0
  Serves identity v = Ends (Served identity v)

  after_wire-Ends :
      (P : Vault KS SS AS → Type 0) (wire : Bytes) (o : Option (Ended KS SS AS))
      → Ends P o
      → Ends P (after_wire c b wire o)
  after_wire-Ends P wire none (e, p, s) = absurd (ground arith)
  after_wire-Ends P wire (some e) (e', p, s) =
      let q : e' ≡ e = ground arith in
      (record e { wire = wire ++ e.wire }, refl, subst (λ x. P x.vault) q s)

  Serves-more :
      (identity : ConnectionIdentity) (v w : Vault KS SS AS) (o : Option (Ended KS SS AS))
      → Allowed b Draws identity v w
      → Serves identity w o
      → Serves identity v o
  Serves-more identity v w o a (e, p, s) = (e, p, more a s)

  module _ (envs : ℕ → Env) (draws : (i : ℕ) → Draws (envs i)) (peer : Text)
      (identity : ConnectionIdentity) where
    request_loop-Serves :
        (fuel i : ℕ) (v : Vault KS SS AS) (input : Bytes)
        → length input < fuel
        → Serves identity v (request_loop c b fuel envs i v input peer identity)
    unfolding request_loop
    request_loop-Serves zero i v input h = absurd (omega arith)
    request_loop-Serves (suc fuel) i v input h = elim (Result-cases (read_frame input)) [
      | inr (e, closed) ↦ rw (closed, request_loop) (_, refl, stop)
      | inl ((frame, rest), read) ↦
          let shorter = length-read_frame input frame rest read in
          elim (Option-cases (c.parse_request frame)) [
            | inl bad ↦
                rw (read, request_loop, bad)
                  (after_wire-Ends (Served identity v) _ _
                    (request_loop-Serves fuel i v rest (omega arith)))
            | inr (request, good) ↦
                let r = dispatch c b (envs i) v request peer identity in
                let a = dispatch-Allowed c b Draws identity (envs i) v request peer (draws i) in
                elim (Result-cases (send (c.print_response r.0))) [
                  | inr (e, broken) ↦ rw (read, request_loop, good, broken) (_, refl, more a stop)
                  | inl (wire, sent) ↦
                      rw (read, request_loop, good, sent)
                        (after_wire-Ends (Served identity v) wire _ (
                          Serves-more identity v r.1 _ a
                            (request_loop-Serves fuel (i + 1) r.1 rest (omega arith))))
                ]
          ]
    ]

  refuse-vault : (v : Vault KS SS AS) (reason : Refusal) → (refuse c b v reason).vault ≡ v
  unfolding refuse
  refuse-vault v reason = ground arith

  module _ {Addr T : Type 0} (hash_token : Text → TokenHash) (show_addr : Addr → Text)
      (auth : Authenticator Addr T) (tokens : T) (envs : ℕ → Env) (draws : (i : ℕ) → Draws (envs i))
      (v : Vault KS SS AS) (peer : PeerIdentity Addr) where
    -- The connection was accepted, and its requests served under the identity that was found.
    abbrev pub Accepted : ClientHello → Vault KS SS AS → Type 0
    Accepted hello w =
        (identity : ConnectionIdentity) × (auth.authenticate tokens
            (known_peer c b hash_token show_addr auth tokens peer hello.token) hello.token
          ≡ some identity)
        × (hello.protocol ≡ protocol_name)
        × (hello.version ≤ current_version)
        × Served identity v w

    -- Nothing changed, or the connection was accepted on the hello that its first frame holds.
    unfoldable pub Outcome : Bytes → Vault KS SS AS → Type 0
    Outcome input w =
        (w ≡ v)
        ⊎ ((hello : ClientHello) × (frame : Bytes) × (rest : Bytes) × (read_frame input
              ≡ ok (frame, rest))
            × (c.parse_hello frame ≡ some hello)
            × Accepted hello w)

    unchanged : (input : Bytes) (w : Vault KS SS AS) → w ≡ v → Outcome input w
    unfolding Outcome
    unchanged input w e = inl e

    serve_client-Ends :
        (input frame rest : Bytes) (hello : ClientHello)
        → read_frame input ≡ ok (frame, rest)
        → c.parse_hello frame ≡ some hello
        → hello.protocol ≡ protocol_name
        → hello.version ≤ current_version
        → Ends
            (Outcome input)
            (serve_client c b hash_token show_addr auth tokens envs v rest peer hello.token)
    unfolding serve_client Outcome
    serve_client-Ends input frame rest hello read good named known_version =
        let known = known_peer c b hash_token show_addr auth tokens peer hello.token in
        elim (Option-cases (auth.authenticate tokens known hello.token)) [
          | inl rejected ↦ rw (serve_client, rejected) (_, refl, inl refl)
          | inr (identity, accepted) ↦
              let (e, ends, served) =
                request_loop-Serves envs draws (display show_addr known) identity
                  (suc (length rest)) 0 v rest (omega arith) in
              rw (serve_client, accepted)
                (
                  e,
                  ends,
                  inr (
                    hello,
                    frame,
                    rest,
                    read,
                    good,
                    (identity, accepted, named, known_version, served),
                  ),
                )
        ]

    -- Every connection ends once its client has sent its last byte. A connection changes
    -- the vault only when its first frame is a hello of the protocol, of a version that the server
    -- speaks, and the authenticator accepted the token of that hello, and then by requests that the
    -- role of the identity it answered allows, one after the other.
    pub handle_connection-Ends :
        (input : Bytes)
        → Ends
            (Outcome input)
            (handle_connection c b hash_token show_addr auth tokens envs v input peer)
    unfolding handle_connection
    handle_connection-Ends input = elim (Result-cases (read_frame input)) [
      | inr (e, closed) ↦ rw (closed, handle_connection) (_, refl, unchanged input _ refl)
      | inl ((frame, rest), read) ↦ elim (Option-cases (c.parse_hello frame)) [
        | inl bad ↦ rw (read, handle_connection, bad) (_, refl, unchanged input _ refl)
        | inr (hello, good) ↦ elim (Bool-cases (hello.protocol == protocol_name)) [
          | inr other ↦
              rw (read, handle_connection, good, other)
                (_, refl, unchanged input _ (refuse-vault v (unknown_protocol hello.protocol)))
          | inl same ↦ elim (Bool-cases (ltb current_version hello.version)) [
            | inl new ↦
                rw (read, handle_connection, good, same, new)
                  (_, refl, unchanged input _ (refuse-vault v (unsupported_version hello.version)))
            | inr known ↦ elim (Result-cases (send (c.print_hello (accept hello.version)))) [
              | inr (e, broken) ↦
                  rw (read, handle_connection, good, same, known, broken)
                    (_, refl, unchanged input _ refl)
              | inl (wire, sent) ↦
                  rw (read, handle_connection, good, same, known, sent)
                    (after_wire-Ends (Outcome input) wire _ (
                      serve_client-Ends input frame rest hello read good
                        ((text_beq_iff hello.protocol protocol_name).0 same)
                        (ground (arith, known))))
            ]
          ]
        ]
      ]
    ]
