-- ===== src/Server/Connection.antt =====
-- src/server.rs: `handle_connection`, for a client that sends the bytes of `input` and then ends
-- the stream. What is written is collected; a write fails only by its size.
use zerolease.Prelude.{
  ℕ, zero, suc, ◌+◌, Bool, true, false, not, Option, none, some, [], ◌++◌, Text, codes, ltb, ◌==◌,
  text_eq, if◌then◌else◌, length,
}
use zerolease.Types.Secrets.{Bytes}
use zerolease.Error.{Error, transport, eof_frame_length, eof_frame_payload, text, Result, ok, err}
use zerolease.Env.{Env}
use zerolease.Transport.{TokenHash, PeerIdentity, set_token_hash, display}
use zerolease.Auth.{Authenticator, ConnectionIdentity}
use zerolease.Protocol.{
  Refusal, unknown_protocol, unsupported_version, accept, reject, protocol_name, current_version,
  protocol_error, code_invalid_request, invalid_request, frame_error,
}
use zerolease.Protocol.Frame.{read_frame, write_frame}
use zerolease.Vault.State.{Vault, Backends}
use zerolease.Server.Dispatch.{Codec, dispatch}

-- `msg.contains("unexpected EOF")`
unfoldable pub is_eof : Error → Bool
is_eof (transport eof_frame_length) = true
is_eof (transport eof_frame_payload) = true
is_eof _ = false

-- A message that must be sent: `to_vec(…)?` and `write_frame(…).await?`.
unfoldable pub send : Option Bytes → Result Bytes
send none = err (transport (text (codes "failed to serialize")))
send (some bytes) = write_frame bytes

-- `to_vec(…).unwrap_or_default()` and `let _ = write_frame(…)`
unfoldable pub try_send : Option Bytes → Bytes
try_send none = elim (write_frame []) [ err _ ↦ [] | ok wire ↦ wire ]
try_send (some bytes) = elim (write_frame bytes) [ err _ ↦ [] | ok wire ↦ wire ]

-- How a connection ended, what was written to it, and the vault.
pub record Ended (KS SS AS : Type 0) : Type 0 where
  pub result : Result (Unit {0})
  pub wire : Bytes
  pub vault : Vault KS SS AS

module _ {J KS SS AS : Type 0} (c : Codec J) (b : Backends KS SS AS) where
  -- What was written before, put in front.
  abbrev pub after_wire : Bytes → Option (Ended KS SS AS) → Option (Ended KS SS AS)
  after_wire wire none = none
  after_wire wire (some e) = some (record e { wire = wire ++ e.wire })

  -- The loop, on fuel; `i` numbers the requests and `envs i` is what request `i` draws.
  unfoldable pub request_loop :
      ℕ
      → (ℕ → Env)
      → ℕ
      → Vault KS SS AS
      → Bytes
      → Text
      → ConnectionIdentity
      → Option (Ended KS SS AS)
  unfolding is_eof send try_send
  request_loop zero envs i v input peer identity = none
  request_loop (suc fuel) envs i v input peer identity = elim (read_frame input) [
    | err e ↦ some (record {
      result = ok tt;
      wire =
          if is_eof e
          then []
          else try_send (c.print_response (protocol_error 0 code_invalid_request (frame_error e)));
      vault = v;
    })
    | ok (frame, rest) ↦ elim (c.parse_request frame) [
      | none ↦
          after_wire
            (try_send (c.print_response (protocol_error 0 code_invalid_request invalid_request)))
            (request_loop fuel envs i v rest peer identity)
      | some request ↦
          let (response, w) = dispatch c b (envs i) v request peer identity in
          elim (send (c.print_response response)) [
            | err e ↦ some (record { result = err e; wire = []; vault = w })
            | ok wire ↦ after_wire wire (request_loop fuel envs (i + 1) w rest peer identity)
          ]
    ]
  ]

  -- The answer to a hello that is refused.
  unfoldable pub refuse : Vault KS SS AS → Refusal → Ended KS SS AS
  unfolding send
  refuse v reason = elim (send (c.print_hello (reject reason))) [
    | err e ↦ record { result = err e; wire = []; vault = v }
    | ok wire ↦ record { result = ok tt; wire = wire; vault = v }
  ]

  module _ {Addr T : Type 0} (hash_token : Text → TokenHash) (show_addr : Addr → Text)
      (auth : Authenticator Addr T) (tokens : T) where
    -- The peer after the token of the hello is known.
    unfoldable pub known_peer : PeerIdentity Addr → Option Text → PeerIdentity Addr
    known_peer peer none = peer
    known_peer peer (some token) = set_token_hash peer (hash_token token)

    -- Authentication and the loop, after the hello was accepted. The loop reads at least four bytes
    -- at each turn, so the length of the input is enough fuel.
    unfoldable pub serve_client :
        (ℕ → Env)
        → Vault KS SS AS
        → Bytes
        → PeerIdentity Addr
        → Option Text
        → Option (Ended KS SS AS)
    unfolding known_peer
    serve_client envs v input peer token =
        let known = known_peer peer token in
        elim (auth.authenticate tokens known token) [
          | none ↦ some (record { result = ok tt; wire = []; vault = v })
          | some identity ↦
              request_loop (suc (length input)) envs 0 v input (display show_addr known) identity
        ]

    unfoldable pub handle_connection :
        (ℕ → Env) → Vault KS SS AS → Bytes → PeerIdentity Addr → Option (Ended KS SS AS)
    unfolding refuse serve_client send
    handle_connection envs v input peer = elim (read_frame input) [
      | err e ↦ some (record { result = err e; wire = []; vault = v })
      | ok (frame, rest) ↦ elim (c.parse_hello frame) [
        | none ↦ some (record {
          result = err (transport (text (codes "invalid ClientHello")));
          wire = [];
          vault = v;
        })
        | some hello ↦
            if not (hello.protocol == protocol_name)
            then some (refuse v (unknown_protocol hello.protocol))
            else if ltb current_version hello.version
            then some (refuse v (unsupported_version hello.version))
            else elim (send (c.print_hello (accept hello.version))) [
              | err e ↦ some (record { result = err e; wire = []; vault = v })
              | ok wire ↦ after_wire wire (serve_client envs v rest peer hello.token)
            ]
      ]
    ]
