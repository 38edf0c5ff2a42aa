-- ===== src/Client/Remote.antt =====
-- src/client.rs with src/server.rs: a call of the client has the result of the vault's operation.
use zerolease.Prelude.{
  ℕ, suc, ◌+◌, ◌-◌, ◌≤◌, ◌≡◌, refl, sym, ap, ◌∙◌, true, false, Option, none, some, [], ◌++◌,
  append-nil, Text, arith, length, ltb,
}
use zerolease.Types.Secrets.{Bytes}
use zerolease.Error.{Error, ok, err}
use zerolease.Env.{Env}
use zerolease.Auth.{ConnectionIdentity}
use zerolease.Protocol.{Request}
use zerolease.Protocol.Frame.{read_frame, write_frame, max_frame_size, read_exact}
use zerolease.Protocol.Frame.RoundTrip.{read_frame-write_frame, length-read_frame}
use zerolease.Vault.State.{Vault, Backends}
use zerolease.Server.Dispatch.{Codec, dispatch}
use zerolease.Server.Connection.{request_loop, Ended, send, is_eof}
use zerolease.Client.{
  Reply, ClientCodec, Client, send_frame, receive_frame, response_result, request,
}

-- The server at the other end: the number of the next request, and the vault.
pub record Serving (KS SS AS : Type 0) : Type 0 where
  pub next : ℕ
  pub vault : Vault KS SS AS

module _ {J KS SS AS : Type 0} (c : Codec J) (k : ClientCodec J) (b : Backends KS SS AS)
    (envs : ℕ → Env) (peer : Text) (identity : ConnectionIdentity) where
  -- The loop of the connection on the bytes of one request.
  abbrev pub answered : Serving KS SS AS → Option (Ended KS SS AS) → Bytes × Serving KS SS AS
  answered s none = ([], s)
  answered s (some e) = (e.wire, record { next = s.next + 1; vault = e.vault })

  unfoldable pub server : Serving KS SS AS → Bytes → Bytes × Serving KS SS AS
  server s input =
      answered s (request_loop c b (suc (length input)) envs s.next s.vault input peer identity)

  read_frame-end : (e : Error) × (read_frame [] ≡ err e) × (is_eof e ≡ true)
  unfolding read_frame read_exact is_eof
  read_frame-end = (_, refl, refl)

  request_loop-one :
      (n i : ℕ) (v : Vault KS SS AS) (input frame out wire : Bytes) (r : Request J)
      → read_frame input ≡ ok (frame, [])
      → c.parse_request frame ≡ some r
      → c.print_response (dispatch c b (envs i) v r peer identity).0 ≡ some out
      → write_frame out ≡ ok wire
      → request_loop c b (suc (suc n)) envs i v input peer identity
        ≡ some (record {
          result = ok tt;
          wire = wire ++ [];
          vault = (dispatch c b (envs i) v r peer identity).1;
        })
  unfolding request_loop send
  request_loop-one n i v input frame out wire r read parsed printed written =
      let (e, closed, eof) = read_frame-end in
      rw (read, request_loop, parsed, printed, send, written, closed, eof) refl

  frame_written :
      (payload rest : Bytes)
      → length payload ≤ max_frame_size
      → (wire : Bytes) × (write_frame payload ≡ ok wire)
        × (read_frame (wire ++ rest) ≡ ok (payload, rest))
  frame_written payload rest h =
      let small : ltb max_frame_size (length payload) ≡ false = ground arith in
      rw small at (read_frame-write_frame payload rest)

  -- A request and its response, as bytes that fit in a frame. The last is what the client makes of
  -- the response.
  pub record Exchange (s : Serving KS SS AS) (r : Request J) (reply : Reply J) : Type 0 where
    pub request_bytes : Bytes
    pub printed : k.print_request r ≡ some request_bytes
    pub parsed : c.parse_request request_bytes ≡ some r
    pub request_fits : length request_bytes ≤ max_frame_size
    pub response_bytes : Bytes
    pub answer :
        c.print_response (dispatch c b (envs s.next) s.vault r peer identity).0
        ≡ some response_bytes
    pub understood : k.parse_response response_bytes ≡ some reply
    pub response_fits : length response_bytes ≤ max_frame_size

  server-one :
      (s : Serving KS SS AS) (r : Request J) (input frame out wire : Bytes)
      → read_frame input ≡ ok (frame, [])
      → c.parse_request frame ≡ some r
      → c.print_response (dispatch c b (envs s.next) s.vault r peer identity).0 ≡ some out
      → write_frame out ≡ ok wire
      → server s input ≡ (
        wire,
        record {
          next = s.next + 1;
          vault = (dispatch c b (envs s.next) s.vault r peer identity).1;
        },
      )
  unfolding server
  server-one s r input frame out wire read parsed printed written =
      let some_bytes = length-read_frame input frame [] read in
      let fuel : suc (length input) ≡ suc (suc (length input - 1)) = omega arith in
      let one =
        request_loop-one (length input - 1) s.next s.vault input frame out wire r read parsed
          printed written in
      ap (λ n. answered s (request_loop c b n envs s.next s.vault input peer identity)) fuel
      ∙ ap (answered s) one
      ∙ ap
          (λ w. (
            w,
            record {
              next = s.next + 1;
              vault = (dispatch c b (envs s.next) s.vault r peer identity).1;
            },
          ))
          (append-nil wire)

  -- The client, with nothing left to read.
  abbrev pub at_rest : Serving KS SS AS → Client (Serving KS SS AS)
  at_rest s = record { peer = s; unread = [] }

  send_frame-served :
      (s s' : Serving KS SS AS) (payload wire out : Bytes)
      → write_frame payload ≡ ok wire
      → server s wire ≡ (out, s')
      → send_frame k server (at_rest s) payload ≡ (ok tt, record { peer = s'; unread = out })
  unfolding send_frame
  send_frame-served s s' payload wire out written served =
      rw (written, send_frame) (ap (λ r. (ok tt, record { peer = r.1; unread = r.0 })) served)

  pub request-Exchange :
      (s : Serving KS SS AS) (r : Request J) (reply : Reply J)
      → Exchange s r reply
      → request k server (at_rest s) r.id r.method r.params ≡ (
        response_result k server reply,
        at_rest (record {
          next = s.next + 1;
          vault = (dispatch c b (envs s.next) s.vault r peer identity).1;
        }),
      )
  unfolding request receive_frame
  request-Exchange s r reply x =
      let (wire, written, reads) = frame_written x.request_bytes [] x.request_fits in
      let (out, answered_by, read_back) = frame_written x.response_bytes [] x.response_fits in
      let reads' = ap read_frame (sym (append-nil wire)) ∙ reads in
      let back' = ap read_frame (sym (append-nil out)) ∙ read_back in
      let served =
        server-one s r wire x.request_bytes x.response_bytes out reads' x.parsed x.answer
          answered_by in
      let sent = send_frame-served s _ x.request_bytes wire out written served in
      rw (x.printed, sent, receive_frame, back', x.understood) refl
