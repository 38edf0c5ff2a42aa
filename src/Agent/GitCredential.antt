-- ===== src/Agent/GitCredential.antt =====
-- crates/zerolease-agent/src/git_credential.rs: the helper that git calls. What git writes
-- is the bytes of its input, what it reads is the bytes of the output.
pub mod Answers
pub mod RoundTrip
use zerolease.Prelude.{
  ℕ, zero, suc, ◌+◌, Bool, true, false, not, Option, none, some, List, [], ◌∷◌, ◌++◌, Text, codes,
  ◌==◌, nat_eq, text_eq, from_utf8, if◌then◌else◌, length,
}
use zerolease.Types.Identity.{Uuid}
use zerolease.Types.Secrets.{Bytes, LeaseGrant}
use zerolease.Error.{Error, Result, ok, err}
use zerolease.Map.{get}
use zerolease.Agent.Manifest.{HostMap}
use zerolease.Agent.Connect.{strip_white}

pub record CredentialRequest : Type 0 where
  pub protocol : Option Text
  pub host : Option Text
  pub path : Option Text
  pub username : Option Text

abbrev pub empty_request : CredentialRequest
empty_request = record { protocol = none; host = none; path = none; username = none }

abbrev pub onto_first : ℕ → List Text → List Text
onto_first c [] = (c ∷ []) ∷ []
onto_first c (line ∷ more) = (c ∷ line) ∷ more

-- What calls of `read_line` give in turn, until the end of the input: lines with their newlines.
unfoldable pub read_lines : Text → List Text
read_lines [] = []
read_lines (c ∷ s) =
    let rest = read_lines s in if c == b'\n' then (c ∷ []) ∷ rest else onto_first c rest

-- Whether a text is white space only, on fuel: each turn takes a byte at least.
unfoldable pub all_white : ℕ → Text → Bool
unfolding strip_white
all_white fuel [] = true
all_white zero (c ∷ s) = false
all_white (suc fuel) (c ∷ s) = elim (strip_white (c ∷ s)) [
  | none ↦ false
  | some rest ↦ all_white fuel rest
]

abbrev pub is_white : Text → Bool
unfolding all_white
is_white s = all_white (length s) s

-- `trim_start`, on fuel, and `trim_end`
unfoldable pub trim_start : ℕ → Text → Text
unfolding strip_white
trim_start zero s = s
trim_start (suc fuel) s = elim (strip_white s) [ none ↦ s | some rest ↦ trim_start fuel rest ]

unfoldable pub trim_end : Text → Text
unfolding all_white
trim_end [] = []
trim_end (c ∷ s) =
    let rest = trim_end s in if all_white (length (c ∷ s)) (c ∷ s) then [] else c ∷ rest

unfoldable pub trim : Text → Text
unfolding trim_start trim_end
trim s = trim_end (trim_start (length s) s)

-- `split_once(c)`
unfoldable pub split_once : Text → ℕ → Option (Text × Text)
split_once [] c = none
split_once (d ∷ s) c =
    if d == c
    then some ([], s)
    else elim (split_once s c) [ none ↦ none | some (before, after) ↦ some (d ∷ before, after) ]

-- The match on the key.
unfoldable pub with_key : CredentialRequest → Text → Text → CredentialRequest
with_key req key value =
    if key == codes "protocol"
    then (record req { protocol = some value })
    else if key == codes "host"
    then (record req { host = some value })
    else if key == codes "path"
    then (record req { path = some value })
    else if key == codes "username"
    then (record req { username = some value })
    else req

unfoldable pub with_line : CredentialRequest → Text → CredentialRequest
unfolding trim split_once with_key
with_line req line = elim (split_once (trim line) b'=') [
  | none ↦ req
  | some (key, value) ↦ with_key req key value
]

-- The loop. `none` is the error of a line that is not UTF-8.
unfoldable pub parse_lines : List Text → CredentialRequest → Option CredentialRequest
unfolding with_line all_white
parse_lines [] req = some req
parse_lines (bytes ∷ more) req = elim (from_utf8 bytes) [
  | none ↦ none
  | some line ↦
      if all_white (length line) line then some req else parse_lines more (with_line req line)
]

unfoldable pub parse : Text → Option CredentialRequest
unfolding read_lines parse_lines
parse input = parse_lines (read_lines input) empty_request

unfoldable pub write_credential : Text → Text → Text
write_credential username password =
    codes "username="
    ++ (username ++ (codes "\n" ++ (codes "password=" ++ (password ++ codes "\n\n"))))

-- The calls of `VaultClient` that the helper makes.
pub record HelperCalls (S : Type 0) : Type 0 where
  pub connect_with_token : Text → Result S
  pub request_lease : S → Text → Text → Text → Result LeaseGrant × S
  pub access_secret : S → Uuid → Text → Result Bytes × S

-- What `get` answers: a credential on the output, nothing for a host that is not the helper's, or
-- an error.
pub data Answer : Type 0 where
  written : Text → Answer
  not_ours : Answer
  failed : Error → Answer
  not_utf8 : Answer

module _ {S : Type 0} (calls : HelperCalls S) where
  abbrev pub answer_of : Option Text → Answer
  answer_of none = not_utf8
  answer_of (some secret) = written (write_credential (codes "x-access-token") secret)

  unfoldable pub fetch : S → Text → Text → Answer
  unfolding write_credential
  fetch client secret_name target_domain =
      let (grant, client) =
        calls.request_lease client (codes "credential-helper") secret_name target_domain in
      elim grant [
        | err e ↦ failed e
        | ok grant ↦ elim (calls.access_secret client grant.lease_id target_domain).0 [
          | err e ↦ failed e
          | ok secret_bytes ↦ answer_of (from_utf8 secret_bytes)
        ]
      ]

  unfoldable pub handle_get : CredentialRequest → HostMap → Text → Answer
  unfolding fetch
  handle_get request host_map token = elim request.host [
    | none ↦ not_ours
    | some host ↦ elim (get host_map host) [
      | none ↦ not_ours
      | some (secret_name, target_domain) ↦ elim (calls.connect_with_token token) [
        | err e ↦ failed e
        | ok client ↦ fetch client secret_name target_domain
      ]
    ]
  ]
