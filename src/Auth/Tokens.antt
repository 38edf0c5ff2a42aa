-- ===== src/Auth/Tokens.antt =====
-- src/auth.rs: what the token table answers after any sequence of registrations and revocations.
use zerolease.Prelude.{
  ◌≡◌, refl, ap, ◌∙◌, Option, none, some, List, [], ◌∷◌, Text, text_eq, ◌==◌, if◌then◌else◌,
}
use zerolease.Transport.{TokenHash, PeerIdentity}
use zerolease.Map.{get, get-insert}
use zerolease.Map.Distinct.{Distinct, Distinct-insert, Distinct-remove, get-remove}
use zerolease.Auth.{ConnectionIdentity, TokenTable, register, revoke, authenticate}

-- The calls that change the table.
pub data TokenCall : Type 0 where
  registers : Text → ConnectionIdentity → TokenCall
  revokes : Text → TokenCall

module _ (hash_token : Text → TokenHash) where
  unfoldable pub run_call : TokenTable → TokenCall → TokenTable
  unfolding register revoke
  run_call tokens (registers token identity) = register hash_token tokens token identity
  run_call tokens (revokes token) = (revoke hash_token tokens token).1

  -- The first call of the list is the latest.
  unfoldable pub run_calls : List TokenCall → TokenTable
  unfolding run_call
  run_calls [] = []
  run_calls (call ∷ earlier) = run_call (run_calls earlier) call

  -- What the latest call on a token of that hash says, with no table.
  abbrev pub latest : TokenHash → List TokenCall → Option ConnectionIdentity
  latest hash [] = none
  latest hash (registers token identity ∷ earlier) =
      if hash_token token == hash then some identity else latest hash earlier
  latest hash (revokes token ∷ earlier) =
      if hash_token token == hash then none else latest hash earlier

  run_calls-Distinct : (calls : List TokenCall) → Distinct (run_calls calls)
  unfolding run_calls run_call register revoke
  run_calls-Distinct [] = tt
  run_calls-Distinct (registers token identity ∷ earlier) =
      Distinct-insert (run_calls earlier) (hash_token token) identity (run_calls-Distinct earlier)
  run_calls-Distinct (revokes token ∷ earlier) =
      Distinct-remove (run_calls earlier) (hash_token token) (run_calls-Distinct earlier)

  get-run_calls :
      (calls : List TokenCall) (hash : TokenHash) → get (run_calls calls) hash ≡ latest hash calls
  unfolding run_calls run_call register revoke get
  get-run_calls [] hash = refl
  get-run_calls (registers token identity ∷ earlier) hash =
      get-insert (run_calls earlier) (hash_token token) identity hash
      ∙ ap (λ o. if hash_token token == hash then some identity else o) (get-run_calls earlier hash)
  get-run_calls (revokes token ∷ earlier) hash =
      get-remove (run_calls earlier) (hash_token token) hash (run_calls-Distinct earlier)
      ∙ ap (λ o. if hash_token token == hash then none else o) (get-run_calls earlier hash)

  -- After any calls of `register` and `revoke`, a connection is accepted exactly with the identity
  -- that the latest call on a token of the same hash registered, and rejected when that call was a
  -- revocation, when there was none, or when the peer presents no token.
  pub authenticate-latest :
      {Addr : Type 0} (calls : List TokenCall) (peer : PeerIdentity Addr) (token : Text)
      → (authenticate hash_token (run_calls calls) peer (some token)
          ≡ latest (hash_token token) calls)
        × (authenticate hash_token (run_calls calls) peer none ≡ none)
  unfolding authenticate
  authenticate-latest calls peer token = (get-run_calls calls (hash_token token), refl)
