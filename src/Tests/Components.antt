-- ===== src/Tests/Components.antt =====
-- The theorems on leases, policies, sessions, scopes and ciphers, at concrete inputs.
use zerolease.Prelude.{ℕ, ◌≡◌, ◌≢◌, ap, ◌↔◌, true, [], ◌∷◌, Text, codes, pos, arith}
use zerolease.Types.Identity.{matches}
use zerolease.Types.Coverage.{Covers, matches_iff}
use zerolease.Types.Secrets.{Bytes, aes256_gcm}
use zerolease.Types.Time.{hours}
use zerolease.Error.{ok, err}
use zerolease.Policy.{evaluate}
use zerolease.Policy.Evaluate.{Decides, evaluate-Decides}
use zerolease.Lease.{Lease, validate, u32_mod, is_exhausted}
use zerolease.Lease
use zerolease.Session.{Session, SessionPolicy, ToolCredentialBinding, check_tool_binding}
use zerolease.Session
use zerolease.Crypto.{Sealed, encrypt}
use zerolease.Tests.Sample.{toy_aead, at_time, policy, terms}

abbrev ci : Text
ci = codes "ci"

abbrev gh : Text
gh = codes "gh-token"

abbrev api : Text
api = codes "api.github.com"

abbrev star : Text
star = codes "*.github.com"

matches_iff_example : (matches star api ≡ true) ↔ Covers star api
matches_iff_example = matches_iff star api

evaluate-Decides_example : Decides policy policy.grants ci gh api (evaluate policy ci gh api)
evaluate-Decides_example = evaluate-Decides policy ci gh api

abbrev lease : Lease
unfolding Lease.new
lease = Lease.new (pos 0) 1 ci gh (star ∷ []) terms

abbrev session : Session
unfolding Session.new hours
session = Session.new (pos 0) 4 (codes "ann") (codes "dev") (record {
  max_session_duration = hours 1;
  max_concurrent_leases = 2;
  max_renewals_per_lease = 3;
  tool_bindings =
      record { tool_name = codes "git"; allowed_secrets = gh ∷ []; allowed_domains = star ∷ [] }
      ∷ [];
})

abbrev sealed : Sealed
sealed = elim (encrypt toy_aead aes256_gcm (at_time 1 1) 0 (codes "pw") (5 ∷ [])) [
  | ok s ↦ s
  | err _ ↦ record { ciphertext = []; nonce = []; algorithm = aes256_gcm }
]

abbrev key : ℕ → Bytes
key k = k ∷ []

first : Bytes → ℕ
first [] = 0
first (k ∷ _) = k

key-ne : key 5 ≢ key 6
unfolding first
key-ne e = let h = ap first e in omega arith
