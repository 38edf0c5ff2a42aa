-- ===== src/Tests/Operations.antt =====
-- The theorems on single operations of the vault, at a vault written out.
use zerolease.Prelude.{
  ℕ, ◌<◌, ◌≤◌, ◌≡◌, ◌≢◌, refl, ap, true, false, none, some, List, [], ◌∷◌, Text, codes, pos, arith,
  ◌+ℤ◌, scale, div_trunc, ◌-ℤ◌, text_beq, any, find, starts_with, strip_prefix, strip_suffix,
  ends_with_byte, nat_eq, text_eq,
}
use zerolease.Types.Identity.{matches, is_subdomain, SessionId}
use zerolease.Types.Secrets.{Bytes, SecretMetadata, aes256_gcm, pat, LeaseGrant, LeaseTerms}
use zerolease.Types.Time.{later_than, seconds, num_seconds}
use zerolease.Error.{ok, access_denied}
use zerolease.Env.{Env}
use zerolease.Map.{get, set, insert, count}
use zerolease.Policy.{evaluate, evaluate_grants, agent_matches, secret_matches, terms_of}
use zerolease.Lease.{Lease, grant_of, inc_u32}
use zerolease.Lease
use zerolease.Session.{Session, is_expired, check_tool_binding, check_bindings}
use zerolease.Audit.{AuditEntry, entry_new}
use zerolease.Store.{StoredSecret, BatchUpdateItem, metadata_of}
use zerolease.Crypto
use zerolease.Vault.State.{Vault, trace_and_record}
use zerolease.Vault.Leases.{
  check_request, finish_request, request_lease, issue_lease, deny_lease, active_count,
}
use zerolease.Vault.Renewal.{
  max_extension_secs, renew_lease, renewed, check_renewals, session_by_id, is_alive,
}
use zerolease.Vault.Secrets.{rotate_dek, reencrypt, reencrypt_all, commit_rotation}
use zerolease.Vault.Sessions.{
  after, request_lease_scoped, check_session, lease_in_session, link_lease, count_lease,
}
use zerolease.Vault.Sessions
use zerolease.Vault.Renewals.{renew_lease-ok}
use zerolease.Vault.Granting.{issued, request_lease-ok, request_lease-err}
use zerolease.Vault.Scoped.{Lets, request_lease_scoped-ok}
use zerolease.Vault.Rotation.{MovedAll, rotate_dek-ok}
use zerolease.Tests.Sample.{
  backends, at_time, at_time-FillsBuffer, policy, terms, list_store, toy_aead-IsAead, seal_key,
  zeros,
}

abbrev ci : Text
ci = codes "ci"

abbrev gh : Text
gh = codes "gh-token"

abbrev star : Text
star = codes "*.github.com"

abbrev peer : Text
peer = codes "uid=1000"

abbrev token : Text
token = codes "t"

abbrev dek : Bytes
dek = 1 ∷ 2 ∷ 3 ∷ []

abbrev stored : StoredSecret
stored = record {
  id = 5;
  name = gh;
  ciphertext = seal_key dek (codes "pw");
  nonce = zeros 12;
  algorithm = aes256_gcm;
  kind = pat;
  description = none;
  created_at = pos 0;
  updated_at = pos 0;
  version = 1;
}

abbrev lease : Lease
lease = record {
  id = 20;
  agent = ci;
  secret_name = gh;
  allowed_domains = star ∷ [];
  issued_at = pos 0;
  expires_at = pos 900000000000;
  renewable = true;
  max_uses = none;
  use_count = 0;
  revoked = false;
  session_id = some 4;
  renewal_count = 0;
}

abbrev session : Session
session = record {
  id = 4;
  user = codes "ann";
  channel = codes "dev";
  created_at = pos 0;
  expires_at = pos 3600000000000;
  policy = record {
    max_session_duration = pos 3600000000000;
    max_concurrent_leases = 2;
    max_renewals_per_lease = 3;
    tool_bindings =
        record { tool_name = codes "git"; allowed_secrets = gh ∷ []; allowed_domains = star ∷ [] }
        ∷ [];
  };
  active_lease_count = 0;
  revoked = false;
}

abbrev Running : Type 0
Running = Vault Bytes (List StoredSecret) (List AuditEntry)

abbrev ready : Running
ready = record {
  key_source = dek;
  store = stored ∷ [];
  audit = [];
  policy = policy;
  leases = (20, lease) ∷ [];
  sessions = (token, session) ∷ [];
  dek = some dek;
  cipher = aes256_gcm;
  max_leases_per_agent = 100;
}

abbrev env : Env
env = at_time 10 30

-- A renewal by a minute.
renewal_grant : LeaseGrant
unfolding grant_of
renewal_grant = grant_of (record lease { expires_at = pos 70000000000; renewal_count = 1 })

renew_lease-ok_example :
    (l : Lease) × (n : ℕ) × (get ready.leases 20 ≡ some l)
    × (pos 60 ≡ pos n)
    × (0 < n)
    × (n ≤ max_extension_secs)
    × (l.revoked ≡ false)
    × (l.renewable ≡ true)
    × (later_than (env.now 0) l.expires_at ≡ false)
    × ((session : SessionId) (s : Session)
        → l.session_id ≡ some session
        → session_by_id ready.sessions session ≡ some s
        → l.renewal_count < s.policy.max_renewals_per_lease)
    × ((renew_lease backends env ready 20 (pos 60) peer).1.leases
        ≡ set ready.leases 20 (record l {
          expires_at = env.now 1 +ℤ seconds (pos 60);
          renewal_count = inc_u32 l.renewal_count;
        }))
unfolding renewal_grant grant_of renew_lease renewed check_renewals session_by_id find get set
    Lease.renew trace_and_record entry_new seconds ◌+ℤ◌ scale
renew_lease-ok_example = renew_lease-ok backends env ready 20 (pos 60) peer {g = renewal_grant} refl

abbrev granted : Lease
unfolding Lease.new
granted = issued backends env ready ci gh star peer terms

request_lease-ok_example :
    (terms : LeaseTerms) × (stored : StoredSecret) × (evaluate ready.policy ci gh star ≡ ok terms)
    × (active_count ci ready.leases < ready.max_leases_per_agent)
    × (list_store.get ready.store gh ≡ ok stored)
    × (grant_of granted ≡ grant_of (issued backends env ready ci gh star peer terms))
    × ((request_lease backends env ready ci gh star peer).1.leases
        ≡ insert ready.leases (env.uuid 0) (issued backends env ready ci gh star peer terms))
unfolding granted grant_of Lease.new request_lease check_request finish_request issue_lease evaluate
    evaluate_grants agent_matches secret_matches terms_of matches is_subdomain strip_prefix
    strip_suffix ends_with_byte starts_with text_beq any active_count count find insert
    trace_and_record entry_new ◌+ℤ◌
request_lease-ok_example =
    request_lease-ok backends env ready ci gh star peer {g = grant_of granted} refl

request_lease-err_example :
    let w = (request_lease backends env ready (codes "eve") gh star peer).1 in
    (w.leases ≡ ready.leases) × (w.store ≡ ready.store) × (w.sessions ≡ ready.sessions)
unfolding request_lease check_request finish_request deny_lease evaluate evaluate_grants
    agent_matches text_beq trace_and_record entry_new
request_lease-err_example =
    request_lease-err backends env ready (codes "eve") gh star peer
      (access_denied (codes "eve") gh star) refl

abbrev scoped_grant : LeaseGrant
unfolding grant_of Lease.new
scoped_grant = grant_of (issued backends (after env 2) ready ci gh star peer terms)

request_lease_scoped-ok_example :
    let r = request_lease_scoped backends env ready ci gh star peer token (codes "git") in
    (s : Session) × (terms : LeaseTerms) × (get ready.sessions token ≡ some s)
    × Lets backends env ready ci gh star peer token (codes "git") s
    × (evaluate ready.policy ci gh star ≡ ok terms)
    × (get r.1.leases scoped_grant.lease_id
        ≡ some (record (issued backends (after env 2) ready ci gh star peer terms) {
          session_id = some s.id;
        }))
    × (r.1.sessions
        ≡ set ready.sessions token (record s { active_lease_count = inc_u32 s.active_lease_count }))
unfolding scoped_grant grant_of Lease.new request_lease_scoped check_session check_tool_binding
    check_bindings is_expired lease_in_session link_lease count_lease Sessions.tie_lease get set
    request_lease check_request finish_request issue_lease evaluate evaluate_grants agent_matches
    secret_matches terms_of matches is_subdomain strip_prefix strip_suffix ends_with_byte
    starts_with text_beq any active_count count find insert trace_and_record entry_new ◌+ℤ◌
request_lease_scoped-ok_example =
    request_lease_scoped-ok backends env ready ci gh star peer token (codes "git")
      {g = scoped_grant} refl

steady : (i : ℕ) → is_alive env i lease ≡ true
unfolding Lease.time_remaining num_seconds div_trunc ◌-ℤ◌
steady i = refl

first : Bytes → ℕ
first [] = 0
first (k ∷ _) = k

dek-fresh : env.random_bytes 0 32 ≢ dek
unfolding first
dek-fresh e = let h = ap first e in omega arith

rotate_dek-ok_example :
    let w = (rotate_dek backends env ready peer).1 in
    (metas : List SecretMetadata) × (items : List BatchUpdateItem) × (list_store.list ready.store
      ≡ ok metas)
    × MovedAll backends toy_aead-IsAead env
        (at_time-FillsBuffer 10 30)
        ready
        dek
        (env.random_bytes 0 32)
        dek-fresh
        metas
        items
    × ((list_store.batch_update ready.store env items).0 ≡ ok tt)
    × (w.store ≡ (list_store.batch_update ready.store env items).1)
    × (w.dek ≡ some (env.random_bytes 0 32))
    × (w.leases ≡ ready.leases)
unfolding rotate_dek reencrypt_all reencrypt commit_rotation Crypto.decrypt Crypto.encrypt
    Crypto.open_with Crypto.seal_with trace_and_record entry_new find text_beq metadata_of
rotate_dek-ok_example =
    rotate_dek-ok backends toy_aead-IsAead env (at_time-FillsBuffer 10 30) ready peer dek refl
      dek-fresh refl
