-- ===== src/Tests/Vaults.antt =====
-- The theorems on the vault, at a run that stores a secret, leases it and uses the lease.
use zerolease.Prelude.{
  ℕ, ◌+◌, ◌≡◌, ◌≤◌, refl, ◌⊎◌, true, false, none, some, List, [], ◌∷◌, Text, codes, pos, arith,
  if◌then◌else◌, text_eq, nat_eq, Member, starts_with, strip_prefix, strip_suffix, ends_with_byte,
  text_beq, from_utf8, utf8_run, continuation, any, find, ◌+ℤ◌,
}
use zerolease.Types.Identity.{matches, is_subdomain}
use zerolease.Types.Secrets.{pat, admin_revoked}
use zerolease.Error.{lease_not_found, lease_revoked, secret_not_found, ok, err}
use zerolease.Env.{Env}
use zerolease.Map.{get, set, count, insert}
use zerolease.Policy.{
  PolicyGrant, evaluate, evaluate_grants, agent_matches, secret_matches, terms_of,
}
use zerolease.Policy.Evaluate.{Applies}
use zerolease.Lease.{Lease, LeaseGuard, validate, record_use, inc_u32, is_exhausted, grant_of}
use zerolease.Lease
use zerolease.Lease.Lifecycle.{Usable}
use zerolease.Session.{Session}
use zerolease.Audit.{AuditEntry, entry_new}
use zerolease.Store.{StoredSecret}
use zerolease.Crypto
use zerolease.Vault.State
use zerolease.Vault.State.{Vault, initialize, trace_and_record, encrypt, decrypt}
use zerolease.Vault.Leases.{
  check_request, finish_request, active_count, request_lease, issue_lease, access_secret, use_lease,
  read_secret, revoke_lease,
}
use zerolease.Vault.Secrets.{store_secret}
use zerolease.Vault.Sessions.{revoke_session, belongs_to}
use zerolease.Vault.Steps.{
  Run, Refines, done, then_step, initializes, stores, requests, Step-Refines,
}
use zerolease.Vault.Access.{access_secret-ok}
use zerolease.Vault.Authority.{Anything, access_secret-Applies}
use zerolease.Vault.Interleaving.{
  Checked, in_flight, first, later, checks, finishes, Mixed, quiet, then_part,
}
use zerolease.Vault.Cap.{active_count-le}
use zerolease.Vault.Finality.{revoke_lease-final}
use zerolease.Vault.Revocation.{revoke_session-get}
use zerolease.Tests.Sample.{backends, at_time, fresh}

abbrev pub ci : Text
ci = codes "ci"

abbrev pub gh : Text
gh = codes "gh-token"

abbrev pub api : Text
api = codes "api.github.com"

abbrev star : Text
star = codes "*.github.com"

abbrev pub peer : Text
peer = codes "uid=1000"

abbrev pub Running : Type 0
Running = Vault (List ℕ) (List StoredSecret) (List AuditEntry)

unfoldable pub ready : Running
unfolding fresh initialize
ready = (initialize backends fresh).1

unfoldable pub stocked : Running
unfolding ready store_secret
stocked = (store_secret backends (at_time 1 10) ready gh (codes "pw") pat none peer).1

unfoldable pub leased : Running
unfolding stocked request_lease
leased = (request_lease backends (at_time 2 20) stocked ci gh star peer).1

started : Run backends Anything fresh leased
unfolding ready stocked leased
started =
    then_step
      (then_step (then_step done initializes) (stores (at_time 1 10) gh (codes "pw") pat none peer))
      (requests (at_time 2 20) ci gh star peer tt)

abbrev pub guard : LeaseGuard
guard = record { lease_id = 20; value = codes "pw" }

pub reveals : (access_secret backends (at_time 3 30) leased 20 api peer).0 ≡ ok guard
unfolding leased stocked ready fresh State.new initialize store_secret request_lease check_request
    finish_request issue_lease trace_and_record encrypt decrypt Crypto.encrypt Crypto.decrypt
    Crypto.seal_with Crypto.open_with evaluate evaluate_grants agent_matches secret_matches terms_of
    matches is_subdomain strip_prefix strip_suffix ends_with_byte text_beq starts_with active_count
    count get insert set Lease.new access_secret use_lease validate record_use is_exhausted
    from_utf8 utf8_run continuation entry_new any find ◌+ℤ◌
reveals = refl

abbrev pub lease : Lease
unfolding Lease.new
lease =
    Lease.new (pos 2000000000) 20 ci gh (star ∷ [])
      (record { ttl = pos 900000000000; renewable = true; max_uses = some 2 })

lease-Usable : Usable lease (pos 3000000000) api
unfolding lease Lease.new is_exhausted any matches is_subdomain strip_prefix strip_suffix
    ends_with_byte text_beq ◌+ℤ◌
lease-Usable = record {
  not_revoked = refl;
  in_time = omega arith;
  uses_left = refl;
  in_scope = refl;
}

leased-holds : leased.leases ≡ (20, lease) ∷ []
unfolding leased lease stocked ready fresh State.new initialize store_secret request_lease
    check_request finish_request issue_lease trace_and_record encrypt Crypto.encrypt
    Crypto.seal_with evaluate evaluate_grants agent_matches secret_matches terms_of matches
    is_subdomain strip_prefix strip_suffix ends_with_byte text_beq starts_with active_count count
    get insert Lease.new any find
leased-holds = refl

access_secret-Applies_example :
    (l : Lease) × (g : PolicyGrant) × (get leased.leases 20 ≡ some l)
    × (read_secret backends leased l.secret_name ≡ ok (codes "pw"))
    × Member g fresh.policy.grants
    × Applies g l.agent l.secret_name api
unfolding fresh State.new
access_secret-Applies_example =
    access_secret-Applies backends {v = fresh} {w = leased} refl started (at_time 3 30) 20 api peer
      {guard = guard} reveals

access_secret-ok_example :
    (l : Lease) × (get leased.leases 20 ≡ some l)
    × Usable l ((at_time 3 30).now 0) api
    × (guard.lease_id ≡ 20)
    × (read_secret backends leased l.secret_name ≡ ok guard.value)
    × ((access_secret backends (at_time 3 30) leased 20 api peer).1.leases
        ≡ set leased.leases 20 (record l { use_count = inc_u32 l.use_count }))
access_secret-ok_example = access_secret-ok backends (at_time 3 30) leased 20 api peer reveals

-- Two requests of one agent at a cap of one lease.
unfoldable tight : Running
unfolding State.with_max_leases_per_agent
tight = State.with_max_leases_per_agent stocked 1

abbrev checked : Env → Checked
checked env = record {
  env = env;
  agent = ci;
  secret_name = gh;
  domain = star;
  peer = peer;
  terms = record { ttl = pos 900000000000; renewable = true; max_uses = some 2 };
}

unfoldable raced_one : Running
unfolding tight finish_request
raced_one =
    (finish_request backends (at_time 2 20) tight ci gh star peer (checked (at_time 2 20)).terms).1

unfoldable raced : Running
unfolding raced_one finish_request
raced =
    (finish_request backends (at_time 3 21) raced_one ci gh star peer
      (checked (at_time 2 20)).terms).1

both_checked :
    Mixed backends 1 tight [] tight (checked (at_time 3 21) ∷ checked (at_time 2 20) ∷ [])
unfolding tight stocked ready fresh State.new State.with_max_leases_per_agent initialize
    store_secret trace_and_record encrypt Crypto.encrypt Crypto.seal_with check_request evaluate
    evaluate_grants agent_matches secret_matches terms_of matches is_subdomain strip_prefix
    strip_suffix ends_with_byte text_beq starts_with active_count count any
both_checked =
    then_part
      (then_part {w = tight} {qs = []} quiet (checks (at_time 2 20) ci gh star peer (omega arith)))
      (checks (at_time 3 21) ci gh star peer (omega arith))

race : Mixed backends 1 tight [] raced []
unfolding raced raced_one
race =
    then_part (then_part both_checked (finishes (checked (at_time 2 20)) (later _ _ _ (first []))))
      (finishes (checked (at_time 3 21)) (first []))

-- The agent has then more leases than the cap.
over_the_cap : (active_count ci raced.leases ≡ 2) × (raced.max_leases_per_agent ≡ 1)
unfolding raced raced_one tight stocked ready fresh State.new State.with_max_leases_per_agent
    initialize store_secret trace_and_record encrypt Crypto.encrypt Crypto.seal_with finish_request
    issue_lease active_count count insert get Lease.new text_beq find
over_the_cap = (refl, refl)

tight-Empty : active_count ci tight.leases ≤ tight.max_leases_per_agent
unfolding tight stocked ready fresh State.new State.with_max_leases_per_agent initialize
    store_secret trace_and_record encrypt Crypto.encrypt Crypto.seal_with active_count count
tight-Empty = omega arith

active_count-le_example :
    active_count ci raced.leases + in_flight ci [] ≤ raced.max_leases_per_agent + 1
active_count-le_example =
    active_count-le backends ci 1 {v = tight} {w = raced} {qs = []} race tight-Empty

Step-Refines_example : Refines backends Anything stocked leased
unfolding leased
Step-Refines_example =
    Step-Refines backends Anything {v = stocked} {w = leased}
      (requests (at_time 2 20) ci gh star peer tt)

leased-get : get leased.leases 20 ≡ some lease
unfolding get
leased-get = rw leased-holds refl

-- The store has lost its secrets.
abbrev emptied : Running
emptied = record leased { store = [] }

emptied-fails : read_secret backends emptied gh ≡ err (secret_not_found gh)
unfolding find
emptied-fails = refl

abbrev revoked : Running
revoked = (revoke_lease backends (at_time 4 40) leased 20 admin_revoked peer).1

revoke_lease-final_example :
    (access_secret backends (at_time 5 50) revoked 20 api peer
      ≡ (err (lease_not_found 20), revoked))
    ⊎ (access_secret backends (at_time 5 50) revoked 20 api peer
        ≡ (err (lease_revoked 20), revoked))
unfolding fresh State.new
revoke_lease-final_example =
    revoke_lease-final backends {u = fresh} {v = leased} {w = revoked} refl started (at_time 4 40)
      20 admin_revoked peer lease leased-get done (at_time 5 50) api peer

abbrev session : Session
session = record {
  id = 4;
  user = codes "ann";
  channel = codes "dev";
  created_at = pos 0;
  expires_at = pos 3600000000000;
  policy = record {
    max_session_duration = pos 3600000000000;
    max_concurrent_leases = 2;
    max_renewals_per_lease = 3;
    tool_bindings = [];
  };
  active_lease_count = 0;
  revoked = false;
}

abbrev token : Text
token = codes "t"

abbrev in_session : Running
in_session = record leased { sessions = (token, session) ∷ [] }

revoke_session-get_example :
    let w = (revoke_session backends (at_time 4 40) in_session token peer).1 in
    (w.sessions ≡ set in_session.sessions token (record session { revoked = true }))
    × (get w.leases 20 ≡ some (if belongs_to 4 lease then Lease.revoke lease else lease))
unfolding get text_beq
revoke_session-get_example =
    revoke_session-get backends (at_time 4 40) in_session token peer session 20 lease refl
      leased-get
