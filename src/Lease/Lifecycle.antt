-- ===== src/Lease/Lifecycle.antt =====
-- src/lease.rs: when a lease may be used, how often, and what ends it.
use zerolease.Prelude.{
  ℕ, zero, suc, ◌+◌, ◌≤◌, ◌<◌, ◌≡◌, ◌↔◌, true, false, Option, none, some, Text, any, leb,
  if◌then◌else◌, arith, ◌≤ℤ◌,
}
use zerolease.Types.Identity.{matches}
use zerolease.Types.Time.{TimeDelta, DateTime}
use zerolease.Error.{Result, ok, err, lease_expired}
use zerolease.Lease.{Lease, u32_mod, inc_u32, is_exhausted, validate, record_use, renew}

-- The lease may be used against the host at that time.
pub record Usable (l : Lease) (now : DateTime) (host : Text) : Type 0 where
  pub not_revoked : l.revoked ≡ false
  pub in_time : now ≤ℤ l.expires_at
  pub uses_left : is_exhausted l.max_uses l.use_count ≡ false
  pub in_scope : any (λ d. matches d host) l.allowed_domains ≡ true

validate-ok :
    (l : Lease) (now : DateTime) (host : Text) → Usable l now host → validate l now host ≡ ok tt
unfolding validate
validate-ok l now host u = ground arith

Usable-of_ok :
    (l : Lease) (now : DateTime) (host : Text) → validate l now host ≡ ok tt → Usable l now host
unfolding validate
Usable-of_ok l now host h = record {
  not_revoked = ground arith;
  in_time = ground arith;
  uses_left = ground arith;
  in_scope = ground arith;
}

-- `validate` accepts exactly the leases that are not revoked, not past their expiry, not used up,
-- and whose scopes cover the target.
pub validate_iff :
    (l : Lease) (now : DateTime) (host : Text) → (validate l now host ≡ ok tt) ↔ Usable l now host
validate_iff l now host = (Usable-of_ok l now host, validate-ok l now host)

-- The uses stay within the limit of the lease, which is a `u32`.
abbrev pub Within : Option ℕ → ℕ → Type 0
Within none n = n < u32_mod
Within (some max) n = (n ≤ max) × (max < u32_mod)

record_use-Within :
    (m : Option ℕ) (l l' : Lease)
    → l.max_uses ≡ m
    → Within m l.use_count
    → record_use l ≡ ok l'
    → (l'.max_uses ≡ m) × Within m l'.use_count
unfolding record_use
record_use-Within none l l' e w h = ground arith
record_use-Within (some max) l l' e w h = ground arith

-- `n` uses, one after the other.
unfoldable pub use_times : ℕ → Lease → Result Lease
use_times zero l = ok l
use_times (suc n) l = elim (record_use l) [ ok l' ↦ use_times n l' | err e ↦ err e ]

use_times_from :
    (n : ℕ) (l : Lease) (m : ℕ)
    → l.max_uses ≡ some m
    → l.use_count ≤ m
    → m < u32_mod
    → use_times n l ≡ (
        if leb (n + l.use_count) m
        then ok (record l { use_count = n + l.use_count })
        else err (lease_expired l.id))
unfolding use_times record_use
use_times_from zero l m e w b = ground arith
use_times_from (suc n) l m e w b =
    ground (arith, use_times_from n (record l { use_count = inc_u32 l.use_count }) m)

-- A lease that allows `m` uses serves exactly `m`: from a fresh lease `n` uses succeed, and only
-- count themselves, when `n ≤ m`, and one of them fails with `LeaseExpired` when `n > m`.
pub use_limit :
    (n : ℕ) (l : Lease) (m : ℕ)
    → l.max_uses ≡ some m
    → l.use_count ≡ 0
    → m < u32_mod
    → use_times n l
      ≡ (if leb n m then ok (record l { use_count = n }) else err (lease_expired l.id))
use_limit n l m e z b =
    let p : n + l.use_count ≡ n = omega arith in rw p at (use_times_from n l m e (omega arith) b)

-- What a use and a renewal leave alone.
pub record SameGrant (l l' : Lease) : Type 0 where
  pub id : l'.id ≡ l.id
  pub agent : l'.agent ≡ l.agent
  pub secret_name : l'.secret_name ≡ l.secret_name
  pub allowed_domains : l'.allowed_domains ≡ l.allowed_domains
  pub revoked : l'.revoked ≡ l.revoked

pub record_use-SameGrant : (l l' : Lease) → record_use l ≡ ok l' → SameGrant l l'
unfolding record_use
record_use-SameGrant l l' h = ground arith

pub renew-SameGrant :
    (l l' : Lease) (now : DateTime) (extension : TimeDelta)
    → renew l now extension ≡ ok l'
    → SameGrant l l'
unfolding renew
renew-SameGrant l l' now extension h = ground arith
