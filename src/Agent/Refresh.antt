-- ===== src/Agent/Refresh.antt =====
-- crates/zerolease-agent/src/proxy/mod.rs: how the proxy takes over the file of the leases.
-- The file is what reading it and parsing it gives, `none` for an error.
use zerolease.Prelude.{
  ◌≡◌, ◌≢◌, refl, ◌∙◌, inl, inr, Bool, not, Option, none, some, List, [], ◌∷◌, Text, text_eq, ◌==◌,
  nat_eq, if◌then◌else◌, ◌≤ℤ◌, Bool-cases,
}
use zerolease.Types.Time.{DateTime}
use zerolease.Map.{Map, retain}
use zerolease.Map.Distinct.{Distinct}
use zerolease.Agent.LeaseState.{LeaseState, lease_state_version, new, is_allowed, prune_expired}
use zerolease.Agent.Pruning.{All-retain, prune_expired-is_allowed}

-- `read_from(…).unwrap_or_default()`
unfoldable pub initial_state : Option LeaseState → LeaseState
unfolding new
initial_state none = new
initial_state (some s) = s

-- One round of `lease_refresh_loop`, at the time at which it prunes.
unfoldable pub refresh : LeaseState → Option LeaseState → DateTime → LeaseState
unfolding prune_expired
refresh cached none now = prune_expired cached now
refresh cached (some new_state) now =
    if not (new_state.version == lease_state_version) then cached else prune_expired new_state now

-- The rounds of the loop, each with what it read and its time, the last first.
unfoldable pub refreshes : LeaseState → List (Option LeaseState × DateTime) → LeaseState
unfolding refresh
refreshes start [] = start
refreshes start ((file, now) ∷ before) = refresh (refreshes start before) file now

-- The state that the proxy last took over: the last file that could be read and has the version.
abbrev pub last_accepted : LeaseState → List (Option LeaseState × DateTime) → LeaseState
last_accepted start [] = start
last_accepted start ((none, now) ∷ before) = last_accepted start before
last_accepted start ((some s, now) ∷ before) =
    if s.version == lease_state_version then s else last_accepted start before

-- No round is later, and no file names a domain twice.
abbrev pub Sound : DateTime → List (Option LeaseState × DateTime) → Type 0
Sound later [] = Unit {0}
Sound later ((none, now) ∷ before) = (now ≤ℤ later) × Sound later before
Sound later ((some s, now) ∷ before) = (now ≤ℤ later) × (Distinct s.leases × Sound later before)

Distinct-retain : {K V : Type 0} (p : V → Bool) (m : Map K V) → Distinct m → Distinct (retain p m)
unfolding retain
Distinct-retain p [] d = tt
Distinct-retain p ((j, v) ∷ m) (absent, d) = elim (Bool-cases (p v)) [
  | inl kept ↦ rw kept (All-retain (λ x _. x ≢ j) p m absent, Distinct-retain p m d)
  | inr gone ↦ rw gone (Distinct-retain p m d)
]

prune_expired-Distinct :
    (s : LeaseState) (now : DateTime) → Distinct s.leases → Distinct (prune_expired s now).leases
unfolding prune_expired
prune_expired-Distinct s now d = Distinct-retain _ s.leases d

refreshes-both :
    (start : LeaseState) (rounds : List (Option LeaseState × DateTime)) (later : DateTime)
    (domain : Text)
    → Distinct start.leases
    → Sound later rounds
    → Distinct (refreshes start rounds).leases
      × (is_allowed (refreshes start rounds) later domain
          ≡ is_allowed (last_accepted start rounds) later domain)
unfolding refreshes refresh
refreshes-both start [] later domain d s = (d, refl)
refreshes-both start ((none, now) ∷ before) later domain d (le, s) =
    let (distinct, same) = refreshes-both start before later domain d s in
    (
      prune_expired-Distinct (refreshes start before) now distinct,
      prune_expired-is_allowed (refreshes start before) now later domain distinct le ∙ same,
    )
refreshes-both start ((some f, now) ∷ before) later domain d (le, (df, s)) =
    elim (Bool-cases (f.version == lease_state_version)) [
      | inr other ↦ rw (other, refreshes) (refreshes-both start before later domain d s)
      | inl known ↦
          rw (known, refreshes)
            (prune_expired-Distinct f now df, prune_expired-is_allowed f now later domain df le)
    ]

-- After any rounds of the refresh, none later than the time asked about, and with files that name
-- no domain twice: a domain is allowed exactly when the file that was last read, parsed and of
-- the known version allows it, or the state at the start when there was none. Neither pruning
-- nor a file that cannot be used changes the answer.
pub refreshes-is_allowed :
    (start : LeaseState) (rounds : List (Option LeaseState × DateTime)) (later : DateTime)
    (domain : Text)
    → Distinct start.leases
    → Sound later rounds
    → is_allowed (refreshes start rounds) later domain
      ≡ is_allowed (last_accepted start rounds) later domain
refreshes-is_allowed start rounds later domain d s =
    (refreshes-both start rounds later domain d s).1
