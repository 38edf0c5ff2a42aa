-- ===== src/Agent/Pruning.antt =====
-- crates/zerolease-agent/src/lease_state.rs: pruning takes nothing away that is still allowed.
use zerolease.Prelude.{
  ◌≡◌, ◌≢◌, refl, subst, Bool, none, some, [], ◌∷◌, Text, arith, text_eq, ◌==◌, ◌≤ℤ◌, inl, inr,
  Bool-cases, Option-cases, if◌then◌else◌,
}
use zerolease.Types.Time.{DateTime}
use zerolease.Map.{Map, get, retain}
use zerolease.Map.Every.{All}
use zerolease.Map.Distinct.{Distinct, Absent, get-Absent}
use zerolease.Agent.LeaseState.{LeaseState, LeaseInfo, is_current, is_allowed, prune_expired}

pub All-retain :
    {K V : Type 0} (P : K → V → Type 0) (p : V → Bool) (m : Map K V) → All P m → All P (retain p m)
unfolding retain
All-retain P p [] a = tt
All-retain P p ((j, v) ∷ m) a = elim (Bool-cases (p v)) [
  | inl kept ↦ rw kept (a.0, All-retain P p m a.1)
  | inr gone ↦ rw gone (All-retain P p m a.1)
]

-- The entry under a key survives exactly when it passes the test.
get-retain :
    (p : LeaseInfo → Bool) (m : Map Text LeaseInfo) (k : Text)
    → Distinct m
    → get (retain p m) k ≡ elim (get m k) [ none ↦ none | some v ↦ if p v then some v else none ]
unfolding get retain
get-retain p [] k d = refl
get-retain p ((j, v) ∷ m) k d = elim (Bool-cases (j == k)) [
  | inl same ↦
      let gone : Absent k m = subst (λ x. Absent x m) ((text_eq.same_iff j k).0 same) d.0 in
      let after = get-Absent (retain p m) k (All-retain (λ x _. x ≢ k) p m gone) in
      elim (Bool-cases (p v)) [
        | inl kept ↦ rw (kept, same, kept) refl
        | inr dropped ↦ rw (dropped, same, dropped) after
      ]
  | inr other ↦ elim (Bool-cases (p v)) [
    | inl kept ↦ rw (kept, other) (get-retain p m k d.1)
    | inr dropped ↦ rw (dropped, other) (get-retain p m k d.1)
  ]
]

-- From the time of a pruning on, the pruned state answers for every domain as the state before did.
pub prune_expired-is_allowed :
    (s : LeaseState) (now later : DateTime) (domain : Text)
    → Distinct s.leases
    → now ≤ℤ later
    → is_allowed (prune_expired s now) later domain ≡ is_allowed s later domain
unfolding is_allowed prune_expired
prune_expired-is_allowed s now later domain d h =
    let e = get-retain (is_current now) s.leases domain d in
    elim (Option-cases (get s.leases domain)) [
      | inl missing ↦ ground (arith, e)
      | inr (info, found) ↦ elim (Bool-cases (is_current now info)) [
        | inl current ↦ ground (arith, e)
        | inr expired ↦ ground (arith, e)
      ]
    ]
