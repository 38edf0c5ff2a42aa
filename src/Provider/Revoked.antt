-- ===== src/Provider/Revoked.antt =====
-- crates/zerolease-provider/src: what becomes of the leases of guards that are dropped, in
-- the vault.
use zerolease.Prelude.{
  ℕ, ◌+◌, ◌≤◌, ◌≡◌, refl, sym, ap, ◌∙◌, inl, inr, true, some, List, [], ◌∷◌, ◌++◌, Text, arith,
  nat_eq, Member, here, there, length, length-append, ltb, Bool-cases,
}
use zerolease.Types.Identity.{Uuid}
use zerolease.Types.Secrets.{admin_revoked}
use zerolease.Env.{Env}
use zerolease.Error.{Result, ok, err}
use zerolease.Map.{get}
use zerolease.Lease.{Lease}
use zerolease.Vault.State.{Backends}
use zerolease.Client.Remote.{Serving}
use zerolease.Agent.Provision.{VaultCalls, rollback}
use zerolease.Agent.Provision.Known.{vault_calls}
use zerolease.Agent.Provision.Rollback.{rollback-IsGone}
use zerolease.Provider.{
  CredentialGuard, channel_capacity, try_send, drop_guard, revoke_one, revocation_worker,
}

-- Guards that are dropped, one after another.
abbrev pub drop_all : List CredentialGuard → List Uuid → List Uuid
drop_all [] waiting = waiting
drop_all (guard ∷ guards) waiting = drop_all guards (drop_guard guard waiting)

Member-append : (x y : Uuid) (ys : List Uuid) → Member x ys → Member x (ys ++ (y ∷ []))
Member-append x y _ (here ys) = here (ys ++ (y ∷ []))
Member-append x y _ (there z ys m) = there z (ys ++ (y ∷ [])) (Member-append x y ys m)

Member-last : (x : Uuid) (ys : List Uuid) → Member x (ys ++ (x ∷ []))
Member-last x [] = here []
Member-last x (y ∷ ys) = there y (ys ++ (x ∷ [])) (Member-last x ys)

drop_guard-kept :
    (g : CredentialGuard) (x : Uuid) (ys : List Uuid) → Member x ys → Member x (drop_guard g ys)
unfolding drop_guard try_send
drop_guard-kept g x ys m = elim (Bool-cases g.revoke_tx) [
  | inr still ↦ rw still m
  | inl sends ↦ elim (Bool-cases (ltb (length ys) channel_capacity)) [
    | inl room ↦ rw (sends, room) (Member-append x g.lease_id ys m)
    | inr full ↦ rw (sends, full) m
  ]
]

drop_guard-sent :
    (g : CredentialGuard) (ys : List Uuid)
    → g.revoke_tx ≡ true
    → length ys + 1 ≤ channel_capacity
    → Member g.lease_id (drop_guard g ys)
unfolding drop_guard try_send
drop_guard-sent g ys sends fits =
    let room : ltb (length ys) channel_capacity ≡ true = ground arith in
    rw (sends, room) (Member-last g.lease_id ys)

drop_guard-length :
    (g : CredentialGuard) (ys : List Uuid) → length (drop_guard g ys) ≤ length ys + 1
unfolding drop_guard try_send
drop_guard-length g ys = ground (arith, length-append ys (g.lease_id ∷ []))

drop_all-kept :
    (guards : List CredentialGuard) (x : Uuid) (ys : List Uuid)
    → Member x ys
    → Member x (drop_all guards ys)
drop_all-kept [] x ys m = m
drop_all-kept (g ∷ guards) x ys m =
    drop_all-kept guards x (drop_guard g ys) (drop_guard-kept g x ys m)

drop_all-sent :
    (g : CredentialGuard) (guards : List CredentialGuard)
    → Member g guards
    → (ys : List Uuid) → g.revoke_tx ≡ true
    → length ys + length guards ≤ channel_capacity
    → Member g.lease_id (drop_all guards ys)
drop_all-sent g _ (here guards) ys sends fits =
    drop_all-kept guards g.lease_id (drop_guard g ys) (drop_guard-sent g ys sends (omega arith))
drop_all-sent g _ (there h guards m) ys sends fits =
    drop_all-sent g guards m (drop_guard h ys) sends (omega (arith, drop_guard-length h ys))

revocation_worker-rollback :
    {S : Type 0} (connect : S → Result (Unit {0}) × S) (calls : VaultCalls S)
    → ((s : S) → connect s ≡ (ok tt, s))
    → (ids : List Uuid) (s : S) → revocation_worker connect calls ids s ≡ rollback calls ids s
unfolding revocation_worker revoke_one rollback
revocation_worker-rollback connect calls up [] s = refl
revocation_worker-rollback connect calls up (id ∷ ids) s =
    ap (revocation_worker connect calls ids) (
      ap (λ q. elim q.0 [ err _ ↦ q.1 | ok _ ↦ (calls.revoke_lease q.1 id admin_revoked).1 ])
        (up s))
    ∙ revocation_worker-rollback connect calls up ids (calls.revoke_lease s id admin_revoked).1

module _ {KS SS AS : Type 0} (b : Backends KS SS AS) (envs : ℕ → Env) (peer : Text) where
  -- Guards with channels are dropped, no more than the channel has room for, and the worker
  -- has then emptied the channel, over connections that all succeed. Then the lease of each
  -- of the guards is revoked in the vault, or no longer there.
  pub worker-revoked :
      (connect : Serving KS SS AS → Result (Unit {0}) × Serving KS SS AS)
      (guards : List CredentialGuard) (guard : CredentialGuard) (waiting : List Uuid)
      (s : Serving KS SS AS) (l : Lease)
      → ((t : Serving KS SS AS) → connect t ≡ (ok tt, t))
      → Member guard guards
      → guard.revoke_tx ≡ true
      → length waiting + length guards ≤ channel_capacity
      → get
          (revocation_worker connect
            (vault_calls b envs peer)
            (drop_all guards waiting)
            s).vault.leases
          guard.lease_id
        ≡ some l
      → l.revoked ≡ true
  worker-revoked connect guards guard waiting s l up m sends fits found =
      let ids = drop_all guards waiting in
      let same = revocation_worker-rollback connect (vault_calls b envs peer) up ids s in
      rollback-IsGone b envs peer guard.lease_id ids s
        (drop_all-sent guard guards m waiting sends fits) l
        (ap (λ t. get t.vault.leases guard.lease_id) (sym same) ∙ found)
