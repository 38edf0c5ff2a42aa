-- ===== src/Agent/Sni/Fuel.antt =====
-- crates/zerolease-agent/src/proxy/sni.rs: the two loops of the parser run to their end.
use zerolease.Prelude.{ℕ, zero, suc, ◌-◌, ◌<◌, ◌≡◌, refl, [], ◌∷◌, arith, nat_eq, length, drop}
use zerolease.Types.Secrets.{Bytes}
use zerolease.Agent.Sni.{u16, read_names, walk_extensions}
use zerolease.Agent.Sni.Bounds.{length-drop}

read_names-enough :
    (n m : ℕ) (s : Bytes) → length s < n → length s < m → read_names n s ≡ read_names m s
unfolding read_names
read_names-enough zero m s h k = absurd (omega arith)
read_names-enough (suc n) zero s h k = absurd (omega arith)
read_names-enough (suc n) (suc m) [] h k = refl
read_names-enough (suc n) (suc m) (t ∷ []) h k = refl
read_names-enough (suc n) (suc m) (t ∷ a ∷ []) h k = refl
read_names-enough (suc n) (suc m) (t ∷ a ∷ b ∷ s) h k =
    let len = length-drop (u16 a b) s in
    let ih = read_names-enough n m (drop (u16 a b) s) (omega arith) (omega arith) in rw ih refl

-- The walk over the extensions has the same outcome on any two amounts of fuel greater than the
-- number of bytes.
pub walk_extensions-enough :
    (n m left : ℕ) (s : Bytes)
    → length s < n
    → length s < m
    → walk_extensions n left s ≡ walk_extensions m left s
unfolding walk_extensions
walk_extensions-enough zero m left s h k = absurd (omega arith)
walk_extensions-enough (suc n) zero left s h k = absurd (omega arith)
walk_extensions-enough (suc n) (suc m) left [] h k = refl
walk_extensions-enough (suc n) (suc m) left (a ∷ []) h k = refl
walk_extensions-enough (suc n) (suc m) left (a ∷ b ∷ []) h k = refl
walk_extensions-enough (suc n) (suc m) left (a ∷ b ∷ c ∷ []) h k = refl
walk_extensions-enough (suc n) (suc m) left (a ∷ b ∷ c ∷ d ∷ s) h k =
    let len = length-drop (u16 c d) s in
    let ih =
      walk_extensions-enough n m (left - 4 - u16 c d) (drop (u16 c d) s) (omega arith)
        (omega arith) in
    rw ih refl
