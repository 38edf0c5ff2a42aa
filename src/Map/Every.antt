-- ===== src/Map/Every.antt =====
-- A property of every entry of a map, which the writes of the map keep.
use zerolease.Prelude.{◌≡◌, sym, subst, inl, inr, some, [], ◌∷◌, arith, Keyed, ◌==◌, Bool-cases}
use zerolease.Map.{Map, get, insert, set, map_values}

abbrev pub All : {K V : Type 0} → (K → V → Type 0) → Map K V → Type 0
All P [] = Unit {0}
All P ((j, v) ∷ m) = P j v × All P m

module _ {K V : Type 0} ⦃e : Keyed K⦄ (P : K → V → Type 0) where
  pub All-get : (m : Map K V) (k : K) (v : V) → All P m → get m k ≡ some v → P k v
  unfolding get
  All-get [] k v a h = absurd (ground arith)
  All-get ((j, w) ∷ m) k v a h = elim (Bool-cases (j == k)) [
    | inl same ↦
        subst (λ x. P k x) (ground arith) (subst (λ x. P x w) ((e.same_iff j k).0 same) a.0)
    | inr other ↦ All-get m k v a.1 (ground arith)
  ]

  pub All-insert : (m : Map K V) (k : K) (v : V) → All P m → P k v → All P (insert m k v)
  unfolding insert
  All-insert [] k v a p = (p, tt)
  All-insert ((j, w) ∷ m) k v a p = elim (Bool-cases (j == k)) [
    | inl same ↦ rw same (p, a.1)
    | inr other ↦ rw other (a.0, All-insert m k v a.1 p)
  ]

  pub All-set : (m : Map K V) (k : K) (v : V) → All P m → P k v → All P (set m k v)
  unfolding set
  All-set [] k v a p = tt
  All-set ((j, w) ∷ m) k v a p = elim (Bool-cases (j == k)) [
    | inl same ↦ rw same (subst (λ x. P x v) (sym ((e.same_iff j k).0 same)) p, a.1)
    | inr other ↦ rw other (a.0, All-set m k v a.1 p)
  ]

module _ {K V : Type 0} (P : K → V → Type 0) where
  pub All-map_values :
      (f : V → V) (m : Map K V)
      → ((k : K) (v : V) → P k v → P k (f v))
      → All P m
      → All P (map_values f m)
  unfolding map_values
  All-map_values f [] h a = tt
  All-map_values f ((j, v) ∷ m) h a = (h j v a.0, All-map_values f m h a.1)
