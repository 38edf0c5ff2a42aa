-- ===== src/Map/Distinct.antt =====
-- No key stands twice in a map, as in every `HashMap`, and what follows.
use zerolease.Prelude.{
  refl, none, if◌then◌else◌, ◌+◌, ◌≤◌, ◌≡◌, ◌≢◌, sym, subst, inl, inr, Bool, true, false, some, [],
  ◌∷◌, arith, Keyed, ◌==◌, Bool-cases,
}
use zerolease.Map.{remove, Map, get, insert, set, map_values, count}
use zerolease.Map.Every.{All, All-insert, All-set, All-map_values}

abbrev pub Absent : {K V : Type 0} → K → Map K V → Type 0
Absent k = All (λ j _. j ≢ k)

abbrev pub Distinct : {K V : Type 0} → Map K V → Type 0
Distinct [] = Unit {0}
Distinct ((j, v) ∷ m) = Absent j m × Distinct m

module _ {K : Type 0} ⦃e : Keyed K⦄ where
  ne_of_beq : (j k : K) → (j == k) ≡ false → k ≢ j
  ne_of_beq j k h p = ground (arith, e.same_iff j k)

module _ {K V : Type 0} ⦃e : Keyed K⦄ where
  pub Distinct-insert : (m : Map K V) (k : K) (v : V) → Distinct m → Distinct (insert m k v)
  unfolding insert
  Distinct-insert [] k v d = (tt, tt)
  Distinct-insert ((j, w) ∷ m) k v d = elim (Bool-cases (j == k)) [
    | inl same ↦ rw same (subst (λ x. Absent x m) ((e.same_iff j k).0 same) d.0, d.1)
    | inr other ↦
        rw other
          (All-insert (λ i _. i ≢ j) m k v d.0 (ne_of_beq j k other), Distinct-insert m k v d.1)
  ]

  pub Distinct-set : (m : Map K V) (k : K) (v : V) → Distinct m → Distinct (set m k v)
  unfolding set
  Distinct-set [] k v d = tt
  Distinct-set ((j, w) ∷ m) k v d = elim (Bool-cases (j == k)) [
    | inl same ↦ rw same (d.0, d.1)
    | inr other ↦
        rw other (All-set (λ i _. i ≢ j) m k v d.0 (ne_of_beq j k other), Distinct-set m k v d.1)
  ]

  Absent-remove : (m : Map K V) (j k : K) → Absent j m → Absent j (remove m k)
  unfolding remove
  Absent-remove [] j k a = tt
  Absent-remove ((i, w) ∷ m) j k a = elim (Bool-cases (i == k)) [
    | inl same ↦ rw same a.1
    | inr other ↦ rw other (a.0, Absent-remove m j k a.1)
  ]

  pub Distinct-remove : (m : Map K V) (k : K) → Distinct m → Distinct (remove m k)
  unfolding remove
  Distinct-remove [] k d = tt
  Distinct-remove ((j, w) ∷ m) k d = elim (Bool-cases (j == k)) [
    | inl same ↦ rw same d.1
    | inr other ↦ rw other (Absent-remove m j k d.0, Distinct-remove m k d.1)
  ]

  pub get-Absent : (m : Map K V) (k : K) → Absent k m → get m k ≡ none
  unfolding get
  get-Absent [] k a = refl
  get-Absent ((j, w) ∷ m) k a = elim (Bool-cases (j == k)) [
    | inl same ↦ absurd (a.0 ((e.same_iff j k).0 same))
    | inr other ↦ rw other (get-Absent m k a.1)
  ]

  pub get-remove :
      (m : Map K V) (k j : K) → Distinct m → get (remove m k) j ≡ (if k == j then none else get m j)
  unfolding get remove
  get-remove [] k j d = ground arith
  get-remove ((i, w) ∷ m) k j d = elim (Bool-cases (i == k)) [
    | inl same ↦
        let p = (e.same_iff i k).0 same in
        elim (Bool-cases (i == j)) [
          | inl hit ↦
              rw (same, ← p, hit)
                (get-Absent m j (subst (λ x. Absent x m) ((e.same_iff i j).0 hit) d.0))
          | inr miss ↦ rw (same, ← p, miss) refl
        ]
    | inr other ↦
        ground (arith, e.same_iff i k, e.same_iff i j, e.same_iff k j, get-remove m k j d.1)
  ]

  -- A write decides alone what holds of the entry with its key.
  pub set-only :
      (Q : V → Type 0) (m : Map K V) (k : K) (v : V)
      → Distinct m
      → Q v
      → All (λ j w. j ≡ k → Q w) (set m k v)
  unfolding set
  set-only Q [] k v d q = tt
  set-only Q ((j, w) ∷ m) k v d q = elim (Bool-cases (j == k)) [
    | inl same ↦
        rw same
          ((λ _. q), absent-only Q m k (subst (λ x. Absent x m) ((e.same_iff j k).0 same) d.0))
    | inr other ↦ rw other ((λ p. absurd (ne_of_beq j k other (sym p))), set-only Q m k v d.1 q)
  ]
    where
      absent-only : (Q : V → Type 0) (m : Map K V) (k : K) → Absent k m → All (λ j w. j ≡ k → Q w) m
      absent-only Q [] k a = tt
      absent-only Q ((j, w) ∷ m) k a = ((λ p. absurd (a.0 p)), absent-only Q m k a.1)

  pub count-insert-le :
      (p : V → Bool) (m : Map K V) (k : K) (v : V) → count p (insert m k v) ≤ count p m + 1
  unfolding count insert
  count-insert-le p [] k v = ground arith
  count-insert-le p ((j, w) ∷ m) k v = ground (arith, count-insert-le p m k v)

  pub count-insert_not :
      (p : V → Bool) (m : Map K V) (k : K) (v : V)
      → p v ≡ false
      → count p (insert m k v) ≤ count p m
  unfolding count insert
  count-insert_not p [] k v h = ground arith
  count-insert_not p ((j, w) ∷ m) k v h = ground (arith, count-insert_not p m k v h)

  -- An entry that is not counted before is not counted after: the count does not grow.
  pub count-set-le :
      (p : V → Bool) (m : Map K V) (k : K) (v w : V)
      → get m k ≡ some w
      → (p v ≡ true → p w ≡ true)
      → count p (set m k v) ≤ count p m
  unfolding count set get
  count-set-le p [] k v w h le = absurd (ground arith)
  count-set-le p ((j, u) ∷ m) k v w h le = ground (arith, count-set-le p m k v w)

module _ {K V : Type 0} where
  pub Distinct-map_values : (f : V → V) (m : Map K V) → Distinct m → Distinct (map_values f m)
  unfolding map_values
  Distinct-map_values f [] d = tt
  Distinct-map_values f ((j, v) ∷ m) d =
      (All-map_values (λ i _. i ≢ j) f m (λ _ _ a. a) d.0, Distinct-map_values f m d.1)

  pub count-map_values-le :
      (p : V → Bool) (f : V → V) (m : Map K V)
      → ((v : V) → p (f v) ≡ true → p v ≡ true)
      → count p (map_values f m) ≤ count p m
  unfolding count map_values
  count-map_values-le p f [] le = omega arith
  count-map_values-le p f ((j, v) ∷ m) le = ground (arith, count-map_values-le p f m le, le v)
