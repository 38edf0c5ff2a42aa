-- ===== src/Map.antt =====
-- std's `HashMap` as a list of its entries, in the order in which an iteration meets them: that
-- order is arbitrary, and what is proved holds for every order.
pub mod Every
pub mod Distinct
use mathlib.Core.Option
use zerolease.Prelude.{
  ℕ, zero, suc, ◌+◌, ◌≤◌, ◌<◌, ◌≡◌, refl, ap, ◌∙◌, ◌≢◌, ◌⊎◌, inl, inr, Bool, true, false, not,
  Option, none, some, List, [], ◌∷◌, map, arith, Keyed, ◌==◌, if◌then◌else◌, length, Bool-cases,
}

abbrev pub Map : Type 0 → Type 0 → Type 0
Map K V = List (K × V)

module _ {K V : Type 0} ⦃e : Keyed K⦄ where
  unfoldable pub get : Map K V → K → Option V
  get [] k = none
  get ((j, v) ∷ m) k = if j == k then some v else get m k

  -- `insert`: replaces the value of a key that is there.
  unfoldable pub insert : Map K V → K → V → Map K V
  insert [] k v = (k, v) ∷ []
  insert ((j, w) ∷ m) k v = if j == k then (k, v) ∷ m else (j, w) ∷ insert m k v

  -- A write through `get_mut`: a key that is not there stays so.
  unfoldable pub set : Map K V → K → V → Map K V
  set [] k v = []
  set ((j, w) ∷ m) k v = if j == k then (j, v) ∷ m else (j, w) ∷ set m k v

  unfoldable pub remove : Map K V → K → Map K V
  remove [] k = []
  remove ((j, w) ∷ m) k = if j == k then m else (j, w) ∷ remove m k

  pub get-insert :
      (m : Map K V) (k : K) (v : V) (j : K)
      → get (insert m k v) j ≡ (if k == j then some v else get m j)
  unfolding get insert
  get-insert [] k v j = refl
  get-insert ((i, w) ∷ m) k v j =
      ground (arith, e.same_iff k j, e.same_iff i k, e.same_iff i j, get-insert m k v j)

  pub get-insert_self : (m : Map K V) (k : K) (v : V) → get (insert m k v) k ≡ some v
  get-insert_self m k v =
      let p : (k == k) ≡ true = (e.same_iff k k).1 refl in get-insert m k v k ∙ (rw p refl)

  pub get-set_self : (m : Map K V) (k : K) (v w : V) → get m k ≡ some w → get (set m k v) k ≡ some v
  unfolding get set
  get-set_self [] k v w h = ground arith
  get-set_self ((i, u) ∷ m) k v w h = ground (arith, get-set_self m k v w)

  pub get-set_ne : (m : Map K V) (k : K) (v : V) (j : K) → k ≢ j → get (set m k v) j ≡ get m j
  unfolding get set
  get-set_ne [] k v j h = refl
  get-set_ne ((i, u) ∷ m) k v j h =
      ground (arith, e.same_iff i k, e.same_iff i j, get-set_ne m k v j)

module _ {K V : Type 0} where
  abbrev pub values : Map K V → List V
  values = map λ e. e.1

  -- A pass over `values_mut`.
  unfoldable pub map_values : (V → V) → Map K V → Map K V
  map_values f [] = []
  map_values f ((j, v) ∷ m) = (j, f v) ∷ map_values f m

  unfoldable pub retain : (V → Bool) → Map K V → Map K V
  retain p [] = []
  retain p ((j, v) ∷ m) = if p v then (j, v) ∷ retain p m else retain p m

  -- `values().filter(p).count()`
  unfoldable pub count : (V → Bool) → Map K V → ℕ
  count p [] = 0
  count p ((j, v) ∷ m) = if p v then suc (count p m) else count p m

module _ {K V : Type 0} ⦃e : Keyed K⦄ where
  pub get-map_values :
      (f : V → V) (m : Map K V) (k : K) → get (map_values f m) k ≡ Option.map f (get m k)
  unfolding get map_values
  get-map_values f [] k = refl
  get-map_values f ((j, v) ∷ m) k = ground (arith, get-map_values f m k)
