-- ===== src/Base/Maps.antt =====
-- `HashMap` as an association list with one entry for each key, written through its interface:
-- `get`, `insert`, `remove`. The iteration order of the map is not used by the code.
use mathlib.Core.Path.{◌≡◌, refl}
use mathlib.Core.Bool.{Bool, true, false, not, ◌&&◌}
use mathlib.Core.Option.{Option, none, some}
use mathlib.Core.List.{List, [], ◌∷◌}
use native.Mathlib.Omega.{arith}
use dlep.Base.Tests.{if◌then◌else◌}
use dlep.Base.Equality.{Eq, ◌≟◌}

abbrev pub Map {ℓ κ} : Type ℓ → Type κ → Type (ℓ ⊔ κ)
Map K V = List (K × V)

module _ {ℓ κ} {K : Type ℓ} {V : Type κ} ⦃e : Eq K⦄ where
  unfoldable pub get : Map K V → K → Option V
  get [] k = none
  get ((j, v) ∷ m) k = if j ≟ k then some v else get m k

  unfoldable pub insert : Map K V → K → V → Map K V
  insert [] k v = (k, v) ∷ []
  insert ((j, w) ∷ m) k v = if j ≟ k then (k, v) ∷ m else (j, w) ∷ insert m k v

  unfoldable pub remove : Map K V → K → Map K V
  remove [] k = []
  remove ((j, w) ∷ m) k = let rest = remove m k in if j ≟ k then rest else (j, w) ∷ rest

  abbrev pub contains_key : Map K V → K → Bool
  contains_key m k = elim (get m k) [ none ↦ false | some v ↦ true ]

  pub get-insert :
      (m : Map K V) (k j : K) (v : V) → get (insert m k v) j ≡ (if k ≟ j then some v else get m j)
  unfolding get insert
  get-insert [] k j v = refl
  get-insert ((i, w) ∷ m) k j v =
      ground (arith, get-insert m k j v, e.beq_iff i k, e.beq_iff i j, e.beq_iff k j)

  pub get-remove : (m : Map K V) (k j : K) → get (remove m k) j ≡ (if k ≟ j then none else get m j)
  unfolding get remove
  get-remove [] k j = ground arith
  get-remove ((i, w) ∷ m) k j =
      ground (arith, get-remove m k j, e.beq_iff i k, e.beq_iff i j, e.beq_iff k j)

  -- `values_mut`: the same change to every value.
  unfoldable pub map_values : (V → V) → Map K V → Map K V
  map_values f [] = []
  map_values f ((j, v) ∷ m) = (j, f v) ∷ map_values f m

  pub get-map_values :
      (f : V → V) (m : Map K V) (k : K)
      → get (map_values f m) k ≡ elim (get m k) [ none ↦ none | some v ↦ some (f v) ]
  unfolding get map_values
  get-map_values f [] k = refl
  get-map_values f ((j, v) ∷ m) k = ground (arith, get-map_values f m k)

  -- `retain`.
  unfoldable pub retain_entries : (K → V → Bool) → Map K V → Map K V
  retain_entries p [] = []
  retain_entries p ((j, v) ∷ m) =
      let rest = retain_entries p m in if p j v then (j, v) ∷ rest else rest

  -- No key stands twice.
  unfoldable pub unique : Map K V → Bool
  unique [] = true
  unique ((j, v) ∷ m) = not (contains_key m j) && unique m

  pub get-retain_entries :
      (p : K → V → Bool) (m : Map K V) (k : K)
      → unique m ≡ true
      → get (retain_entries p m) k
        ≡ elim (get m k) [ none ↦ none | some v ↦ if p k v then some v else none ]
  unfolding get retain_entries unique
  get-retain_entries p [] k u = refl
  get-retain_entries p ((j, v) ∷ m) k u =
      ground (arith, get-retain_entries p m k, get-retain_entries p m j, e.beq_iff j k)

  pub unique-retain_entries :
      (p : K → V → Bool) (m : Map K V) → unique m ≡ true → unique (retain_entries p m) ≡ true
  unfolding retain_entries unique
  unique-retain_entries p [] u = refl
  unique-retain_entries p ((j, v) ∷ m) u =
      ground (arith, unique-retain_entries p m, get-retain_entries p m j)

  pub unique-insert : (m : Map K V) (k : K) (v : V) → unique m ≡ true → unique (insert m k v) ≡ true
  unfolding insert unique get
  unique-insert [] k v u = refl
  unique-insert ((j, w) ∷ m) k v u =
      ground (arith, unique-insert m k v, get-insert m k j v, e.beq_iff j k, e.beq_iff k j)

  pub unique-remove : (m : Map K V) (k : K) → unique m ≡ true → unique (remove m k) ≡ true
  unfolding remove unique
  unique-remove [] k u = refl
  unique-remove ((j, w) ∷ m) k u =
      ground (arith, unique-remove m k, get-remove m k j, e.beq_iff j k, e.beq_iff k j)
