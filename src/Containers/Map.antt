-- ===== src/Containers/Map.antt =====
-- `std::map` as an association list in ascending order of the keys, which is the order in which the
-- program iterates. A `std::set` is a map to the unit type.
pub mod Laws
pub mod Sorted
pub mod Ascending
use modern_cpp_kafka.Prelude.{
  ℕ, suc, ◌≡◌, Bool, true, false, ◌&&◌, not, Option, none, some, List, [], ◌∷◌, Ord, same,
  if◌then◌else◌,
}

abbrev pub Map {ℓ κ} : Type ℓ → Type κ → Type (ℓ ⊔ κ)
Map K V = List (K × V)

abbrev pub Set {ℓ} : Type ℓ → Type ℓ
Set K = List (K × Unit {0})

module _ {ℓ κ} {K : Type ℓ} {V : Type κ} ⦃o : Ord K⦄ where
  -- m.find(k)
  unfoldable pub find : K → Map K V → Option V
  find k [] = none
  find k ((j, v) ∷ m) = if same j k then some v else find k m

  unfoldable pub contains : K → Map K V → Bool
  unfolding find
  contains k m = elim (find k m) [ none ↦ false | some _ ↦ true ]

  -- m[k] = v
  unfoldable pub insert : K → V → Map K V → Map K V
  insert k v [] = (k, v) ∷ []
  insert k v ((j, w) ∷ m) =
      let rest = insert k v m in
      if o.lt k j then (k, v) ∷ (j, w) ∷ m else if o.lt j k then (j, w) ∷ rest else (k, v) ∷ m

  -- m.erase(k)
  unfoldable pub erase : K → Map K V → Map K V
  erase k [] = []
  erase k ((j, w) ∷ m) = let rest = erase k m in if same j k then rest else (j, w) ∷ rest

  -- The keys ascend strictly, so each stands once.
  abbrev pub Above : K → Map K V → Type 0
  Above k [] = Unit
  Above k ((j, v) ∷ m) = (o.lt k j ≡ true) × Above j m

  abbrev pub IsSorted : Map K V → Type 0
  IsSorted [] = Unit
  IsSorted ((j, v) ∷ m) = Above j m

module _ {ℓ} {K : Type ℓ} ⦃o : Ord K⦄ where
  -- s.insert(k) and s.emplace(k), which leave an element that is there alone.
  unfoldable pub add : K → Set K → Set K
  unfolding insert
  add k s = insert k tt s

  unfoldable pub set_eq : Set K → Set K → Bool
  set_eq [] [] = true
  set_eq [] ((b, u) ∷ t) = false
  set_eq ((a, u) ∷ s) [] = false
  set_eq ((a, u) ∷ s) ((b, w) ∷ t) = same a b && set_eq s t
