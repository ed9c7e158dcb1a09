-- ===== src/Containers/Map/Laws.antt =====
-- `std::map` and `std::set`: what a lookup gives after each operation.
use modern_cpp_kafka.Prelude.{
  ◌≡◌, refl, false, ◌||◌, none, some, [], ◌∷◌, Ord, same, arith, if◌then◌else◌,
}
use modern_cpp_kafka.Containers.Map.{Map, find, contains, insert, erase}

module _ {ℓ κ} {K : Type ℓ} {V : Type κ} ⦃o : Ord K⦄ where
  pub find-insert :
      (k j : K) (v : V) (m : Map K V)
      → find j (insert k v m) ≡ (if same k j then some v else find j m)
  unfolding find insert
  find-insert k j v [] = refl
  find-insert k j v ((i, w) ∷ m) = ground (
    arith,
    find-insert k j v m,
    o.lt_connex i k,
    o.lt_connex i j,
    o.lt_connex k j,
    o.lt_irrefl i,
    o.lt_irrefl k,
    o.lt_irrefl j,
  )

  pub find-erase :
      (k j : K) (m : Map K V) → find j (erase k m) ≡ (if same k j then none else find j m)
  unfolding find erase
  find-erase k j [] = ground arith
  find-erase k j ((i, w) ∷ m) = ground (
    arith,
    find-erase k j m,
    o.lt_connex i k,
    o.lt_connex i j,
    o.lt_connex k j,
    o.lt_irrefl i,
    o.lt_irrefl k,
    o.lt_irrefl j,
  )

  pub contains-insert :
      (k j : K) (v : V) (m : Map K V) → contains j (insert k v m) ≡ (same k j || contains j m)
  unfolding contains
  contains-insert k j v m = ground (arith, find-insert k j v m)

  pub contains-erase :
      (k j : K) (m : Map K V) → contains j (erase k m) ≡ (if same k j then false else contains j m)
  unfolding contains
  contains-erase k j m = ground (arith, find-erase k j m)

  pub contains-cons :
      (k j : K) (v : V) (m : Map K V) → contains j ((k, v) ∷ m) ≡ (same k j || contains j m)
  unfolding contains find
  contains-cons k j v m = ground arith

pub contains-nil {ℓ} : {K : Type ℓ} ⦃o : Ord K⦄ (k : K) → contains {V = Unit {0}} k [] ≡ false
unfolding contains find
contains-nil k = refl
