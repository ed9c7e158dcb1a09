-- ===== src/Containers/Map/Sorted.antt =====
-- `std::map`: the order of the keys after each operation.
use modern_cpp_kafka.Prelude.{
  ◌≡◌, true, refl, none, same, same→eq, lt-asymm, subst, [], ◌∷◌, Ord, arith,
}
use modern_cpp_kafka.Containers.Map.{Map, find, insert, erase, Above, IsSorted}

module _ {ℓ κ} {K : Type ℓ} {V : Type κ} ⦃o : Ord K⦄ where
  Above-lower : (k j : K) (m : Map K V) → o.lt k j ≡ true → Above j m → Above k m
  Above-lower k j [] h a = tt
  Above-lower k j ((i, v) ∷ m) h a = (o.lt_trans k j i h a.0, a.1)

  insert-Above :
      (b k : K) (v : V) (m : Map K V) → o.lt b k ≡ true → Above b m → Above b (insert k v m)
  unfolding insert
  insert-Above b k v [] h a = (h, tt)
  insert-Above b k v ((j, w) ∷ m) h a = ground (arith, insert-Above j k v m, o.lt_connex k j)

  pub insert-IsSorted : (k : K) (v : V) (m : Map K V) → IsSorted m → IsSorted (insert k v m)
  unfolding insert
  insert-IsSorted k v [] a = tt
  insert-IsSorted k v ((j, w) ∷ m) a = ground (arith, insert-Above j k v m, o.lt_connex k j)

  erase-Above : (b k : K) (m : Map K V) → Above b m → Above b (erase k m)
  unfolding erase
  erase-Above b k [] a = tt
  erase-Above b k ((j, w) ∷ m) a =
      ground (arith, erase-Above j k m a.1, Above-lower b j (erase k m))

  pub erase-IsSorted : (k : K) (m : Map K V) → IsSorted m → IsSorted (erase k m)
  unfolding erase
  erase-IsSorted k [] a = tt
  erase-IsSorted k ((j, w) ∷ m) a = ground (arith, erase-Above j k m a, erase-IsSorted k m)

  -- A key below all of `m` is not in it.
  pub find-Above : (k : K) (m : Map K V) → Above k m → find k m ≡ none
  unfolding find
  find-Above k [] a = refl
  find-Above k ((j, w) ∷ m) a =
      ground (arith, find-Above k m (Above-lower k j m a.0 a.1), lt-asymm k j)

  pub find-Above-same : (j k : K) (m : Map K V) → Above j m → same j k ≡ true → find k m ≡ none
  find-Above-same j k m a e = subst (λ x. find x m ≡ none) (same→eq j k e) (find-Above j m a)
