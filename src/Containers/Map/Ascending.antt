-- ===== src/Containers/Map/Ascending.antt =====
-- `std::map`: inserting pairs in the order of their keys.
use modern_cpp_kafka.Prelude.{◌≡◌, refl, true, [], ◌∷◌, ◌++◌, Ord, lt-asymm, arith}
use modern_cpp_kafka.Containers.Map.{Map, insert, Above, IsSorted}

module _ {ℓ κ} {K : Type ℓ} {V : Type κ} ⦃o : Ord K⦄ where
  -- All keys of `m` are below `k`.
  abbrev pub AllBelow : K → Map K V → Type 0
  AllBelow k [] = Unit
  AllBelow k ((j, v) ∷ m) = (o.lt j k ≡ true) × AllBelow k m

  pub insert-append : (k : K) (v : V) (m : Map K V) → AllBelow k m → insert k v m ≡ m ++ (k, v) ∷ []
  unfolding insert
  insert-append k v [] h = refl
  insert-append k v ((j, w) ∷ m) h = ground (arith, lt-asymm j k, insert-append k v m h.1)

  pub AllBelow-append :
      (k j : K) (v : V) (m : Map K V)
      → AllBelow k m
      → o.lt j k ≡ true
      → AllBelow k (m ++ (j, v) ∷ [])
  AllBelow-append k j v [] h lt = (lt, tt)
  AllBelow-append k j v ((i, w) ∷ m) h lt = (h.0, AllBelow-append k j v m h.1 lt)

  AllBelow-raise : (j k : K) (m : Map K V) → o.lt j k ≡ true → AllBelow j m → AllBelow k m
  AllBelow-raise j k [] lt h = tt
  AllBelow-raise j k ((i, v) ∷ m) lt h = (o.lt_trans i j k h.0 lt, AllBelow-raise j k m lt h.1)

  pub Above-IsSorted : (k : K) (m : Map K V) → Above k m → IsSorted m
  Above-IsSorted k [] h = tt
  Above-IsSorted k ((j, v) ∷ m) h = h.1

-- `m` goes on where `acc` ends.
abbrev pub Joined {ℓ κ ν} :
    {K : Type ℓ} {V : Type κ} {W : Type ν} ⦃o : Ord K⦄ → Map K V → Map K W → Type 0
Joined acc [] = Unit
Joined acc ((k, v) ∷ m) = AllBelow k acc

module _ {ℓ κ ν} {K : Type ℓ} {V : Type κ} {W : Type ν} ⦃o : Ord K⦄ where
  pub Joined-next :
      (k : K) (v : V) (acc : Map K V) (m : Map K W)
      → AllBelow k acc
      → Above k m
      → Joined (acc ++ (k, v) ∷ []) m
  Joined-next k v acc [] h a = tt
  Joined-next k v acc ((j, w) ∷ m) h a =
      AllBelow-append j k v acc (AllBelow-raise k j acc a.0 h) a.0
