-- ===== src/OffsetQueue/Heap/Swap.antt =====
-- The array accesses of the heap, and swaps.
use mathlib.Core.List.{Perm}
use mathlib.Core.List.Perm
use modern_cpp_kafka.Prelude.{
  ℕ, zero, suc, ◌<◌, ◌≡◌, List, [], ◌∷◌, arith, ◌==◌, if◌then◌else◌, length, set, get_or,
  get_elem?-get_or, get_or-set, length-set, back, pop_back,
}
use modern_cpp_kafka.Outcome.{ok}
use modern_cpp_kafka.OffsetQueue.Heap.{at, swap}

module _ {ℓ} {A : Type ℓ} where
  -- The vector after `std::swap`, where both indices are in range.
  abbrev pub swapped : List A → ℕ → ℕ → A → List A
  swapped a i j d = set (set a i (get_or a j d)) j (get_or a i d)

  -- Overwriting an element exchanges it for the new one.
  set-perm : (a : List A) (i : ℕ) (v d : A) → i < length a → Perm (get_or a i d ∷ set a i v) (v ∷ a)
  set-perm [] i v d h = absurd (omega arith)
  set-perm (x ∷ a) zero v d h = Perm.swap v x a
  set-perm (x ∷ a) (suc i) v d h =
      Perm.trans (Perm.swap x (get_or a i d) (set a i v))
        (Perm.trans (Perm.cons x (set-perm a i v d (omega arith))) (Perm.swap v x a))

  pub back-perm : (x : A) (xs : List A) → Perm (back x xs ∷ pop_back (x ∷ xs)) (x ∷ xs)
  back-perm x [] = Perm.refl (x ∷ [])
  back-perm x (y ∷ ys) =
      Perm.trans (Perm.swap x (back y ys) (pop_back (y ∷ ys))) (Perm.cons x (back-perm y ys))

  module _ (a : List A) (i : ℕ) (d : A) (hi : i < length a) where
    pub at-ok : at a i ≡ ok (get_or a i d)
    unfolding at
    at-ok = rw (get_elem?-get_or a i d hi)

  module _ (a : List A) (i j : ℕ) (d : A) (hi : i < length a) (hj : j < length a) where
    pub swap-ok : swap a i j ≡ ok (swapped a i j d)
    unfolding swap
    swap-ok = rw (at-ok a i d hi, at-ok a j d hj)

    pub length-swapped : length (swapped a i j d) ≡ length a
    length-swapped = simp length-set

    pub get_or-swapped :
        (c : ℕ)
        → get_or (swapped a i j d) c d
          ≡ (if j == c then get_or a i d else if i == c then get_or a j d else get_or a c d)
    get_or-swapped c = rw (
      get_or-set (set a i (get_or a j d)) j c (get_or a i d) d (rw length-set hj),
      get_or-set a i c (get_or a j d) d hi,
    )

    pub swapped-perm : Perm (swapped a i j d) a
    swapped-perm =
        let once = set a i (get_or a j d) in
        let same_j : get_or once j d ≡ get_or a j d =
          ground (arith, get_or-set a i j (get_or a j d) d) in
        Perm.cons_inv (
          Perm.trans (rw same_j at (set-perm once j (get_or a i d) d (rw length-set hj)))
            (set-perm a i (get_or a j d) d hi))
