-- ===== src/OffsetQueue/Heap/Pop.antt =====
-- `pop_front` and the heap order.
use mathlib.Core.Logic.{◌≢◌}
use mathlib.Core.List.{Perm}
use mathlib.Core.List.Perm
use modern_cpp_kafka.Prelude.{
  ℕ, zero, suc, ◌+◌, ◌-◌, ◌*◌, ◌<◌, ◌≤◌, ◌≡◌, refl, ◌⊎◌, Bool-cases, All, inl, inr, true, false,
  List, [], ◌∷◌, Ord, Le, le_trans, le_refl, lt-asymm, arith, leb, length, get_or, back, pop_back,
  length-pop_back, get_or-pop_back,
}
use modern_cpp_kafka.Outcome.{Yields, yields, Yields-if, Yields-bind, Yields-weaken}
use modern_cpp_kafka.OffsetQueue.Heap.{parent, min_child, pop_loop, pop_front}
use modern_cpp_kafka.OffsetQueue.Heap.Swap.{
  swapped, at-ok, swap-ok, length-swapped, get_or-swapped, back-perm,
}
use modern_cpp_kafka.OffsetQueue.Heap.Order.{
  IsHeap, IsBridged, Arranges, Arranges-swapped, root_least,
}

module _ {ℓ} {A : Type ℓ} ⦃o : Ord A⦄ (d : A) where
  -- Only the edges below `i` may be out of order.
  record Sinking (a : List A) (i : ℕ) : Type 0 where
    edges :
        (c : ℕ) → 0 < c → c < length a → parent c ≢ i → Le (get_or a (parent c) d) (get_or a c d)
    bridged : IsBridged d a i

  -- `m` is a child of `i` with no smaller sibling.
  record IsMinChild (a : List A) (i m : ℕ) : Type 0 where
    inside : m < length a
    child : parent m ≡ i
    positive : 0 < m
    least : (c : ℕ) → 0 < c → c < length a → parent c ≡ i → Le (get_or a m d) (get_or a c d)

  module _ (a : List A) (i : ℕ) (h : (i + 1) * 2 - 1 < length a) where
    child_cases : (c : ℕ) → 0 < c → parent c ≡ i → (c ≡ (i + 1) * 2 - 1) ⊎ (c ≡ (i + 1) * 2)
    child_cases c pos e = omega arith

    left_only : length a ≤ (i + 1) * 2 → IsMinChild a i ((i + 1) * 2 - 1)
    left_only none_right = record {
      inside = h;
      child = omega arith;
      positive = omega arith;
      least = λ c p q e. ground (arith, child_cases c p e, le_refl (get_or a c d));
    }

    left_least :
        o.lt (get_or a ((i + 1) * 2 - 1) d) (get_or a ((i + 1) * 2) d) ≡ true
        → IsMinChild a i ((i + 1) * 2 - 1)
    left_least smaller = record {
      inside = h;
      child = omega arith;
      positive = omega arith;
      least = λ c p q e. ground (
        arith,
        child_cases c p e,
        le_refl (get_or a c d),
        lt-asymm (get_or a ((i + 1) * 2 - 1) d) (get_or a ((i + 1) * 2) d),
      );
    }

    right_least :
        (i + 1) * 2 < length a
        → o.lt (get_or a ((i + 1) * 2 - 1) d) (get_or a ((i + 1) * 2) d) ≡ false
        → IsMinChild a i ((i + 1) * 2)
    right_least inside not_smaller = record {
      inside = inside;
      child = omega arith;
      positive = omega arith;
      least = λ c p q e. ground (arith, child_cases c p e, le_refl (get_or a c d));
    }

    min_child-IsMinChild : Yields (IsMinChild a i) (min_child a i)
    unfolding min_child
    min_child-IsMinChild =
        Yields-if (leb (length a) ((i + 1) * 2)) (λ e. yields (left_only (ground arith)))
          (λ e.
            let inside : (i + 1) * 2 < length a = ground arith in
            rw (at-ok a ((i + 1) * 2 - 1) d h, at-ok a ((i + 1) * 2) d inside)
              (elim (Bool-cases (o.lt (get_or a ((i + 1) * 2 - 1) d) (get_or a ((i + 1) * 2) d))) [
                | inl e ↦ rw e (yields (left_least e))
                | inr e ↦ rw e (yields (right_least inside e))
              ]))

  module _ (a : List A) (i m : ℕ) (hi : i < length a) (v : Sinking a i) (s : IsMinChild a i m)
      (below : o.lt (get_or a m d) (get_or a i d) ≡ true) where
    sunk_edges :
        (c : ℕ)
        → 0 < c
        → c < length a
        → parent c ≢ m
        → Le (get_or (swapped a i m d) (parent c) d) (get_or (swapped a i m d) c d)
    sunk_edges c pos h ne = ground (
      arith,
      s.child,
      s.positive,
      get_or-swapped a i m d hi s.inside c,
      get_or-swapped a i m d hi s.inside (parent c),
      v.edges c,
      v.bridged m,
      s.least c,
      lt-asymm (get_or a m d) (get_or a i d),
    )

    sunk-IsBridged : IsBridged d (swapped a i m d) m
    sunk-IsBridged c pos h e deep = ground (
      arith,
      s.child,
      length-swapped a i m d hi s.inside,
      get_or-swapped a i m d hi s.inside c,
      get_or-swapped a i m d hi s.inside i,
      v.edges c,
    )

    sunk-Sinking : Sinking (swapped a i m d) m
    sunk-Sinking = record {
      edges = λ c pos h ne. sunk_edges c pos (rw (length-swapped a i m d hi s.inside) at h) ne;
      bridged = sunk-IsBridged;
    }

  settled_edges :
      (a : List A) (i m : ℕ)
      → Sinking a i
      → IsMinChild a i m
      → o.lt (get_or a m d) (get_or a i d) ≡ false
      → IsHeap d a
  settled_edges a i m v s settled c p h =
      ground (arith, v.edges c, s.least c, le_trans (get_or a i d) (get_or a m d) (get_or a c d))

  pop_loop_restores :
      (fuel : ℕ) (a : List A) (i : ℕ)
      → length a ≤ fuel + i
      → i < length a
      → Sinking a i
      → Yields (Arranges d a) (pop_loop fuel a i)
  unfolding pop_loop
  pop_loop_restores zero a i f hi v = absurd (omega arith)
  pop_loop_restores (suc fuel) a i f hi v =
      Yields-if (leb (length a) ((i + 1) * 2 - 1))
        (λ leaf. yields (λ c p h. v.edges c p h (ground arith), Perm.rfl))
        (λ inner. Yields-bind (min_child-IsMinChild a i (ground arith)) λ m s.
          rw (at-ok a m d s.inside, at-ok a i d hi, swap-ok a i m d hi s.inside)
            (Yields-if (o.lt (get_or a m d) (get_or a i d))
              (λ below. Arranges-swapped d a i m hi s.inside (
                pop_loop_restores fuel (swapped a i m d) m
                  (omega (arith, s.child, s.positive, length-swapped a i m d hi s.inside))
                  (rw (length-swapped a i m d hi s.inside) s.inside)
                  (sunk-Sinking a i m hi v s below)))
              (λ settled. yields (settled_edges a i m v s settled, Perm.rfl))))

  beside : (y x : A) (xs : List A) (c : ℕ) → 0 < c → get_or (y ∷ xs) c d ≡ get_or (x ∷ xs) c d
  beside y x xs zero h = absurd (omega arith)
  beside y x xs (suc c) h = refl

  Sinking-start : (x : A) (xs : List A) → IsHeap d (x ∷ xs) → Sinking (pop_back (back x xs ∷ xs)) 0
  Sinking-start x xs heap = record {
    edges = λ c p h ne. ground (
      arith,
      length-pop_back (back x xs) xs,
      heap c,
      get_or-pop_back (back x xs) xs c d,
      get_or-pop_back (back x xs) xs (parent c) d,
      beside (back x xs) x xs c,
      beside (back x xs) x xs (parent c),
    );
    bridged = λ c p h e deep. absurd (omega arith);
  }

  popped_perm : (x : A) (xs : List A) → Perm (x ∷ pop_back (back x xs ∷ xs)) (x ∷ xs)
  popped_perm x [] = Perm.refl (x ∷ [])
  popped_perm x (y ∷ ys) = Perm.cons x (back-perm y ys)

  All-of_index {κ} :
      (P : A → Type κ) (xs : List A) → ((i : ℕ) → i < length xs → P (get_or xs i d)) → All P xs
  All-of_index P [] h = tt
  All-of_index P (x ∷ xs) h =
      (h 0 (omega arith), All-of_index P xs (λ i p. h (suc i) (omega arith)))

  -- The first element of a heap is below all others.
  pub front-least : (x : A) (xs : List A) → IsHeap d (x ∷ xs) → All (λ y. Le x y) xs
  front-least x xs heap =
      All-of_index (λ y. Le x y) xs (λ i h. root_least d (x ∷ xs) (suc i) heap (omega arith))

  -- On a heap that is not empty `pop_front` returns, and leaves a heap of the elements other than
  -- the first.
  pub pop_front_correct :
      (x : A) (xs : List A)
      → IsHeap d (x ∷ xs)
      → Yields (λ b. IsHeap d b × Perm (x ∷ b) (x ∷ xs)) (pop_front (x ∷ xs))
  unfolding pop_front
  pop_front_correct x [] heap = yields ((λ c p h. absurd (omega arith)), Perm.rfl)
  pop_front_correct x (y ∷ ys) heap =
      Yields-weaken (λ b s. (s.0, Perm.trans (Perm.cons x s.1) (popped_perm x (y ∷ ys))))
        (pop_loop_restores (length (pop_back (back x (y ∷ ys) ∷ y ∷ ys)))
          (pop_back (back x (y ∷ ys) ∷ y ∷ ys)) 0 (omega arith)
          (omega (arith, length-pop_back (back x (y ∷ ys)) (y ∷ ys)))
          (Sinking-start x (y ∷ ys) heap))
