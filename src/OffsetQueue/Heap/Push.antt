-- ===== src/OffsetQueue/Heap/Push.antt =====
-- `push` and the heap order.
use mathlib.Core.Logic.{◌≢◌}
use mathlib.Core.List.{Perm, perm_middle, append-nil}
use mathlib.Core.List.Perm
use modern_cpp_kafka.Prelude.{
  ℕ, zero, suc, ◌-◌, ◌<◌, ◌≡◌, true, List, [], ◌∷◌, ◌++◌, Ord, Le, le_trans, lt-asymm, arith, ltb,
  length, get_or, length-append, get_or-append,
}
use modern_cpp_kafka.Outcome.{Yields, yields, Yields-if, Yields-weaken}
use modern_cpp_kafka.OffsetQueue.Heap.{parent, push_loop, push}
use modern_cpp_kafka.OffsetQueue.Heap.Swap.{swapped, at-ok, swap-ok, length-swapped, get_or-swapped}
use modern_cpp_kafka.OffsetQueue.Heap.Order.{IsHeap, IsBridged, Arranges, Arranges-swapped}

module _ {ℓ} {A : Type ℓ} ⦃o : Ord A⦄ (d : A) where
  -- Only the edge above `i` may be out of order.
  record Rising (a : List A) (i : ℕ) : Type 0 where
    inside : i < length a
    edges : (c : ℕ) → 0 < c → c < length a → c ≢ i → Le (get_or a (parent c) d) (get_or a c d)
    bridged : IsBridged d a i

  module _ (a : List A) (i : ℕ) (v : Rising a i) (above_root : 0 < i)
      (below : o.lt (get_or a i d) (get_or a (parent i) d) ≡ true) where
    parent_inside : parent i < length a
    parent_inside = let h = v.inside in omega arith

    swapped_edges :
        (c : ℕ)
        → 0 < c
        → c < length a
        → c ≢ parent i
        → Le
            (get_or (swapped a i (parent i) d) (parent c) d)
            (get_or (swapped a i (parent i) d) c d)
    swapped_edges c pos h ne = ground (
      arith,
      get_or-swapped a i (parent i) d v.inside parent_inside c,
      get_or-swapped a i (parent i) d v.inside parent_inside (parent c),
      v.edges c,
      v.bridged c,
      lt-asymm (get_or a i d) (get_or a (parent i) d),
      le_trans (get_or a i d) (get_or a (parent i) d) (get_or a c d),
    )

    swapped-IsBridged : IsBridged d (swapped a i (parent i) d) (parent i)
    swapped-IsBridged c pos h e deep = ground (
      arith,
      length-swapped a i (parent i) d v.inside parent_inside,
      get_or-swapped a i (parent i) d v.inside parent_inside c,
      get_or-swapped a i (parent i) d v.inside parent_inside (parent (parent i)),
      v.edges c,
      v.edges (parent i),
      le_trans (get_or a (parent (parent i)) d) (get_or a (parent i) d) (get_or a c d),
    )

    swapped-Rising : Rising (swapped a i (parent i) d) (parent i)
    swapped-Rising = record {
      inside = rw (length-swapped a i (parent i) d v.inside parent_inside) parent_inside;
      edges = λ c pos h ne.
          swapped_edges c pos (rw (length-swapped a i (parent i) d v.inside parent_inside) at h) ne;
      bridged = swapped-IsBridged;
    }

  push_loop_restores :
      (fuel : ℕ) (a : List A) (i : ℕ)
      → i < fuel
      → Rising a i
      → Yields (Arranges d a) (push_loop fuel a i)
  unfolding push_loop
  push_loop_restores zero a i f v = absurd (omega arith)
  push_loop_restores (suc fuel) a i f v =
      let up : parent i < length a = omega (arith, v.inside) in
      rw (at-ok a i d v.inside, at-ok a (parent i) d up, swap-ok a i (parent i) d v.inside up)
        (Yields-if (ltb 0 i)
          (λ pos.
            Yields-if (o.lt (get_or a i d) (get_or a (parent i) d))
              (λ below. Arranges-swapped d a i (parent i) v.inside up (
                push_loop_restores fuel (swapped a i (parent i) d) (parent i) (ground arith)
                  (swapped-Rising a i v (ground arith) below)))
              (λ settled. yields (λ c p h. ground (arith, v.edges c), Perm.rfl)))
          (λ root. yields (λ c p h. v.edges c p h (ground arith), Perm.rfl)))

  appended-Rising :
      (t : A) (a : List A) → IsHeap d a → Rising (a ++ t ∷ []) (length (a ++ t ∷ []) - 1)
  appended-Rising t a heap =
      let size = length-append a (t ∷ []) in
      record {
        inside = omega (arith, size);
        edges = λ c p h ne. ground (
          arith,
          size,
          heap c,
          get_or-append a (t ∷ []) c d,
          get_or-append a (t ∷ []) (parent c) d,
        );
        bridged = λ c p h e deep. absurd (omega (arith, size));
      }

  -- On a heap `push` returns, and leaves a heap of the same elements and the one pushed.
  pub push_correct :
      (t : A) (a : List A) → IsHeap d a → Yields (λ b. IsHeap d b × Perm b (t ∷ a)) (push t a)
  unfolding push
  push_correct t a heap =
      Yields-weaken (λ b s. (s.0, Perm.trans s.1 (rw append-nil at (perm_middle {a = t} a []))))
        (push_loop_restores (length (a ++ t ∷ [])) (a ++ t ∷ []) (length (a ++ t ∷ []) - 1)
          (omega (arith, length-append a (t ∷ []))) (appended-Rising t a heap))
