-- ===== src/OffsetQueue/Heap/Order.antt =====
-- The heap order: no element is below its parent.
use mathlib.Core.List.{Perm}
use mathlib.Core.List.Perm
use modern_cpp_kafka.Prelude.{
  ℕ, zero, suc, ◌<◌, ◌≡◌, List, Ord, Le, le_refl, le_trans, arith, length, get_or,
}
use modern_cpp_kafka.Outcome.{Outcome, Yields, Yields-weaken}
use modern_cpp_kafka.OffsetQueue.Heap.{parent}
use modern_cpp_kafka.OffsetQueue.Heap.Swap.{swapped, swapped-perm}

module _ {ℓ} {A : Type ℓ} ⦃o : Ord A⦄ where
  -- `d` is what `get_or` reads out of range, where the order says nothing.
  abbrev pub IsHeap : A → List A → Type 0
  IsHeap d a = (c : ℕ) → 0 < c → c < length a → Le (get_or a (parent c) d) (get_or a c d)

  -- The elements next to `i`, its parent and its children, are in order with each other.
  abbrev pub IsBridged : A → List A → ℕ → Type 0
  IsBridged d a i =
      (c : ℕ)
      → 0 < c
      → c < length a
      → parent c ≡ i
      → 0 < i
      → Le (get_or a (parent i) d) (get_or a c d)

  -- `b` is a heap of the elements of `a`.
  abbrev pub Arranges : A → List A → List A → Type ℓ
  Arranges d a b = IsHeap d b × Perm b a

  pub Arranges-swapped :
      (d : A) (a : List A) (i j : ℕ)
      → i < length a
      → j < length a
      → {m : Outcome (List A)} → Yields (Arranges d (swapped a i j d)) m
      → Yields (Arranges d a) m
  Arranges-swapped d a i j hi hj =
      Yields-weaken λ b s. (s.0, Perm.trans s.1 (swapped-perm a i j d hi hj))

  least_up_to :
      (k : ℕ) (d : A) (a : List A) (i : ℕ)
      → IsHeap d a
      → i < k
      → i < length a
      → Le (get_or a 0 d) (get_or a i d)
  least_up_to zero d a i heap f h = absurd (omega arith)
  least_up_to (suc k) d a zero heap f h = le_refl (get_or a 0 d)
  least_up_to (suc k) d a (suc i) heap f h =
      le_trans (get_or a 0 d) (get_or a (parent (suc i)) d) (get_or a (suc i) d)
        (least_up_to k d a (parent (suc i)) heap (omega arith) (omega arith))
        (heap (suc i) (omega arith) h)

  -- The root of a heap is a least element.
  pub root_least :
      (d : A) (a : List A) (i : ℕ) → IsHeap d a → i < length a → Le (get_or a 0 d) (get_or a i d)
  root_least d a i heap h = least_up_to (suc i) d a i heap (omega arith) h
