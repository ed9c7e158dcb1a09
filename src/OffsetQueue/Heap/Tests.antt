-- ===== src/OffsetQueue/Heap/Tests.antt =====
-- The heap at a concrete list.
use modern_cpp_kafka.Prelude.{refl, suc, zero, ℤ, pos, int_ord, List, [], ◌∷◌, arith}
use mathlib.Core.List.{Perm}
use modern_cpp_kafka.Outcome.{Yields}
use modern_cpp_kafka.OffsetQueue.Heap.{push, pop_front}
use modern_cpp_kafka.OffsetQueue.Heap.Order.{IsHeap}
use modern_cpp_kafka.OffsetQueue.Heap.Push.{push_correct}
use modern_cpp_kafka.OffsetQueue.Heap.Pop.{pop_front_correct}

abbrev two : List ℤ
two = pos 2 ∷ pos 5 ∷ []

two-IsHeap : IsHeap (pos 0) two
two-IsHeap zero h k = absurd (omega (arith, h))
two-IsHeap (suc zero) h k = refl
two-IsHeap (suc (suc c)) h k = absurd (omega (arith, k))

push_correct_example : Yields (λ b. IsHeap (pos 0) b × Perm b (pos 1 ∷ two)) (push (pos 1) two)
push_correct_example = push_correct (pos 0) (pos 1) two two-IsHeap

pop_front_correct_example : Yields (λ b. IsHeap (pos 0) b × Perm (pos 2 ∷ b) two) (pop_front two)
pop_front_correct_example = pop_front_correct (pos 0) (pos 2) (pos 5 ∷ []) two-IsHeap
