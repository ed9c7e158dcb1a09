-- ===== src/OffsetQueue/CommitQueue/Ack.antt =====
-- `ackOffset` against the specification.
use mathlib.Core.List.{Perm, mem-cons_self}
use mathlib.Core.List.Perm
use modern_cpp_kafka.Prelude.{
  ℕ, zero, suc, ◌≤◌, ℤ, pos, ◌+ℤ◌, ◌<ℤ◌, ◌≤ℤ◌, eqb_ℤ, ltb_ℤ, eq_of_parts, ◌≡◌, refl, sym, ap, true,
  false, List, [], ◌∷◌, All, arith, length, back, length-perm, is_empty, if◌then◌else◌, int_ord, Le,
}
use modern_cpp_kafka.Outcome.{Yields, yields, Yields-bind, ok, Outcome}
use modern_cpp_kafka.OffsetQueue.Heap.{front}
use modern_cpp_kafka.OffsetQueue.Heap.Order.{IsHeap}
use modern_cpp_kafka.OffsetQueue.Heap.Push.{push_correct}
use modern_cpp_kafka.OffsetQueue.Heap.Pop.{pop_front_correct, front-least}
use modern_cpp_kafka.OffsetQueue.CommitQueue.{
  CommitQueue, ack_loop, commit_front, ack_offset, deque_back,
}
use modern_cpp_kafka.OffsetQueue.CommitQueue.Spec.{
  Marked, View, mark, settle, spec_ack, offsets, acked_offsets, Beyond, Ascending, Unacked, Refines,
}
use modern_cpp_kafka.OffsetQueue.CommitQueue.Marks.{
  offsets-mark, Ascending-mark, acked_offsets-mark, settle-unacked, IsSettled-unacked,
  Beyond-Ascending, acked_offsets-Beyond, All-mem-lt, All-mem-le,
}

All-le : (x : ℤ) (xs : List ℤ) → All (λ y. Le x y) xs → All (λ y. x ≤ℤ y) xs
All-le x [] h = tt
All-le x (y ∷ ys) h = (ground arith, All-le x ys h.1)

All-weaken : (x : ℤ) (xs : List ℤ) → All (λ y. x <ℤ y) xs → All (λ y. x ≤ℤ y) xs
All-weaken x [] h = tt
All-weaken x (y ∷ ys) h = (omega (arith, h.0), All-weaken x ys h.1)

module _ (x : ℤ) (xs : List ℤ) (p : ℤ) (r : Marked) (heap : IsHeap (pos 0) (x ∷ xs))
    (above : Beyond p r) where
  -- An expected offset that is acked is the least acked one.
  front_is_expected : Perm (x ∷ xs) (p ∷ acked_offsets r) → x ≡ p
  front_is_expected perm = eq_of_parts x p (omega (arith, front_le, expected_le))
    where
      front_le : x ≤ℤ p
      front_le =
          All-mem-le x p (x ∷ xs) (omega arith, All-le x xs (front-least (pos 0) x xs heap))
            ((Perm.mem_iff perm).1 mem-cons_self)

      expected_le : p ≤ℤ x
      expected_le =
          All-mem-le p x (p ∷ acked_offsets r)
            (omega arith, All-weaken p (acked_offsets r) (acked_offsets-Beyond p r above))
            ((Perm.mem_iff perm).0 mem-cons_self)

  -- If the expected offset is not acked, all acked ones are beyond it.
  front_beyond_expected : Perm (x ∷ xs) (acked_offsets r) → p <ℤ x
  front_beyond_expected perm =
      All-mem-lt p x (acked_offsets r) (acked_offsets-Beyond p r above)
        ((Perm.mem_iff perm).0 mem-cons_self)

abbrev state : List ℤ → List ℤ → ℤ → ℤ → CommitQueue
state received acked n c = record {
  offsets_received = received;
  offsets_to_commit = acked;
  to_commit = n;
  committed = c;
}

-- What the loop yields: the settled view, with `_committed` as it was.
abbrev Settles : Marked → ℤ → ℤ → CommitQueue → Type 0
Settles m n c q = Refines q (settle m n) × (q.committed ≡ c)

settled_state :
    (r : Marked) (n c : ℤ)
    → Ascending r
    → acked_offsets r ≡ []
    → Settles r n c (state (offsets r) [] n c)
settled_state r n c asc e = rw (settle-unacked r n e) (
  record {
    received = refl;
    heap = λ i p h. absurd (omega arith);
    acked = rw e Perm.rfl;
    ready = refl;
    ascending = asc;
    settled = IsSettled-unacked r e;
  },
  refl,
)

-- After a pop: the loop ends if no acked offset is left, and goes on with `next` otherwise.
resume :
    (r : Marked) (b : List ℤ) (n c : ℤ) (next : Outcome CommitQueue)
    → Perm b (acked_offsets r)
    → Ascending r
    → ((y : ℤ) (ys : List ℤ) → b ≡ y ∷ ys → Yields (Settles r n c) next)
    → Yields (Settles r n c) (if is_empty b then ok (state (offsets r) b n c) else next)
resume r [] n c next perm asc go_on = yields (settled_state r n c asc (sym (Perm.nil-eq perm)))
resume r (y ∷ ys) n c next perm asc go_on = go_on y ys refl

-- What the committing branch leaves of `x ∷ xs`, with `p` the expected offset.
record Committed (xs : List ℤ) (p : ℤ) (r : Marked) (c : ℤ) (q : CommitQueue) : Type 0 where
  rest : List ℤ
  shape : q ≡ state (offsets r) rest (p +ℤ pos 1) c
  heap : IsHeap (pos 0) rest
  acked : Perm rest (acked_offsets r)
  size : length rest ≡ length xs

commit_front_correct :
    (x : ℤ) (xs : List ℤ) (p : ℤ) (r : Marked) (n c : ℤ)
    → IsHeap (pos 0) (x ∷ xs)
    → Perm (x ∷ xs) (x ∷ acked_offsets r)
    → Yields (Committed xs p r c) (commit_front p (state (p ∷ offsets r) (x ∷ xs) n c))
unfolding commit_front
commit_front_correct x xs p r n c heap perm =
    Yields-bind (pop_front_correct (pos 0) x xs heap) λ b s. yields (record {
      rest = b;
      shape = refl;
      heap = s.0;
      acked = Perm.cons_inv (Perm.trans s.1 perm);
      size = omega (arith, length-perm s.1);
    })

ack_loop_settles :
    (fuel : ℕ) (m : Marked) (x : ℤ) (xs : List ℤ) (n c : ℤ)
    → length (x ∷ xs) ≤ fuel
    → IsHeap (pos 0) (x ∷ xs)
    → Perm (x ∷ xs) (acked_offsets m)
    → Ascending m
    → Yields (Settles m n c) (ack_loop fuel (state (offsets m) (x ∷ xs) n c))
unfolding ack_loop front settle
ack_loop_settles zero m x xs n c f heap perm asc = absurd (omega arith)
ack_loop_settles (suc fuel) [] x xs n c f heap perm asc = absurd (omega (arith, length-perm perm))
ack_loop_settles (suc fuel) ((p, false) ∷ r) x xs n c f heap perm asc =
    let below : p <ℤ x = front_beyond_expected x xs p r heap asc perm in
    let differ : eqb_ℤ x p ≡ false = ground arith in
    let not_less : ltb_ℤ x p ≡ false = ground arith in
    rw (differ, not_less)
      (yields (
        record {
          received = refl;
          heap = heap;
          acked = perm;
          ready = refl;
          ascending = asc;
          settled = refl;
        },
        refl,
      ))
ack_loop_settles (suc fuel) ((p, true) ∷ r) x xs n c f heap perm asc =
    let e : x ≡ p = front_is_expected x xs p r heap asc perm in
    let equal : eqb_ℤ x p ≡ true = ground arith in
    let perm' : Perm (x ∷ xs) (x ∷ acked_offsets r) =
      Perm.trans perm (Perm.cons' (sym e) Perm.rfl) in
    rw equal (
      Yields-bind (commit_front_correct x xs p r n c heap perm') λ q t. rw (t.shape) (
        resume r t.rest (p +ℤ pos 1) c (ack_loop fuel (state (offsets r) t.rest (p +ℤ pos 1) c))
          t.acked (Beyond-Ascending p r asc)
          λ y ys shape. rw shape (
            ack_loop_settles fuel r y ys (p +ℤ pos 1) c (omega (arith, t.size, ap length shape))
              (rw shape at (t.heap)) (rw shape at (t.acked)) (Beyond-Ascending p r asc))))

from_pushed :
    (o : ℤ) (m : Marked) (b old : List ℤ) (n c : ℤ)
    → IsHeap (pos 0) b
    → Perm b (o ∷ old)
    → Perm (o ∷ old) (acked_offsets m)
    → Ascending m
    → Yields (Settles m n c) (ack_loop (length b) (state (offsets m) b n c))
from_pushed o m [] old n c heap pushed perm asc = absurd (omega (arith, length-perm pushed))
from_pushed o m (y ∷ ys) old n c heap pushed perm asc =
    ack_loop_settles (length (y ∷ ys)) m y ys n c (omega arith) heap (Perm.trans pushed perm) asc

deque_back-ok : (o : ℤ) (m : Marked) → Unacked o m → (b : ℤ) × (deque_back (offsets m) ≡ ok b)
deque_back-ok o [] u = absurd u
deque_back-ok o ((p, acked) ∷ r) u = (back p (offsets r), refl)

-- Acking an offset that was received and is not acked yet succeeds, and does what the
-- specification says; what was popped last stays.
pub ack_offset-Refines :
    (o : ℤ) (q : CommitQueue) (v : View)
    → Refines q v
    → Unacked o v.waiting
    → Yields (λ q'. Refines q' (spec_ack o v) × (q'.committed ≡ q.committed)) (ack_offset o q)
unfolding ack_offset spec_ack
ack_offset-Refines o q v h u =
    let nonempty = deque_back-ok o v.waiting u in
    rw (h.received, nonempty.1)
      (Yields-bind (push_correct (pos 0) o q.offsets_to_commit (h.heap)) λ b s.
        rw (h.ready, ← offsets-mark o v.waiting)
          (from_pushed o (mark o v.waiting) b q.offsets_to_commit v.ready q.committed s.0 s.1
            (Perm.trans (Perm.cons o (h.acked)) (acked_offsets-mark o v.waiting u))
            (Ascending-mark o v.waiting (h.ascending))))
