-- ===== src/OffsetQueue/CommitQueue/History.antt =====
-- Histories of calls by a client that keeps to the class's instructions: each offset is waited for
-- once, in ascending order, and acked at most once, in any order.
use mathlib.Core.List.Perm
use modern_cpp_kafka.Prelude.{
  ℤ, pos, ◌<ℤ◌, ◌≤ℤ◌, eqb_ℤ, ◌≡◌, inl, inr, refl, subst, false, Bool-cases, List, [], ◌∷◌, ◌++◌,
  All, arith,
}
use modern_cpp_kafka.Outcome.{ok, Yields, Yields-value, Yields-weaken}
use modern_cpp_kafka.OffsetQueue.CommitQueue.{
  CommitQueue, new, invalid_offset, wait_offset, ack_offset, pop_offset_to_commit,
}
use modern_cpp_kafka.OffsetQueue.CommitQueue.Spec.{
  Marked, mark, settle, offsets, Ascending, Unacked, Refines,
}
use modern_cpp_kafka.OffsetQueue.CommitQueue.Marks.{Ascending-mark, offsets-mark}
use modern_cpp_kafka.OffsetQueue.CommitQueue.Ack.{ack_offset-Refines}
use modern_cpp_kafka.OffsetQueue.CommitQueue.Wait.{
  wait_offset-Refines, Ascending-append, offsets-append,
}
use modern_cpp_kafka.OffsetQueue.CommitQueue.Progress.{
  settle-append, settle-mark, Unacked-settle, All-settle, ready-mono,
}

-- All offsets received so far, each with its mark, beside the queue that the calls lead to.
pub data Reaches : Marked → CommitQueue → Type 0 where
  starts : Reaches [] new
  waits :
      {m : Marked} {q : CommitQueue} (o : ℤ)
      → Reaches m q
      → pos 0 ≤ℤ o
      → All (λ p. p <ℤ o) (offsets m)
      → Reaches (m ++ (o, false) ∷ []) (wait_offset o q)
  acks :
      {m : Marked} {q q' : CommitQueue} (o : ℤ)
      → Reaches m q
      → Unacked o m
      → ack_offset o q ≡ ok q'
      → Reaches (mark o m) q'
  pops : {m : Marked} {q : CommitQueue} → Reaches m q → Reaches m (pop_offset_to_commit q).0

pub record Holds (m : Marked) (q : CommitQueue) : Type 0 where
  pub refines : Refines q (settle m invalid_offset)
  pub ascending : Ascending m
  pub nonneg : All (λ p. pos 0 ≤ℤ p) (offsets m)
  pub popped : q.committed ≤ℤ q.to_commit

All-append :
    (o : ℤ) (xs : List ℤ)
    → All (λ p. pos 0 ≤ℤ p) xs
    → pos 0 ≤ℤ o
    → All (λ p. pos 0 ≤ℤ p) (xs ++ o ∷ [])
All-append o [] h k = (k, tt)
All-append o (x ∷ xs) h k = (h.0, All-append o xs h.1 k)

new-Holds : Holds [] new
unfolding new settle
new-Holds = record {
  refines = record {
    received = refl;
    heap = λ c p h. absurd (omega arith);
    acked = Perm.rfl;
    ready = refl;
    ascending = tt;
    settled = tt;
  };
  ascending = tt;
  nonneg = tt;
  popped = omega arith;
}

wait_offset-kept :
    (o : ℤ) (q : CommitQueue)
    → ((wait_offset o q).committed ≡ q.committed) × ((wait_offset o q).to_commit ≡ q.to_commit)
unfolding wait_offset
wait_offset-kept o q = (ground arith, ground arith)

wait_offset-Holds :
    (o : ℤ) (m : Marked) (q : CommitQueue)
    → Holds m q
    → pos 0 ≤ℤ o
    → All (λ p. p <ℤ o) (offsets m)
    → Holds (m ++ (o, false) ∷ []) (wait_offset o q)
wait_offset-Holds o m q h nonneg beyond = record {
  refines = rw (settle-append m invalid_offset o) (
      wait_offset-Refines o q (settle m invalid_offset) (h.refines) nonneg
        (All-settle m invalid_offset o beyond));
  ascending = Ascending-append o m beyond (h.ascending);
  nonneg = rw (offsets-append m o) (All-append o (offsets m) (h.nonneg) nonneg);
  popped = let k = wait_offset-kept o q in rw (k.0, k.1) (h.popped);
}

minus_one_below : (xs : List ℤ) → All (λ p. pos 0 ≤ℤ p) xs → All (λ p. invalid_offset ≤ℤ p) xs
minus_one_below [] h = tt
minus_one_below (x ∷ xs) h = (omega (arith, h.0), minus_one_below xs h.1)

ack_offset-Holds :
    (o : ℤ) (m : Marked) (q : CommitQueue)
    → Holds m q
    → Unacked o m
    → Yields (Holds (mark o m)) (ack_offset o q)
ack_offset-Holds o m q h u =
    Yields-weaken
      (λ q' r. record {
        refines = rw (settle-mark m invalid_offset o u) (r.0);
        ascending = Ascending-mark o m (h.ascending);
        nonneg = rw (offsets-mark o m) (h.nonneg);
        popped =
            let grows =
              ready-mono m invalid_offset o (h.ascending) (minus_one_below (offsets m) (h.nonneg))
                u in
            rw (r.1, r.0.ready, ← settle-mark m invalid_offset o u)
              (let held = rw (h.refines.ready) at (h.popped) in omega (arith, grows, held));
      })
      (ack_offset-Refines o q (settle m invalid_offset) (h.refines)
        (Unacked-settle m invalid_offset o u))

pop_offset_to_commit-Holds :
    (m : Marked) (q : CommitQueue) → Holds m q → Holds m (pop_offset_to_commit q).0
unfolding pop_offset_to_commit
pop_offset_to_commit-Holds m q h = elim (Bool-cases (eqb_ℤ q.committed q.to_commit)) [
  | inl e ↦ rw e h
  | inr e ↦ rw e (record {
    refines = record {
      received = h.refines.received;
      heap = h.refines.heap;
      acked = h.refines.acked;
      ready = h.refines.ready;
      ascending = h.refines.ascending;
      settled = h.refines.settled;
    };
    ascending = h.ascending;
    nonneg = h.nonneg;
    popped = omega arith;
  })
]

pub reached : {m : Marked} {q : CommitQueue} → Reaches m q → Holds m q
reached starts = new-Holds
reached (waits {m = m} {q = q} o r nonneg beyond) =
    wait_offset-Holds o m q (reached r) nonneg beyond
reached (acks {m = m} {q = q} {q' = q'} o r u e) =
    let y = Yields-value (ack_offset-Holds o m q (reached r) u) in
    subst (Holds (mark o m)) (ground (arith, y.1)) (y.2)
reached (pops {m = m} {q = q} r) = pop_offset_to_commit-Holds m q (reached r)

-- In a history in which each wait is for an offset that is not negative and beyond those before,
-- and each ack is of a received offset for the first time, the queue is what the specification
-- makes of the marked offsets: it keeps the received offsets from the first that is not acked, a
-- heap of the acked ones among them, and one past the last offset up to which all are acked.
pub Reaches-Refines :
    (m : Marked) (q : CommitQueue) → Reaches m q → Refines q (settle m invalid_offset)
Reaches-Refines m q r = (reached r).refines

-- In a history in which each wait is for an offset that is not negative and beyond those before,
-- and each ack is of a received offset for the first time, acking one more received offset for
-- the first time returns: there is no exception, no access to an empty deque, and the loop ends.
pub ack_offset_total :
    (m : Marked) (q : CommitQueue) (o : ℤ)
    → Reaches m q
    → Unacked o m
    → (q' : CommitQueue) × (ack_offset o q ≡ ok q')
ack_offset_total m q o r u =
    let y = Yields-value (ack_offset-Holds o m q (reached r) u) in (y.0, y.1)
