-- ===== src/OffsetQueue/CommitQueue/Safety.antt =====
-- What the consumer may rely on when it commits the popped offset.
use modern_cpp_kafka.Prelude.{
  ℤ, pos, ◌+ℤ◌, +ℤ_parts, ◌<ℤ◌, ◌≤ℤ◌, eq_of_parts, ◌≡◌, ◌∙◌, ap, inl, inr, refl, Bool, List, [],
  ◌∷◌, All, arith, back, some,
}
use modern_cpp_kafka.OffsetQueue.CommitQueue.{
  CommitQueue, size, invalid_offset, pop_offset_to_commit, last_popped_offset,
}
use modern_cpp_kafka.OffsetQueue.CommitQueue.Spec.{Marked, settle, offsets, Unacked}
use modern_cpp_kafka.OffsetQueue.CommitQueue.Progress.{ready-le-unacked, AllAcked, settle-AllAcked}
use modern_cpp_kafka.OffsetQueue.CommitQueue.History.{Reaches, Holds, reached}

popped_is_ready :
    (m : Marked) (q : CommitQueue) (c : ℤ)
    → Holds m q
    → (pop_offset_to_commit q).1 ≡ some c
    → (c ≡ (settle m invalid_offset).ready) × (q.committed <ℤ c)
unfolding pop_offset_to_commit
popped_is_ready m q c h e =
    let ready = h.refines.ready in
    let popped = h.popped in ground (arith, eq_of_parts q.committed q.to_commit)

Unacked-nonneg : (o : ℤ) (m : Marked) → All (λ p. pos 0 ≤ℤ p) (offsets m) → Unacked o m → pos 0 ≤ℤ o
Unacked-nonneg o [] h u = absurd u
Unacked-nonneg o ((p, acked) ∷ r) h (inl (e, f)) = let k = h.0 in ground (arith, k)
Unacked-nonneg o ((p, acked) ∷ r) h (inr (ne, u)) = Unacked-nonneg o r h.1 u

-- In a history in which each wait is for an offset that is not negative and beyond those before,
-- and each ack is of a received offset for the first time, a popped offset is never beyond a
-- received offset that is not acked: a consumer that commits it and restarts there misses no
-- record.
pub pop_offset_to_commit_safe :
    (m : Marked) (q : CommitQueue) (c o : ℤ)
    → Reaches m q
    → (pop_offset_to_commit q).1 ≡ some c
    → Unacked o m
    → c ≤ℤ o
pop_offset_to_commit_safe m q c o r e u =
    let h = reached r in
    rw ((popped_is_ready m q c h e).0) (
      ready-le-unacked m invalid_offset o (h.ascending)
        (omega (arith, Unacked-nonneg o m (h.nonneg) u)) u)

-- In a history in which each wait is for an offset that is not negative and beyond those before,
-- and each ack is of a received offset for the first time, a popped offset is beyond the one
-- popped before.
pub pop_offset_to_commit_increases :
    (m : Marked) (q : CommitQueue) (c : ℤ)
    → Reaches m q
    → (pop_offset_to_commit q).1 ≡ some c
    → q.committed <ℤ c
pop_offset_to_commit_increases m q c r e = (popped_is_ready m q c (reached r) e).1

popped_last :
    (q : CommitQueue) (c : ℤ)
    → q.to_commit ≡ c
    → pos 0 ≤ℤ c
    → last_popped_offset (pop_offset_to_commit q).0 ≡ some c
unfolding last_popped_offset pop_offset_to_commit
popped_last q c e h = ground (arith, eq_of_parts q.committed q.to_commit)

back-nonneg : (x : ℤ) (xs : List ℤ) → All (λ p. pos 0 ≤ℤ p) (x ∷ xs) → pos 0 ≤ℤ back x xs
back-nonneg x [] h = h.0
back-nonneg x (y ∷ ys) h = back-nonneg y ys h.1

-- In a history in which each wait is for an offset that is not negative and beyond those before,
-- and each ack is of a received offset for the first time, once all received offsets are acked,
-- and there is one, none is waiting, and after a pop the offset last popped is one past the last
-- received.
pub last_popped_offset-AllAcked :
    (p : ℤ) (acked : Bool) (r : Marked) (q : CommitQueue)
    → Reaches ((p, acked) ∷ r) q
    → AllAcked ((p, acked) ∷ r)
    → (size q ≡ 0)
      × (last_popped_offset (pop_offset_to_commit q).0 ≡ some (back p (offsets r) +ℤ pos 1))
unfolding size
last_popped_offset-AllAcked p acked r q reach all =
    let h = reached reach in
    let all_settled = settle-AllAcked p acked r invalid_offset all in
    (
      rw (h.refines.received, all_settled) refl,
      popped_last q (back p (offsets r) +ℤ pos 1) (h.refines.ready ∙ ap (λ v. v.ready) all_settled)
          (omega
            (arith, +ℤ_parts (back p (offsets r)) (pos 1), back-nonneg p (offsets r) (h.nonneg))),
    )
