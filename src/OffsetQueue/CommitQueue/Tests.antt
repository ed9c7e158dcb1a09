-- ===== src/OffsetQueue/CommitQueue/Tests.antt =====
-- Runs of the commit queue on the inputs of tests/unit/TestUnorderedOffsetCommitQueue.cc, and the
-- theorems at such inputs.
use modern_cpp_kafka.Prelude.{
  pos, negsuc, ◌≤ℤ◌, ◌<ℤ◌, ◌≡◌, refl, inl, inr, true, false, [], ◌∷◌, some, arith, ◌≢◌, ℕ, ap,
  pos_part, ◌+ℤ◌,
}
use modern_cpp_kafka.Outcome.{ok, undefined, ◌>>=◌}
use modern_cpp_kafka.OffsetQueue.Heap.{push, pop_front, front}
use modern_cpp_kafka.OffsetQueue.CommitQueue.{
  CommitQueue, new, invalid_offset, wait_offset, ack_offset, pop_offset_to_commit,
}
use modern_cpp_kafka.OffsetQueue.CommitQueue.Spec.{Marked, settle, mark, Unacked, Refines}
use modern_cpp_kafka.OffsetQueue.CommitQueue.History.{
  Reaches, starts, waits, acks, Reaches-Refines, ack_offset_total,
}
use modern_cpp_kafka.OffsetQueue.CommitQueue.Safety.{
  pop_offset_to_commit_safe, pop_offset_to_commit_increases,
}
use modern_cpp_kafka.OffsetQueue.CommitQueue.Faults.{ack_beyond-undefined}

-- Offsets 3, 4 and 6 are received; 4 is acked before 3.
abbrev three_received : CommitQueue
three_received = wait_offset (pos 6) (wait_offset (pos 4) (wait_offset (pos 3) new))

abbrev after_4 : CommitQueue
after_4 = record {
  offsets_received = pos 3 ∷ pos 4 ∷ pos 6 ∷ [];
  offsets_to_commit = pos 4 ∷ [];
  to_commit = negsuc 0;
  committed = negsuc 0;
}

abbrev after_3 : CommitQueue
after_3 = record {
  offsets_received = pos 6 ∷ [];
  offsets_to_commit = [];
  to_commit = pos 5;
  committed = negsuc 0;
}

ack_4 : ack_offset (pos 4) three_received ≡ ok after_4
unfolding ack_offset wait_offset new push pop_front front
ack_4 = refl

ack_3 : ack_offset (pos 3) after_4 ≡ ok after_3
unfolding ack_offset push pop_front front ◌+ℤ◌
ack_3 = refl

received_Reaches : Reaches ((pos 3, false) ∷ (pos 4, false) ∷ (pos 6, false) ∷ []) three_received
received_Reaches =
    waits (pos 6)
      (waits (pos 4) (waits (pos 3) starts (omega arith) tt) (omega arith) (omega arith))
      (omega arith) (omega arith)

abbrev marks_4 : Marked
marks_4 = (pos 3, false) ∷ (pos 4, true) ∷ (pos 6, false) ∷ []

abbrev marks_3 : Marked
marks_3 = (pos 3, true) ∷ (pos 4, true) ∷ (pos 6, false) ∷ []

pos-ne : (a b : ℕ) → a ≢ b → pos a ≢ pos b
pos-ne a b h e = h (ap pos_part e)

after_4-Reaches : Reaches marks_4 after_4
unfolding mark
after_4-Reaches =
    acks (pos 4) received_Reaches (inr (pos-ne 3 4 (omega arith), inl (refl, refl))) ack_4

after_3-Reaches : Reaches marks_3 after_3
unfolding mark
after_3-Reaches = acks (pos 3) after_4-Reaches (inl (refl, refl)) ack_3

Unacked-6 : Unacked (pos 6) marks_3
Unacked-6 = inr (pos-ne 3 6 (omega arith), inr (pos-ne 4 6 (omega arith), inl (refl, refl)))

pops_5 : (pop_offset_to_commit after_3).1 ≡ some (pos 5)
unfolding pop_offset_to_commit
pops_5 = refl

Reaches-Refines_example : Refines after_3 (settle marks_3 invalid_offset)
Reaches-Refines_example = Reaches-Refines marks_3 after_3 after_3-Reaches

ack_offset_total_example : (q' : CommitQueue) × (ack_offset (pos 6) after_3 ≡ ok q')
ack_offset_total_example = ack_offset_total marks_3 after_3 (pos 6) after_3-Reaches Unacked-6

pop_offset_to_commit_safe_example : pos 5 ≤ℤ pos 6
pop_offset_to_commit_safe_example =
    pop_offset_to_commit_safe marks_3 after_3 (pos 5) (pos 6) after_3-Reaches pops_5 Unacked-6

pop_offset_to_commit_increases_example : negsuc 0 <ℤ pos 5
pop_offset_to_commit_increases_example =
    pop_offset_to_commit_increases marks_3 after_3 (pos 5) after_3-Reaches pops_5

ack_beyond-undefined_example :
    (ack_offset (pos 9) (record {
      offsets_received = pos 2 ∷ [];
      offsets_to_commit = [];
      to_commit = negsuc 0;
      committed = negsuc 0;
    })
      >>= ack_offset (pos 2))
    ≡ undefined
ack_beyond-undefined_example =
    ack_beyond-undefined (pos 2) (pos 9) (negsuc 0) (negsuc 0) (omega arith)
