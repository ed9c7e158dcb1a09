-- ===== src/OffsetQueue/CommitQueue/Faults.antt =====
-- Calls that leave the client's side of the contract: an offset that is acked without having been
-- received. `ackOffset` only logs it.
use modern_cpp_kafka.Prelude.{ℤ, ◌<ℤ◌, eqb_ℤ, ltb_ℤ, ◌≡◌, true, false, [], ◌∷◌, arith}
use modern_cpp_kafka.Outcome.{undefined, ◌>>=◌}
use modern_cpp_kafka.OffsetQueue.Heap.{front, push, pop_front}
use modern_cpp_kafka.OffsetQueue.CommitQueue.{ack_offset}

-- With one offset waiting and none acked, an ack beyond it and then the ack of it end in an
-- access to an empty deque, which is undefined.
pub ack_beyond-undefined :
    (o p n c : ℤ)
    → o <ℤ p
    → (ack_offset p (record {
      offsets_received = o ∷ [];
      offsets_to_commit = [];
      to_commit = n;
      committed = c;
    })
        >>= ack_offset o)
      ≡ undefined
unfolding ack_offset push front pop_front
ack_beyond-undefined o p n c lt =
    let apart : eqb_ℤ p o ≡ false = ground arith in
    let above : ltb_ℤ p o ≡ false = ground arith in
    let below : ltb_ℤ o p ≡ true = ground arith in
    let equal : eqb_ℤ o o ≡ true = ground arith in rw (apart, above) (rw below (rw equal))
