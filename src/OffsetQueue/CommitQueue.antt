-- ===== src/OffsetQueue/CommitQueue.antt =====
-- The class `UnorderedOffsetCommitQueue` of include/kafka/addons/UnorderedOffsetCommitQueue.h.
-- An offset is an unbounded integer: 2^63 records are never reached. `_partitionInfo` and the log
-- lines are left out. `front` and `back` of an empty deque are undefined.
pub mod Spec
pub mod Marks
pub mod Ack
pub mod Wait
pub mod History
pub mod Safety
pub mod Faults
mod Tests
pub mod Progress
use modern_cpp_kafka.Prelude.{
  ℕ, zero, suc, ℤ, pos, negsuc, ◌+ℤ◌, ltb_ℤ, leb_ℤ, eqb_ℤ, Bool, true, false, ◌||◌, ◌&&◌, not,
  Option, none, some, List, [], ◌∷◌, ◌++◌, if◌then◌else◌, is_empty, length, back, int_ord,
}
use modern_cpp_kafka.Outcome.{Outcome, ok, undefined, out_of_fuel, ◌>>=◌}
use modern_cpp_kafka.OffsetQueue.Heap.{front, push, pop_front}

abbrev invalid_offset : ℤ
invalid_offset = negsuc 0

pub record CommitQueue : Type 0 where
  pub offsets_received : List ℤ
  pub offsets_to_commit : List ℤ
  pub to_commit : ℤ
  pub committed : ℤ

unfoldable pub new : CommitQueue
new = record {
  offsets_received = [];
  offsets_to_commit = [];
  to_commit = invalid_offset;
  committed = invalid_offset;
}

pub size : CommitQueue → ℕ
size q = length q.offsets_received

-- _offsetsReceived.back() and .front()
abbrev pub deque_back : List ℤ → Outcome ℤ
deque_back [] = undefined
deque_back (x ∷ xs) = ok (back x xs)

abbrev pub deque_front : List ℤ → Outcome ℤ
deque_front [] = undefined
deque_front (x ∷ xs) = ok x

abbrev pub deque_pop_front : List ℤ → Outcome (List ℤ)
deque_pop_front [] = undefined
deque_pop_front (x ∷ xs) = ok xs

-- offset <= _offsetsReceived.back(), for a deque that is not empty
abbrev pub not_beyond : ℤ → List ℤ → Bool
not_beyond offset [] = false
not_beyond offset (x ∷ xs) = leb_ℤ offset (back x xs)

pub wait_offset : ℤ → CommitQueue → CommitQueue
wait_offset offset q =
    if ltb_ℤ offset (pos 0) || not_beyond offset q.offsets_received
    then q
    else record q { offsets_received = q.offsets_received ++ offset ∷ [] }

-- The two branches of the loop that pop: the least acked offset is the expected one, or is below it.
pub commit_front : ℤ → CommitQueue → Outcome CommitQueue
commit_front expected_offset q = do
  acked ← pop_front q.offsets_to_commit
  received ← deque_pop_front q.offsets_received
  ok (record q {
    offsets_received = received;
    offsets_to_commit = acked;
    to_commit = expected_offset +ℤ pos 1;
  })

pub discard_front : CommitQueue → Outcome CommitQueue
discard_front q = do
  acked ← pop_front q.offsets_to_commit
  ok (record q { offsets_to_commit = acked })

-- The do-while loop of `ackOffset`.
pub ack_loop : ℕ → CommitQueue → Outcome CommitQueue
unfolding commit_front discard_front
ack_loop zero q = out_of_fuel
ack_loop (suc fuel) q =
    let again = λ (q' : CommitQueue).
      let next = ack_loop fuel q' in if is_empty q'.offsets_to_commit then ok q' else next in
    do
      min_offset_to_commit ← front q.offsets_to_commit
      expected_offset ← deque_front q.offsets_received
      if eqb_ℤ min_offset_to_commit expected_offset
          then commit_front expected_offset q >>= again
          else if ltb_ℤ min_offset_to_commit expected_offset
          then discard_front q >>= again
          else ok q

-- An offset beyond all received ones is only logged.
pub ack_offset : ℤ → CommitQueue → Outcome CommitQueue
unfolding ack_loop
ack_offset offset q = do
  _ ← deque_back q.offsets_received
  acked ← push offset q.offsets_to_commit
  ack_loop (length acked) (record q { offsets_to_commit = acked })

pub pop_offset_to_commit : CommitQueue → CommitQueue × Option ℤ
pop_offset_to_commit q =
    if eqb_ℤ q.committed q.to_commit
    then (q, none)
    else (record q { committed = q.to_commit }, some q.to_commit)

pub last_popped_offset : CommitQueue → Option ℤ
last_popped_offset q = if eqb_ℤ q.committed invalid_offset then none else some q.committed
