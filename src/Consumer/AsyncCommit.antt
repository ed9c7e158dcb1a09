-- ===== src/Consumer/AsyncCommit.antt =====
-- `commitAsync` and the offset-commit callback of include/kafka/KafkaConsumer.h, with the memory that
-- keeps the user's callback until librdkafka reports the commit.
use modern_cpp_kafka.Prelude.{
  text_ord, int_ord, pair_ord, ◌≡◌, refl, not, length, ℕ, suc, ◌+◌, ◌≤◌, ltb, pos, ◌+ℤ◌, Bool, none,
  List, [], ◌∷◌, if◌then◌else◌, arith,
}
use modern_cpp_kafka.Outcome.{RespErr, is_error, Outcome, throw_if}
use modern_cpp_kafka.Containers.Map.{insert}
use modern_cpp_kafka.Types.{TopicPartitionOffsets}
use modern_cpp_kafka.RdKafka.{RkList, create_of_offsets, get_topic_partition_offsets}
use modern_cpp_kafka.Consumer.Poll.{ConsumerRecord}
use modern_cpp_kafka.Producer.{take_out}
use modern_cpp_kafka.Producer.Memory.{count, one_if, count-take_out}

-- Each copy of a callback on the heap is a number, the next one is `next`. `held` are those that
-- librdkafka has, `freed` those that were deleted; the newest first. `requested` are the lists that
-- librdkafka was given, a null list for none, and `called` what the user's callbacks were given.
pub record AsyncCommits : Type 0 where
  pub next : ℕ
  pub held : List ℕ
  pub freed : List ℕ
  pub requested : List RkList
  pub called : List (TopicPartitionOffsets × RespErr)

abbrev pub commit_list : TopicPartitionOffsets → RkList
commit_list [] = none
commit_list (x ∷ tpos) = create_of_offsets (x ∷ tpos)

-- `resp` is what rd_kafka_commit_queue returns, and `kept` whether librdkafka keeps the copy of the
-- callback that it is given, to call it later.
unfoldable pub commit_async :
    RespErr → Bool → TopicPartitionOffsets → AsyncCommits → AsyncCommits × Outcome (Unit {0})
commit_async resp kept tpos s = (
  record s {
    next = suc s.next;
    held = if kept then s.next ∷ s.held else s.held;
    requested = commit_list tpos ∷ s.requested;
  },
  throw_if resp,
)

unfoldable pub commit_async_record :
    RespErr → Bool → ConsumerRecord → AsyncCommits → AsyncCommits × Outcome (Unit {0})
unfolding commit_async
commit_async_record resp kept r s =
    commit_async resp kept (insert (r.topic, r.partition) (r.offset +ℤ pos 1) []) s

unfoldable pub commit_async_all : RespErr → Bool → AsyncCommits → AsyncCommits × Outcome (Unit {0})
unfolding commit_async
commit_async_all resp kept s = commit_async resp kept [] s

-- `has_cb` is false where the user's function is empty.
unfoldable pub offset_commit_callback : RespErr → RkList → ℕ → Bool → AsyncCommits → AsyncCommits
offset_commit_callback err rk_tpos n has_cb s = record s {
  held = take_out n s.held;
  freed = n ∷ s.freed;
  called = if has_cb then (get_topic_partition_offsets rk_tpos, err) ∷ s.called else s.called;
}

-- No copy is both held and deleted, or there twice; none is there that was not made.
abbrev pub AtMostOnce : AsyncCommits → Type 0
AtMostOnce s = (n : ℕ) → count n s.held + count n s.freed ≤ one_if (ltb n s.next)

-- Committing, taken by librdkafka or not, frees no copy of a callback twice.
commit_async-AtMostOnce :
    (resp : RespErr) (kept : Bool) (tpos : TopicPartitionOffsets) (s : AsyncCommits)
    → AtMostOnce s
    → AtMostOnce (commit_async resp kept tpos s).0
unfolding commit_async
commit_async-AtMostOnce resp kept tpos s h n = ground (arith, h n)

-- Nor does the report of a commit on a copy that librdkafka holds.
offset_commit_callback-AtMostOnce :
    (err : RespErr) (rk_tpos : RkList) (n : ℕ) (has_cb : Bool) (s : AsyncCommits)
    → 1 ≤ count n s.held
    → AtMostOnce s
    → AtMostOnce (offset_commit_callback err rk_tpos n has_cb s)
unfolding offset_commit_callback
offset_commit_callback-AtMostOnce err rk_tpos n has_cb s held h k =
    ground (arith, count-take_out k n s.held held, h k)

abbrev pub no_commits : AsyncCommits
no_commits = record { next = 0; held = []; freed = []; requested = []; called = [] }

-- Any commits, of any offsets, and their reports, with as many of the commits refused as the number.
-- librdkafka keeps the copy of a commit that it takes, of no other, and reports on one that it holds.
pub data Reaches : ℕ → AsyncCommits → Type 0 where
  start : Reaches 0 no_commits
  committing :
      {refused : ℕ} (resp : RespErr) (kept : Bool) (tpos : TopicPartitionOffsets) (s : AsyncCommits)
      → kept ≡ not (is_error resp)
      → Reaches refused s
      → Reaches (one_if (is_error resp) + refused) (commit_async resp kept tpos s).0
  reporting :
      {refused : ℕ} (err : RespErr) (rk_tpos : RkList) (n : ℕ) (has_cb : Bool) (s : AsyncCommits)
      → 1 ≤ count n s.held
      → Reaches refused s
      → Reaches refused (offset_commit_callback err rk_tpos n has_cb s)

length-take_out : (n : ℕ) (ms : List ℕ) → 1 ≤ count n ms → suc (length (take_out n ms)) ≡ length ms
unfolding take_out
length-take_out n [] h = absurd (omega (arith, h))
length-take_out n (m ∷ ms) h = ground (arith, h, length-take_out n ms)

-- Whatever is committed and reported, where librdkafka keeps the copy of the callback of each commit
-- that it takes and of no other, and reports on a copy that it holds: no copy is both held by librdkafka
-- and deleted, or there twice; and of all copies that were made, as many are neither held nor deleted
-- as commits were refused, which are lost.
pub commit_async-lost :
    {refused : ℕ} {s : AsyncCommits}
    → Reaches refused s
    → AtMostOnce s × (length s.held + length s.freed + refused ≡ s.next)
unfolding commit_async offset_commit_callback
commit_async-lost start = (λ n. ground arith, refl)
commit_async-lost (committing resp kept tpos s k r) =
    let (once, balanced) = commit_async-lost r in
    (commit_async-AtMostOnce resp kept tpos s once, ground (arith, balanced, k))
commit_async-lost (reporting err rk_tpos n has_cb s held r) =
    let (once, balanced) = commit_async-lost r in
    (
      offset_commit_callback-AtMostOnce err rk_tpos n has_cb s held once,
      ground (arith, balanced, length-take_out n s.held held),
    )
