-- ===== src/Consumer/Poll/Commits.antt =====
-- Automatic commits: what `poll` and `close` commit for the records that were polled before.
use modern_cpp_kafka.Prelude.{
  ℕ, if◌then◌else◌, ◌≡◌, ◌≢◌, pos, ◌+ℤ◌, ◌∙◌, ap, true, false, some, List, [], ◌∷◌, ◌++◌, is_empty,
  arith, text_ord, int_ord, pair_ord,
}
use modern_cpp_kafka.Outcome.{RespErr, no_error, is_error, ok, throw, kafka_error}
use modern_cpp_kafka.Containers.Map.{find}
use modern_cpp_kafka.Types.{TopicPartition, TopicPartitionOffsets, Offset}
use modern_cpp_kafka.Consumer.{
  Consumer, Call, rk_commit, rk_consume_batch, rk_consumer_close, sync, async,
}
use modern_cpp_kafka.Consumer.Poll.{
  ConsumerRecord, Batch, received, poll, close, increment_each, store_each,
}
use modern_cpp_kafka.Consumer.Poll.Stored.{
  partition_of, Elsewhere, store_each-last, find-increment_each, incremented, find-nonempty,
}

-- A poll that returns leaves the offsets of its own records to be committed, and no others.
poll-stores :
    (resp : RespErr) (records : List ConsumerRecord) (c : Consumer)
    → c.enable_auto_commit ≡ true
    → (poll resp (received records) c).1 ≡ ok records
    → ((poll resp (received records) c).0.offsets_to_store ≡ store_each records [])
      × ((poll resp (received records) c).0.enable_auto_commit ≡ true)
      × ((poll resp (received records) c).0.max_poll_records ≡ c.max_poll_records)
unfolding poll
poll-stores resp records c auto done = (ground arith, ground arith, ground arith)

-- What a poll asks librdkafka for, where it has `committed` to commit and the commit answers so.
abbrev pub poll_asks : RespErr → TopicPartitionOffsets → ℕ → List Call → List Call
poll_asks answer committed max_records calls =
    if is_error answer
    then rk_commit committed async ∷ calls
    else rk_consume_batch max_records ∷ rk_commit committed async ∷ calls

poll-calls :
    (answer : RespErr) (batch : Batch) (c : Consumer)
    → c.enable_auto_commit ≡ true
    → is_empty c.offsets_to_store ≡ false
    → ((poll answer batch c).0.calls
        ≡ poll_asks answer (increment_each c.offsets_to_store) c.max_poll_records c.calls)
      × (is_error answer ≡ true → (poll answer batch c).1 ≡ throw (kafka_error answer))
unfolding poll
poll-calls answer batch c auto some_stored = (ground arith, λ h. ground (arith, h))

close-calls :
    (resp : RespErr) (c : Consumer)
    → c.enable_auto_commit ≡ true
    → is_empty c.offsets_to_store ≡ false
    → ((close resp [] c).0.calls
        ≡ rk_consumer_close ∷ rk_commit (increment_each c.offsets_to_store) sync ∷ c.calls)
      × ((close resp [] c).1 ≡ ok tt)
unfolding close
close-calls resp c auto some_stored = (ground arith, ground arith)

-- With automatic commits, where a poll returned records, the next poll commits asynchronously
-- offsets that hold for the partition of any of the records that is the last of its partition the
-- offset after that record's. Where the commit is refused the poll throws its error and fetches
-- nothing, and else it fetches records after the commit.
pub poll_commits_previous :
    (resp answer : RespErr) (before after : List ConsumerRecord) (r : ConsumerRecord)
    (batch : Batch) (c : Consumer)
    → c.enable_auto_commit ≡ true
    → (poll resp (received (before ++ r ∷ after)) c).1 ≡ ok (before ++ r ∷ after)
    → Elsewhere (partition_of r) after
    → (committed : TopicPartitionOffsets) × (find (partition_of r) committed
        ≡ some (r.offset +ℤ pos 1))
      × ((poll answer batch (poll resp (received (before ++ r ∷ after)) c).0).0.calls
          ≡ poll_asks answer committed c.max_poll_records
              (poll resp (received (before ++ r ∷ after)) c).0.calls)
      × (is_error answer ≡ true
          → (poll answer batch (poll resp (received (before ++ r ∷ after)) c).0).1
            ≡ throw (kafka_error answer))
poll_commits_previous resp answer before after r batch c auto done last =
    let d = (poll resp (received (before ++ r ∷ after)) c).0 in
    let kept = poll-stores resp (before ++ r ∷ after) c auto done in
    let found : find (partition_of r) d.offsets_to_store ≡ some r.offset =
      ap (find (partition_of r)) kept.0 ∙ store_each-last before after r [] last in
    let asked =
      poll-calls answer batch d kept.1
        (find-nonempty (partition_of r) r.offset d.offsets_to_store found) in
    (
      increment_each d.offsets_to_store,
      find-increment_each (partition_of r) d.offsets_to_store ∙ ap incremented found,
      asked.0 ∙ ap (λ n. poll_asks answer (increment_each d.offsets_to_store) n d.calls) kept.2,
      asked.1,
    )

-- With automatic commits, where a poll returned records, `close` with no event to serve commits
-- synchronously, before the consumer is closed, offsets that hold for the partition of any of the
-- records that is the last of its partition the offset after that record's, and returns whatever
-- the commit answers.
pub close_commits_previous :
    (resp answer : RespErr) (before after : List ConsumerRecord) (r : ConsumerRecord) (c : Consumer)
    → c.enable_auto_commit ≡ true
    → (poll resp (received (before ++ r ∷ after)) c).1 ≡ ok (before ++ r ∷ after)
    → Elsewhere (partition_of r) after
    → (committed : TopicPartitionOffsets) × (find (partition_of r) committed
        ≡ some (r.offset +ℤ pos 1))
      × ((close answer [] (poll resp (received (before ++ r ∷ after)) c).0).0.calls
          ≡ rk_consumer_close
            ∷ rk_commit committed sync
            ∷ (poll resp (received (before ++ r ∷ after)) c).0.calls)
      × ((close answer [] (poll resp (received (before ++ r ∷ after)) c).0).1 ≡ ok tt)
close_commits_previous resp answer before after r c auto done last =
    let d = (poll resp (received (before ++ r ∷ after)) c).0 in
    let kept = poll-stores resp (before ++ r ∷ after) c auto done in
    let found : find (partition_of r) d.offsets_to_store ≡ some r.offset =
      ap (find (partition_of r)) kept.0 ∙ store_each-last before after r [] last in
    let nonempty = find-nonempty (partition_of r) r.offset d.offsets_to_store found in
    (
      increment_each d.offsets_to_store,
      find-increment_each (partition_of r) d.offsets_to_store ∙ ap incremented found,
      (close-calls answer d kept.1 nonempty).0,
      (close-calls answer d kept.1 nonempty).1,
    )

-- Without automatic commits `poll` commits nothing and stores nothing: it only fetches.
pub poll-manual :
    (resp : RespErr) (batch : Batch) (c : Consumer)
    → c.enable_auto_commit ≡ false
    → ((poll resp batch c).0.calls ≡ rk_consume_batch c.max_poll_records ∷ c.calls)
      × ((poll resp batch c).0.offsets_to_store ≡ c.offsets_to_store)
unfolding poll
poll-manual resp batch c manual = (ground arith, ground arith)

-- With automatic commits and the offset o stored for a partition, a poll whose commit fails
-- throws that error, and the next poll, where its commit succeeds, commits offsets that hold o +
-- 2 for the partition.
pub poll_again-skips :
    (e : RespErr) (failing next : Batch) (c : Consumer) (tp : TopicPartition) (o : Offset)
    → c.enable_auto_commit ≡ true
    → find tp c.offsets_to_store ≡ some o
    → e ≢ no_error
    → (committed : TopicPartitionOffsets) × (find tp committed ≡ some (o +ℤ pos 1 +ℤ pos 1))
      × ((poll e failing c).1 ≡ throw (kafka_error e))
      × ((poll no_error next (poll e failing c).0).0.calls
          ≡ rk_consume_batch c.max_poll_records
            ∷ rk_commit committed async
            ∷ rk_commit (increment_each c.offsets_to_store) async
            ∷ c.calls)
unfolding poll
poll_again-skips e failing next c tp o auto stored failed_commit =
    let nonempty = find-nonempty tp o c.offsets_to_store stored in
    (
      increment_each (increment_each c.offsets_to_store),
      find-increment_each tp (increment_each c.offsets_to_store)
          ∙ ap incremented (find-increment_each tp c.offsets_to_store ∙ ap incremented stored),
      ground arith,
      ground arith,
    )
