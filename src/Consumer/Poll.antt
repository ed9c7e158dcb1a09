-- ===== src/Consumer/Poll.antt =====
-- Polling and committing: `poll`, `commit`, the stored offsets, `commitSync` and `close`.
pub mod Stored
pub mod Commits
use modern_cpp_kafka.Prelude.{
  ℕ, ℤ, pos, ◌+ℤ◌, Bool, true, false, not, ◌&&◌, Option, none, some, List, [], ◌∷◌, if◌then◌else◌,
  is_empty, text_ord, int_ord, pair_ord,
}
use modern_cpp_kafka.Outcome.{
  RespErr, no_error, no_offset, Outcome, ok, throw, undefined, out_of_fuel, kafka_error, throw_if,
  Exception,
}
use modern_cpp_kafka.Containers.Map.{insert}
use modern_cpp_kafka.Types.{Topic, Partition, Offset, TopicPartitionOffsets}
use modern_cpp_kafka.Consumer.{
  Consumer, Step, ◌andthen◌, record_call, CommitType, sync, async, rk_commit, rk_consume_batch,
  rk_consumer_close,
}
use modern_cpp_kafka.Consumer.Assignment.{Rebalance}
use modern_cpp_kafka.Consumer.Subscribe.{serve}

-- The fields of a ConsumerRecord that the consumer reads itself.
pub record ConsumerRecord : Type 0 where
  pub topic : Topic
  pub partition : Partition
  pub offset : Offset
  pub err : RespErr

-- Nothing to commit is no mistake where no offsets were given.
abbrev pub commit_error : TopicPartitionOffsets → RespErr → RespErr
commit_error [] no_offset = no_error
commit_error tpos resp = resp

unfoldable pub commit : RespErr → TopicPartitionOffsets → CommitType → Consumer → Step (Unit {0})
commit resp tpos type c = (record_call (rk_commit tpos type) c, throw_if (commit_error tpos resp))

-- ++o.second for each stored offset
abbrev pub increment_each : TopicPartitionOffsets → TopicPartitionOffsets
increment_each [] = []
increment_each ((tp, o) ∷ tpos) = (tp, o +ℤ pos 1) ∷ increment_each tpos

-- The offsets are incremented where they are stored, and cleared if the commit does not throw.
unfoldable pub commit_stored_offsets_if_necessary :
    RespErr → CommitType → Consumer → Step (Unit {0})
unfolding commit
commit_stored_offsets_if_necessary resp type c =
    if c.enable_auto_commit && not (is_empty c.offsets_to_store)
    then (commit resp (increment_each c.offsets_to_store) type
          (record c { offsets_to_store = increment_each c.offsets_to_store })
        andthen λ d _. (record d { offsets_to_store = [] }, ok tt))
    else (c, ok tt)

unfoldable pub store_each : List ConsumerRecord → TopicPartitionOffsets → TopicPartitionOffsets
store_each [] tpos = tpos
store_each (r ∷ rs) tpos = store_each rs (insert (r.topic, r.partition) r.offset tpos)

unfoldable pub store_offsets_if_necessary : List ConsumerRecord → Consumer → Consumer
unfolding store_each
store_offsets_if_necessary records c =
    if c.enable_auto_commit
    then record c { offsets_to_store = store_each records c.offsets_to_store }
    else c

-- What rd_kafka_consume_batch_queue gives: messages, or a negative count and the last error.
pub data Batch : Type 0 where
  received : List ConsumerRecord → Batch
  failed : RespErr → Batch

abbrev pub take_batch : Batch → Consumer → Step (List ConsumerRecord)
take_batch (failed e) c = (c, throw (kafka_error e))
take_batch (received records) c = (store_offsets_if_necessary records c, ok records)

unfoldable pub poll : RespErr → Batch → Consumer → Step (List ConsumerRecord)
unfolding commit_stored_offsets_if_necessary store_offsets_if_necessary
poll resp batch c = commit_stored_offsets_if_necessary resp async c andthen λ d _.
    take_batch batch (record_call (rk_consume_batch d.max_poll_records) d)

-- commitSync() of all, of one record, of given offsets.
unfoldable pub commit_sync : RespErr → Consumer → Step (Unit {0})
unfolding commit
commit_sync resp = commit resp [] sync

unfoldable pub commit_sync_record : RespErr → ConsumerRecord → Consumer → Step (Unit {0})
unfolding commit
commit_sync_record resp r = commit resp (insert (r.topic, r.partition) (r.offset +ℤ pos 1) []) sync

unfoldable pub commit_sync_offsets : RespErr → TopicPartitionOffsets → Consumer → Step (Unit {0})
unfolding commit
commit_sync_offsets resp tpos = commit resp tpos sync

-- A KafkaException of the last commit is only logged.
abbrev pub swallow : Step (Unit {0}) → Step (Unit {0})
swallow (c, throw (kafka_error e)) = (c, ok tt)
swallow (c, outcome) = (c, outcome)

-- `events` are the rebalance events that librdkafka serves while it closes the consumer.
unfoldable pub close : RespErr → List Rebalance → Consumer → Step (Unit {0})
unfolding commit_stored_offsets_if_necessary serve
close resp events c =
    swallow (commit_stored_offsets_if_necessary resp sync (record c { opened = false }))
    andthen λ d _. serve events (record_call rk_consumer_close d)
