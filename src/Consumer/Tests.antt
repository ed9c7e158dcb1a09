-- ===== src/Consumer/Tests.antt =====
-- The theorems on the consumer at runs like those of tests/integration/TestKafkaConsumer.cc.
use modern_cpp_kafka.Prelude.{
  length, ◌+◌, ◌≡◌, refl, ◌≢◌, pos, true, false, ◌&&◌, none, some, [], ◌∷◌, text_ord, text_lt,
  int_ord, pair_ord, arith, ◌+ℤ◌,
}
use modern_cpp_kafka.Outcome.{
  is_error, no_error, fail, timed_out, state, assign_partitions, ok, throw, kafka_error,
}
use modern_cpp_kafka.Containers.Map.{set_eq, find, contains}
use modern_cpp_kafka.Types.{TopicPartition, TopicPartitions, TopicPartitionOffsets, Topics}
use modern_cpp_kafka.Consumer.{
  Consumer, is_cooperative_enabled, incremental_assign, rebalance_cb, partitions_assigned,
  rk_assign, rk_commit, rk_consumer_close, sync,
}
use modern_cpp_kafka.Consumer.Assignment.{Rebalance, change_assignment, on_rebalance}
use modern_cpp_kafka.Consumer.Assignment.Sets.{change_assignment-contains}
use modern_cpp_kafka.Consumer.Assignment.Events.{on_rebalance_order}
use modern_cpp_kafka.Consumer.Subscribe.{subscribe}
use modern_cpp_kafka.Consumer.Subscribe.Results.{subscribe_correct, subscribe-refused_then_skipped}
use modern_cpp_kafka.Consumer.Subscribe.Exclusive.{Exclusive}
use modern_cpp_kafka.Consumer.Lifetime.{
  perform_all, perform_all-Exclusive, subscribes, assigns, closes,
}
use modern_cpp_kafka.Consumer.AsyncCommit.{
  AsyncCommits, commit_async, offset_commit_callback, no_commits, Reaches, start, committing,
  reporting, AtMostOnce, commit_async-lost,
}
use modern_cpp_kafka.Consumer.Poll.{ConsumerRecord, received, failed, poll, close}
use modern_cpp_kafka.Consumer.Poll.Commits.{
  poll_commits_previous, poll_asks, close_commits_previous, poll_again-skips,
}
use modern_cpp_kafka.Consumer.Position.{seek}
use modern_cpp_kafka.Consumer.Position.Seek.{seek-settled}
use modern_cpp_kafka.Consumer.Configure.{
  new_consumer, reform_consumer_properties_lem, reform_consumer_properties,
}
use modern_cpp_kafka.Client.Configure.{or_default}
use modern_cpp_kafka.Properties.{PropertiesMap, str, get_property, get}

abbrev consumer : Consumer
consumer = new_consumer 500 true

abbrev with_callback : Consumer
with_callback = record consumer { has_rebalance_cb = true }

abbrev tp0 : TopicPartition
tp0 = ("t", pos 0)

abbrev tp1 : TopicPartition
tp1 = ("t", pos 1)

abbrev both : TopicPartitions
both = (tp0, tt) ∷ (tp1, tt) ∷ []

abbrev assigning : Rebalance
assigning = record {
  err = assign_partitions;
  partitions = both;
  protocol = some "EAGER";
  resp = no_error;
}

abbrev read_at_7 : ConsumerRecord
read_at_7 = record { topic = "t"; partition = pos 0; offset = pos 7; err = no_error }

abbrev read_at_8 : ConsumerRecord
read_at_8 = record { topic = "t"; partition = pos 0; offset = pos 8; err = no_error }

change_assignment-contains_example :
    contains tp0 (change_assignment no_error incremental_assign both consumer).0.assignment ≡ true
unfolding contains find text_lt
change_assignment-contains_example =
    (change_assignment-contains no_error incremental_assign both consumer tp0).0

on_rebalance_order_example :
    (on_rebalance assigning with_callback).0.calls
    ≡ rebalance_cb partitions_assigned both ∷ rk_assign (some both) ∷ []
on_rebalance_order_example = (on_rebalance_order assigning with_callback refl refl).0 refl

perform_all-Exclusive_example : Exclusive (
    perform_all
      (subscribes no_error ((assigning ∷ []) ∷ []) (("t", tt) ∷ []) true
        ∷ assigns no_error both
        ∷ closes no_error []
        ∷ [])
      consumer)
perform_all-Exclusive_example =
    perform_all-Exclusive
      (subscribes no_error ((assigning ∷ []) ∷ []) (("t", tt) ∷ []) true
        ∷ assigns no_error both
        ∷ closes no_error []
        ∷ [])
      consumer refl

polled_two :
    (poll no_error (received (read_at_7 ∷ read_at_8 ∷ [])) consumer).1
    ≡ ok (read_at_7 ∷ read_at_8 ∷ [])
unfolding poll
polled_two = refl

poll_commits_previous_example :
    (committed : TopicPartitionOffsets) × (find tp0 committed ≡ some (pos 8 +ℤ pos 1))
    × ((poll timed_out
          (failed fail)
          (poll no_error (received (read_at_7 ∷ read_at_8 ∷ [])) consumer).0).0.calls
        ≡ poll_asks timed_out committed 500
            (poll no_error (received (read_at_7 ∷ read_at_8 ∷ [])) consumer).0.calls)
    × (is_error timed_out ≡ true
        → (poll timed_out
            (failed fail)
            (poll no_error (received (read_at_7 ∷ read_at_8 ∷ [])) consumer).0).1
          ≡ throw (kafka_error timed_out))
poll_commits_previous_example =
    poll_commits_previous no_error timed_out (read_at_7 ∷ []) [] read_at_8 (failed fail) consumer
      refl polled_two tt

close_commits_previous_example :
    (committed : TopicPartitionOffsets) × (find tp0 committed ≡ some (pos 8 +ℤ pos 1))
    × ((close timed_out []
          (poll no_error (received (read_at_7 ∷ read_at_8 ∷ [])) consumer).0).0.calls
        ≡ rk_consumer_close
          ∷ rk_commit committed sync
          ∷ (poll no_error (received (read_at_7 ∷ read_at_8 ∷ [])) consumer).0.calls)
    × ((close timed_out [] (poll no_error (received (read_at_7 ∷ read_at_8 ∷ [])) consumer).0).1
        ≡ ok tt)
close_commits_previous_example =
    close_commits_previous no_error timed_out (read_at_7 ∷ []) [] read_at_8 consumer refl polled_two
      tt

abbrev stored_7 : Consumer
stored_7 = record consumer { offsets_to_store = (tp0, pos 7) ∷ [] }

stored : find tp0 stored_7.offsets_to_store ≡ some (pos 7)
unfolding find text_lt
stored = refl

timed_out-ne : timed_out ≢ no_error
timed_out-ne h = ground (arith, h)

poll_again-skips_example : (poll timed_out (failed fail) stored_7).1 ≡ throw (kafka_error timed_out)
poll_again-skips_example =
    (poll_again-skips timed_out (failed fail) (received []) stored_7 tp0 (pos 7) refl stored
      timed_out-ne).2

seek-settled_example : seek none state (timed_out ∷ fail ∷ no_error ∷ []) ≡ throw (kafka_error fail)
seek-settled_example = seek-settled state (timed_out ∷ []) (no_error ∷ []) fail refl (refl, tt) refl

abbrev minimal : PropertiesMap
minimal = ("bootstrap.servers", str "b:9092") ∷ ("enable.auto.commit", str "true") ∷ []

servers : get_property "bootstrap.servers" minimal ≡ some "b:9092"
unfolding get_property get contains find text_lt
servers = refl

reform_consumer_properties_lem_example :
    (q : PropertiesMap) × (reform_consumer_properties "id" "group" minimal ≡ ok q)
    × (get_property "enable.auto.commit" q ≡ some "false")
    × (get_property "auto.commit.interval.ms" q ≡ some "0")
    × (get_property "enable.auto.offset.store" q ≡ some "true")
    × (get_property "max.poll.records" q ≡ none)
    × (get_property "group.id" q ≡ some (or_default (get_property "group.id" minimal) "group"))
    × (get_property "bootstrap.servers" q ≡ some "b:9092")
reform_consumer_properties_lem_example =
    reform_consumer_properties_lem "id" "group" "b:9092" minimal servers

abbrev topic_t : Topics
topic_t = ("t", tt) ∷ []

subscribe_correct_example :
    ((subscribe no_error ((assigning ∷ []) ∷ []) topic_t true consumer).1 ≡ ok tt)
    × ((subscribe no_error ((assigning ∷ []) ∷ []) topic_t true consumer).0.pending_event ≡ none)
    × ((subscribe no_error ((assigning ∷ []) ∷ []) topic_t true consumer).0.user_subscription
        ≡ topic_t)
subscribe_correct_example =
    subscribe_correct ((assigning ∷ []) ∷ []) topic_t true consumer refl refl ((refl, tt), tt)

abbrev cooperative : Consumer
cooperative = record consumer { cooperative_enabled = some true }

new_topics :
    (is_cooperative_enabled cooperative && set_eq topic_t cooperative.user_subscription) ≡ false
unfolding set_eq
new_topics = refl

subscribe-refused_then_skipped_example :
    (subscribe fail [] topic_t true cooperative).1 ≡ throw (kafka_error fail)
subscribe-refused_then_skipped_example =
    (subscribe-refused_then_skipped fail no_error [] [] topic_t true cooperative refl new_topics
      refl refl).0

-- One commit is taken and reported, the other is refused.
abbrev one_taken : AsyncCommits
one_taken = (commit_async no_error true ((tp0, pos 8) ∷ []) no_commits).0

abbrev one_reported : AsyncCommits
one_reported = offset_commit_callback no_error none 0 true one_taken

abbrev one_refused : AsyncCommits
one_refused = (commit_async fail false [] one_reported).0

one_refused-Reaches : Reaches 1 one_refused
unfolding commit_async
one_refused-Reaches = committing fail false [] one_reported refl (
    reporting no_error none 0 true one_taken (omega arith)
      (committing no_error true ((tp0, pos 8) ∷ []) no_commits refl start))

commit_async-lost_example :
    AtMostOnce one_refused
    × (length one_refused.held + length one_refused.freed + 1 ≡ one_refused.next)
commit_async-lost_example = commit_async-lost one_refused-Reaches
