-- ===== src/Consumer.antt =====
-- include/kafka/KafkaConsumer.h: the consumer's own state. librdkafka is the environment: what its
-- calls return is an argument of each operation, what the program asks of it is recorded in `calls`,
-- and the events that it serves while it is polled are given as rounds, one for each poll before the
-- time limit. Log lines are left out.
pub mod Assignment
pub mod Subscribe
pub mod Poll
pub mod Position
pub mod Lifetime
pub mod Configure
pub mod AsyncCommit
mod Tests
use modern_cpp_kafka.Prelude.{ℕ, Bool, true, false, Option, none, some, List, ◌∷◌, ◌≡◌, arith}
use modern_cpp_kafka.Outcome.{RespErr, Outcome, ok, throw, undefined, out_of_fuel}
use modern_cpp_kafka.Types.{
  Topic, Partition, Offset, Topics, TopicPartition, TopicPartitions, TopicPartitionOffsets,
}

pub data PartitionsRebalanceEvent : Type 0 where
  assign revoke incremental_assign incremental_unassign : PartitionsRebalanceEvent

pub data PendingEvent : Type 0 where
  partitions_assignment partitions_revocation : PendingEvent

pub data RebalanceEventType : Type 0 where
  partitions_assigned partitions_revoked : RebalanceEventType

pub data CommitType : Type 0 where
  sync async : CommitType

-- The calls that reach librdkafka or the user's callback.
pub data Call : Type 0 where
  rk_subscribe : Topics → Call
  rk_unsubscribe : Call
  rk_assign : Option TopicPartitions → Call
  rk_incremental_assign rk_incremental_unassign : TopicPartitions → Call
  rk_commit : TopicPartitionOffsets → CommitType → Call
  rk_consume_batch : ℕ → Call
  rk_consumer_close : Call
  rebalance_cb : RebalanceEventType → TopicPartitions → Call

pub record Consumer : Type 0 where
  pub opened : Bool
  pub max_poll_records : ℕ
  pub enable_auto_commit : Bool
  pub assignment : TopicPartitions
  pub user_assignment : TopicPartitions
  pub user_subscription : Topics
  pub pending_event : Option PendingEvent
  pub cooperative_enabled : Option Bool
  pub offsets_to_store : TopicPartitionOffsets
  pub has_rebalance_cb : Bool
  -- the newest first
  pub calls : List Call

-- An operation ends with the consumer's state also when it throws.
abbrev pub Step : Type 0 → Type 0
Step A = Consumer × Outcome A

-- Go on with `f` unless the step threw.
abbrev pub ◌andthen◌ : {A B : Type 0} → Step A → (Consumer → A → Step B) → Step B
◌andthen◌ (c, ok a) f = f c a
◌andthen◌ (c, throw e) f = (c, throw e)
◌andthen◌ (c, undefined) f = (c, undefined)
◌andthen◌ (c, out_of_fuel) f = (c, out_of_fuel)

infixl 5 ◌andthen◌
pub andthen-ok :
    {A B : Type 0} (m : Step A) (f : Consumer → A → Step B) {a : A}
    → m.1 ≡ ok a
    → (m andthen f) ≡ f m.0 a
andthen-ok (c, ok a) f e = ground (arith, e)
andthen-ok (c, throw x) f e = absurd (ground arith)
andthen-ok (c, undefined) f e = absurd (ground arith)
andthen-ok (c, out_of_fuel) f e = absurd (ground arith)

abbrev pub record_call : Call → Consumer → Consumer
record_call call c = record c { calls = call ∷ c.calls }

abbrev pub is_cooperative_enabled : Consumer → Bool
is_cooperative_enabled c = elim c.cooperative_enabled [ none ↦ false | some b ↦ b ]
