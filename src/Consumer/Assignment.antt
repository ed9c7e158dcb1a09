-- ===== src/Consumer/Assignment.antt =====
-- `changeAssignment`, `assign`, `assignment` and the rebalance callback of the consumer.
pub mod Sets
pub mod Events
use text.Mathlib.Text.{◌==◌ as str_eq}
use modern_cpp_kafka.Prelude.{
  String, Bool, true, false, not, Option, none, some, [], ◌∷◌, if◌then◌else◌, is_empty, text_ord,
  int_ord, pair_ord,
}
use modern_cpp_kafka.Outcome.{
  RespErr, assign_partitions, revoke_partitions, fail, Outcome, ok, throw, kafka_error, throw_if,
}
use modern_cpp_kafka.Containers.Map.{contains, add, erase}
use modern_cpp_kafka.Types.{TopicPartitions}
use modern_cpp_kafka.Consumer.{
  Consumer, Step, ◌andthen◌, record_call, is_cooperative_enabled, PartitionsRebalanceEvent, assign,
  revoke, incremental_assign, incremental_unassign, PendingEvent, partitions_assignment,
  partitions_revocation, partitions_assigned, partitions_revoked, Call, rk_assign,
  rk_incremental_assign, rk_incremental_unassign, rebalance_cb,
}

-- The loops that update `_assignment`. A partition that is there already, or is not there, is
-- only logged.
pub assign_each : TopicPartitions → TopicPartitions → TopicPartitions
assign_each [] assignment = assignment
assign_each ((tp, _) ∷ tps) assignment =
    assign_each tps (if contains tp assignment then assignment else add tp assignment)

pub unassign_each : TopicPartitions → TopicPartitions → TopicPartitions
unassign_each [] assignment = assignment
unassign_each ((tp, _) ∷ tps) assignment =
    unassign_each tps (if contains tp assignment then erase tp assignment else assignment)

-- `_assignment` follows the event also where librdkafka answers with the error `resp`.
unfoldable pub change_assignment :
    RespErr → PartitionsRebalanceEvent → TopicPartitions → Consumer → Step (Unit {0})
change_assignment resp assign tps c =
    (record_call (rk_assign (some tps)) (record c { assignment = tps }), throw_if resp)
change_assignment resp revoke tps c =
    (record_call (rk_assign none) (record c { assignment = [] }), throw_if resp)
change_assignment resp incremental_assign tps c = (
  record_call (rk_incremental_assign tps) (record c { assignment = assign_each tps c.assignment }),
  throw_if resp,
)
change_assignment resp incremental_unassign tps c = (
  record_call (rk_incremental_unassign tps)
      (record c { assignment = unassign_each tps c.assignment }),
  throw_if resp,
)

-- `assign` of a topic-partition set by the user.
unfoldable pub user_assign : RespErr → TopicPartitions → Consumer → Step (Unit {0})
unfolding change_assignment
user_assign resp tps c =
    if not (is_empty c.user_subscription)
    then (c, throw (kafka_error fail))
    else change_assignment resp (if is_cooperative_enabled c then incremental_assign else assign)
        tps (record c { user_assignment = tps })

-- One rebalance event: its code, its partitions, librdkafka's protocol at the time (a null pointer
-- is `none`), and what its assign call answers.
pub record Rebalance : Type 0 where
  pub err : RespErr
  pub partitions : TopicPartitions
  pub protocol : Option String
  pub resp : RespErr

-- The attribute for the cooperative protocol is set once.
abbrev pub init_cooperative : Option String → Consumer → Consumer
init_cooperative protocol c = elim c.cooperative_enabled [
  | some b ↦ c
  | none ↦ elim protocol [
    | none ↦ c
    | some name ↦ record c { cooperative_enabled = some (str_eq name "COOPERATIVE") }
  ]
]

abbrev pub clear_pending : PendingEvent → Consumer → Consumer
clear_pending partitions_assignment c = elim c.pending_event [
  | some partitions_assignment ↦ record c { pending_event = none }
  | _ ↦ c
]
clear_pending partitions_revocation c = elim c.pending_event [
  | some partitions_revocation ↦ record c { pending_event = none }
  | _ ↦ c
]

-- The user's callback is one call; what it does with the consumer itself is not modelled.
abbrev pub call_back : Call → Consumer → Consumer
call_back call c = if c.has_rebalance_cb then record_call call c else c

unfoldable pub on_assign : Rebalance → Consumer → Step (Unit {0})
unfolding change_assignment
on_assign r c =
    let c' = clear_pending partitions_assignment (init_cooperative r.protocol c) in
    change_assignment r.resp (if is_cooperative_enabled c' then incremental_assign else assign)
      r.partitions c'
    andthen λ d _. (call_back (rebalance_cb partitions_assigned r.partitions) d, ok tt)

unfoldable pub on_revoke : Rebalance → Consumer → Step (Unit {0})
unfolding change_assignment
on_revoke r c =
    let c' = clear_pending partitions_revocation (init_cooperative r.protocol c) in
    let d = call_back (rebalance_cb partitions_revoked r.partitions) c' in
    if is_cooperative_enabled c'
    then change_assignment r.resp incremental_unassign r.partitions d
    else change_assignment r.resp revoke [] d

-- Any other code is only logged.
unfoldable pub on_rebalance : Rebalance → Consumer → Step (Unit {0})
unfolding on_assign on_revoke
on_rebalance r c = elim r.err [
  | assign_partitions ↦ on_assign r c
  | revoke_partitions ↦ on_revoke r c
  | _ ↦ (c, ok tt)
]
