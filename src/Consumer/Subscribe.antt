-- ===== src/Consumer/Subscribe.antt =====
-- `subscribe` and `unsubscribe` of the consumer. A round is one poll of librdkafka before the time
-- limit, with the rebalance events that it serves.
pub mod Waiting
pub mod Results
pub mod Exclusive
use modern_cpp_kafka.Prelude.{
  Bool, true, false, not, ◌&&◌, Option, none, some, List, [], ◌∷◌, if◌then◌else◌, is_empty,
  text_ord,
}
use modern_cpp_kafka.Outcome.{RespErr, fail, timed_out, Outcome, ok, throw, kafka_error, throw_if}
use modern_cpp_kafka.Containers.Map.{set_eq}
use modern_cpp_kafka.Types.{Topics}
use modern_cpp_kafka.Consumer.{
  Consumer, Step, ◌andthen◌, record_call, is_cooperative_enabled, revoke, incremental_unassign,
  partitions_assignment, partitions_revocation, rk_subscribe, rk_unsubscribe,
}
use modern_cpp_kafka.Consumer.Assignment.{Rebalance, on_rebalance, change_assignment}

-- The events that one poll serves.
unfoldable pub serve : List Rebalance → Consumer → Step (Unit {0})
serve [] c = (c, ok tt)
serve (r ∷ rs) c = on_rebalance r c andthen λ d _. serve rs d

-- The loop that polls until no event is pending, or until the time is up.
pub await : List (List Rebalance) → Consumer → Step (Unit {0})
unfolding serve
await [] c = (record c { pending_event = none }, throw (kafka_error timed_out))
await (round ∷ rounds) c = serve round c andthen λ d _.
    let rest = await rounds d in elim d.pending_event [ none ↦ (d, ok tt) | some _ ↦ rest ]

-- `resp` is what rd_kafka_subscribe returns.
unfoldable pub subscribe :
    RespErr → List (List Rebalance) → Topics → Bool → Consumer → Step (Unit {0})
subscribe resp rounds topics rebalance_callback c =
    if not (is_empty c.user_assignment)
    then (c, throw (kafka_error fail))
    else if is_cooperative_enabled c && set_eq topics c.user_subscription
    then (c, ok tt)
    else (
      record_call (rk_subscribe topics)
          (record c { user_subscription = topics; has_rebalance_cb = rebalance_callback }),
      throw_if resp,
    )
      andthen λ d _. await rounds (record d { pending_event = some partitions_assignment })

-- `resp` is what rd_kafka_unsubscribe, or the call that unassigns, returns.
unfoldable pub unsubscribe : RespErr → List (List Rebalance) → Consumer → Step (Unit {0})
unsubscribe resp rounds c =
    if is_empty c.user_subscription && is_empty c.user_assignment
    then (c, ok tt)
    else if not (is_empty c.user_assignment)
    then (change_assignment resp (if is_cooperative_enabled c then incremental_unassign else revoke)
          c.user_assignment c
        andthen λ d _. (record d { user_assignment = [] }, ok tt))
    else ((record_call rk_unsubscribe (record c { user_subscription = [] }), throw_if resp)
        andthen λ d _. await rounds (record d { pending_event = some partitions_revocation }))
