-- ===== src/Consumer/Lifetime.antt =====
-- A consumer over a sequence of operations.
use modern_cpp_kafka.Prelude.{
  ◌≡◌, refl, Bool, true, false, ◌&&◌, Bool-cases, inl, inr, some, List, [], ◌∷◌, is_empty, arith,
  text_ord,
}
use modern_cpp_kafka.Outcome.{RespErr, ok, throw, undefined, out_of_fuel, throw_if}
use modern_cpp_kafka.Containers.Map.{set_eq}
use modern_cpp_kafka.Types.{Topics, TopicPartitions, TopicPartitionOffsets}
use modern_cpp_kafka.Consumer.{
  Consumer, Step, ◌andthen◌, is_cooperative_enabled, record_call, PendingEvent, rk_subscribe,
  rk_unsubscribe, rk_consumer_close, sync, partitions_assignment, partitions_revocation,
}
use modern_cpp_kafka.Consumer.Assignment.{Rebalance, on_rebalance, change_assignment, user_assign}
use modern_cpp_kafka.Consumer.Subscribe.{serve, await, subscribe, unsubscribe}
use modern_cpp_kafka.Consumer.Subscribe.Exclusive.{
  SameUse, same_use, SameUse-trans, SameUse-andthen, on_rebalance-SameUse, serve-SameUse,
  await-SameUse, change_assignment-SameUse, Exclusive, Exclusive-SameUse,
}
use modern_cpp_kafka.Consumer.Poll.{
  Batch, poll, commit_sync_offsets, close, commit_stored_offsets_if_necessary, swallow,
}

pub data Operation : Type 0 where
  subscribes : RespErr → List (List Rebalance) → Topics → Bool → Operation
  unsubscribes : RespErr → List (List Rebalance) → Operation
  assigns : RespErr → TopicPartitions → Operation
  rebalances : Rebalance → Operation
  polls : RespErr → Batch → Operation
  commits : RespErr → TopicPartitionOffsets → Operation
  closes : RespErr → List Rebalance → Operation

-- The consumer that an operation leaves, also when it throws.
unfoldable pub perform : Operation → Consumer → Consumer
perform (subscribes resp rounds topics callback) c = (subscribe resp rounds topics callback c).0
perform (unsubscribes resp rounds) c = (unsubscribe resp rounds c).0
perform (assigns resp tps) c = (user_assign resp tps c).0
perform (rebalances r) c = (on_rebalance r c).0
perform (polls resp batch) c = (poll resp batch c).0
perform (commits resp tpos) c = (commit_sync_offsets resp tpos c).0
perform (closes resp events) c = (close resp events c).0

unfoldable pub perform_all : List Operation → Consumer → Consumer
unfolding perform
perform_all [] c = c
perform_all (op ∷ ops) c = perform_all ops (perform op c)

user_assign-Exclusive :
    (resp : RespErr) (tps : TopicPartitions) (c : Consumer)
    → Exclusive c
    → Exclusive (user_assign resp tps c).0
unfolding user_assign
user_assign-Exclusive resp tps c h = elim (Bool-cases (is_empty c.user_subscription)) [
  | inl none_subscribed ↦ rw none_subscribed (
      let d = record c { user_assignment = tps } in
      Exclusive-SameUse d _ (change_assignment-SameUse resp _ tps d) (ground arith))
  | inr subscribed ↦ rw subscribed h
]

waiting-SameUse :
    (p : PendingEvent) (rounds : List (List Rebalance)) (c : Consumer)
    → SameUse c (await rounds (record c { pending_event = some p })).0
waiting-SameUse p rounds c =
    SameUse-trans c (record c { pending_event = some p }) _
      (record { assigned = refl; subscribed = refl })
      (await-SameUse rounds (record c { pending_event = some p }))

subscribe-Exclusive :
    (resp : RespErr) (rounds : List (List Rebalance)) (topics : Topics) (callback : Bool)
    (c : Consumer)
    → Exclusive c
    → Exclusive (subscribe resp rounds topics callback c).0
unfolding subscribe
subscribe-Exclusive resp rounds topics callback c h =
    elim (Bool-cases (is_empty c.user_assignment)) [
      | inr used ↦ rw used h
      | inl unused ↦
          elim (Bool-cases (is_cooperative_enabled c && set_eq topics c.user_subscription)) [
            | inl skip ↦ rw (unused, skip) h
            | inr go ↦
                let d =
                  record_call (rk_subscribe topics)
                    (record c { user_subscription = topics; has_rebalance_cb = callback }) in
                rw (unused, go)
                  (Exclusive-SameUse d _
                    (SameUse-andthen d (d, throw_if resp)
                      (λ e _.
                        await rounds (record e { pending_event = some partitions_assignment }))
                      (same_use d) (λ e _. waiting-SameUse partitions_assignment rounds e))
                    (rw unused refl))
          ]
    ]

-- What `unsubscribe` does once the assignment of an assigning user is given up.
give_up-Exclusive :
    (m : Step (Unit {0})) (c : Consumer)
    → SameUse c m.0
    → Exclusive c
    → Exclusive (m andthen λ d _. (record d { user_assignment = [] }, ok tt)).0
give_up-Exclusive (d, ok a) c s h = refl
give_up-Exclusive (d, throw e) c s h = Exclusive-SameUse c d s h
give_up-Exclusive (d, undefined) c s h = Exclusive-SameUse c d s h
give_up-Exclusive (d, out_of_fuel) c s h = Exclusive-SameUse c d s h

and_false : (b : Bool) → (b && false) ≡ false
and_false true = refl
and_false false = refl

unsubscribe-Exclusive :
    (resp : RespErr) (rounds : List (List Rebalance)) (c : Consumer)
    → Exclusive c
    → Exclusive (unsubscribe resp rounds c).0
unfolding unsubscribe
unsubscribe-Exclusive resp rounds c h = elim (Bool-cases (is_empty c.user_assignment)) [
  | inr used ↦
      rw (used, and_false (is_empty c.user_subscription))
        (give_up-Exclusive (change_assignment resp _ c.user_assignment c) c
          (change_assignment-SameUse resp _ c.user_assignment c) h)
  | inl unused ↦ elim (Bool-cases (is_empty c.user_subscription)) [
    | inl nothing ↦ rw (unused, nothing) h
    | inr subscribed ↦
        let d = record_call rk_unsubscribe (record c { user_subscription = [] }) in
        rw (unused, subscribed)
          (Exclusive-SameUse d _
            (SameUse-andthen d (d, throw_if resp)
              (λ e _. await rounds (record e { pending_event = some partitions_revocation }))
              (same_use d) (λ e _. waiting-SameUse partitions_revocation rounds e))
            (rw unused refl))
  ]
]

poll-SameUse : (resp : RespErr) (batch : Batch) (c : Consumer) → SameUse c (poll resp batch c).0
unfolding poll
poll-SameUse resp batch c = ground arith

closing-SameUse :
    (resp : RespErr) (c : Consumer)
    → SameUse c
        (swallow (commit_stored_offsets_if_necessary resp sync (record c { opened = false }))).0
unfolding commit_stored_offsets_if_necessary
closing-SameUse resp c = ground arith

close-SameUse :
    (resp : RespErr) (events : List Rebalance) (c : Consumer) → SameUse c (close resp events c).0
unfolding close
close-SameUse resp events c =
    SameUse-andthen c
      (swallow (commit_stored_offsets_if_necessary resp sync (record c { opened = false })))
      (λ d _. serve events (record_call rk_consumer_close d)) (closing-SameUse resp c)
      λ d _.
        SameUse-trans d (record_call rk_consumer_close d) _
          (record { assigned = refl; subscribed = refl })
          (serve-SameUse events (record_call rk_consumer_close d))

commits-Exclusive :
    (resp : RespErr) (tpos : TopicPartitionOffsets) (c : Consumer)
    → Exclusive c
    → Exclusive (commit_sync_offsets resp tpos c).0
unfolding commit_sync_offsets
commits-Exclusive resp tpos c h = h

perform-Exclusive : (op : Operation) (c : Consumer) → Exclusive c → Exclusive (perform op c)
unfolding perform
perform-Exclusive (subscribes resp rounds topics callback) c h =
    subscribe-Exclusive resp rounds topics callback c h
perform-Exclusive (unsubscribes resp rounds) c h = unsubscribe-Exclusive resp rounds c h
perform-Exclusive (assigns resp tps) c h = user_assign-Exclusive resp tps c h
perform-Exclusive (rebalances r) c h = Exclusive-SameUse c _ (on_rebalance-SameUse r c) h
perform-Exclusive (polls resp batch) c h = Exclusive-SameUse c _ (poll-SameUse resp batch c) h
perform-Exclusive (commits resp tpos) c h = commits-Exclusive resp tpos c h
perform-Exclusive (closes resp events) c h = Exclusive-SameUse c _ (close-SameUse resp events c) h

-- A sequence of operations, with any answers and events of librdkafka's, on a consumer that has
-- no assignment or no subscription of the user's leaves one that has no assignment or no
-- subscription of the user's.
pub perform_all-Exclusive :
    (ops : List Operation) (c : Consumer) → Exclusive c → Exclusive (perform_all ops c)
unfolding perform_all
perform_all-Exclusive [] c h = h
perform_all-Exclusive (op ∷ ops) c h =
    perform_all-Exclusive ops (perform op c) (perform-Exclusive op c h)
