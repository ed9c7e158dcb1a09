-- ===== src/Consumer/Subscribe/Results.antt =====
-- How `subscribe` ends.
use modern_cpp_kafka.Prelude.{
  ◌≡◌, refl, Bool, true, false, ◌&&◌, List, [], ◌∷◌, none, some, is_empty, text_ord, same_refl,
  arith,
}
use modern_cpp_kafka.Outcome.{RespErr, no_error, is_error, ok, throw, kafka_error}
use modern_cpp_kafka.Containers.Map.{set_eq}
use modern_cpp_kafka.Types.{Topics}
use modern_cpp_kafka.Consumer.{
  Consumer, record_call, rk_subscribe, is_cooperative_enabled, partitions_assignment,
}
use modern_cpp_kafka.Consumer.Assignment.{Rebalance}
use modern_cpp_kafka.Consumer.Subscribe.{await, subscribe}
use modern_cpp_kafka.Consumer.Subscribe.Waiting.{AllAccepted, arrives, verdict, await_correct}
use modern_cpp_kafka.Consumer.Subscribe.Exclusive.{await-SameUse}

-- The consumer once librdkafka has taken the subscription.
abbrev subscribed : Topics → Bool → Consumer → Consumer
subscribed topics rebalance_callback c =
    record (record_call (rk_subscribe topics)
      (record c { user_subscription = topics; has_rebalance_cb = rebalance_callback })) {
        pending_event = some partitions_assignment;
      }

subscribe_awaits :
    (rounds : List (List Rebalance)) (topics : Topics) (rebalance_callback : Bool) (c : Consumer)
    → is_empty c.user_assignment ≡ true
    → (is_cooperative_enabled c && set_eq topics c.user_subscription) ≡ false
    → subscribe no_error rounds topics rebalance_callback c
      ≡ await rounds (subscribed topics rebalance_callback c)
unfolding subscribe
subscribe_awaits rounds topics rebalance_callback c h k = ground (arith, h, k)

-- Where the user has assigned nothing, the subscription is not skipped as unchanged, and
-- librdkafka takes it and accepts every assignment that the events ask of it: `subscribe` returns
-- if an assignment event arrives in time and throws a time-out if not; in both cases no event
-- stays pending and the subscription is recorded.
pub subscribe_correct :
    (rounds : List (List Rebalance)) (topics : Topics) (rebalance_callback : Bool) (c : Consumer)
    → is_empty c.user_assignment ≡ true
    → (is_cooperative_enabled c && set_eq topics c.user_subscription) ≡ false
    → AllAccepted rounds
    → ((subscribe no_error rounds topics rebalance_callback c).1
        ≡ verdict (arrives partitions_assignment rounds))
      × ((subscribe no_error rounds topics rebalance_callback c).0.pending_event ≡ none)
      × ((subscribe no_error rounds topics rebalance_callback c).0.user_subscription ≡ topics)
subscribe_correct rounds topics rebalance_callback c h k a =
    let e = subscribe_awaits rounds topics rebalance_callback c h k in
    let d = subscribed topics rebalance_callback c in
    let r = await_correct rounds d partitions_assignment a refl in
    (rw e r.0, rw e r.1, rw e (await-SameUse rounds d).subscribed)

set_eq_refl : (s : Topics) → set_eq s s ≡ true
unfolding set_eq
set_eq_refl [] = refl
set_eq_refl ((t, u) ∷ s) = ground (arith, same_refl t, set_eq_refl s)

-- Under the cooperative protocol, where the user has assigned nothing and the subscription is not
-- the recorded one, a subscription that librdkafka refuses throws its error, and the same
-- subscription again returns with no call of librdkafka and no change.
pub subscribe-refused_then_skipped :
    (e resp : RespErr) (rounds later : List (List Rebalance)) (topics : Topics)
    (rebalance_callback : Bool) (c : Consumer)
    → is_empty c.user_assignment ≡ true
    → (is_cooperative_enabled c && set_eq topics c.user_subscription) ≡ false
    → is_cooperative_enabled c ≡ true
    → is_error e ≡ true
    → ((subscribe e rounds topics rebalance_callback c).1 ≡ throw (kafka_error e))
      × (subscribe resp later topics rebalance_callback
            (subscribe e rounds topics rebalance_callback c).0
          ≡ ((subscribe e rounds topics rebalance_callback c).0, ok tt))
unfolding subscribe
subscribe-refused_then_skipped e resp rounds later topics rebalance_callback c h k coop err =
    ground (arith, h, k, coop, err, set_eq_refl topics)
