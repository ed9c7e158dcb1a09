-- ===== src/Consumer/Assignment/Events.antt =====
-- `onRebalance`: the order of librdkafka's call and the user's callback, and what an event changes.
use text.Mathlib.Text.{◌==◌ as str_eq}
use modern_cpp_kafka.Prelude.{
  ◌⊎◌, ◌≡◌, Bool, true, false, Option, none, some, ◌∷◌, if◌then◌else◌, arith, text_ord, int_ord,
  pair_ord,
}
use modern_cpp_kafka.Outcome.{no_error, assign_partitions, revoke_partitions}
use modern_cpp_kafka.Consumer.{
  Consumer, Call, rk_assign, rk_incremental_assign, rk_incremental_unassign, rebalance_cb,
  partitions_assigned, partitions_revoked,
}
use modern_cpp_kafka.Consumer.Assignment.{Rebalance, on_rebalance}

-- The protocol in force when the event is handled.
abbrev pub cooperative_then : Rebalance → Consumer → Option Bool
cooperative_then r c = elim c.cooperative_enabled [
  | some b ↦ some b
  | none ↦ elim r.protocol [ none ↦ none | some name ↦ some (str_eq name "COOPERATIVE") ]
]

abbrev holds : Option Bool → Bool
holds none = false
holds (some b) = b

abbrev pub assign_call : Rebalance → Consumer → Call
assign_call r c =
    if holds (cooperative_then r c)
    then rk_incremental_assign r.partitions
    else rk_assign (some r.partitions)

abbrev pub revoke_call : Rebalance → Consumer → Call
revoke_call r c =
    if holds (cooperative_then r c) then rk_incremental_unassign r.partitions else rk_assign none

-- Where librdkafka accepts the assignment and the user gave a callback: an assignment is passed
-- to librdkafka before the callback hears of it, a revocation after; under the eager protocol the
-- whole assignment is replaced, under the cooperative one the event's partitions are added or
-- taken away.
pub on_rebalance_order :
    (r : Rebalance) (c : Consumer)
    → r.resp ≡ no_error
    → c.has_rebalance_cb ≡ true
    → (r.err ≡ assign_partitions
        → (on_rebalance r c).0.calls
          ≡ rebalance_cb partitions_assigned r.partitions ∷ assign_call r c ∷ c.calls)
      × (r.err ≡ revoke_partitions
          → (on_rebalance r c).0.calls
            ≡ revoke_call r c ∷ rebalance_cb partitions_revoked r.partitions ∷ c.calls)
unfolding on_rebalance
on_rebalance_order r c answered called = ((λ e. ground arith), (λ e. ground arith))

-- The protocol is fixed by the first event that names one.
pub on_rebalance-cooperative :
    (r : Rebalance) (c : Consumer)
    → (r.err ≡ assign_partitions) ⊎ (r.err ≡ revoke_partitions)
    → (on_rebalance r c).0.cooperative_enabled ≡ cooperative_then r c
unfolding on_rebalance
on_rebalance-cooperative r c known = ground arith

-- No event changes what the user subscribed to or assigned.
pub on_rebalance-kept :
    (r : Rebalance) (c : Consumer)
    → ((on_rebalance r c).0.user_assignment ≡ c.user_assignment)
      × ((on_rebalance r c).0.user_subscription ≡ c.user_subscription)
unfolding on_rebalance
on_rebalance-kept r c = (ground arith, ground arith)
