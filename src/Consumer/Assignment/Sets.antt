-- ===== src/Consumer/Assignment/Sets.antt =====
-- `changeAssignment` as set algebra: what the recorded assignment holds after each event.
use modern_cpp_kafka.Prelude.{
  ◌≡◌, refl, Bool, true, false, not, ◌&&◌, ◌||◌, Bool-cases, inl, inr, [], ◌∷◌, text_ord, int_ord,
  pair_ord, same, same→eq, ap, arith,
}
use modern_cpp_kafka.Outcome.{RespErr}
use modern_cpp_kafka.Containers.Map.{contains, insert, add, erase, IsSorted}
use modern_cpp_kafka.Containers.Map.Laws.{
  contains-insert, contains-erase, contains-cons, contains-nil,
}
use modern_cpp_kafka.Containers.Map.Sorted.{insert-IsSorted, erase-IsSorted}
use modern_cpp_kafka.Types.{TopicPartition, TopicPartitions}
use modern_cpp_kafka.Consumer.{
  Consumer, PartitionsRebalanceEvent, assign, revoke, incremental_assign, incremental_unassign,
}
use modern_cpp_kafka.Consumer.Assignment.{assign_each, unassign_each, change_assignment}

-- A partition is treated like the one it is compared with if neither is below the other.
same-contains :
    (x tp : TopicPartition) (a : TopicPartitions) → same x tp ≡ true → contains x a ≡ contains tp a
same-contains x tp a e = ap (λ k. contains k a) (same→eq x tp e)

assign_each-contains :
    (tp : TopicPartition) (tps a : TopicPartitions)
    → contains tp (assign_each tps a) ≡ (contains tp a || contains tp tps)
unfolding assign_each add
assign_each-contains tp [] a = ground (arith, contains-nil tp)
assign_each-contains tp ((x, u) ∷ tps) a = ground (
  arith,
  assign_each-contains tp tps a,
  assign_each-contains tp tps (insert x tt a),
  contains-insert x tp tt a,
  contains-cons x tp u tps,
  same-contains x tp a,
)

unassign_each-contains :
    (tp : TopicPartition) (tps a : TopicPartitions)
    → contains tp (unassign_each tps a) ≡ (contains tp a && not (contains tp tps))
unfolding unassign_each
unassign_each-contains tp [] a = ground (arith, contains-nil tp)
unassign_each-contains tp ((x, u) ∷ tps) a = ground (
  arith,
  unassign_each-contains tp tps a,
  unassign_each-contains tp tps (erase x a),
  contains-erase x tp a,
  contains-cons x tp u tps,
  same-contains x tp a,
)

-- Whether `tp` is assigned after the event.
abbrev pub assigned_after :
    PartitionsRebalanceEvent → TopicPartition → TopicPartitions → TopicPartitions → Bool
assigned_after assign tp tps old = contains tp tps
assigned_after revoke tp tps old = false
assigned_after incremental_assign tp tps old = contains tp old || contains tp tps
assigned_after incremental_unassign tp tps old = contains tp old && not (contains tp tps)

-- Whatever librdkafka answers, a partition is in the recorded assignment after an event exactly
-- if it is in the given set, in no set, in the union of the recorded and the given, or in the
-- recorded but not the given, as the event is an assignment, a revocation, an incremental
-- assignment or an incremental unassignment; the user's assignment and subscription stay.
pub change_assignment-contains :
    (resp : RespErr) (event : PartitionsRebalanceEvent) (tps : TopicPartitions) (c : Consumer)
    (tp : TopicPartition)
    → (contains tp (change_assignment resp event tps c).0.assignment
        ≡ assigned_after event tp tps c.assignment)
      × ((change_assignment resp event tps c).0.user_assignment ≡ c.user_assignment)
      × ((change_assignment resp event tps c).0.user_subscription ≡ c.user_subscription)
unfolding change_assignment
change_assignment-contains resp assign tps c tp = (refl, refl, refl)
change_assignment-contains resp revoke tps c tp = (contains-nil tp, refl, refl)
change_assignment-contains resp incremental_assign tps c tp =
    (assign_each-contains tp tps c.assignment, refl, refl)
change_assignment-contains resp incremental_unassign tps c tp =
    (unassign_each-contains tp tps c.assignment, refl, refl)

assign_each-IsSorted : (tps a : TopicPartitions) → IsSorted a → IsSorted (assign_each tps a)
unfolding assign_each add
assign_each-IsSorted [] a s = s
assign_each-IsSorted ((x, u) ∷ tps) a s = elim (Bool-cases (contains x a)) [
  | inl e ↦ rw e (assign_each-IsSorted tps a s)
  | inr e ↦ rw e (assign_each-IsSorted tps (insert x tt a) (insert-IsSorted x tt a s))
]

unassign_each-IsSorted : (tps a : TopicPartitions) → IsSorted a → IsSorted (unassign_each tps a)
unfolding unassign_each
unassign_each-IsSorted [] a s = s
unassign_each-IsSorted ((x, u) ∷ tps) a s = elim (Bool-cases (contains x a)) [
  | inl e ↦ rw e (unassign_each-IsSorted tps (erase x a) (erase-IsSorted x a s))
  | inr e ↦ rw e (unassign_each-IsSorted tps a s)
]

-- The recorded assignment stays a set: its partitions ascend, so none is there twice.
pub change_assignment-IsSorted :
    (resp : RespErr) (event : PartitionsRebalanceEvent) (tps : TopicPartitions) (c : Consumer)
    → IsSorted tps
    → IsSorted c.assignment
    → IsSorted (change_assignment resp event tps c).0.assignment
unfolding change_assignment
change_assignment-IsSorted resp assign tps c t a = t
change_assignment-IsSorted resp revoke tps c t a = tt
change_assignment-IsSorted resp incremental_assign tps c t a =
    assign_each-IsSorted tps c.assignment a
change_assignment-IsSorted resp incremental_unassign tps c t a =
    unassign_each-IsSorted tps c.assignment a
