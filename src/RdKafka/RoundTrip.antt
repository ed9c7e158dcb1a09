-- ===== src/RdKafka/RoundTrip.antt =====
-- Converting to librdkafka's lists and back.
use mathlib.Core.List.{append_assoc, append-nil}
use modern_cpp_kafka.Prelude.{◌≡◌, ap, ◌∙◌, [], ◌∷◌, ◌++◌, text_ord, int_ord, pair_ord}
use modern_cpp_kafka.Containers.Map.{add, IsSorted}
use modern_cpp_kafka.Containers.Map.Ascending.{insert-append, Joined, Joined-next, Above-IsSorted}
use modern_cpp_kafka.Types.{TopicPartitions, TopicPartitionOffsets, Offset}
use modern_cpp_kafka.RdKafka.{
  collect_offsets, add_elems, get_topic_partition_offsets, create_of_offsets, with_offset,
  collect_partitions, get_topic_partitions, create_of_partitions, offset_invalid,
}

collect_offsets-add_elems :
    (m acc : TopicPartitionOffsets)
    → IsSorted m
    → Joined acc m
    → collect_offsets (add_elems m) acc ≡ acc ++ m
unfolding collect_offsets add_elems
collect_offsets-add_elems [] acc s j = rw append-nil
collect_offsets-add_elems (((t, p), o) ∷ m) acc s j =
    ap (collect_offsets (add_elems m)) (insert-append (t, p) o acc j)
    ∙ collect_offsets-add_elems m (acc ++ ((t, p), o) ∷ []) (Above-IsSorted (t, p) m s)
        (Joined-next (t, p) o acc m j s)
    ∙ append_assoc acc (((t, p), o) ∷ []) m

-- Offsets whose keys ascend, written to a list of librdkafka's, are read back as they were.
pub get_topic_partition_offsets-create :
    (tpos : TopicPartitionOffsets)
    → IsSorted tpos
    → get_topic_partition_offsets (create_of_offsets tpos) ≡ tpos
unfolding get_topic_partition_offsets create_of_offsets
get_topic_partition_offsets-create tpos s = collect_offsets-add_elems tpos [] s (start tpos)
  where
    start : (m : TopicPartitionOffsets) → Joined {V = Offset} [] m
    start [] = tt
    start ((k, v) ∷ m) = tt

tagged : Offset → TopicPartitions → TopicPartitionOffsets
tagged o [] = []
tagged o ((tp, u) ∷ s) = (tp, o) ∷ tagged o s

with_offset-tagged :
    (o : Offset) (s : TopicPartitions) (acc : TopicPartitionOffsets)
    → IsSorted s
    → Joined acc s
    → with_offset o s acc ≡ acc ++ tagged o s
unfolding with_offset tagged
with_offset-tagged o [] acc h j = rw append-nil
with_offset-tagged o ((tp, u) ∷ s) acc h j = rw (insert-append tp o acc j) (
    with_offset-tagged o s (acc ++ (tp, o) ∷ []) (Above-IsSorted tp s h)
      (Joined-next tp o acc s j h)
    ∙ append_assoc acc ((tp, o) ∷ []) (tagged o s))

collect_partitions-add_elems :
    (o : Offset) (s acc : TopicPartitions)
    → IsSorted s
    → Joined acc s
    → collect_partitions (add_elems (tagged o s)) acc ≡ acc ++ s
unfolding collect_partitions add_elems tagged add
collect_partitions-add_elems o [] acc h j = rw append-nil
collect_partitions-add_elems o (((t, p), u) ∷ s) acc h j =
    ap (collect_partitions (add_elems (tagged o s))) (insert-append (t, p) tt acc j)
    ∙ collect_partitions-add_elems o s (acc ++ ((t, p), tt) ∷ []) (Above-IsSorted (t, p) s h)
        (Joined-next (t, p) tt acc s j h)
    ∙ append_assoc acc (((t, p), tt) ∷ []) s

-- So are topic-partitions without offsets.
pub get_topic_partitions-create :
    (tps : TopicPartitions) → IsSorted tps → get_topic_partitions (create_of_partitions tps) ≡ tps
unfolding get_topic_partitions create_of_partitions
get_topic_partitions-create tps s =
    rw (with_offset-tagged offset_invalid tps [] s (start tps))
      (collect_partitions-add_elems offset_invalid tps [] s (start_set tps))
  where
    start : (m : TopicPartitions) → Joined {V = Offset} [] m
    start [] = tt
    start ((k, v) ∷ m) = tt

    start_set : (m : TopicPartitions) → Joined {V = Unit {0}} [] m
    start_set [] = tt
    start_set ((k, v) ∷ m) = tt
