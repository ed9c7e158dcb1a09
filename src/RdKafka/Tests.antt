-- ===== src/RdKafka/Tests.antt =====
-- The round trips at concrete lists.
use modern_cpp_kafka.Prelude.{◌≡◌, refl, pos, [], ◌∷◌, text_ord, text_lt, int_ord, pair_ord}
use modern_cpp_kafka.Containers.Map.{IsSorted}
use modern_cpp_kafka.Types.{TopicPartitionOffsets}
use modern_cpp_kafka.RdKafka.{get_topic_partition_offsets, create_of_offsets}
use modern_cpp_kafka.RdKafka.RoundTrip.{get_topic_partition_offsets-create}

abbrev offsets : TopicPartitionOffsets
offsets = (("a", pos 1), pos 20) ∷ (("b", pos 0), pos 30) ∷ []

offsets-IsSorted : IsSorted offsets
unfolding text_lt
offsets-IsSorted = (refl, tt)

get_topic_partition_offsets-create_example :
    get_topic_partition_offsets (create_of_offsets offsets) ≡ offsets
get_topic_partition_offsets-create_example =
    get_topic_partition_offsets-create offsets offsets-IsSorted
