-- ===== src/Texts/Partitions.antt =====
-- include/kafka/Types.h: the texts of topics, partitions and offsets.
pub mod Laws
use text.Mathlib.Text.{◌==◌ as str_eq}
use modern_cpp_kafka.Prelude.{String, List, [], ◌∷◌, if◌then◌else◌}
use modern_cpp_kafka.StdText.{to_string}
use modern_cpp_kafka.Types.{
  Topic, Partition, Offset, Topics, TopicPartition, TopicPartitions, TopicPartitionOffsets,
}
use modern_cpp_kafka.Texts.{◌<>◌, comma}

-- toString(const Topics&), after `ret`.
unfoldable pub append_topics : Topics → String → String
append_topics [] ret = ret
append_topics ((topic, _) ∷ topics) ret = append_topics topics (ret <> comma ret <> topic)

unfoldable pub show_topics : Topics → String
unfolding append_topics
show_topics topics = append_topics topics ""

unfoldable pub show_topic_partition : TopicPartition → String
show_topic_partition (topic, partition) = topic <> "-" <> to_string partition

unfoldable pub append_partitions : TopicPartitions → String → String
unfolding show_topic_partition
append_partitions [] ret = ret
append_partitions (((topic, partition), _) ∷ tps) ret =
    append_partitions tps (ret <> comma ret <> topic <> "-" <> to_string partition)

unfoldable pub show_topic_partitions : TopicPartitions → String
unfolding append_partitions
show_topic_partitions tps = append_partitions tps ""

unfoldable pub show_topic_partition_offset : Topic → Partition → Offset → String
show_topic_partition_offset topic partition offset =
    topic <> "-" <> to_string partition <> ":" <> to_string offset

unfoldable pub append_offsets : TopicPartitionOffsets → String → String
append_offsets [] ret = ret
append_offsets (((topic, partition), offset) ∷ tpos) ret =
    append_offsets tpos
      (ret <> comma ret <> topic <> "-" <> to_string partition <> ":" <> to_string offset)

unfoldable pub show_topic_partition_offsets : TopicPartitionOffsets → String
unfolding append_offsets
show_topic_partition_offsets tpos = append_offsets tpos ""
