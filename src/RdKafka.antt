-- ===== src/RdKafka.antt =====
-- include/kafka/RdKafkaHelper.h: the conversions between librdkafka's topic-partition lists and the
-- program's sets and maps. A list handle may be null.
pub mod RoundTrip
mod Tests
use modern_cpp_kafka.Prelude.{
  ℤ, negsuc, Option, none, some, List, [], ◌∷◌, text_ord, int_ord, pair_ord,
}
use modern_cpp_kafka.Outcome.{RespErr, no_error}
use modern_cpp_kafka.Containers.Map.{Map, Set, insert, add}
use modern_cpp_kafka.Types.{
  Topic, Partition, Offset, Topics, TopicPartition, TopicPartitions, TopicPartitionOffsets,
}

-- rd_kafka_topic_partition_t
pub record RkTopicPartition : Type 0 where
  pub topic : Topic
  pub partition : Partition
  pub offset : Offset
  pub err : RespErr

-- rd_kafka_topic_partition_list_t*
abbrev pub RkList : Type 0
RkList = Option (List RkTopicPartition)

-- librdkafka's RD_KAFKA_OFFSET_INVALID and RD_KAFKA_PARTITION_UA.
abbrev pub offset_invalid : Offset
offset_invalid = negsuc 1000

abbrev pub partition_ua : Partition
partition_ua = negsuc 0

abbrev pub elems : RkList → List RkTopicPartition
elems none = []
elems (some es) = es

pub collect_offsets : List RkTopicPartition → TopicPartitionOffsets → TopicPartitionOffsets
collect_offsets [] ret = ret
collect_offsets (e ∷ es) ret = collect_offsets es (insert (e.topic, e.partition) e.offset ret)

unfoldable pub get_topic_partition_offsets : RkList → TopicPartitionOffsets
unfolding collect_offsets
get_topic_partition_offsets rk_tpos = collect_offsets (elems rk_tpos) []

pub collect_topics : List RkTopicPartition → Topics → Topics
collect_topics [] ret = ret
collect_topics (e ∷ es) ret = collect_topics es (add e.topic ret)

unfoldable pub get_topics : RkList → Topics
unfolding collect_topics
get_topics rk_topics = collect_topics (elems rk_topics) []

pub collect_partitions : List RkTopicPartition → TopicPartitions → TopicPartitions
collect_partitions [] ret = ret
collect_partitions (e ∷ es) ret = collect_partitions es (add (e.topic, e.partition) ret)

unfoldable pub get_topic_partitions : RkList → TopicPartitions
unfolding collect_partitions
get_topic_partitions rk_tpos = collect_partitions (elems rk_tpos) []

pub add_elems : TopicPartitionOffsets → List RkTopicPartition
add_elems [] = []
add_elems (((t, p), o) ∷ m) =
    record { topic = t; partition = p; offset = o; err = no_error } ∷ add_elems m

-- The three overloads of `createRkTopicPartitionList`.
unfoldable pub create_of_offsets : TopicPartitionOffsets → RkList
unfolding add_elems
create_of_offsets tpos = some (add_elems tpos)

pub with_offset : Offset → TopicPartitions → TopicPartitionOffsets → TopicPartitionOffsets
with_offset o [] tpos = tpos
with_offset o ((tp, _) ∷ s) tpos = with_offset o s (insert tp o tpos)

unfoldable pub create_of_partitions : TopicPartitions → RkList
unfolding create_of_offsets with_offset
create_of_partitions tps = create_of_offsets (with_offset offset_invalid tps [])

pub unassigned : Topics → TopicPartitionOffsets → TopicPartitionOffsets
unassigned [] tpos = tpos
unassigned ((t, _) ∷ s) tpos = unassigned s (insert (t, partition_ua) offset_invalid tpos)

unfoldable pub create_of_topics : Topics → RkList
unfolding create_of_offsets unassigned
create_of_topics topics = create_of_offsets (unassigned topics [])
