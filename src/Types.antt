-- ===== src/Types.antt =====
-- include/kafka/Types.h: topics, partitions, offsets, and their sets and maps. Partitions and
-- offsets are unbounded integers: their 32 and 64 bits are never used up.
use modern_cpp_kafka.Prelude.{String, ℤ, negsuc}
use modern_cpp_kafka.Containers.Map.{Map, Set}

abbrev pub Topic : Type 0
Topic = String

abbrev pub Partition : Type 0
Partition = ℤ

abbrev pub Offset : Type 0
Offset = ℤ

abbrev pub Topics : Type 0
Topics = Set Topic

abbrev pub TopicPartition : Type 0
TopicPartition = Topic × Partition

abbrev pub TopicPartitions : Type 0
TopicPartitions = Set TopicPartition

abbrev pub TopicPartitionOffsets : Type 0
TopicPartitionOffsets = Map TopicPartition Offset

-- RD_KAFKA_PARTITION_UA
abbrev pub unassigned : Partition
unassigned = negsuc 0
