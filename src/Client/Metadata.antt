-- ===== src/Client/Metadata.antt =====
-- include/kafka/BrokerMetadata.h and `fetchBrokerMetadata` of include/kafka/KafkaClient.h.
use text.Mathlib.Text.{◌==◌ as str_eq}
use modern_cpp_kafka.Prelude.{
  ◌≡◌, refl, ap, same→eq, String, ℤ, true, false, Option, none, some, List, [], ◌∷◌, if◌then◌else◌,
  int_ord, same, arith,
}
use modern_cpp_kafka.Outcome.{RespErr, is_error}
use modern_cpp_kafka.Containers.Map.{Map, find, contains, insert}
use modern_cpp_kafka.Containers.Map.Laws.{find-insert}
use modern_cpp_kafka.Types.{Topic, Partition}

pub record Node : Type 0 where
  pub id : ℤ
  pub host : String
  pub port : ℤ

pub record PartitionInfo : Type 0 where
  pub leader : ℤ
  pub replicas : List ℤ
  pub in_sync_replicas : List ℤ

pub record BrokerMetadata : Type 0 where
  pub topic : Topic
  pub orig_node_name : String
  pub nodes : Map ℤ Node
  pub partitions : Map Partition PartitionInfo

-- rd_kafka_metadata_partition, rd_kafka_metadata_topic and rd_kafka_metadata.
pub record RkPartition : Type 0 where
  pub id : Partition
  pub err : RespErr
  pub leader : ℤ
  pub replicas : List ℤ
  pub isrs : List ℤ

pub record RkTopic : Type 0 where
  pub topic : Topic
  pub err : RespErr
  pub partitions : List RkPartition

pub record RkMetadata : Type 0 where
  pub topics : List RkTopic
  pub brokers : List Node
  pub orig_broker_name : Option String

unfoldable pub find_topic : Topic → List RkTopic → Option RkTopic
find_topic topic [] = none
find_topic topic (t ∷ ts) =
    let rest = find_topic topic ts in if str_eq t.topic topic then some t else rest

-- A later node of the same id takes the place of the former.
pub add_nodes : List Node → Map ℤ Node → Map ℤ Node
add_nodes [] nodes = nodes
add_nodes (n ∷ ns) nodes = add_nodes ns (insert n.id n nodes)

-- `emplace` keeps what is there.
unfoldable pub add_partition_info :
    Partition → PartitionInfo → Map Partition PartitionInfo → Map Partition PartitionInfo
add_partition_info p info partitions =
    if contains p partitions then partitions else insert p info partitions

abbrev pub info_of : RkPartition → PartitionInfo
info_of p = record { leader = p.leader; replicas = p.replicas; in_sync_replicas = p.isrs }

-- A partition with an error is passed over.
unfoldable pub add_partitions :
    List RkPartition → Map Partition PartitionInfo → Map Partition PartitionInfo
unfolding add_partition_info
add_partitions [] partitions = partitions
add_partitions (p ∷ ps) partitions =
    add_partitions ps
      (if is_error p.err then partitions else add_partition_info p.id (info_of p) partitions)

abbrev pub name_or_empty : Option String → String
name_or_empty none = ""
name_or_empty (some name) = name

unfoldable pub broker_metadata : RkMetadata → RkTopic → BrokerMetadata
unfolding add_nodes add_partitions
broker_metadata metadata t = record {
  topic = t.topic;
  orig_node_name = name_or_empty metadata.orig_broker_name;
  nodes = add_nodes metadata.brokers [];
  partitions = add_partitions t.partitions [];
}

-- `err` and `metadata` are what rd_kafka_metadata gives.
unfoldable pub fetch_broker_metadata : Topic → RespErr → RkMetadata → Option BrokerMetadata
unfolding find_topic broker_metadata
fetch_broker_metadata topic err metadata =
    if is_error err then none else (elim (find_topic topic metadata.topics) [
      | none ↦ none
      | some t ↦ if is_error t.err then none else some (broker_metadata metadata t)
    ])

-- The first partition of the number that has no error.
abbrev pub first_sound : Partition → List RkPartition → Option PartitionInfo
first_sound p [] = none
first_sound p (x ∷ xs) =
    if is_error x.err
    then first_sound p xs
    else if same x.id p
    then some (info_of x)
    else first_sound p xs

abbrev or_then : Option PartitionInfo → Option PartitionInfo → Option PartitionInfo
or_then (some x) y = some x
or_then none y = y

find-same :
    (k p : Partition) (m : Map Partition PartitionInfo) → same k p ≡ true → find k m ≡ find p m
find-same k p m e = ap (λ x. find x m) (same→eq k p e)

add_partitions-find :
    (p : Partition) (xs : List RkPartition) (partitions : Map Partition PartitionInfo)
    → find p (add_partitions xs partitions) ≡ or_then (find p partitions) (first_sound p xs)
unfolding add_partitions add_partition_info contains
add_partitions-find p [] partitions = ground arith
add_partitions-find p (x ∷ xs) partitions = ground (
  arith,
  add_partitions-find p xs partitions,
  add_partitions-find p xs (insert x.id (info_of x) partitions),
  find-insert x.id p (info_of x) partitions,
  find-same x.id p partitions,
)

-- Where librdkafka gives metadata in which the topic is found without an error, the result is of
-- that topic and holds for each partition number the first of the topic's entries with that
-- number that has no error, or none.
pub fetch_broker_metadata-partitions :
    (topic : Topic) (err : RespErr) (metadata : RkMetadata) (t : RkTopic)
    → is_error err ≡ false
    → find_topic topic metadata.topics ≡ some t
    → is_error t.err ≡ false
    → (m : BrokerMetadata) × (fetch_broker_metadata topic err metadata ≡ some m)
      × (m.topic ≡ t.topic)
      × ((p : Partition) → find p m.partitions ≡ first_sound p t.partitions)
unfolding fetch_broker_metadata broker_metadata find
fetch_broker_metadata-partitions topic err metadata t h k l = (
  broker_metadata metadata t,
  ground (arith, h, k, l),
  refl,
  λ p. ground (arith, add_partitions-find p t.partitions []),
)
