-- ===== src/Texts/Metadata.antt =====
-- include/kafka/BrokerMetadata.h: the texts of nodes, partitions and a topic's metadata.
use modern_cpp_kafka.Prelude.{
  String, ℤ, Bool, true, false, none, some, List, [], ◌∷◌, if◌then◌else◌, int_ord,
}
use modern_cpp_kafka.StdText.{to_string}
use modern_cpp_kafka.Containers.Map.{Map, find}
use modern_cpp_kafka.Types.{Partition}
use modern_cpp_kafka.Client.Metadata.{Node, PartitionInfo, BrokerMetadata}
use modern_cpp_kafka.Texts.{◌<>◌}

-- Node::toString
unfoldable pub show_node : Node → String
show_node n = n.host <> ":" <> to_string n.port <> "/" <> to_string n.id

unfoldable pub get_node_description : BrokerMetadata → ℤ → String
get_node_description m id = elim (find id m.nodes) [
  | none ↦ "-:-/" <> to_string id
  | some n ↦ n.host <> ":" <> to_string n.port <> "/" <> to_string id
]

-- The loop of `streamNodes`.
unfoldable pub stream_nodes : BrokerMetadata → Bool → List ℤ → String
unfolding get_node_description
stream_nodes m is_the_first [] = ""
stream_nodes m is_the_first (id ∷ ids) =
    (if is_the_first then "" else ", ") <> get_node_description m id <> stream_nodes m false ids

-- toString(const PartitionInfo&)
unfoldable pub show_partition_info : BrokerMetadata → PartitionInfo → String
unfolding stream_nodes
show_partition_info m p =
    "leader["
    <> get_node_description m p.leader
    <> "], replicas["
    <> stream_nodes m true p.replicas
    <> "], inSyncReplicas["
    <> stream_nodes m true p.in_sync_replicas
    <> "]"

unfoldable pub stream_partitions : BrokerMetadata → Bool → Map Partition PartitionInfo → String
unfolding show_partition_info
stream_partitions m is_the_first [] = ""
stream_partitions m is_the_first ((partition, info) ∷ ps) =
    (if is_the_first then "" else "; ")
    <> to_string partition
    <> ": "
    <> show_partition_info m info
    <> stream_partitions m false ps

-- BrokerMetadata::toString
unfoldable pub show_metadata : BrokerMetadata → String
unfolding stream_partitions
show_metadata m =
    "originatingNode["
    <> m.orig_node_name
    <> "], topic["
    <> m.topic
    <> "], partitions{"
    <> stream_partitions m true m.partitions
    <> "}"
