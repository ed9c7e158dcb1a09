-- ===== src/Texts/Produced.antt =====
-- include/kafka/ProducerRecord.h: a record to be sent, and its text.
use modern_cpp_kafka.Prelude.{
  ℕ, String, pos, eqb_ℤ, Option, none, some, List, [], if◌then◌else◌, is_empty,
}
use modern_cpp_kafka.StdText.{to_string}
use modern_cpp_kafka.Types.{Topic, Partition, unassigned}
use modern_cpp_kafka.Texts.{◌<>◌, ConstBuffer, show_buffer}
use modern_cpp_kafka.Texts.Records.{show_headers}

pub record ProducedRecord : Type 0 where
  pub topic : Topic
  pub partition : Partition
  pub key : ConstBuffer
  pub value : ConstBuffer
  pub headers : List (String × ConstBuffer)
  pub id : Option ℕ

-- The constructors, with a partition or without.
abbrev pub of_partition : Topic → Partition → ConstBuffer → ConstBuffer → ProducedRecord
of_partition t p k v = record {
  topic = t;
  partition = p;
  key = k;
  value = v;
  headers = [];
  id = none;
}

abbrev pub of_topic : Topic → ConstBuffer → ConstBuffer → ProducedRecord
of_topic t k v = of_partition t unassigned k v

-- ProducerRecord::toString
unfoldable pub show_produced : ProducedRecord → String
show_produced r =
    r.topic
    <> "-"
    <> (if eqb_ℤ r.partition unassigned then "NA" else to_string r.partition)
    <> ":"
    <> (elim r.id [ none ↦ " " | some n ↦ to_string (pos n) <> ", " ])
    <> (if is_empty r.headers then "" else "headers[" <> show_headers r.headers <> "], ")
    <> show_buffer r.key
    <> "/"
    <> show_buffer r.value
