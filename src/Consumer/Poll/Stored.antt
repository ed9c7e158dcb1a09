-- ===== src/Consumer/Poll/Stored.antt =====
-- The stored offsets: the last offset of each partition, and what is committed for it.
use modern_cpp_kafka.Prelude.{
  ◌≡◌, pos, ◌+ℤ◌, refl, ◌∙◌, false, Option, none, some, List, [], ◌∷◌, ◌++◌, All, is_empty, arith,
  text_ord, int_ord, pair_ord, same, same_refl,
}
use modern_cpp_kafka.Containers.Map.{find, insert}
use modern_cpp_kafka.Containers.Map.Laws.{find-insert}
use modern_cpp_kafka.Types.{TopicPartition, TopicPartitionOffsets, Offset}
use modern_cpp_kafka.Consumer.Poll.{ConsumerRecord, store_each, increment_each}

abbrev pub partition_of : ConsumerRecord → TopicPartition
partition_of r = (r.topic, r.partition)

-- None of the records is of the partition `tp`.
abbrev pub Elsewhere : TopicPartition → List ConsumerRecord → Type 0
Elsewhere tp = All (λ r. same (partition_of r) tp ≡ false)

store_each-Elsewhere :
    (tp : TopicPartition) (rs : List ConsumerRecord) (m : TopicPartitionOffsets)
    → Elsewhere tp rs
    → find tp (store_each rs m) ≡ find tp m
unfolding store_each
store_each-Elsewhere tp [] m h = refl
store_each-Elsewhere tp (r ∷ rs) m h =
    store_each-Elsewhere tp rs (insert (partition_of r) r.offset m) h.1
    ∙ find-insert (partition_of r) tp r.offset m
    ∙ rw (h.0)

-- Of several records of a partition the last one counts.
pub store_each-last :
    (before after : List ConsumerRecord) (r : ConsumerRecord) (m : TopicPartitionOffsets)
    → Elsewhere (partition_of r) after
    → find (partition_of r) (store_each (before ++ r ∷ after) m) ≡ some r.offset
unfolding store_each
store_each-last [] after r m h =
    store_each-Elsewhere (partition_of r) after (insert (partition_of r) r.offset m) h
    ∙ find-insert (partition_of r) (partition_of r) r.offset m
    ∙ rw (same_refl (partition_of r))
store_each-last (b ∷ before) after r m h =
    store_each-last before after r (insert (partition_of b) b.offset m) h

abbrev pub incremented : Option Offset → Option Offset
incremented none = none
incremented (some o) = some (o +ℤ pos 1)

pub find-increment_each :
    (tp : TopicPartition) (m : TopicPartitionOffsets)
    → find tp (increment_each m) ≡ incremented (find tp m)
unfolding find
find-increment_each tp [] = refl
find-increment_each tp ((k, o) ∷ m) = ground (arith, find-increment_each tp m)

pub find-nonempty :
    (tp : TopicPartition) (o : Offset) (m : TopicPartitionOffsets)
    → find tp m ≡ some o
    → is_empty m ≡ false
unfolding find
find-nonempty tp o [] e = ground arith
find-nonempty tp o (x ∷ m) e = refl
