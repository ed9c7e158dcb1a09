-- ===== src/Consumer/Position.antt =====
-- Seeking, pausing and asking for offsets: `seek`, `seekToBeginning` and `seekToEnd`, `pause` and
-- `resume`, `getOffsets` (for `beginningOffsets` and `endOffsets`), `offsetsForTime`, `position` and
-- `committed`. What librdkafka answers is an argument.
pub mod Seek
pub mod Offsets
use modern_cpp_kafka.Prelude.{
  ℕ, zero, suc, ℤ, pos, negsuc, eqb_ℤ, Bool, true, false, not, ◌&&◌, Option, none, some, List, [],
  ◌∷◌, if◌then◌else◌, is_empty, text_ord, int_ord, pair_ord, ◌==◌,
}
use modern_cpp_kafka.Outcome.{
  RespErr, no_error, invalid_arg, state, timed_out, outdated, Outcome, ok, throw, kafka_error,
  throw_if, ◌>>=◌, ◌>>◌,
}
use modern_cpp_kafka.Containers.Map.{insert}
use modern_cpp_kafka.Types.{Offset, TopicPartition, TopicPartitions, TopicPartitionOffsets}
use modern_cpp_kafka.RdKafka.{RkTopicPartition, RkList, get_topic_partition_offsets}

-- The codes for which `seek` tries again.
abbrev pub is_retriable : RespErr → Bool
is_retriable state = true
is_retriable timed_out = true
is_retriable outdated = true
is_retriable _ = false

-- The do-while loop: `answer` is what the first rd_kafka_seek returns, and `later` what those
-- return that are made before the time limit.
pub seek_loop : RespErr → List RespErr → RespErr
seek_loop answer [] = answer
seek_loop answer (next ∷ later) =
    let again = seek_loop next later in if is_retriable answer then again else answer

-- `handle` is the error of rd_kafka_topic_new, if it gives a null handle.
unfoldable pub seek : Option RespErr → RespErr → List RespErr → Outcome (Unit {0})
unfolding seek_loop
seek (some last_error) answer later = throw (kafka_error last_error)
seek none answer later = throw_if (seek_loop answer later)

-- librdkafka's RD_KAFKA_OFFSET_BEGINNING and RD_KAFKA_OFFSET_END.
abbrev pub offset_beginning : Offset
offset_beginning = negsuc 1

abbrev pub offset_end : Offset
offset_end = negsuc 0

-- `seeks` is `seek` of one partition to an offset.
unfoldable pub seek_to_beginning_or_end :
    (TopicPartition → Offset → Outcome (Unit {0})) → TopicPartitions → Bool → Outcome (Unit {0})
seek_to_beginning_or_end seeks [] to_beginning = ok tt
seek_to_beginning_or_end seeks ((tp, _) ∷ tps) to_beginning =
    seeks tp (if to_beginning then offset_beginning else offset_end)
    >> seek_to_beginning_or_end seeks tps to_beginning

pub data PauseOrResumeOperation : Type 0 where
  pause resume : PauseOrResumeOperation

-- How many of the elements carry no error.
abbrev pub count_done : List RkTopicPartition → ℕ
count_done [] = 0
count_done (e ∷ es) = elim e.err [ no_error ↦ suc (count_done es) | _ ↦ count_done es ]

-- `es` are the elements of the list with the errors that librdkafka has put in.
unfoldable pub pause_or_resume_partitions :
    RespErr → List RkTopicPartition → PauseOrResumeOperation → Outcome (Unit {0})
pause_or_resume_partitions resp es pause =
    throw_if resp >> (if count_done es == 0 then throw (kafka_error invalid_arg) else ok tt)
pause_or_resume_partitions resp es resume = throw_if resp

-- rd_kafka_query_watermark_offsets: an error code, the first offset, and the one past the last.
pub record Watermarks : Type 0 where
  pub resp : RespErr
  pub beginning : Offset
  pub end : Offset

abbrev pub chosen : Bool → Watermarks → Offset
chosen at_beginning w = if at_beginning then w.beginning else w.end

unfoldable pub get_offsets_from :
    (TopicPartition → Watermarks)
    → Bool
    → TopicPartitions
    → TopicPartitionOffsets
    → Outcome TopicPartitionOffsets
get_offsets_from query at_beginning [] result = ok result
get_offsets_from query at_beginning ((tp, _) ∷ tps) result =
    throw_if (query tp).resp
    >> get_offsets_from query at_beginning tps (insert tp (chosen at_beginning (query tp)) result)

unfoldable pub get_offsets :
    (TopicPartition → Watermarks) → TopicPartitions → Bool → Outcome TopicPartitionOffsets
unfolding get_offsets_from
get_offsets query tps at_beginning = get_offsets_from query at_beginning tps []

-- The loop that erases the results that still hold the time that was asked for.
unfoldable pub erase_unanswered : Offset → TopicPartitionOffsets → TopicPartitionOffsets
erase_unanswered ms [] = []
erase_unanswered ms ((tp, o) ∷ results) =
    let rest = erase_unanswered ms results in if eqb_ℤ o ms then rest else (tp, o) ∷ rest

-- `answered` is the list after rd_kafka_offsets_for_times.
unfoldable pub offsets_for_time :
    RespErr → RkList → Offset → TopicPartitions → Outcome TopicPartitionOffsets
unfolding erase_unanswered
offsets_for_time resp answered ms [] = ok []
offsets_for_time resp answered ms (tp ∷ tps) =
    throw_if resp >> ok (erase_unanswered ms (get_topic_partition_offsets answered))

-- rk_tp->elems[0].offset after the call.
unfoldable pub position : RespErr → Offset → Outcome Offset
position resp offset = throw_if resp >> ok offset

unfoldable pub committed : RespErr → Offset → Outcome Offset
committed resp offset = throw_if resp >> ok offset
