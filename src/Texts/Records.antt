-- ===== src/Texts/Records.antt =====
-- The texts of include/kafka/Timestamp.h, Header.h and ConsumerRecord.h. `local_time` is the text of
-- the local time, to the second, of a number of milliseconds.
use text.Mathlib.Text.{◌==◌ as str_eq}
use modern_cpp_kafka.Prelude.{
  ℕ, zero, suc, ◌-◌, ◌%◌, String, ℤ, pos, negsuc, Bool, true, false, List, [], ◌∷◌, is_empty, not,
  if◌then◌else◌,
}
use modern_cpp_kafka.Outcome.{RespErr, is_error}
use modern_cpp_kafka.StdText.{to_string}
use modern_cpp_kafka.Types.{Topic, Partition, Offset}
use modern_cpp_kafka.Error.{of_code, message}
use modern_cpp_kafka.Texts.{◌<>◌, comma, ConstBuffer, show_buffer}
use modern_cpp_kafka.Texts.Partitions.{show_topic_partition_offset}

pub data TimestampType : Type 0 where
  not_available create_time log_append_time : TimestampType

-- rd_kafka_timestamp_type_t, by its value.
abbrev pub convert_type : ℕ → TimestampType
convert_type (suc zero) = create_time
convert_type (suc (suc zero)) = log_append_time
convert_type _ = not_available

pub record Timestamp : Type 0 where
  pub ms_since_epoch : ℤ
  pub type : TimestampType

abbrev pub show_type : TimestampType → String
show_type create_time = "CreateTime"
show_type log_append_time = "LogAppendTime"
show_type not_available = ""

unfoldable pub length_of : String → ℕ
length_of String.[] = 0
length_of (String.◌∷◌ c s) = suc (length_of s)

unfoldable pub zeros : ℕ → String
zeros zero = ""
zeros (suc n) = "0" <> zeros n

-- `std::setfill('0') << std::setw(3)`
unfoldable pub fill3 : String → String
unfolding length_of zeros
fill3 s = zeros (3 - length_of s) <> s

-- The remainder has the sign of the number.
abbrev pub remainder : ℤ → ℤ
remainder (pos n) = pos (n % 1000)
remainder (negsuc n) = elim (suc n % 1000) [ zero ↦ pos 0 | suc r ↦ negsuc r ]

-- toString(Value)
unfoldable pub show_value : (ℤ → String) → ℤ → String
unfolding fill3
show_value local_time v = local_time v <> "." <> fill3 (to_string (remainder v))

unfoldable pub show_timestamp : (ℤ → String) → Timestamp → String
unfolding show_value
show_timestamp local_time t =
    if str_eq (show_type t.type) ""
    then show_value local_time t.ms_since_epoch
    else show_type t.type <> "[" <> show_value local_time t.ms_since_epoch <> "]"

-- Header::toString
unfoldable pub show_header : String × ConstBuffer → String
show_header (key, value) = (if str_eq key "" then "[null]" else key) <> ":" <> show_buffer value

-- toString(const Headers&), after `ret`.
unfoldable pub append_headers : List (String × ConstBuffer) → String → String
unfolding show_header
append_headers [] ret = ret
append_headers (header ∷ headers) ret =
    append_headers headers (ret <> comma ret <> show_header header)

unfoldable pub show_headers : List (String × ConstBuffer) → String
unfolding append_headers
show_headers headers = append_headers headers ""

pub record ConsumedRecord : Type 0 where
  pub err : RespErr
  pub topic : Topic
  pub partition : Partition
  pub offset : Offset
  pub timestamp : Timestamp
  pub key : ConstBuffer
  pub value : ConstBuffer

abbrev pub is_eof : RespErr → Bool
is_eof RespErr.partition_eof = true
is_eof e = false

-- ConsumerRecord::toString
unfoldable pub show_record : (ℤ → String) → (RespErr → String) → ConsumedRecord → String
unfolding show_timestamp
show_record local_time err2str r =
    let place = show_topic_partition_offset r.topic r.partition r.offset in
    if not (is_error r.err)
    then place
      <> ", "
      <> show_timestamp local_time r.timestamp
      <> ", "
      <> (if is_empty r.key.bytes then "" else show_buffer r.key <> "/")
      <> show_buffer r.value
    else if is_eof r.err
    then "EOF[" <> place <> "]"
    else "ERROR[" <> message err2str (of_code r.err) <> ", " <> place <> "]"
