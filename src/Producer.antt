-- ===== src/Producer.antt =====
-- include/kafka/KafkaProducer.h: sending, and the memory that a delivery callback is kept in until
-- librdkafka reports the delivery. What librdkafka answers is an argument of each operation, and what
-- is asked of it is recorded.
pub mod Configure
pub mod Send
pub mod Memory
pub mod SyncSend
pub mod Transactions
pub mod RecordMetadata
mod Tests
use text.Mathlib.Text.{◌==◌ as str_eq}
use modern_cpp_kafka.Prelude.{
  ℕ, suc, ◌+◌, String, ℤ, pos, ltb_ℤ, Bool, true, false, not, ◌&&◌, ◌||◌, Option, none, some, List,
  [], ◌∷◌, ◌++◌, if◌then◌else◌, ◌==◌,
}
use modern_cpp_kafka.Outcome.{
  RespErr, no_error, invalid_arg, timed_out, Outcome, ok, throw, kafka_error, throw_if, ◌>>=◌, ◌>>◌,
}
use modern_cpp_kafka.StdText.{stoi}
use modern_cpp_kafka.Types.{Topic, Partition, TopicPartitionOffsets}
use modern_cpp_kafka.RdKafka.{RkList, create_of_offsets}
use modern_cpp_kafka.Error.{Error, of_code}
use modern_cpp_kafka.Client.{static_cast_int}
use modern_cpp_kafka.Properties.{PropertiesMap, get_property}

pub data SendOption : Type 0 where
  no_copy_record_value to_copy_record_value : SendOption

pub data ActionWhileQueueIsFull : Type 0 where
  block no_block : ActionWhileQueueIsFull

-- A memory block, by its address and size.
pub record Buffer : Type 0 where
  pub data_ : ℕ
  pub size : ℕ

pub record Header : Type 0 where
  pub key : String
  pub value : Buffer

pub record ProducerRecord : Type 0 where
  pub topic : Topic
  pub partition : Partition
  pub key : Buffer
  pub value : Buffer
  pub headers : List Header
  pub id : Option ℕ

-- rd_kafka_vu_t: an argument of rd_kafka_produceva.
pub data Vu : Type 0 where
  vu_topic : Topic → Vu
  vu_partition : Partition → Vu
  vu_msgflags : ℕ → Vu
  vu_key vu_value : Buffer → Vu
  vu_opaque : ℕ → Vu
  vu_header : String → Buffer → Vu

-- RD_KAFKA_MSG_F_COPY and RD_KAFKA_MSG_F_BLOCK are different bits, so that their `|` is the sum.
abbrev pub msg_f_copy : SendOption → ℕ
msg_f_copy to_copy_record_value = 2
msg_f_copy no_copy_record_value = 0

abbrev pub msg_f_block : ActionWhileQueueIsFull → ℕ
msg_f_block block = 4
msg_f_block no_block = 0

unfoldable pub header_vus : List Header → List Vu
header_vus [] = []
header_vus (h ∷ hs) = vu_header h.key h.value ∷ header_vus hs

-- A producer whose events are polled by hand never blocks.
unfoldable pub send_arguments :
    Bool → ProducerRecord → ℕ → SendOption → ActionWhileQueueIsFull → List Vu
unfolding header_vus
send_arguments auto_polling r opaque option action =
    vu_topic r.topic
    ∷ vu_partition r.partition
    ∷ vu_msgflags (msg_f_copy option + msg_f_block (if auto_polling then action else no_block))
    ∷ vu_key r.key
    ∷ vu_value r.value
    ∷ vu_opaque opaque
    ∷ header_vus r.headers

-- What the callback of an opaque was called with.
pub record Delivery : Type 0 where
  pub opaque : ℕ
  pub err : RespErr

-- Each opaque is a number, the next one is `next`. `held` are those that librdkafka has, `freed` are
-- those that were deleted, `delivered` the callbacks that were called; the newest first.
pub record KafkaProducer : Type 0 where
  pub opened : Bool
  pub auto_polling : Bool
  pub next : ℕ
  pub held : List ℕ
  pub freed : List ℕ
  pub delivered : List Delivery
  pub produced : List (List Vu)
  pub purged : ℕ

-- What follows rd_kafka_produceva. The opaque that it does not take is deleted with the exception.
abbrev pub sent : RespErr → List Vu → KafkaProducer → KafkaProducer × Outcome (Unit {0})
sent no_error arguments p = (
  record p { next = suc p.next; held = p.next ∷ p.held; produced = arguments ∷ p.produced },
  ok tt,
)
sent e arguments p = (
  record p { next = suc p.next; freed = p.next ∷ p.freed; produced = arguments ∷ p.produced },
  throw (kafka_error e),
)

-- `send`: `produceva` is what librdkafka answers to the arguments.
unfoldable pub send :
    (List Vu → RespErr)
    → ProducerRecord
    → SendOption
    → ActionWhileQueueIsFull
    → KafkaProducer
    → KafkaProducer × Outcome (Unit {0})
unfolding send_arguments
send produceva r option action p =
    let arguments = send_arguments p.auto_polling r p.next option action in
    sent (produceva arguments) arguments p

unfoldable pub take_out : ℕ → List ℕ → List ℕ
take_out n [] = []
take_out n (m ∷ ms) = let rest = take_out n ms in if n == m then ms else m ∷ rest

-- `deliveryCallback` of a message with an opaque: the callback is called, and the opaque deleted.
unfoldable pub delivery_callback : Option ℕ → RespErr → KafkaProducer → KafkaProducer
unfolding take_out
delivery_callback none err p = p
delivery_callback (some n) err p = record p {
  held = take_out n p.held;
  freed = n ∷ p.freed;
  delivered = record { opaque = n; err = err } ∷ p.delivered;
}

-- The reports that librdkafka makes in one poll.
unfoldable pub poll_callbacks : List (ℕ × RespErr) → KafkaProducer → KafkaProducer
unfolding delivery_callback
poll_callbacks [] p = p
poll_callbacks ((n, err) ∷ reports) p = poll_callbacks reports (delivery_callback (some n) err p)

-- `flush` serves reports and gives librdkafka's answer.
unfoldable pub flush : RespErr → List (ℕ × RespErr) → KafkaProducer → KafkaProducer × Error
unfolding poll_callbacks
flush resp reports p = (poll_callbacks reports p, of_code resp)

-- `purge`, of the queue and of what is in flight.
unfoldable pub purge_all : RespErr → KafkaProducer → KafkaProducer × Error
purge_all resp p = (record p { purged = suc p.purged }, of_code resp)

-- `close`: `flushed` is the result of its flush, `reports` are those that the flush serves, and `last_reports`
-- those of the last poll, such as those of purged messages.
unfoldable pub close :
    RespErr → List (ℕ × RespErr) → List (ℕ × RespErr) → KafkaProducer → KafkaProducer
unfolding poll_callbacks
close flushed reports last_reports p =
    let q = poll_callbacks reports (record p { opened = false }) in
    poll_callbacks last_reports
      (elim flushed [ timed_out ↦ record q { purged = suc q.purged } | _ ↦ q ])
