-- ===== src/Recoverable/Operations.antt =====
-- include/kafka/addons/KafkaRecoverableProducer.h: the operations, each of which takes the mutex and
-- forwards to the producer that is there. After `close` there is none, and its null pointer is read.
pub mod LogLevel
use modern_cpp_kafka.Prelude.{ℕ, suc, String, ℤ, Bool, Option, none, some, List}
use modern_cpp_kafka.Outcome.{RespErr, Outcome, ok, throw, kafka_error, ◌>>=◌, throw_if}
use modern_cpp_kafka.StdText.{to_string}
use modern_cpp_kafka.Types.{Topic, TopicPartitionOffsets}
use modern_cpp_kafka.RdKafka.{RkList}
use modern_cpp_kafka.Error.{Error, of_code}
use modern_cpp_kafka.Properties.{PropertiesMap, str, put}
use modern_cpp_kafka.Client.{KafkaClient, client_property}
use modern_cpp_kafka.Client.Metadata.{RkMetadata, BrokerMetadata, fetch_broker_metadata}
use modern_cpp_kafka.Producer
use modern_cpp_kafka.Producer.RecordMetadata.{RecordMetadata}
use modern_cpp_kafka.Producer.SyncSend.{DeliveryReport, sync_send}
use modern_cpp_kafka.Producer.{
  KafkaProducer, ProducerRecord, SendOption, ActionWhileQueueIsFull, Vu, send, poll_callbacks,
}
use modern_cpp_kafka.Producer.Transactions.{
  init_transactions, begin_transaction, commit_transaction, abort_transaction,
  send_offsets_to_transaction,
}
use modern_cpp_kafka.Recoverable.{KafkaRecoverableProducer, purge, close_recoverable}

-- What an operation leaves, and how it ends.
abbrev pub Result : Type 0 → Type 0
Result A = KafkaRecoverableProducer × Outcome A

-- A call of the producer under the mutex.
abbrev pub locked :
    {A : Type 0} → (KafkaProducer → KafkaProducer × Outcome A) → KafkaRecoverableProducer → Result A
locked f p = elim p.producer [
  | none ↦ (p, Outcome.undefined)
  | some producer ↦ (record p { producer = some (f producer).0 }, (f producer).1)
]

-- A call that leaves the producer as it is.
abbrev pub asked : {A : Type 0} → (KafkaProducer → Outcome A) → KafkaRecoverableProducer → Result A
asked f p = locked (λ producer. (producer, f producer)) p

-- `client` is the part of a producer that it has from KafkaClient.
module _ (client : KafkaProducer → KafkaClient) where
  unfoldable pub client_id : KafkaRecoverableProducer → Result String
  client_id p = asked (λ producer. ok (client producer).client_id) p

  unfoldable pub name : KafkaRecoverableProducer → Result String
  name p = asked (λ producer. ok (client producer).client_name) p

  unfoldable pub properties : KafkaRecoverableProducer → Result PropertiesMap
  properties p = asked (λ producer. ok (client producer).properties) p

  unfoldable pub get_property :
      (String → ℕ → Option (String × ℕ))
      → String
      → KafkaRecoverableProducer
      → Result (Option String)
  get_property conf_get key p = asked (λ producer. client_property conf_get key (client producer)) p

-- The level goes into the properties as it is given. `set` is `setLogLevel` of the producer.
unfoldable pub set_log_level :
    (ℤ → KafkaProducer → KafkaProducer) → ℤ → KafkaRecoverableProducer → Result (Unit {0})
set_log_level set level p = elim (put "log_level" (str (to_string level)) p.properties) [
  | ok q ↦ locked (λ producer. (set level producer, ok tt)) (record p { properties = q })
  | throw e ↦ (p, throw e)
  | Outcome.undefined ↦ (p, Outcome.undefined)
  | Outcome.out_of_fuel ↦ (p, Outcome.out_of_fuel)
]

unfoldable pub fetch_metadata :
    Topic → RespErr → RkMetadata → KafkaRecoverableProducer → Result (Option BrokerMetadata)
fetch_metadata topic err metadata p =
    asked (λ producer. ok (fetch_broker_metadata topic err metadata)) p

-- A call of the producer that does not throw.
abbrev pub returned : {A : Type 0} → KafkaProducer × A → KafkaProducer × Outcome A
returned r = (r.0, ok r.1)

unfoldable pub flush : RespErr → List (ℕ × RespErr) → KafkaRecoverableProducer → Result Error
unfolding Producer.flush
flush resp reports p = locked (λ producer. returned (Producer.flush resp reports producer)) p

unfoldable pub purge_records : RespErr → KafkaRecoverableProducer → Result Error
unfolding Producer.purge_all
purge_records resp p = locked (λ producer. returned (Producer.purge_all resp producer)) p

unfoldable pub sync_send_record :
    (List Vu → RespErr)
    → List DeliveryReport
    → ProducerRecord
    → KafkaRecoverableProducer
    → Result RecordMetadata
sync_send_record produceva reports r p = locked (sync_send produceva reports r) p

unfoldable pub send_record :
    (List Vu → RespErr)
    → ProducerRecord
    → SendOption
    → ActionWhileQueueIsFull
    → KafkaRecoverableProducer
    → Result (Unit {0})
send_record produceva r option action p = locked (send produceva r option action) p

-- A KafkaException becomes the error that is set; `none` leaves it as it was.
abbrev pub caught : KafkaProducer × Outcome (Unit {0}) → KafkaProducer × Outcome (Option RespErr)
caught (producer, ok u) = (producer, ok none)
caught (producer, throw (kafka_error e)) = (producer, ok (some e))
caught (producer, throw e) = (producer, throw e)
caught (producer, Outcome.undefined) = (producer, Outcome.undefined)
caught (producer, Outcome.out_of_fuel) = (producer, Outcome.out_of_fuel)

unfoldable pub send_with_error :
    (List Vu → RespErr)
    → ProducerRecord
    → SendOption
    → ActionWhileQueueIsFull
    → KafkaRecoverableProducer
    → Result (Option RespErr)
send_with_error produceva r option action p =
    locked (λ producer. caught (send produceva r option action producer)) p

-- The transactions. A timeout is passed on as the producer does.
unfoldable pub init : RespErr → ℤ → KafkaRecoverableProducer → Result (Unit {0})
init resp timeout p = asked (λ producer. (init_transactions resp timeout).1) p

unfoldable pub begin : RespErr → KafkaRecoverableProducer → Result (Unit {0})
begin resp p = asked (λ producer. begin_transaction resp) p

unfoldable pub commit : RespErr → ℤ → KafkaRecoverableProducer → Result (Unit {0})
commit resp timeout p = asked (λ producer. (commit_transaction resp timeout).1) p

unfoldable pub abort : RespErr → ℤ → KafkaRecoverableProducer → Result (Unit {0})
abort resp timeout p = asked (λ producer. (abort_transaction resp timeout).1) p

unfoldable pub send_offsets :
    RespErr → TopicPartitionOffsets → ℤ → KafkaRecoverableProducer → Result (Unit {0})
send_offsets resp tpos timeout p =
    asked (λ producer. (send_offsets_to_transaction resp tpos timeout).2) p
