-- ===== src/Producer/Tests.antt =====
-- The producer at concrete records and properties.
use modern_cpp_kafka.Prelude.{
  ◌≡◌, ◌↔◌, refl, ◌≢◌, ◌≤◌, pos, true, none, some, List, [], ◌∷◌, text_ord, arith,
}
use modern_cpp_kafka.Outcome.{RespErr, no_error, timed_out, ok}
use modern_cpp_kafka.Properties.{PropertiesMap, str}
use modern_cpp_kafka.Producer.{
  Buffer, ProducerRecord, Vu, KafkaProducer, to_copy_record_value, block, send, delivery_callback,
  poll_callbacks,
}
use modern_cpp_kafka.Producer.Configure.{
  validate_and_reform_properties, Acceptable, validate_and_reform_properties_iff,
}
use modern_cpp_kafka.Producer.RecordMetadata.{RkMessage, RecordMetadata, of_message, Alike}
use modern_cpp_kafka.Producer.SyncSend.{DeliveryReport, sync_send, taken, sync_send_reported}
use modern_cpp_kafka.Producer.Memory.{
  Reaches, start, sending, reporting, Owned, count, Reaches-Owned,
}

abbrev buffer : Buffer
buffer = record { data_ = 100; size = 3 }

abbrev message : ProducerRecord
message = record {
  topic = "t";
  partition = pos 0;
  key = buffer;
  value = buffer;
  headers = record { key = "h"; value = buffer } ∷ [];
  id = some 9;
}

abbrev producer : KafkaProducer
producer = record {
  opened = true;
  auto_polling = true;
  next = 0;
  held = [];
  freed = [];
  delivered = [];
  produced = [];
  purged = 0;
}

abbrev takes : List Vu → RespErr
takes arguments = no_error

abbrev idempotent : PropertiesMap
idempotent = ("acks", str "all") ∷ ("enable.idempotence", str "true") ∷ []

validate_and_reform_properties_iff_example :
    (validate_and_reform_properties ok idempotent ≡ ok idempotent) ↔ Acceptable idempotent
validate_and_reform_properties_iff_example =
    validate_and_reform_properties_iff ok idempotent idempotent refl

abbrev rk_message : RkMessage
rk_message = record {
  topic_name = some "t";
  partition = pos 0;
  offset = pos 7;
  key_len = 3;
  len = 3;
  timestamp = pos 1000;
  timestamp_type = 1;
  status = 2;
}

-- A message of an earlier call is reported before the own one.
abbrev other_report : DeliveryReport
other_report = record { opaque = 4; err = timed_out; message = rk_message }

abbrev own_report : DeliveryReport
own_report = record { opaque = 5; err = no_error; message = rk_message }

abbrev later_producer : KafkaProducer
later_producer = record producer { next = 5; held = 4 ∷ [] }

no_4 : other_report.opaque ≢ 5
no_4 e = omega (arith, e)

sync_send_reported_example :
    (m : RecordMetadata) × ((sync_send takes
        (other_report ∷ own_report ∷ [])
        message
        later_producer).1
      ≡ ok m)
    × (m.rkmsg ≡ none)
    × Alike (of_message rk_message (some 9)) m
    × ((sync_send takes (other_report ∷ own_report ∷ []) message later_producer).0
        ≡ poll_callbacks ((4, timed_out) ∷ (5, no_error) ∷ []) (taken message later_producer))
sync_send_reported_example =
    sync_send_reported takes (other_report ∷ []) own_report [] message later_producer refl refl
      (no_4, tt)

abbrev one_sent : KafkaProducer
one_sent = (send takes message to_copy_record_value block producer).0

one_sent-Reaches : Reaches one_sent
one_sent-Reaches = sending takes message to_copy_record_value block producer (start true)

is_held : 1 ≤ count 0 one_sent.held
unfolding send
is_held = omega arith

abbrev one_delivered : KafkaProducer
one_delivered = delivery_callback (some 0) no_error one_sent

one_delivered-Reaches : Reaches one_delivered
one_delivered-Reaches = reporting 0 no_error one_sent is_held one_sent-Reaches

Reaches-Owned_example : Owned one_delivered
Reaches-Owned_example = Reaches-Owned one_delivered one_delivered-Reaches
