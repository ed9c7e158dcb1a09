-- ===== src/Producer/SyncSend.antt =====
-- `syncSend` of include/kafka/KafkaProducer.h, which waits for what its own delivery callback stores. The
-- poll thread serves the reports that librdkafka makes one after the other, until the waiting ends.
use modern_cpp_kafka.Prelude.{
  ℕ, ◌==◌, ◌≡◌, ◌≢◌, ap, Option, none, some, List, [], ◌∷◌, ◌++◌, if◌then◌else◌, arith, true, subst,
}
use modern_cpp_kafka.Outcome.{
  RespErr, no_error, is_error, Outcome, ok, throw, kafka_error, throw_if, ◌>>=◌, ◌>>◌,
}
use modern_cpp_kafka.Producer.{
  KafkaProducer, ProducerRecord, no_copy_record_value, block, Vu, send, sent, send_arguments,
  delivery_callback, poll_callbacks,
}
use modern_cpp_kafka.Producer.RecordMetadata.{
  RkMessage, RecordMetadata, empty, of_message, copy, Alike, copy-Alike,
}

-- A message that librdkafka reports: its opaque and its error, and what its metadata is made of.
pub record DeliveryReport : Type 0 where
  pub opaque : ℕ
  pub err : RespErr
  pub message : RkMessage

-- The variables of `syncSend` that its callback shares.
pub record Shared : Type 0 where
  pub delivery_result : Option RespErr
  pub record_metadata : RecordMetadata

-- `deliveryCb`, with the metadata and the error that it is called with.
abbrev pub delivery_cb : RecordMetadata → RespErr → Shared → Outcome Shared
delivery_cb metadata err s =
    copy metadata >>= λ copied. ok (record { delivery_result = some err; record_metadata = copied })

-- What serving a report does to the variables: the opaque of the call's own record, which has the
-- record's id, calls its callback.
abbrev pub serve_report : ℕ → Option ℕ → DeliveryReport → Shared → Outcome Shared
serve_report own id r s =
    if r.opaque == own then delivery_cb (of_message r.message id) r.err s else ok s

-- After the waiting. Without a result it would go on, which is `out_of_fuel`.
abbrev pub finish_waiting : Shared → Outcome RecordMetadata
finish_waiting s = elim s.delivery_result [
  | none ↦ Outcome.out_of_fuel
  | some err ↦ throw_if err >> ok s.record_metadata
]

unfoldable pub wait_delivered :
    ℕ
    → Option ℕ
    → List DeliveryReport
    → Shared
    → KafkaProducer
    → KafkaProducer × Outcome RecordMetadata
wait_delivered own id [] s p = (p, finish_waiting s)
wait_delivered own id (r ∷ reports) s p =
    let q = delivery_callback (some r.opaque) r.err p in
    elim s.delivery_result [
      | some err ↦ (p, finish_waiting s)
      | none ↦ elim (serve_report own id r s) [
        | ok t ↦ wait_delivered own id reports t q
        | throw e ↦ (q, throw e)
        | Outcome.undefined ↦ (q, Outcome.undefined)
        | Outcome.out_of_fuel ↦ (q, Outcome.out_of_fuel)
      ]
    ]

abbrev pub unset : Shared
unset = record { delivery_result = none; record_metadata = empty }

unfoldable pub sync_send :
    (List Vu → RespErr)
    → List DeliveryReport
    → ProducerRecord
    → KafkaProducer
    → KafkaProducer × Outcome RecordMetadata
unfolding send wait_delivered
sync_send produceva reports r p =
    let (q, outcome) = send produceva r no_copy_record_value block p in
    elim outcome [
      | ok u ↦ wait_delivered p.next r.id reports unset q
      | throw e ↦ (q, throw e)
      | Outcome.undefined ↦ (q, Outcome.undefined)
      | Outcome.out_of_fuel ↦ (q, Outcome.out_of_fuel)
    ]

-- None of the reports is for the opaque.
abbrev pub NoneFor : ℕ → List DeliveryReport → Type 0
NoneFor n [] = Unit {0}
NoneFor n (r ∷ rs) = (r.opaque ≢ n) × NoneFor n rs

-- The reports as polling serves them.
abbrev pub served : List DeliveryReport → List (ℕ × RespErr)
served [] = []
served (r ∷ rs) = (r.opaque, r.err) ∷ served rs

wait_delivered-set :
    (own : ℕ) (id : Option ℕ) (reports : List DeliveryReport) (err : RespErr) (m : RecordMetadata)
    (p : KafkaProducer)
    → wait_delivered own id reports (record { delivery_result = some err; record_metadata = m }) p
      ≡ (p, throw_if err >> ok m)
unfolding wait_delivered
wait_delivered-set own id [] err m p = ground arith
wait_delivered-set own id (r ∷ reports) err m p = ground arith

wait_delivered-own :
    (id : Option ℕ) (r : DeliveryReport) (after : List DeliveryReport) (m : RecordMetadata)
    (p : KafkaProducer)
    → copy (of_message r.message id) ≡ ok m
    → wait_delivered r.opaque id (r ∷ after) unset p
      ≡ (delivery_callback (some r.opaque) r.err p, throw_if r.err >> ok m)
unfolding wait_delivered
wait_delivered-own id r after m p copied = ground (
  arith,
  copied,
  wait_delivered-set r.opaque id after r.err m (delivery_callback (some r.opaque) r.err p),
)

-- The waiting goes past the reports for others, which are served.
wait_delivered-reported :
    (own : ℕ) (id : Option ℕ) (before : List DeliveryReport) (r : DeliveryReport)
    (after : List DeliveryReport) (m : RecordMetadata) (p : KafkaProducer)
    → r.opaque ≡ own
    → NoneFor own before
    → copy (of_message r.message id) ≡ ok m
    → wait_delivered own id (before ++ (r ∷ after)) unset p
      ≡ (poll_callbacks (served (before ++ (r ∷ []))) p, throw_if r.err >> ok m)
unfolding wait_delivered poll_callbacks
wait_delivered-reported own id [] r after m p e h copied =
    subst
      (λ (n : ℕ).
        wait_delivered n id (r ∷ after) unset p
        ≡ (delivery_callback (some r.opaque) r.err p, throw_if r.err >> ok m))
      e (wait_delivered-own id r after m p copied)
wait_delivered-reported own id (b ∷ before) r after m p e (other, h) copied = ground (
  arith,
  other,
  wait_delivered-reported own id before r after m (delivery_callback (some b.opaque) b.err p) e h
      copied,
)

-- The producer once librdkafka has taken the message.
abbrev pub taken : ProducerRecord → KafkaProducer → KafkaProducer
taken r p = (sent no_error (send_arguments p.auto_polling r p.next no_copy_record_value block) p).0

-- Where librdkafka takes the message and reports it, after reports for others, `syncSend` waits until
-- these and its own report are served, and no others. It then throws the error of its report, or
-- else returns metadata that needs no message any more and answers every query as the reported message
-- does, with the record's id.
pub sync_send_reported :
    (produceva : List Vu → RespErr) (before : List DeliveryReport) (own : DeliveryReport)
    (after : List DeliveryReport) (r : ProducerRecord) (p : KafkaProducer)
    → produceva (send_arguments p.auto_polling r p.next no_copy_record_value block) ≡ no_error
    → own.opaque ≡ p.next
    → NoneFor p.next before
    → (m : RecordMetadata) × ((sync_send produceva (before ++ (own ∷ after)) r p).1
        ≡ (throw_if own.err >> ok m))
      × (m.rkmsg ≡ none)
      × Alike (of_message own.message r.id) m
      × ((sync_send produceva (before ++ (own ∷ after)) r p).0
          ≡ poll_callbacks (served (before ++ (own ∷ []))) (taken r p))
unfolding sync_send send
sync_send_reported produceva before own after r p h e others =
    let (m, copied, no_message, alike) = copy-Alike own.message r.id in
    let waited =
      wait_delivered-reported p.next r.id before own after m (taken r p) e others copied in
    (
      m,
      ground (arith, h, ap (λ x. x.1) waited),
      no_message,
      alike,
      ground (arith, h, ap (λ x. x.0) waited),
    )

-- Where librdkafka does not take it, `syncSend` throws that error and waits for nothing.
pub sync_send_refused :
    (produceva : List Vu → RespErr) (reports : List DeliveryReport) (r : ProducerRecord)
    (p : KafkaProducer) (err : RespErr)
    → produceva (send_arguments p.auto_polling r p.next no_copy_record_value block) ≡ err
    → is_error err ≡ true
    → (sync_send produceva reports r p).1 ≡ throw (kafka_error err)
unfolding sync_send send
sync_send_refused produceva reports r p err h k = ground (arith, h, k)
