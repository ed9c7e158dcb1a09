-- ===== src/Producer/RecordMetadata.antt =====
-- include/kafka/ProducerCommon.h: what a delivery callback is told of its record. It reads librdkafka's
-- message, which lasts as long as the callback, or the information that a copy keeps.
use modern_cpp_kafka.Prelude.{
  ℕ, zero, suc, ap, String, ℤ, pos, negsuc, ◌≡◌, refl, Option, none, some, if◌then◌else◌, eqb_ℤ,
  arith,
}
use modern_cpp_kafka.Outcome.{Outcome, ok, ◌>>=◌}
use modern_cpp_kafka.StdText.{to_string}
use modern_cpp_kafka.Types.{Partition, Offset}
use modern_cpp_kafka.Texts.{◌<>◌}
use modern_cpp_kafka.Texts.Records.{Timestamp, convert_type, show_timestamp}

pub data PersistedStatus : Type 0 where
  not possibly done : PersistedStatus

-- rd_kafka_message_t; a topic handle that is null has no name.
pub record RkMessage : Type 0 where
  pub topic_name : Option String
  pub partition : Partition
  pub offset : Offset
  pub key_len : ℕ
  pub len : ℕ
  pub timestamp : ℤ
  pub timestamp_type : ℕ
  pub status : ℕ

pub record CachedInfo : Type 0 where
  pub topic : String
  pub partition : Partition
  pub offset : Offset
  pub key_size : ℕ
  pub value_size : ℕ
  pub timestamp : Timestamp
  pub persisted_status : PersistedStatus

pub record RecordMetadata : Type 0 where
  pub cached_info : Option CachedInfo
  pub rkmsg : Option RkMessage
  pub record_id : Option ℕ

-- The default constructor, and that of a delivery.
abbrev pub empty : RecordMetadata
empty = record { cached_info = none; rkmsg = none; record_id = none }

abbrev pub of_message : RkMessage → Option ℕ → RecordMetadata
of_message m id = record { cached_info = none; rkmsg = some m; record_id = id }

-- RD_KAFKA_OFFSET_INVALID
abbrev pub offset_invalid : Offset
offset_invalid = negsuc 1000

-- A query reads the message, or the cached information, whose null pointer is not tested.
abbrev pub query {ℓ} :
    {A : Type ℓ} → (RkMessage → A) → (CachedInfo → A) → RecordMetadata → Outcome A
query f g r = elim r.rkmsg [
  | some m ↦ ok (f m)
  | none ↦ elim r.cached_info [ none ↦ Outcome.undefined | some c ↦ ok (g c) ]
]

abbrev pub name_or_empty : Option String → String
name_or_empty none = ""
name_or_empty (some s) = s

-- RD_KAFKA_MSG_STATUS_NOT_PERSISTED is 0, and RD_KAFKA_MSG_STATUS_PERSISTED 2.
abbrev pub status_of : ℕ → PersistedStatus
status_of zero = not
status_of (suc (suc zero)) = done
status_of _ = possibly

abbrev pub status_string : PersistedStatus → String
status_string not = "NotPersisted"
status_string done = "Persisted"
status_string possibly = "PossiblyPersisted"

unfoldable pub topic : RecordMetadata → Outcome String
topic r = query (λ m. name_or_empty m.topic_name) (λ c. c.topic) r

unfoldable pub partition : RecordMetadata → Outcome Partition
partition r = query (λ m. m.partition) (λ c. c.partition) r

abbrev pub valid_offset : Offset → Option Offset
valid_offset o = if eqb_ℤ o offset_invalid then none else some o

unfoldable pub offset : RecordMetadata → Outcome (Option Offset)
offset r = query (λ m. valid_offset m.offset) (λ c. valid_offset c.offset) r

unfoldable pub key_size : RecordMetadata → Outcome ℕ
key_size r = query (λ m. m.key_len) (λ c. c.key_size) r

unfoldable pub value_size : RecordMetadata → Outcome ℕ
value_size r = query (λ m. m.len) (λ c. c.value_size) r

abbrev pub timestamp_of : RkMessage → Timestamp
timestamp_of m = record { ms_since_epoch = m.timestamp; type = convert_type m.timestamp_type }

unfoldable pub timestamp : RecordMetadata → Outcome Timestamp
timestamp r = query timestamp_of (λ c. c.timestamp) r

unfoldable pub persisted_status : RecordMetadata → Outcome PersistedStatus
persisted_status r = query (λ m. status_of m.status) (λ c. c.persisted_status) r

abbrev pub offset_or_invalid : Option Offset → Offset
offset_or_invalid none = offset_invalid
offset_or_invalid (some n) = n

-- `operator=` on another object, and the copy constructor.
unfoldable pub copy : RecordMetadata → Outcome RecordMetadata
unfolding topic partition offset key_size value_size timestamp persisted_status
copy r = offset r >>= λ o. topic r >>= λ t. partition r >>= λ p. key_size r >>= λ k.
    value_size r >>= λ v. timestamp r >>= λ ts. persisted_status r >>= λ s. ok (record {
      cached_info = some (record {
        topic = t;
        partition = p;
        offset = offset_or_invalid o;
        key_size = k;
        value_size = v;
        timestamp = ts;
        persisted_status = s;
      });
      rkmsg = none;
      record_id = r.record_id;
    })

unfoldable pub show : (ℤ → String) → RecordMetadata → Outcome String
unfolding topic partition offset timestamp persisted_status
show local_time r = offset r >>= λ o. topic r >>= λ t. partition r >>= λ p. timestamp r >>= λ ts.
    persisted_status r >>= λ s. ok (
      t
      <> "-"
      <> to_string p
      <> "@"
      <> (elim o [ none ↦ "NA" | some n ↦ to_string n ])
      <> (elim r.record_id [ none ↦ "," | some id ↦ ":id[" <> to_string (pos id) <> "]," ])
      <> show_timestamp local_time ts
      <> ","
      <> status_string s)

-- Two objects answer every query alike.
abbrev pub Alike : RecordMetadata → RecordMetadata → Type 0
Alike r s =
    (topic s ≡ topic r)
    × (partition s ≡ partition r)
    × (offset s ≡ offset r)
    × (key_size s ≡ key_size r)
    × (value_size s ≡ value_size r)
    × (timestamp s ≡ timestamp r)
    × (persisted_status s ≡ persisted_status r)
    × (s.record_id ≡ r.record_id)

valid_offset_kept :
    (o : Offset) → valid_offset (offset_or_invalid (valid_offset o)) ≡ valid_offset o
valid_offset_kept o = ground arith

-- A copy of what a delivery callback is told needs no message any more, and answers every query as the
-- original does while there is one.
pub copy-Alike :
    (m : RkMessage) (id : Option ℕ)
    → (s : RecordMetadata) × (copy (of_message m id) ≡ ok s)
      × (s.rkmsg ≡ none)
      × Alike (of_message m id) s
unfolding copy
copy-Alike m id =
    (_, refl, refl, (refl, refl, ap ok (valid_offset_kept m.offset), refl, refl, refl, refl, refl))
