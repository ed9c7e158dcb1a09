-- ===== src/Admin.antt =====
-- include/kafka/AdminClient.h: creating, deleting and listing topics, and deleting records. The events
-- that the queue gives are a list, one for each poll before the time limit; the answers of librdkafka
-- are arguments. Log lines are left out.
pub mod Results
mod Tests
use Prim.Native.String.{◌++◌ as append}
use text.Mathlib.Text.{◌==◌ as str_eq}
use modern_cpp_kafka.Prelude.{
  String, ℤ, Bool, true, false, Option, none, some, List, [], ◌∷◌, ◌++◌, if◌then◌else◌, text_ord,
  ◌==◌, ℕ,
}
use modern_cpp_kafka.Outcome.{RespErr, no_error, invalid_arg, timed_out, is_error}
use modern_cpp_kafka.StdText.{to_string}
use modern_cpp_kafka.Containers.Map.{add}
use modern_cpp_kafka.Types.{Topic, Topics, TopicPartitionOffsets}
use modern_cpp_kafka.RdKafka.{RkTopicPartition, RkList, elems, create_of_offsets}
use modern_cpp_kafka.Properties.{PropertiesMap, ValueType, str, object}
use modern_cpp_kafka.Error.{Error, of_rk, with_message, value, message}

-- rd_kafka_topic_result_t
pub record TopicResult : Type 0 where
  pub name : Topic
  pub err : RespErr
  pub error_string : String

pub data AdminEventType : Type 0 where
  create_topics_result delete_topics_result delete_records_result other_event : AdminEventType

-- An event of the queue: its type, its error, and the results of topics or of partitions in it.
pub record AdminEvent : Type 0 where
  pub type : AdminEventType
  pub err : RespErr
  pub error_string : String
  pub topics : List TopicResult
  pub partitions : RkList

module _ (err2str : RespErr → String) where
  unfoldable pub get_per_topic_results : List TopicResult → List Error
  get_per_topic_results [] = []
  get_per_topic_results (r ∷ rs) =
      let rest = get_per_topic_results rs in
      if is_error r.err
      then with_message r.err
          (append (append (append (append "topic[" r.name) "] with error[") r.error_string) "]")
          false
        ∷ rest
      else rest

  pub partition_errors : List RkTopicPartition → List Error
  partition_errors [] = []
  partition_errors (e ∷ es) =
      let rest = partition_errors es in
      if is_error e.err
      then with_message e.err
          (append
            (append
              (append
                (append (append (append "topic-partition[" e.topic) "-") (to_string e.partition))
                "] with error[")
              (err2str e.err))
            "]")
          false
        ∷ rest
      else rest

  -- A null list has no results.
  unfoldable pub get_per_topic_partition_results : RkList → List Error
  unfolding partition_errors
  get_per_topic_partition_results results = partition_errors (elems results)

  -- The loop over the messages, after `detailed`.
  pub join_messages : List Error → String → String
  join_messages [] detailed = detailed
  join_messages (e ∷ es) detailed =
      join_messages es
        (append (if str_eq detailed "" then detailed else append detailed "; ") (message err2str e))

  unfoldable pub combine_errors : List Error → Error
  unfolding join_messages
  combine_errors [] = with_message no_error "Success" false
  combine_errors (e ∷ es) = with_message (value e) (join_messages (e ∷ es) "") false

  abbrev pub type_id : AdminEventType → ℕ
  type_id create_topics_result = 1
  type_id delete_topics_result = 2
  type_id delete_records_result = 3
  type_id other_event = 4

  -- The loop that polls the queue: an event of another type is dropped, and `none` is a poll that
  -- gives no event.
  unfoldable pub poll_event : AdminEventType → List (Option AdminEvent) → Option AdminEvent
  poll_event type [] = none
  poll_event type (none ∷ events) = poll_event type events
  poll_event type (some e ∷ events) =
      let rest = poll_event type events in if type_id e.type == type_id type then some e else rest

  -- The error of the event itself, which stands before those of its parts.
  abbrev pub event_errors : AdminEvent → List Error
  event_errors e = if is_error e.err then with_message e.err e.error_string false ∷ [] else []

  -- `set_config` is rd_kafka_NewTopic_set_config for a topic.
  unfoldable pub configure_topic : (String → String → RespErr) → PropertiesMap → Option Error
  configure_topic set_config [] = none
  configure_topic set_config ((k, object kind n) ∷ p) = configure_topic set_config p
  configure_topic set_config ((k, str v) ∷ p) =
      let rest = configure_topic set_config p in
      if is_error (set_config k v)
      then some (
          with_message invalid_arg (append (append (append (append "Invalid config[" k) "=") v) "]")
            false)
      else rest

  -- The loop that makes the new topics: the error that ends it, if any. `new_topic` is false where
  -- rd_kafka_NewTopic_new gives null.
  unfoldable pub new_topics :
      (Topic → Bool) → (Topic → String → String → RespErr) → PropertiesMap → Topics → Option Error
  unfolding configure_topic
  new_topics new_topic set_config config [] = none
  new_topics new_topic set_config config ((t, _) ∷ ts) =
      let rest = new_topics new_topic set_config config ts in
      if new_topic t
      then (elim (configure_topic (set_config t) config) [ none ↦ rest | some e ↦ some e ])
      else some (with_message invalid_arg (err2str invalid_arg) false)

  pub insert_names : List Topic → Topics → Topics
  insert_names [] names = names
  insert_names (t ∷ ts) names = insert_names ts (add t names)

  pub record ListTopicsResult : Type 0 where
    pub error : Error
    pub topics : Topics

  -- `err` and `topics` are what rd_kafka_metadata gives.
  unfoldable pub list_topics : RespErr → List Topic → ListTopicsResult
  unfolding insert_names
  list_topics err topics =
      if is_error err
      then record { error = with_message err (err2str err) false; topics = [] }
      else record { error = of_rk none; topics = insert_names topics [] }

  -- The loop that lists the topics once they are made, by the codes that rd_kafka_metadata gives, the
  -- first of which is there.
  unfoldable pub update_metadata : RespErr → List RespErr → Error
  update_metadata err [] =
      if is_error err
      then with_message timed_out "Updating metadata timed out" false
      else with_message no_error "Success" false
  update_metadata err (next ∷ later) =
      let rest = update_metadata next later in
      if is_error err then rest else with_message no_error "Success" false

  abbrev pub no_response : Error
  no_response = with_message timed_out "No response within the time limit" false

  -- Once the request is made.
  unfoldable pub finish_create : List (Option AdminEvent) → RespErr → List RespErr → Error
  unfolding poll_event get_per_topic_results combine_errors update_metadata
  finish_create events listed later = elim (poll_event create_topics_result events) [
    | none ↦ no_response
    | some e ↦
        let errors = event_errors e ++ get_per_topic_results e.topics in
        elim errors [ [] ↦ update_metadata listed later | x ∷ xs ↦ combine_errors (x ∷ xs) ]
  ]

  -- With the topics that are asked for, if librdkafka is asked at all.
  unfoldable pub create_topics :
      (Topic → Bool)
      → (Topic → String → String → RespErr)
      → PropertiesMap
      → Topics
      → List (Option AdminEvent)
      → RespErr
      → List RespErr
      → Option Topics × Error
  unfolding new_topics finish_create
  create_topics new_topic set_config config topics events listed later =
      elim (new_topics new_topic set_config config topics) [
        | some e ↦ (none, e)
        | none ↦ (some topics, finish_create events listed later)
      ]

  -- `new_request` is rd_kafka_DeleteTopic_new.
  unfoldable pub make_delete_requests {ℓ} : {A : Type ℓ} → (Topic → A) → Topics → List A → List A
  make_delete_requests new_request [] made = made
  make_delete_requests new_request ((t, _) ∷ ts) made =
      make_delete_requests new_request ts (made ++ (new_request t ∷ []))

  -- With the requests that rd_kafka_DeleteTopics is given.
  unfoldable pub delete_topics {ℓ} :
      {A : Type ℓ} → (Topic → A) → Topics → List (Option AdminEvent) → List A × Error
  unfolding make_delete_requests poll_event get_per_topic_results combine_errors
  delete_topics new_request topics events = (
    make_delete_requests new_request topics [],
    elim (poll_event delete_topics_result events) [
      | none ↦ no_response
      | some e ↦ combine_errors (event_errors e ++ get_per_topic_results e.topics)
    ],
  )

  unfoldable pub delete_records : TopicPartitionOffsets → List (Option AdminEvent) → RkList × Error
  unfolding poll_event get_per_topic_partition_results combine_errors
  delete_records tpos events = (
    create_of_offsets tpos,
    elim (poll_event delete_records_result events) [
      | none ↦ no_response
      | some e ↦ combine_errors (event_errors e ++ get_per_topic_partition_results e.partitions)
    ],
  )
