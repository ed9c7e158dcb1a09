-- ===== src/Client/Tests.antt =====
-- The client's configuration and metadata at concrete inputs.
use modern_cpp_kafka.Prelude.{
  ◌≡◌, refl, pos, String, true, false, none, some, [], ◌∷◌, text_ord, text_lt, int_ord,
}
use modern_cpp_kafka.Outcome.{no_error, fail, ok}
use modern_cpp_kafka.StdText.{stoi, read_signed, read_number, read_digits}
use modern_cpp_kafka.Containers.Map.{find, contains, IsSorted}
use modern_cpp_kafka.Types.{Partition}
use modern_cpp_kafka.Properties.{
  PropertiesMap, str, object, error_callback, get_property, get, is_invalid, is_non_string_key,
}
use modern_cpp_kafka.Properties.Laws.{IsValid}
use modern_cpp_kafka.Client.{KafkaClient, RdKafka, kafka_producer}
use modern_cpp_kafka.Client.Setup.{construct}
use modern_cpp_kafka.Client.Construct.{LevelIs, PollIs, in_effect, construct_lem}
use modern_cpp_kafka.Client.Metadata.{
  RkPartition, RkTopic, RkMetadata, BrokerMetadata, find_topic, fetch_broker_metadata, first_sound,
  fetch_broker_metadata-partitions,
}

abbrev given : PropertiesMap
given =
    ("bootstrap.servers", str "b:9092")
    ∷ ("error_cb", object error_callback 4)
    ∷ ("log_level", str "3")
    ∷ []

has_servers : get_property "bootstrap.servers" given ≡ some "b:9092"
unfolding get_property get contains find text_lt
has_servers = refl

given-IsValid : IsValid given
unfolding is_invalid is_non_string_key
given-IsValid = (refl, (refl, (refl, tt)))

given-IsSorted : IsSorted given
unfolding text_lt
given-IsSorted = (refl, (refl, tt))

abbrev rk : RdKafka
rk = record {
  conf_set = λ k v. true;
  add_on_new = no_error;
  last_error = no_error;
  brokers_add = λ s. 1;
}

level_3 : LevelIs (get_property "log_level" given) (pos 3)
unfolding get_property get contains find text_lt stoi read_signed read_number read_digits
level_3 = refl

no_manual : PollIs (get_property "enable.manual.events.poll" given) false
unfolding get_property get contains find text_lt
no_manual = refl

construct_lem_example :
    (c : KafkaClient) × (construct rk kafka_producer given ≡ ok c)
    × (c.opened ≡ true)
    × (c.log_level ≡ pos 3)
    × (c.enable_manual_events_poll ≡ false)
    × (c.error_cb ≡ find "error_cb" given)
    × (c.stats_cb ≡ find "stats_cb" given)
    × ((k : String) → find k c.properties ≡ in_effect rk k (find k given))
construct_lem_example =
    construct_lem rk kafka_producer given (pos 3) false "b:9092" given-IsValid given-IsSorted
      level_3 no_manual has_servers refl refl refl

abbrev sound : RkPartition
sound = record {
  id = pos 0;
  err = no_error;
  leader = pos 1;
  replicas = pos 1 ∷ [];
  isrs = pos 1 ∷ [];
}

abbrev broken : RkPartition
broken = record { id = pos 1; err = fail; leader = pos 1; replicas = []; isrs = [] }

abbrev topic_t : RkTopic
topic_t = record { topic = "t"; err = no_error; partitions = broken ∷ sound ∷ [] }

abbrev metadata : RkMetadata
metadata = record { topics = topic_t ∷ []; brokers = []; orig_broker_name = none }

topic_found : find_topic "t" metadata.topics ≡ some topic_t
unfolding find_topic
topic_found = refl

fetch_broker_metadata-partitions_example :
    (m : BrokerMetadata) × (fetch_broker_metadata "t" no_error metadata ≡ some m)
    × (m.topic ≡ "t")
    × ((p : Partition) → find p m.partitions ≡ first_sound p topic_t.partitions)
fetch_broker_metadata-partitions_example =
    fetch_broker_metadata-partitions "t" no_error metadata topic_t refl topic_found refl
