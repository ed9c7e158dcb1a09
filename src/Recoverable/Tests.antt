-- ===== src/Recoverable/Tests.antt =====
-- Turns of the recoverable producer's loop with a fatal error.
use modern_cpp_kafka.Containers.Map.{contains, insert}
use modern_cpp_kafka.Prelude.{
  List, ◌+◌, text_lt, ℤ, pos, arith, ◌≡◌, refl, true, false, none, some, [], ◌∷◌,
}
use modern_cpp_kafka.Outcome.{no_error, fail, invalid_arg, Outcome, ok, throw, kafka_error}
use modern_cpp_kafka.Properties.{PropertiesMap, put, str, get_property}
use modern_cpp_kafka.StdText.{to_string}
use modern_cpp_kafka.Error.{Error, with_message}
use modern_cpp_kafka.Producer.{KafkaProducer}
use modern_cpp_kafka.Recoverable.{KafkaRecoverableProducer, Turn, turn, turns}
use modern_cpp_kafka.Producer.Configure
use modern_cpp_kafka.Recoverable.Replaced.{replacements, Ends, turns-replaced}
use modern_cpp_kafka.Client.{
  KafkaClient, set_log_level as client_set_log_level, RdKafka, put_default,
  validate_and_reform_properties,
}
use modern_cpp_kafka.Client.Setup.{fetch}
use modern_cpp_kafka.Recoverable.Operations.{set_log_level}
use modern_cpp_kafka.Recoverable.Operations.LogLevel.{create, IsTaken, set_log_level-terminates}

abbrev fresh : KafkaProducer
fresh = record {
  opened = true;
  auto_polling = false;
  next = 0;
  held = [];
  freed = [];
  delivered = [];
  produced = [];
  purged = 0;
}

abbrev create_fresh : PropertiesMap → Outcome KafkaProducer
create_fresh p = ok fresh

abbrev recoverable : KafkaRecoverableProducer
recoverable = record {
  properties = [];
  fatal_error = none;
  polling = true;
  producer = some fresh;
  closed = [];
}

abbrev fatal_error : Error
fatal_error = with_message fail "fenced" true

abbrev quiet : Turn
quiet = record {
  reports = [];
  error = none;
  stop = false;
  flush = no_error;
  flush_reports = [];
  last_reports = [];
  closing_error = none;
}

abbrev met_fatal_error : Turn
met_fatal_error = record quiet { error = some fatal_error }

-- The second turn has the error that the first one meets in closing.
abbrev some_turns : List Turn
some_turns =
    record met_fatal_error { closing_error = some fatal_error }
    ∷ quiet
    ∷ quiet
    ∷ record met_fatal_error { stop = true }
    ∷ []

twice : replacements false some_turns ≡ 2
unfolding replacements
twice = refl

turns-replaced_example :
    (q : KafkaRecoverableProducer) × (turns create_fresh some_turns recoverable ≡ ok q)
    × Ends [] (replacements false some_turns + 0) q
turns-replaced_example = turns-replaced create_fresh fresh fresh some_turns recoverable refl refl tt

abbrev set_nothing : ℤ → KafkaProducer → KafkaProducer
set_nothing level producer = producer

abbrev with_servers : KafkaRecoverableProducer
with_servers = record recoverable { properties = ("bootstrap.servers", str "b:9092") ∷ [] }

-- The producer whose level was set to 9.
abbrev louder : KafkaRecoverableProducer × Outcome (Unit {0})
louder = set_log_level set_nothing (pos 9) with_servers

abbrev reformed : PropertiesMap
reformed =
    ("bootstrap.servers", str "b:9092")
    ∷ ("client.id", str "r")
    ∷ ("log_level", str (to_string (pos 9)))
    ∷ []

louder-IsTaken : IsTaken "r" louder.0.properties
unfolding set_log_level put put_default validate_and_reform_properties fetch get_property contains
    insert text_lt Configure.validate_and_reform_properties
louder-IsTaken = (reformed, refl, (none, refl))

abbrev rk : RdKafka
rk = record {
  conf_set = λ k v. true;
  add_on_new = no_error;
  last_error = no_error;
  brokers_add = λ s. 1;
}

set_log_level-terminates_example :
    (louder.1 ≡ ok tt)
    × ((c : KafkaClient) → (client_set_log_level (pos 9) c).log_level ≡ pos 7)
    × (get_property "log_level" louder.0.properties ≡ some (to_string (pos 9)))
    × (turn (create rk "r" (λ c. ok fresh)) (record quiet { error = some fatal_error }) louder.0
        ≡ throw (kafka_error invalid_arg))
set_log_level-terminates_example =
    set_log_level-terminates rk "r" (λ c. ok fresh) set_nothing 9
      (record quiet { error = some fatal_error }) with_servers fresh fatal_error (omega arith)
      (omega arith) refl refl refl refl louder-IsTaken
