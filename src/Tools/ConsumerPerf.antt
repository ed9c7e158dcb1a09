-- ===== src/Tools/ConsumerPerf.antt =====
-- tools/console_clients/KafkaConsumerPerfTest.cc: the arguments, which are those after the program's
-- name. The help text is left out.
pub mod Consume
pub mod Report
use text.Mathlib.Text.{◌==◌ as str_eq}
use modern_cpp_kafka.Prelude.{
  ℕ, String, Bool, true, false, ◌&&◌, ◌||◌, List, [], ◌∷◌, if◌then◌else◌, ◌==◌, text_ord,
}
use modern_cpp_kafka.Outcome.{Outcome, ok, throw, invalid_argument, ◌>>=◌}
use modern_cpp_kafka.StdText.{stoi, stoull}
use modern_cpp_kafka.Containers.Map.{Map}
use modern_cpp_kafka.Properties.{PropertiesMap, str, object, log_callback, put}
use modern_cpp_kafka.Tools.Options.{is_command_property, add_command_property, put_map}
use modern_cpp_kafka.Tools.ProducerPerf.{to_size}

pub record Arguments : Type 0 where
  pub broker_list : String
  pub topic : String
  pub num_records : ℕ
  pub props : Map String String
  pub group : String
  pub from_latest : Bool
  pub show_latency : Bool
  pub reporting_interval_ms : ℕ

pub data Option_ : Type 0 where
  help_option bootstrap_server_option topic_option num_records_option : Option_
  command_property_option group_option from_latest_option show_latency_option : Option_
  reporting_interval_option unknown_option : Option_

abbrev pub option_of : String → Option_
option_of arg =
    if str_eq arg "--help" || str_eq arg "-h"
    then help_option
    else if str_eq arg "--bootstrap-server"
    then bootstrap_server_option
    else if str_eq arg "--topic"
    then topic_option
    else if str_eq arg "--num-records"
    then num_records_option
    else if str_eq arg "--command-property"
    then command_property_option
    else if str_eq arg "--group"
    then group_option
    else if str_eq arg "--from-latest"
    then from_latest_option
    else if str_eq arg "--show-latency"
    then show_latency_option
    else if str_eq arg "--reporting-interval"
    then reporting_interval_option
    else unknown_option

-- What an argument asks for: the end of the process after the help text, the properties that follow,
-- nothing more, a further argument, or an exception.
pub data Branch : Type 0 where
  quit properties flag value invalid : Branch

abbrev pub branch_of : Option_ → Branch
branch_of help_option = quit
branch_of command_property_option = properties
branch_of from_latest_option = flag
branch_of show_latency_option = flag
branch_of unknown_option = invalid
branch_of _ = value

abbrev pub apply_flag : Option_ → Arguments → Arguments
apply_flag from_latest_option a = record a { from_latest = true }
apply_flag show_latency_option a = record a { show_latency = true }
apply_flag _ a = a

-- The branches with a value.
unfoldable pub apply_value : Option_ → String → Arguments → Outcome Arguments
apply_value bootstrap_server_option v a = ok (record a { broker_list = v })
apply_value topic_option v a = ok (record a { topic = v })
apply_value num_records_option v a = stoull v >>= λ n. ok (record a { num_records = n })
apply_value group_option v a = ok (record a { group = v })
apply_value reporting_interval_option v a =
    stoi v >>= λ n. ok (record a { reporting_interval_ms = to_size n })
apply_value _ v a = ok a

-- `std::quick_exit`, or the arguments.
pub data Parsed : Type 0 where
  quick_exit : Parsed
  parsed : Arguments → Parsed

-- The tests after the loop.
unfoldable pub check : Arguments → Outcome Parsed
check a =
    if str_eq a.broker_list ""
    then throw invalid_argument
    else if str_eq a.topic ""
    then throw invalid_argument
    else if a.num_records == 0
    then throw invalid_argument
    else ok (parsed a)

-- The loop over the arguments. The flag is set within the loop over the properties.
unfoldable pub scan : List String → Bool → Arguments → Outcome Parsed
unfolding apply_value check
scan [] taking a = check a
scan (arg ∷ []) taking a = elim (taking && is_command_property arg) [
  | true ↦ check (record a { props = add_command_property arg a.props })
  | false ↦ elim (branch_of (option_of arg)) [
    | quit ↦ ok quick_exit
    | properties ↦ check a
    | flag ↦ check (apply_flag (option_of arg) a)
    | value ↦ throw invalid_argument
    | invalid ↦ throw invalid_argument
  ]
]
scan (arg ∷ next ∷ rest) taking a = elim (taking && is_command_property arg) [
  | true ↦ scan (next ∷ rest) true (record a { props = add_command_property arg a.props })
  | false ↦ elim (branch_of (option_of arg)) [
    | quit ↦ ok quick_exit
    | properties ↦ scan (next ∷ rest) true a
    | flag ↦ scan (next ∷ rest) false (apply_flag (option_of arg) a)
    | value ↦ apply_value (option_of arg) next a >>= λ b. scan rest false b
    | invalid ↦ throw invalid_argument
  ]
]

abbrev pub defaults : Arguments
defaults = record {
  broker_list = "";
  topic = "";
  num_records = 0;
  props = [];
  group = "";
  from_latest = false;
  show_latency = false;
  reporting_interval_ms = 5000;
}

-- `Arguments(argc, argv)`
unfoldable pub parse_arguments : List String → Outcome Parsed
unfolding scan
parse_arguments argv = scan argv false defaults

-- The configuration that `main` makes; `thread` is the name with the thread's number.
unfoldable pub configure : String → Arguments → Outcome PropertiesMap
configure thread a = put "bootstrap.servers" (str a.broker_list) [] >>= λ p.
    put "group.id" (str (if str_eq a.group "" then thread else a.group)) p >>= λ q.
    put_map a.props q >>= λ r.
    put "auto.offset.reset" (str (if a.from_latest then "latest" else "earliest")) r >>= λ s.
    put "log_cb" (object log_callback 0) s
