-- ===== src/Tools/ProducerPerf.antt =====
-- tools/console_clients/KafkaProducerPerfTest.cc: the arguments, which are those after the program's
-- name. The help text is left out.
pub mod RoundTrip
pub mod Stats
pub mod Percentiles
pub mod Periods
pub mod Doubles
pub mod Throttle
use text.Mathlib.Text.{◌==◌ as str_eq}
use modern_cpp_kafka.Prelude.{
  ℕ, ◌-◌, ◌%◌, ◌^◌, String, ℤ, pos, negsuc, Bool, true, false, ◌&&◌, ◌||◌, List, [], ◌∷◌,
  if◌then◌else◌, ltb, ◌==◌, text_ord,
}
use modern_cpp_kafka.Outcome.{Outcome, ok, throw, invalid_argument, ◌>>=◌, ◌>>◌}
use modern_cpp_kafka.StdText.{stoi, stoull, to_string}
use modern_cpp_kafka.Containers.Map.{Map}
use modern_cpp_kafka.Properties.{PropertiesMap, str, object, log_callback, put}
use modern_cpp_kafka.Tools.Options.{is_command_property, add_command_property, put_map}

pub record Arguments : Type 0 where
  pub broker_list : String
  pub topic : String
  pub num_records : ℕ
  pub throughput : ℤ
  pub props : Map String String
  pub record_size : ℕ
  pub warmup_records : ℕ
  pub reporting_interval_ms : ℕ

-- Conversion of an `int` to `std::size_t`.
abbrev pub to_size : ℤ → ℕ
to_size (pos n) = n % 2 ^ 64
to_size (negsuc n) = 2 ^ 64 - 1 - n % 2 ^ 64

pub data Option_ : Type 0 where
  help_option bootstrap_server_option topic_option num_records_option : Option_
  throughput_option command_property_option warmup_records_option : Option_
  reporting_interval_option record_size_option unknown_option : Option_

abbrev pub option_of : String → Option_
option_of arg =
    if str_eq arg "--help" || str_eq arg "-h"
    then help_option
    else if str_eq arg "--bootstrap-server"
    then bootstrap_server_option
    else if str_eq arg "--topic"
    then topic_option
    else if str_eq arg "--num-records"
    then num_records_option
    else if str_eq arg "--throughput"
    then throughput_option
    else if str_eq arg "--command-property"
    then command_property_option
    else if str_eq arg "--warmup-records"
    then warmup_records_option
    else if str_eq arg "--reporting-interval"
    then reporting_interval_option
    else if str_eq arg "--record-size"
    then record_size_option
    else unknown_option

-- What an argument asks for: the end of the process after the help text, the properties that follow,
-- a further argument, or an exception.
pub data Branch : Type 0 where
  quit properties value invalid : Branch

abbrev pub branch_of : Option_ → Branch
branch_of help_option = quit
branch_of command_property_option = properties
branch_of unknown_option = invalid
branch_of _ = value

-- The branches with a value.
unfoldable pub apply_value : Option_ → String → Arguments → Outcome Arguments
apply_value bootstrap_server_option v a = ok (record a { broker_list = v })
apply_value topic_option v a = ok (record a { topic = v })
apply_value num_records_option v a = stoull v >>= λ n. ok (record a { num_records = n })
apply_value throughput_option v a = stoi v >>= λ n. ok (record a { throughput = n })
apply_value warmup_records_option v a = stoull v >>= λ n. ok (record a { warmup_records = n })
apply_value reporting_interval_option v a =
    stoi v >>= λ n. ok (record a { reporting_interval_ms = to_size n })
apply_value record_size_option v a = stoull v >>= λ n. ok (record a { record_size = n })
apply_value _ v a = ok a

-- `std::quick_exit`, or the arguments.
pub data Parsed : Type 0 where
  quick_exit : Parsed
  parsed : Arguments → Parsed

-- The tests after the loop.
unfoldable pub check : Arguments → Outcome Parsed
check a =
    if str_eq a.broker_list ""
    then throw invalid_argument
    else if str_eq a.topic ""
    then throw invalid_argument
    else if a.num_records == 0
    then throw invalid_argument
    else if a.record_size == 0
    then throw invalid_argument
    else if ltb a.num_records a.warmup_records
    then throw invalid_argument
    else ok (parsed a)

-- The loop over the arguments. The flag is set within the loop over the properties.
unfoldable pub scan : List String → Bool → Arguments → Outcome Parsed
unfolding apply_value check
scan [] taking a = check a
scan (arg ∷ []) taking a = elim (taking && is_command_property arg) [
  | true ↦ check (record a { props = add_command_property arg a.props })
  | false ↦ elim (branch_of (option_of arg)) [
    | quit ↦ ok quick_exit
    | properties ↦ check a
    | value ↦ throw invalid_argument
    | invalid ↦ throw invalid_argument
  ]
]
scan (arg ∷ next ∷ rest) taking a = elim (taking && is_command_property arg) [
  | true ↦ scan (next ∷ rest) true (record a { props = add_command_property arg a.props })
  | false ↦ elim (branch_of (option_of arg)) [
    | quit ↦ ok quick_exit
    | properties ↦ scan (next ∷ rest) true a
    | value ↦ apply_value (option_of arg) next a >>= λ b. scan rest false b
    | invalid ↦ throw invalid_argument
  ]
]

abbrev pub defaults : Arguments
defaults = record {
  broker_list = "";
  topic = "";
  num_records = 0;
  throughput = negsuc 0;
  props = [];
  record_size = 0;
  warmup_records = 0;
  reporting_interval_ms = 5000;
}

-- `Arguments(argc, argv)`
unfoldable pub parse_arguments : List String → Outcome Parsed
unfolding scan
parse_arguments argv = scan argv false defaults

-- The configuration that `main` makes; `thread` is the name with the thread's number.
unfoldable pub configure : String → Arguments → Outcome PropertiesMap
configure thread a = put "bootstrap.servers" (str a.broker_list) [] >>= λ p.
    put "client.id" (str thread) p >>= λ q. put_map a.props q >>= λ r.
    put "message.timeout.ms" (str (to_string (pos 10000))) r >>= λ s.
    put "log_cb" (object log_callback 0) s
