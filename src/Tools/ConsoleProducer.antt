-- ===== src/Tools/ConsoleProducer.antt =====
-- tools/console_clients/KafkaConsoleProducer.cc: sending the lines of the standard input. The arguments
-- are those after the program's name. What is printed is left out.
pub mod Laws
use text.Mathlib.Text.{◌==◌ as str_eq}
use modern_cpp_kafka.Prelude.{
  ℕ, String, ℤ, negsuc, Bool, true, false, ◌||◌, Option, none, some, List, [], ◌∷◌, ◌++◌,
  if◌then◌else◌, is_empty, text_ord,
}
use modern_cpp_kafka.Outcome.{RespErr, Outcome, ok, throw, Exception, kafka_error, ◌>>=◌}
use modern_cpp_kafka.StdText.{stoi}
use modern_cpp_kafka.Containers.Map.{Map}
use modern_cpp_kafka.Types.{Partition, unassigned}
use modern_cpp_kafka.Properties.{PropertiesMap, str, object, log_callback, put}
use modern_cpp_kafka.Producer.{Buffer, ProducerRecord, KafkaProducer, Vu}
use modern_cpp_kafka.Producer.SyncSend.{DeliveryReport, sync_send}
use modern_cpp_kafka.Tools.Options.{
  Exit, exit_success, exit_failure, terminated, set_props, put_map,
}

pub record Arguments : Type 0 where
  pub broker_list : String
  pub topic : String
  pub partition : Option Partition
  pub props : Map String String

pub record Scan : Type 0 where
  pub args : Arguments
  pub prop_list : List String
  pub help : Bool

pub data Option_ : Type 0 where
  help_option broker_list_option topic_option partition_option : Option_
  props_option unknown_option : Option_

abbrev pub option_of : String → Option_
option_of arg =
    if str_eq arg "--help" || str_eq arg "-h"
    then help_option
    else if str_eq arg "--broker-list"
    then broker_list_option
    else if str_eq arg "--topic"
    then topic_option
    else if str_eq arg "--partition"
    then partition_option
    else if str_eq arg "--props"
    then props_option
    else unknown_option

abbrev pub takes_value : Option_ → Bool
takes_value help_option = false
takes_value unknown_option = false
takes_value _ = true

abbrev pub apply_flag : Option_ → Scan → Scan
apply_flag help_option s = record s { help = true }
apply_flag _ s = s

unfoldable pub apply_value : Option_ → String → Scan → Outcome Scan
apply_value broker_list_option v s = ok (record s { args = record s.args { broker_list = v } })
apply_value topic_option v s = ok (record s { args = record s.args { topic = v } })
apply_value partition_option v s =
    stoi v >>= λ n. ok (record s { args = record s.args { partition = some n } })
apply_value props_option v s = ok (record s { prop_list = s.prop_list ++ (v ∷ []) })
apply_value _ v s = ok s

-- The loop over the arguments.
unfoldable pub scan : List String → Scan → Outcome Scan
unfolding apply_value
scan [] s = ok s
scan (arg ∷ []) s = ok (apply_flag (option_of arg) s)
scan (arg ∷ next ∷ rest) s = elim (takes_value (option_of arg)) [
  | true ↦ apply_value (option_of arg) next s >>= λ t. scan rest t
  | false ↦ scan (next ∷ rest) (apply_flag (option_of arg) s)
]

abbrev pub defaults : Scan
defaults = record {
  args = record { broker_list = ""; topic = ""; partition = none; props = [] };
  prop_list = [];
  help = false;
}

-- `none` is the null pointer that is returned after the help text.
unfoldable pub parse_arguments : List String → Outcome (Option Arguments)
unfolding scan
parse_arguments argv = scan argv defaults >>= λ s.
    if s.help || is_empty argv
    then ok none
    else set_props s.prop_list s.args.props >>= λ props. ok (some (record s.args { props = props }))

-- The configuration; `thread` is the name with the thread's number.
unfoldable pub configure : String → Arguments → Outcome PropertiesMap
configure thread args = put "bootstrap.servers" (str args.broker_list) [] >>= λ p.
    put "client.id" (str thread) p >>= λ q.
    put_map args.props q >>= λ r. put "log_cb" (object log_callback 0) r

-- A line of the input, in its memory block, with what librdkafka answers to its message and the
-- reports that it makes.
pub record InputLine : Type 0 where
  pub text : Buffer
  pub produceva : List Vu → RespErr
  pub reports : List DeliveryReport

abbrev pub null_key : Buffer
null_key = record { data_ = 0; size = 0 }

abbrev pub record_of : Arguments → InputLine → ProducerRecord
record_of args line = record {
  topic = args.topic;
  partition = elim args.partition [ none ↦ unassigned | some p ↦ p ];
  key = null_key;
  value = line.text;
  headers = [];
  id = none;
}

-- The loop over the input.
unfoldable pub send_lines :
    Arguments → List InputLine → KafkaProducer → KafkaProducer × Outcome (Unit {0})
send_lines args [] p = (p, ok tt)
send_lines args (line ∷ lines) p =
    let (q, outcome) = sync_send line.produceva line.reports (record_of args line) p in
    elim outcome [
      | ok u ↦ send_lines args lines q
      | throw e ↦ (q, throw e)
      | Outcome.undefined ↦ (q, Outcome.undefined)
      | Outcome.out_of_fuel ↦ (q, Outcome.out_of_fuel)
    ]

-- The producer, if it was made, and the end of the process. Only a KafkaException is caught.
abbrev pub exit_of {ℓ} : {A : Type ℓ} → Outcome A → Outcome Exit
exit_of (ok u) = ok exit_success
exit_of (throw (kafka_error e)) = ok exit_failure
exit_of (throw e) = ok terminated
exit_of Outcome.undefined = Outcome.undefined
exit_of Outcome.out_of_fuel = Outcome.out_of_fuel

abbrev pub sent_lines : KafkaProducer × Outcome (Unit {0}) → Option KafkaProducer × Outcome Exit
sent_lines (p, outcome) = (some p, exit_of outcome)

-- What the arguments come to, and then the producer that is made, if any. The whole of `main` stands
-- in one `try`.
unfoldable pub setup :
    (PropertiesMap → Outcome KafkaProducer)
    → String
    → List String
    → Outcome (Option (Arguments × KafkaProducer))
unfolding parse_arguments configure
setup create thread argv = parse_arguments argv >>= λ parsed. elim parsed [
  | none ↦ ok none
  | some args ↦
      configure thread args >>= λ props. create props >>= λ producer. ok (some (args, producer))
]

unfoldable pub main :
    (PropertiesMap → Outcome KafkaProducer)
    → String
    → List InputLine
    → List String
    → Option KafkaProducer × Outcome Exit
unfolding setup send_lines
main create thread input argv = elim (setup create thread argv) [
  | ok none ↦ (none, ok exit_success)
  | ok (some (args, producer)) ↦ sent_lines (send_lines args input producer)
  | throw e ↦ (none, exit_of {A = Unit {0}} (throw e))
  | Outcome.undefined ↦ (none, Outcome.undefined)
  | Outcome.out_of_fuel ↦ (none, Outcome.out_of_fuel)
]
