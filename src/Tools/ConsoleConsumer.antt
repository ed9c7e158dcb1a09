-- ===== src/Tools/ConsoleConsumer.antt =====
-- tools/console_clients/KafkaConsoleConsumer.cc: printing the records of a topic until an interrupt.
-- The arguments are those after the program's name; a printed record is the record itself.
pub mod Laws
use text.Mathlib.Text.{◌==◌ as str_eq}
use modern_cpp_kafka.Prelude.{
  ℕ, zero, suc, String, Bool, true, false, not, ◌||◌, Option, none, some, List, [], ◌∷◌, ◌++◌, map,
  if◌then◌else◌, is_empty, text_ord,
}
use modern_cpp_kafka.Outcome.{is_error, Outcome, ok, throw, Exception, kafka_error, ◌>>=◌, ◌>>◌}
use modern_cpp_kafka.Containers.Map.{Map}
use modern_cpp_kafka.Properties.{PropertiesMap, str, object, log_callback, put}
use modern_cpp_kafka.Consumer.Poll.{ConsumerRecord}
use modern_cpp_kafka.Tools.Options.{
  Exit, exit_success, exit_failure, terminated, set_props, put_map,
}

pub record Arguments : Type 0 where
  pub broker_list : String
  pub topic : String
  pub props : Map String String

pub record Scan : Type 0 where
  pub args : Arguments
  pub prop_list : List String
  pub help : Bool

pub data Option_ : Type 0 where
  help_option broker_list_option topic_option props_option unknown_option : Option_

abbrev pub option_of : String → Option_
option_of arg =
    if str_eq arg "--help" || str_eq arg "-h"
    then help_option
    else if str_eq arg "--broker-list"
    then broker_list_option
    else if str_eq arg "--topic"
    then topic_option
    else if str_eq arg "--props"
    then props_option
    else unknown_option

abbrev pub takes_value : Option_ → Bool
takes_value help_option = false
takes_value unknown_option = false
takes_value _ = true

abbrev pub apply_flag : Option_ → Scan → Scan
apply_flag help_option s = record s { help = true }
apply_flag _ s = s

abbrev pub apply_value : Option_ → String → Scan → Scan
apply_value broker_list_option v s = record s { args = record s.args { broker_list = v } }
apply_value topic_option v s = record s { args = record s.args { topic = v } }
apply_value props_option v s = record s { prop_list = s.prop_list ++ (v ∷ []) }
apply_value _ v s = s

-- The loop over the arguments.
unfoldable pub scan : List String → Scan → Scan
scan [] s = s
scan (arg ∷ []) s = apply_flag (option_of arg) s
scan (arg ∷ next ∷ rest) s = elim (takes_value (option_of arg)) [
  | true ↦ scan rest (apply_value (option_of arg) next s)
  | false ↦ scan (next ∷ rest) (apply_flag (option_of arg) s)
]

abbrev pub defaults : Scan
defaults = record {
  args = record { broker_list = ""; topic = ""; props = [] };
  prop_list = [];
  help = false;
}

-- `none` is the null pointer that is returned after the help text.
unfoldable pub parse_arguments : List String → Outcome (Option Arguments)
unfolding scan
parse_arguments argv =
    let s = scan argv defaults in
    if s.help || is_empty argv
    then ok none
    else set_props s.prop_list s.args.props >>= λ props. ok (some (record s.args { props = props }))

-- `running`, and whether SIGINT is ignored.
pub record Signals : Type 0 where
  pub running : Bool
  pub ignored : Bool

-- The handler of SIGINT, for each one that comes.
unfoldable pub stop_running : ℕ → Signals → Signals
stop_running zero s = s
stop_running (suc n) s =
    stop_running n (if s.running then record s { running = false } else record s { ignored = true })

-- A round of the loop: the interrupts that come before its test, and what its poll gives.
pub record Round : Type 0 where
  pub interrupts : ℕ
  pub polled : Outcome (List ConsumerRecord)

-- A record is written to the output, a record with an error to the error output.
pub data Line : Type 0 where
  shown reported : ConsumerRecord → Line

abbrev pub line_of : ConsumerRecord → Line
line_of r = if is_error r.err then reported r else shown r

-- The loop of `RunConsumer`, with the lines that it writes. It goes on past the rounds that are given.
unfoldable pub consume : List Round → Signals → List Line → List Line × Outcome (Unit {0})
unfolding stop_running
consume [] s lines = (lines, Outcome.out_of_fuel)
consume (r ∷ rs) s lines = elim (stop_running r.interrupts s).running [
  | false ↦ (lines, ok tt)
  | true ↦ elim r.polled [
    | ok records ↦ consume rs (stop_running r.interrupts s) (lines ++ map (λ x. line_of x) records)
    | throw e ↦ (lines, throw e)
    | Outcome.undefined ↦ (lines, Outcome.undefined)
    | Outcome.out_of_fuel ↦ (lines, Outcome.out_of_fuel)
  ]
]

abbrev pub started : Signals
started = record { running = true; ignored = false }

-- The configuration that `main` makes; `thread` is the name with the thread's number.
unfoldable pub configure : String → Arguments → Outcome PropertiesMap
configure thread args = put "bootstrap.servers" (str args.broker_list) [] >>= λ p.
    put "client.id" (str thread) p >>= λ q.
    put_map args.props q >>= λ r. put "log_cb" (object log_callback 0) r

-- Only a KafkaException is caught.
abbrev pub exit_of : List Line × Outcome (Unit {0}) → List Line × Outcome Exit
exit_of (lines, ok u) = (lines, ok exit_success)
exit_of (lines, throw (kafka_error e)) = (lines, ok exit_failure)
exit_of (lines, throw e) = (lines, ok terminated)
exit_of (lines, Outcome.undefined) = (lines, Outcome.undefined)
exit_of (lines, Outcome.out_of_fuel) = (lines, Outcome.out_of_fuel)

-- `RunConsumer`: `client` is how making the consumer and subscribing end.
unfoldable pub run_consumer :
    (PropertiesMap → Outcome (Unit {0}))
    → List Round
    → PropertiesMap
    → List Line × Outcome (Unit {0})
unfolding consume
run_consumer client rounds props = elim (client props) [
  | ok u ↦ consume rounds started []
  | throw e ↦ ([], throw e)
  | Outcome.undefined ↦ ([], Outcome.undefined)
  | Outcome.out_of_fuel ↦ ([], Outcome.out_of_fuel)
]

-- The configuration stands outside the `try`.
unfoldable pub main :
    (PropertiesMap → Outcome (Unit {0}))
    → String
    → List Round
    → List String
    → List Line × Outcome Exit
unfolding parse_arguments configure run_consumer
main client thread rounds argv = elim (parse_arguments argv) [
  | ok none ↦ ([], ok exit_success)
  | ok (some args) ↦ elim (configure thread args) [
    | ok props ↦ exit_of (run_consumer client rounds props)
    | throw e ↦ ([], ok terminated)
    | Outcome.undefined ↦ ([], Outcome.undefined)
    | Outcome.out_of_fuel ↦ ([], Outcome.out_of_fuel)
  ]
  | throw e ↦ ([], ok exit_failure)
  | Outcome.undefined ↦ ([], Outcome.undefined)
  | Outcome.out_of_fuel ↦ ([], Outcome.out_of_fuel)
]
