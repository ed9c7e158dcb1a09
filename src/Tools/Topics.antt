-- ===== src/Tools/Topics.antt =====
-- tools/console_clients/KafkaTopics.cc: creating, deleting and listing topics from the command line.
-- The arguments are those after the program's name. The help text and the messages of errors are left
-- out.
pub mod Main
pub mod Laws
use text.Mathlib.Text.{◌==◌ as str_eq}
use modern_cpp_kafka.Prelude.{
  ℕ, ◌+◌, String, ℤ, pos, eqb_ℤ, Bool, true, false, not, ◌&&◌, ◌||◌, Option, none, some, List, [],
  ◌∷◌, ◌++◌, if◌then◌else◌, is_empty, ◌==◌, map,
}
use modern_cpp_kafka.Outcome.{RespErr, is_error, Outcome, ok, throw, invalid_argument, ◌>>=◌, ◌>>◌}
use modern_cpp_kafka.StdText.{stoi}
use modern_cpp_kafka.Types.{Topic, Topics}
use modern_cpp_kafka.Properties.{PropertiesMap, str, put}
use modern_cpp_kafka.Error.{Error, value}
use modern_cpp_kafka.Admin.{AdminEvent, ListTopicsResult, list_topics, create_topics, delete_topics}
use modern_cpp_kafka.Tools.Options.{Exit, exit_success, exit_failure, put_props}

pub data OpType : Type 0 where
  create delete list : OpType

pub record Arguments : Type 0 where
  pub broker_list : String
  pub topic : String
  pub op_type : OpType
  pub partitions : ℤ
  pub replication_factor : ℤ
  pub admin_config : PropertiesMap
  pub topic_props : PropertiesMap

-- The variables of the loop over the arguments.
pub record Scan : Type 0 where
  pub args : Arguments
  pub admin_config_list : List String
  pub topic_prop_list : List String
  pub help : Bool

pub data Option_ : Type 0 where
  help_option bootstrap_server_option admin_config_option list_option create_option : Option_
  delete_option topic_option partitions_option replication_factor_option : Option_
  topic_props_option unknown_option : Option_

abbrev pub option_of : String → Option_
option_of arg =
    if str_eq arg "--help" || str_eq arg "-h"
    then help_option
    else if str_eq arg "--bootstrap-server"
    then bootstrap_server_option
    else if str_eq arg "--admin-config"
    then admin_config_option
    else if str_eq arg "--list"
    then list_option
    else if str_eq arg "--create"
    then create_option
    else if str_eq arg "--delete"
    then delete_option
    else if str_eq arg "--topic"
    then topic_option
    else if str_eq arg "--partitions"
    then partitions_option
    else if str_eq arg "--replication-factor"
    then replication_factor_option
    else if str_eq arg "--topic-props"
    then topic_props_option
    else unknown_option

-- The options whose branch wants a further argument, `i + 1 < argc`.
abbrev pub takes_value : Option_ → Bool
takes_value help_option = false
takes_value list_option = false
takes_value create_option = false
takes_value delete_option = false
takes_value unknown_option = false
takes_value _ = true

abbrev pub set_op : OpType → Scan → Scan
set_op op s = record s { args = record s.args { op_type = op } }

-- The branches without a value; an option that no branch takes is passed over.
abbrev pub apply_flag : Option_ → Scan → Scan
apply_flag help_option s = record s { help = true }
apply_flag list_option s = set_op list s
apply_flag create_option s = set_op create s
apply_flag delete_option s = set_op delete s
apply_flag _ s = s

-- The branches with a value.
unfoldable pub apply_value : Option_ → String → Scan → Outcome Scan
apply_value bootstrap_server_option v s = ok (record s { args = record s.args { broker_list = v } })
apply_value admin_config_option v s =
    ok (record s { admin_config_list = s.admin_config_list ++ (v ∷ []) })
apply_value topic_option v s = ok (record s { args = record s.args { topic = v } })
apply_value partitions_option v s =
    stoi v >>= λ n. ok (record s { args = record s.args { partitions = n } })
apply_value replication_factor_option v s =
    stoi v >>= λ n. ok (record s { args = record s.args { replication_factor = n } })
apply_value topic_props_option v s =
    ok (record s { topic_prop_list = s.topic_prop_list ++ (v ∷ []) })
apply_value _ v s = ok s

-- The loop over the arguments.
unfoldable pub scan : List String → Scan → Outcome Scan
unfolding apply_value
scan [] s = ok s
scan (arg ∷ []) s = ok (apply_flag (option_of arg) s)
scan (arg ∷ next ∷ rest) s = elim (takes_value (option_of arg)) [
  | true ↦ apply_value (option_of arg) next s >>= λ t. scan rest t
  | false ↦ scan (next ∷ rest) (apply_flag (option_of arg) s)
]

abbrev pub defaults : Scan
defaults = record {
  args = record {
    broker_list = "";
    topic = "";
    op_type = create;
    partitions = pos 0;
    replication_factor = pos 0;
    admin_config = [];
    topic_props = [];
  };
  admin_config_list = [];
  topic_prop_list = [];
  help = false;
}

abbrev pub op_id : OpType → ℕ
op_id create = 0
op_id delete = 1
op_id list = 2

abbrev pub count_ops : OpType → ℕ
count_ops op =
    (if op_id op == 2 then 1 else 0)
    + (if op_id op == 0 then 1 else 0)
    + (if op_id op == 1 then 1 else 0)

abbrev pub is_zero : ℤ → Bool
is_zero n = eqb_ℤ n (pos 0)

-- The switch over the operations.
unfoldable pub check_operation : OpType → Arguments → List String → Outcome Arguments
check_operation list args props =
    if not (str_eq args.topic "")
      || not (is_zero args.partitions)
      || not (is_zero args.replication_factor)
      || not (is_empty props)
    then throw invalid_argument
    else ok args
check_operation create args props =
    if str_eq args.topic "" || is_zero args.partitions || is_zero args.replication_factor
    then throw invalid_argument
    else put_props props args.topic_props >>= λ p. ok (record args { topic_props = p })
check_operation delete args props =
    if str_eq args.topic ""
    then throw invalid_argument
    else if not (is_zero args.partitions)
        || not (is_zero args.replication_factor)
        || not (is_empty props)
    then throw invalid_argument
    else ok args

-- What follows the loop; `none` is the null pointer that is returned after the help text.
unfoldable pub finish : Bool → Scan → Outcome (Option Arguments)
unfolding check_operation
finish no_arguments s =
    if s.help || no_arguments
    then ok none
    else put_props s.admin_config_list s.args.admin_config >>= λ p.
        let args = record s.args { admin_config = p } in
        if not (count_ops args.op_type == 1)
        then throw invalid_argument
        else check_operation args.op_type args s.topic_prop_list >>= λ a. ok (some a)

unfoldable pub parse_arguments : List String → Outcome (Option Arguments)
unfolding scan finish
parse_arguments argv = scan argv defaults >>= λ s. finish (is_empty argv) s
