-- ===== src/Tools/Topics/Laws.antt =====
-- What the topics tool takes for its arguments, and what it does.
use text.Mathlib.Text.{◌==◌ as str_eq}
use text.Mathlib.TextEquality.{eq_iff}
use modern_cpp_kafka.Prelude.{
  String, ℤ, pos, ◌≡◌, ◌≢◌, refl, Bool, true, false, Option, none, some, List, [], ◌∷◌, arith,
  eq_of_parts, ◌||◌, is_empty, not, ◌==◌, if◌then◌else◌,
}
use modern_cpp_kafka.Outcome.{
  Outcome, ok, throw, Settles, Settles-bind, Settles-if, Settles-option, bind-eq-ok, if-eq-ok,
}
use modern_cpp_kafka.StdText.{stoi}
use modern_cpp_kafka.StdText.Settles.{stoi-Settles}
use modern_cpp_kafka.Properties.{PropertiesMap, ValueType, str, put, validate, is_invalid}
use modern_cpp_kafka.Tools.Options.{key_value, put_props}
use modern_cpp_kafka.Tools.Topics.{
  Option_, option_of, takes_value, apply_flag, apply_value, Scan, scan, defaults, finish,
  parse_arguments, Arguments, OpType, create, delete, list, check_operation, count_ops, is_zero,
}
use modern_cpp_kafka.Tools.Topics.Main.{Answers, Run, failed, caught, main}

-- An operation that is not named is a creation: naming it changes nothing.
pub parse_arguments-create :
    (arg : String) (argv : List String)
    → parse_arguments ("--create" ∷ arg ∷ argv) ≡ parse_arguments (arg ∷ argv)
unfolding parse_arguments
parse_arguments-create arg argv = refl

-- What an operation needs, and what it must not have.
abbrev pub IsComplete : OpType → Arguments → Type 0
IsComplete create a = (a.topic ≢ "") × (a.partitions ≢ pos 0) × (a.replication_factor ≢ pos 0)
IsComplete delete a = (a.topic ≢ "") × (a.partitions ≡ pos 0) × (a.replication_factor ≡ pos 0)
IsComplete list a = (a.topic ≡ "") × (a.partitions ≡ pos 0) × (a.replication_factor ≡ pos 0)

is_zero-eq : (n : ℤ) → is_zero n ≡ true → n ≡ pos 0
is_zero-eq n h = ground (arith, eq_of_parts n (pos 0))

is_zero-ne : (n : ℤ) → is_zero n ≡ false → n ≢ pos 0
is_zero-ne n h e = ground arith

check_operation-IsComplete :
    (op : OpType) (a b : Arguments) (props : List String)
    → check_operation op a props ≡ ok b
    → IsComplete op b × (b.op_type ≡ a.op_type)
unfolding check_operation
check_operation-IsComplete create a b props h = ground (
  arith,
  eq_iff a.topic "",
  is_zero-ne a.partitions,
  is_zero-ne a.replication_factor,
  bind-eq-ok (put_props props a.topic_props)
      (λ (p : PropertiesMap). ok (record a { topic_props = p })) {b = b},
)
check_operation-IsComplete delete a b props h =
    ground (arith, eq_iff a.topic "", is_zero-eq a.partitions, is_zero-eq a.replication_factor)
check_operation-IsComplete list a b props h =
    ground (arith, eq_iff a.topic "", is_zero-eq a.partitions, is_zero-eq a.replication_factor)

put-Settles : (key : String) (v : ValueType) (p : PropertiesMap) → Settles (put key v p)
unfolding put validate
put-Settles key v p =
    Settles-bind (validate key v) _ (Settles-if (is_invalid key v) _ _ tt tt) (λ w. tt)

put_props-Settles : (props : List String) (p : PropertiesMap) → Settles (put_props props p)
unfolding put_props
put_props-Settles [] p = tt
put_props-Settles (prop ∷ props) p = Settles-option (key_value prop) _ _ tt λ (key, value).
    Settles-bind (put key (str value) p) _ (put-Settles key (str value) p)
      λ q. put_props-Settles props q

apply_value-Settles : (o : Option_) (v : String) (s : Scan) → Settles (apply_value o v s)
unfolding apply_value
apply_value-Settles Option_.partitions_option v s =
    Settles-bind (stoi v) _ (stoi-Settles v) (λ n. tt)
apply_value-Settles Option_.replication_factor_option v s =
    Settles-bind (stoi v) _ (stoi-Settles v) (λ n. tt)
apply_value-Settles Option_.help_option v s = tt
apply_value-Settles Option_.bootstrap_server_option v s = tt
apply_value-Settles Option_.admin_config_option v s = tt
apply_value-Settles Option_.list_option v s = tt
apply_value-Settles Option_.create_option v s = tt
apply_value-Settles Option_.delete_option v s = tt
apply_value-Settles Option_.topic_option v s = tt
apply_value-Settles Option_.topic_props_option v s = tt
apply_value-Settles Option_.unknown_option v s = tt

scan-Settles : (argv : List String) (s : Scan) → Settles (scan argv s)
unfolding scan
scan-Settles [] s = tt
scan-Settles (arg ∷ []) s = tt
scan-Settles (arg ∷ next ∷ rest) s =
    by_kind (takes_value (option_of arg)) _ _
      (Settles-bind (apply_value (option_of arg) next s) _
        (apply_value-Settles (option_of arg) next s) λ t. scan-Settles rest t)
      (scan-Settles (next ∷ rest) (apply_flag (option_of arg) s))
  where
    by_kind :
        (b : Bool) (x y : Outcome Scan)
        → Settles x
        → Settles y
        → Settles (elim b [ true ↦ x | false ↦ y ])
    by_kind true x y h k = h
    by_kind false x y h k = k

check_operation-Settles :
    (op : OpType) (a : Arguments) (props : List String) → Settles (check_operation op a props)
unfolding check_operation
check_operation-Settles create a props =
    Settles-if (str_eq a.topic "" || is_zero a.partitions || is_zero a.replication_factor) _ _ tt (
      Settles-bind (put_props props a.topic_props) _ (put_props-Settles props a.topic_props)
        (λ p. tt))
check_operation-Settles delete a props = Settles-if (str_eq a.topic "") _ _ tt (
    Settles-if
      (not (is_zero a.partitions) || not (is_zero a.replication_factor) || not (is_empty props)) _ _
      tt tt)
check_operation-Settles list a props =
    Settles-if
      (not (str_eq a.topic "")
        || not (is_zero a.partitions)
        || not (is_zero a.replication_factor)
        || not (is_empty props))
      _ _ tt tt

finish-Settles : (no_arguments : Bool) (s : Scan) → Settles (finish no_arguments s)
unfolding finish
finish-Settles no_arguments s = Settles-if (s.help || no_arguments) _ _ tt (
    Settles-bind (put_props s.admin_config_list s.args.admin_config) _
      (put_props-Settles s.admin_config_list s.args.admin_config)
      λ p. Settles-if (not (count_ops s.args.op_type == 1)) _ _ tt (
        Settles-bind (check_operation s.args.op_type _ s.topic_prop_list) _
          (check_operation-Settles s.args.op_type _ s.topic_prop_list) (λ a. tt)))

parse_arguments-Settles : (argv : List String) → Settles (parse_arguments argv)
unfolding parse_arguments
parse_arguments-Settles argv =
    Settles-bind (scan argv defaults) _ (scan-Settles argv defaults)
      λ s. finish-Settles (is_empty argv) s

-- What follows the help text.
not_help :
    (b : Bool) (x : Outcome (Option Arguments)) (a : Arguments)
    → (if b then ok none else x) ≡ ok (some a)
    → x ≡ ok (some a)
not_help true x a h = cc
not_help false x a h = h

finish-IsComplete :
    (no_arguments : Bool) (s : Scan) (a : Arguments)
    → finish no_arguments s ≡ ok (some a)
    → IsComplete a.op_type a
unfolding finish
finish-IsComplete no_arguments s a h =
    let (p, _, checked) =
      bind-eq-ok (put_props s.admin_config_list s.args.admin_config) _
        (not_help (s.help || no_arguments) _ a h) in
    let args : Arguments = record s.args { admin_config = p } in
    let (_, operation) = if-eq-ok (not (count_ops s.args.op_type == 1)) _ _ checked in
    let (b, done, same_args) =
      bind-eq-ok (check_operation s.args.op_type args s.topic_prop_list) _ operation in
    let (complete, same_op) =
      check_operation-IsComplete s.args.op_type args b s.topic_prop_list done in
    ground (arith, complete, same_op, same_args)

-- Arguments that are taken are complete for their operation: a creation has a topic, partitions and
-- a replication factor that are not zero, a deletion a topic and none of these, a listing none at
-- all.
pub parse_arguments-IsComplete :
    (argv : List String) (a : Arguments)
    → parse_arguments argv ≡ ok (some a)
    → IsComplete a.op_type a
unfolding parse_arguments
parse_arguments-IsComplete argv a h =
    let (s, _, finished) = bind-eq-ok (scan argv defaults) _ h in
    finish-IsComplete (is_empty argv) s a finished

caught_returns : (m : Outcome Run) → Settles m → (r : Run) × (caught m ≡ ok r)
caught_returns (ok r) h = (r, refl)
caught_returns (throw e) h = (failed, refl)
caught_returns Outcome.undefined h = absurd h
caught_returns Outcome.out_of_fuel h = absurd h

-- Whatever the arguments and the answers are, where making the client ends in a value or an
-- exception, `main` returns: no exception leaves it.
pub main_returns :
    (client : PropertiesMap → Outcome (Unit {0})) (a : Answers) (argv : List String)
    → ((conf : PropertiesMap) → Settles (client conf))
    → (r : Run) × (main client a argv ≡ ok r)
unfolding main
main_returns client a argv h = caught_returns _ (
    Settles-bind (parse_arguments argv) _ (parse_arguments-Settles argv) λ parsed.
      Settles-option parsed _ _ tt λ args.
        Settles-bind (put "bootstrap.servers" (str args.broker_list) args.admin_config) _
          (put-Settles _ _ _) λ conf. Settles-bind (client conf) _ (h conf) (λ u. tt))
