-- ===== src/Tools/ProducerPerf/RoundTrip.antt =====
-- Arguments that are written as a command line are read back.
use mathlib.Core.List.{append_assoc, append-nil}
use text.Mathlib.TextEquality.{eq_iff}
use modern_cpp_kafka.Prelude.{
  ◌%◌, ◌^◌, ◌<◌, ◌≤◌, String, pos, ◌≡◌, ◌≢◌, refl, ap, sym, ◌∙◌, Bool, true, false, List, [], ◌∷◌,
  ◌++◌, map, arith, text_ord,
}
use modern_cpp_kafka.Outcome.{ok}
use modern_cpp_kafka.StdText.{to_string}
use modern_cpp_kafka.StdText.RoundTrip.{FitsInt, stoi-to_string, stoull-to_string}
use modern_cpp_kafka.Containers.Map.{Map, insert, IsSorted}
use modern_cpp_kafka.Containers.Map.Ascending.{insert-append, Joined, Joined-next, Above-IsSorted}
use modern_cpp_kafka.Tools.Options.{
  assignment, has_eq, starts_with_dashes, is_command_property, add_command_property,
}
use modern_cpp_kafka.Tools.Options.Laws.{
  has_eq-assignment, before_eq-assignment, after_eq-assignment,
}
use modern_cpp_kafka.Tools.ProducerPerf.{Arguments, parsed, scan, check, parse_arguments, defaults}

abbrev pub prop_text : String × String → String
prop_text (key, value) = assignment key value

unfoldable pub command_line : Arguments → List String
command_line a =
    "--bootstrap-server"
    ∷ a.broker_list
    ∷ "--topic"
    ∷ a.topic
    ∷ "--num-records"
    ∷ to_string (pos a.num_records)
    ∷ "--throughput"
    ∷ to_string a.throughput
    ∷ "--warmup-records"
    ∷ to_string (pos a.warmup_records)
    ∷ "--reporting-interval"
    ∷ to_string (pos a.reporting_interval_ms)
    ∷ "--record-size"
    ∷ to_string (pos a.record_size)
    ∷ "--command-property"
    ∷ map prop_text a.props

-- Each key can be told from its value and from an option.
abbrev pub AllPlain : Map String String → Type 0
AllPlain [] = Unit
AllPlain ((key, value) ∷ m) =
    (has_eq key ≡ false) × (starts_with_dashes (assignment key value) ≡ false) × AllPlain m

pub record IsWritable (a : Arguments) : Type 0 where
  pub has_broker_list : a.broker_list ≢ ""
  pub has_topic : a.topic ≢ ""
  pub has_records : 0 < a.num_records
  pub records_fit : a.num_records < 2 ^ 64
  pub throughput_fits : FitsInt a.throughput
  pub has_size : 0 < a.record_size
  pub size_fits : a.record_size < 2 ^ 64
  pub warmup_within : a.warmup_records ≤ a.num_records
  pub interval_fits : a.reporting_interval_ms < 2 ^ 31
  pub props_ascend : IsSorted a.props
  pub props_plain : AllPlain a.props

is_command_property-assignment :
    (key value : String)
    → starts_with_dashes (assignment key value) ≡ false
    → is_command_property (assignment key value) ≡ true
unfolding is_command_property
is_command_property-assignment key value h = rw (h, has_eq-assignment key value) refl

add_command_property-assignment :
    (key value : String) (m : Map String String)
    → has_eq key ≡ false
    → add_command_property (assignment key value) m ≡ insert key value m
unfolding add_command_property
add_command_property-assignment key value m h =
    rw (before_eq-assignment key value h, after_eq-assignment key value h) refl

scan_taken :
    (arg : String) (rest : List String) (a : Arguments)
    → is_command_property arg ≡ true
    → scan (arg ∷ rest) true a
      ≡ scan rest true (record a { props = add_command_property arg a.props })
unfolding scan
scan_taken arg [] a h = ground (arith, h)
scan_taken arg (next ∷ rest) a h = ground (arith, h)

scan-nil : (taking : Bool) (a : Arguments) → scan [] taking a ≡ check a
unfolding scan
scan-nil taking a = refl

-- The properties, once `acc` are taken.
scan_props :
    (m acc : Map String String) (a : Arguments)
    → IsSorted m
    → Joined acc m
    → AllPlain m
    → scan (map prop_text m) true (record a { props = acc }) ≡ check (record a { props = acc ++ m })
scan_props [] acc a s j h =
    scan-nil true _
    ∙ ap (λ (m : Map String String). check (record a { props = m })) (sym (append-nil acc))
scan_props ((key, value) ∷ m) acc a s j (no_eq, no_dashes, plain) =
    scan_taken (assignment key value) (map prop_text m) (record a { props = acc })
      (is_command_property-assignment key value no_dashes)
    ∙ ap (λ (n : Map String String). scan (map prop_text m) true (record a { props = n }))
        (add_command_property-assignment key value acc no_eq ∙ insert-append key value acc j)
    ∙ scan_props m (acc ++ (key, value) ∷ []) a (Above-IsSorted key m s)
        (Joined-next key value acc m j s) plain
    ∙ ap (λ (n : Map String String). check (record a { props = n }))
        (append_assoc acc ((key, value) ∷ []) m)

-- `--command-property` with all of them.
scan_command_property :
    (m : Map String String) (a : Arguments)
    → IsSorted m
    → AllPlain m
    → scan ("--command-property" ∷ map prop_text m) false (record a { props = [] })
      ≡ check (record a { props = m })
unfolding scan
scan_command_property [] a s h = refl
scan_command_property ((key, value) ∷ m) a s h = scan_props ((key, value) ∷ m) [] a s tt h

scan_numbers :
    (a b : Arguments) (rest : List String)
    → IsWritable a
    → scan
        ("--num-records"
          ∷ to_string (pos a.num_records)
          ∷ "--throughput"
          ∷ to_string a.throughput
          ∷ "--warmup-records"
          ∷ to_string (pos a.warmup_records)
          ∷ "--reporting-interval"
          ∷ to_string (pos a.reporting_interval_ms)
          ∷ "--record-size"
          ∷ to_string (pos a.record_size)
          ∷ rest)
        false
        b
      ≡ scan rest false (record a { broker_list = b.broker_list; topic = b.topic; props = b.props })
unfolding scan
scan_numbers a b rest w =
    rw
      (
        stoull-to_string a.num_records w.records_fit,
        stoi-to_string a.throughput w.throughput_fits,
        stoull-to_string a.warmup_records (omega (arith, w.warmup_within, w.records_fit)),
        stoi-to_string (pos a.reporting_interval_ms) w.interval_fits,
        stoull-to_string a.record_size w.size_fits,
        interval_size,
      )
      refl
  where
    interval_size : a.reporting_interval_ms % 2 ^ 64 ≡ a.reporting_interval_ms
    interval_size = omega (arith, w.interval_fits)

check_writable : (a : Arguments) → IsWritable a → check a ≡ ok (parsed a)
unfolding check
check_writable a w = ground (arith, eq_iff a.broker_list "", eq_iff a.topic "")

-- Arguments that are complete and within their ranges, with properties whose keys ascend and hold no
-- `=` and do not begin like an option, are read back from the command line that gives them.
pub parse_arguments-command_line :
    (a : Arguments) → IsWritable a → parse_arguments (command_line a) ≡ ok (parsed a)
unfolding parse_arguments command_line
parse_arguments-command_line a w =
    scan_numbers a (record defaults { broker_list = a.broker_list; topic = a.topic })
      ("--command-property" ∷ map prop_text a.props) w
    ∙ scan_command_property a.props a w.props_ascend w.props_plain
    ∙ check_writable a w
