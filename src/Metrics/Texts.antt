-- ===== src/Metrics/Texts.antt =====
-- include/kafka/addons/KafkaMetrics.h: the texts of keys and results.
use text.Mathlib.Text.{◌==◌ as str_eq}
use modern_cpp_kafka.Prelude.{String, Bool, true, false, [], ◌∷◌, if◌then◌else◌}
use modern_cpp_kafka.StdText.{to_string}
use modern_cpp_kafka.Texts.{◌<>◌}
use modern_cpp_kafka.Metrics.{KeysType, ResultsType, Value, int_of, string_of}

abbrev pub quoted : String → String
quoted s = "\"" <> s <> "\""

-- The loop over the keys, with the text so far.
unfoldable pub append_keys : KeysType → String → String
append_keys [] ret = ret
append_keys (key ∷ keys) ret =
    append_keys keys (ret <> (if str_eq ret "" then "" else ", ") <> quoted key)

unfoldable pub show_keys : KeysType → String
unfolding append_keys
show_keys keys = append_keys keys ""

abbrev pub show_metric : Value → String
show_metric (int_of n) = to_string n
show_metric (string_of s) = quoted s

-- The loop over the results, by whether the next is the first.
unfoldable pub stream_results : Bool → ResultsType → String
unfolding show_keys
stream_results is_the_first [] = ""
stream_results is_the_first ((keys, v) ∷ results) =
    (if is_the_first then "" else ", ")
    <> (if str_eq (show_keys keys) "" then "" else "[" <> show_keys keys <> "]:")
    <> show_metric v
    <> stream_results false results

unfoldable pub show_results : ResultsType → String
unfolding stream_results
show_results results = stream_results true results
