-- ===== src/Tools/ConsoleProducer/Laws.antt =====
-- How the console producer ends.
use modern_cpp_kafka.Prelude.{String, ◌≡◌, none, List, [], ◌∷◌, arith}
use modern_cpp_kafka.Outcome.{Outcome, ok, throw, invalid_argument}
use modern_cpp_kafka.Containers.Map.{Map}
use modern_cpp_kafka.Properties.{PropertiesMap}
use modern_cpp_kafka.Producer.{KafkaProducer}
use modern_cpp_kafka.Tools.Options.{key_value, set_props, terminated}
use modern_cpp_kafka.Tools.ConsoleProducer.{InputLine, main}

wrong_props :
    (prop : String) (m : Map String String)
    → key_value prop ≡ none
    → set_props (prop ∷ []) m ≡ throw invalid_argument
unfolding set_props
wrong_props prop m h = ground (arith, h)

-- A `--props` text that is no key and value ends the process by an exception that is not caught.
pub main_wrong_props :
    (create : PropertiesMap → Outcome KafkaProducer) (thread : String) (input : List InputLine)
    (prop : String)
    → key_value prop ≡ none
    → main create thread input ("--props" ∷ prop ∷ []) ≡ (none, ok terminated)
unfolding main
main_wrong_props create thread input prop h = ground (arith, wrong_props prop [] h)
