-- ===== src/Metrics/Tests.antt =====
-- A search with a wildcard, as in tests/unit/TestKafkaMetrics.cc.
use modern_cpp_kafka.Prelude.{◌≡◌, refl, pos, [], ◌∷◌, All}
use modern_cpp_kafka.Outcome.{ok}
use modern_cpp_kafka.Metrics.{
  object, integer, Members, done, member, int_value, int_of, Value, KeysType, ResultsType, get,
  get_results,
}
use modern_cpp_kafka.Metrics.Search.{IsMatch, Matches}
use modern_cpp_kafka.Metrics.Complete.{Listed, get_correct}

abbrev broker : Members
broker = member "rtt" (integer (pos 5)) done

abbrev brokers : Members
brokers = member "b1" (object broker) (member "b2" (object broker) done)

abbrev metrics : Members
metrics = member "brokers" (object brokers) done

abbrev keys : KeysType
keys = "*" ∷ "rtt" ∷ []

both_brokers :
    get int_value ("brokers" ∷ keys) (object metrics)
    ≡ ok (("b1" ∷ [], int_of (pos 5)) ∷ ("b2" ∷ [], int_of (pos 5)) ∷ [])
unfolding get get_results
both_brokers = refl

get_correct_example :
    (results : ResultsType) × (get int_value ("brokers" ∷ keys) (object metrics) ≡ ok results)
    × All (IsMatch int_value ("brokers" ∷ keys) (object metrics) []) results
    × ((wild : KeysType) (v : Value)
        → Matches int_value ("brokers" ∷ keys) (object metrics) wild v
        → Listed (wild, v) results)
get_correct_example = get_correct int_value "brokers" keys metrics refl refl
