-- ===== src/Recoverable/Replaced.antt =====
-- How often the recoverable producer's poll thread replaces its producer.
use modern_cpp_kafka.Prelude.{
  ℕ, suc, ◌+◌, ◌≡◌, refl, Bool, false, ◌||◌, if◌then◌else◌, some, List, [], ◌∷◌, arith, length,
  Bool-cases, inl, inr,
}
use modern_cpp_kafka.Outcome.{Outcome, ok}
use modern_cpp_kafka.Properties.{PropertiesMap}
use modern_cpp_kafka.Producer.{KafkaProducer}
use modern_cpp_kafka.Recoverable.{KafkaRecoverableProducer, Turn, turns}
use modern_cpp_kafka.Recoverable.Runs.{
  is_fatal_error, is_left_over, AllRetired, Runs, turn-Runs, turn_stops,
}

-- How many of the turns replace the producer, where a fatal error is left over from before or not:
-- those that have a fatal error left over or served, up to the one that is asked to stop. What is left
-- over is a fatal error that is served in closing.
unfoldable pub replacements : Bool → List Turn → ℕ
replacements left_over [] = 0
replacements left_over (t ∷ ts) =
    let replaced = replacements (is_fatal_error t.closing_error) ts in
    let kept = replacements false ts in
    if t.stop then 0 else if left_over || is_fatal_error t.error then suc replaced else kept

-- How the poll thread ends, with `n` producers replaced.
pub record Ends (properties : PropertiesMap) (n : ℕ) (q : KafkaRecoverableProducer) : Type 0 where
  pub same_properties : q.properties ≡ properties
  pub current : KafkaProducer
  pub running : q.producer ≡ some current
  pub replaced : length q.closed ≡ n
  pub retired : AllRetired q.closed

turns-Runs :
    (create : PropertiesMap → Outcome KafkaProducer) (fresh : KafkaProducer)
    (properties : PropertiesMap) (left_over : Bool) (n : ℕ) (ts : List Turn)
    (p : KafkaRecoverableProducer)
    → create properties ≡ ok fresh
    → Runs properties left_over n p
    → (q : KafkaRecoverableProducer) × (turns create ts p ≡ ok q)
      × Ends properties (replacements left_over ts + n) q
unfolding turns replacements
turns-Runs create fresh properties left_over n [] p h r = (
  p,
  refl,
  record {
    same_properties = r.same_properties;
    current = r.current;
    running = r.running;
    replaced = ground (arith, r.replaced);
    retired = r.retired;
  },
)
turns-Runs create fresh properties left_over n (t ∷ ts) p h r = elim (Bool-cases t.stop) [
  | inl stops ↦
      let (q, done, runs) = turn_stops create properties left_over n t p stops r in
      (
        record q { polling = false },
        ground (arith, done, stops),
        record {
          same_properties = runs.same_properties;
          current = runs.current;
          running = runs.running;
          replaced = ground (arith, runs.replaced, stops);
          retired = runs.retired;
        },
      )
  | inr goes_on ↦
      let (m, done, runs) = turn-Runs create fresh properties left_over n t p h goes_on r in
      let (q, later, ends) = turns-Runs create fresh properties _ _ ts m h runs in
      (
        q,
        ground (arith, done, goes_on, later),
        record {
          same_properties = ends.same_properties;
          current = ends.current;
          running = ends.running;
          replaced =
              ground
                (arith, ends.replaced, goes_on, Bool-cases (left_over || is_fatal_error t.error));
          retired = ends.retired;
        },
      )
]

-- Where a producer can be made of the properties, there is a current one, and those that were replaced
-- before are purged and closed, the poll thread goes through any turns, with these properties and a
-- current producer at the end. It replaces its producer once in each turn that finds a fatal error,
-- left over from the turn before or served now, up to the turn that is asked to stop. Each producer
-- that was replaced is purged and closed.
pub turns-replaced :
    (create : PropertiesMap → Outcome KafkaProducer) (fresh old : KafkaProducer) (ts : List Turn)
    (p : KafkaRecoverableProducer)
    → create p.properties ≡ ok fresh
    → p.producer ≡ some old
    → AllRetired p.closed
    → (q : KafkaRecoverableProducer) × (turns create ts p ≡ ok q)
      × Ends p.properties (replacements (is_left_over p.fatal_error) ts + length p.closed) q
turns-replaced create fresh old ts p h running retired =
    turns-Runs create fresh p.properties (is_left_over p.fatal_error) (length p.closed) ts p h
      (record {
        same_properties = refl;
        current = old;
        running = running;
        left = refl;
        replaced = refl;
        retired = retired;
      })
