-- ===== src/Producer/Configure.antt =====
-- `validateAndReformProperties` of the producer.
use text.Mathlib.Text.{◌==◌ as str_eq}
use modern_cpp_kafka.Prelude.{
  ◌≡◌, refl, ap, sym, ◌∙◌, ◌↔◌, ltb_ℤ, ℤ, pos, ◌≤ℤ◌, String, Bool, true, false, Option, none, some,
  arith, if◌then◌else◌, ◌||◌,
}
use modern_cpp_kafka.Outcome.{
  Outcome, ok, throw, undefined, out_of_fuel, kafka_error, invalid_arg, ◌>>◌, ◌>>=◌,
}
use modern_cpp_kafka.StdText.{stoi}
use modern_cpp_kafka.Properties.{PropertiesMap, get_property}

unfoldable pub is_available_partitioner : String → Bool
is_available_partitioner s =
    str_eq s "murmur2_random"
    || str_eq s "murmur2"
    || str_eq s "random"
    || str_eq s "consistent"
    || str_eq s "consistent_random"
    || str_eq s "fnv1a"
    || str_eq s "fnv1a_random"

abbrev pub kafka_idemp_max_inflight : ℤ
kafka_idemp_max_inflight = pos 5

unfoldable pub check_partitioner : Option String → Outcome (Unit {0})
unfolding is_available_partitioner
check_partitioner none = ok tt
check_partitioner (some s) =
    if is_available_partitioner s then ok tt else throw (kafka_error invalid_arg)

-- An exception of `stoi` is passed on.
unfoldable pub check_max_in_flight : Option String → Outcome (Unit {0})
check_max_in_flight none = ok tt
check_max_in_flight (some s) = stoi s >>= λ n.
    if ltb_ℤ kafka_idemp_max_inflight n then throw (kafka_error invalid_arg) else ok tt

unfoldable pub check_acks : Option String → Outcome (Unit {0})
check_acks none = ok tt
check_acks (some s) =
    if str_eq s "all" || str_eq s "-1" then ok tt else throw (kafka_error invalid_arg)

abbrev pub is_true : Option String → Bool
is_true none = false
is_true (some s) = str_eq s "true"

-- `base` is KafkaClient::validateAndReformProperties.
unfoldable pub validate_and_reform_properties :
    (PropertiesMap → Outcome PropertiesMap) → PropertiesMap → Outcome PropertiesMap
unfolding check_partitioner check_max_in_flight check_acks
validate_and_reform_properties base p = base p >>= λ q.
    check_partitioner (get_property "partitioner" q)
    >> ((if is_true (get_property "enable.idempotence" q)
          then (check_max_in_flight (get_property "max.in.flight" q)
              >> check_acks (get_property "acks" q))
          else ok tt)
        >> ok q)

abbrev pub GoodPartitioner : Option String → Type 0
GoodPartitioner none = Unit
GoodPartitioner (some s) = is_available_partitioner s ≡ true

abbrev pub GoodMaxInFlight : Option String → Type 0
GoodMaxInFlight none = Unit
GoodMaxInFlight (some s) = (n : ℤ) × (stoi s ≡ ok n) × (n ≤ℤ pos 5)

abbrev pub GoodAcks : Option String → Type 0
GoodAcks none = Unit
GoodAcks (some s) = (str_eq s "all" || str_eq s "-1") ≡ true

-- A partitioner that librdkafka knows and, for an idempotent producer, at most five messages in
-- flight and all acknowledgements.
abbrev pub Acceptable : PropertiesMap → Type 0
Acceptable q =
    GoodPartitioner (get_property "partitioner" q)
    × (is_true (get_property "enable.idempotence" q) ≡ true
        → GoodMaxInFlight (get_property "max.in.flight" q) × GoodAcks (get_property "acks" q))

partitioner_iff : (o : Option String) → (check_partitioner o ≡ ok tt) ↔ GoodPartitioner o
unfolding check_partitioner
partitioner_iff none = (λ h. tt, λ h. refl)
partitioner_iff (some s) = ground arith

acks_iff : (o : Option String) → (check_acks o ≡ ok tt) ↔ GoodAcks o
unfolding check_acks
acks_iff none = (λ h. tt, λ h. refl)
acks_iff (some s) = ground arith

in_flight_case :
    (o : Outcome ℤ)
    → ((o >>= λ n.
          if ltb_ℤ kafka_idemp_max_inflight n then throw (kafka_error invalid_arg) else ok tt)
        ≡ ok (tt {0}))
      ↔ ((n : ℤ) × (o ≡ ok n) × (n ≤ℤ pos 5))
in_flight_case (ok n) = (λ h. (n, refl, ground (arith, h)), λ (m, e, le). ground (arith, e, le))
in_flight_case (throw x) =
    (λ h. absurd (ground (arith, h)), λ (m, e, le). absurd (ground (arith, e)))
in_flight_case undefined =
    (λ h. absurd (ground (arith, h)), λ (m, e, le). absurd (ground (arith, e)))
in_flight_case out_of_fuel =
    (λ h. absurd (ground (arith, h)), λ (m, e, le). absurd (ground (arith, e)))

max_in_flight_iff : (o : Option String) → (check_max_in_flight o ≡ ok tt) ↔ GoodMaxInFlight o
unfolding check_max_in_flight
max_in_flight_iff none = (λ h. tt, λ h. refl)
max_in_flight_iff (some s) = in_flight_case (stoi s)

pub chain_iff :
    {A : Type 0} (m : Outcome (Unit {0})) (k : Outcome A) (x : A)
    → ((m >> k) ≡ ok x) ↔ ((m ≡ ok tt) × (k ≡ ok x))
chain_iff (ok u) k x = (λ h. (refl, h), λ h. h.1)
chain_iff (throw e) k x = (λ h. absurd (ground (arith, h)), λ h. absurd (ground (arith, h.0)))
chain_iff undefined k x = (λ h. absurd (ground (arith, h)), λ h. absurd (ground (arith, h.0)))
chain_iff out_of_fuel k x = (λ h. absurd (ground (arith, h)), λ h. absurd (ground (arith, h.0)))

when_iff :
    (b : Bool) (m k : Outcome (Unit {0}))
    → ((if b then (m >> k) else ok tt) ≡ ok tt) ↔ (b ≡ true → (m ≡ ok tt) × (k ≡ ok tt))
when_iff true m k = (λ h t. (chain_iff m k tt).0 h, λ h. (chain_iff m k tt).1 (h refl))
when_iff false m k = (λ h t. absurd (ground (arith, t)), λ h. refl)

-- What is checked once the base class has taken the properties.
abbrev checks : PropertiesMap → Outcome (Unit {0})
checks q =
    if is_true (get_property "enable.idempotence" q)
    then (check_max_in_flight (get_property "max.in.flight" q)
        >> check_acks (get_property "acks" q))
    else ok tt

checks_iff :
    (q : PropertiesMap)
    → ((check_partitioner (get_property "partitioner" q) >> (checks q >> ok q)) ≡ ok q)
      ↔ Acceptable q
checks_iff q =
    let partitioner =
      chain_iff (check_partitioner (get_property "partitioner" q)) (checks q >> ok q) q in
    let rest = chain_iff (checks q) (ok q) q in
    let idempotent =
      when_iff (is_true (get_property "enable.idempotence" q))
        (check_max_in_flight (get_property "max.in.flight" q))
        (check_acks (get_property "acks" q)) in
    (
      λ h. (
        (partitioner_iff _).0 (partitioner.0 h).0,
        λ t.
            let both = idempotent.0 (rest.0 (partitioner.0 h).1).0 t in
            ((max_in_flight_iff _).0 both.0, (acks_iff _).0 both.1),
      ),
      λ (g, a). partitioner.1 (
        (partitioner_iff _).1 g,
        rest.1
            (idempotent.1 (λ t. ((max_in_flight_iff _).1 (a t).0, (acks_iff _).1 (a t).1)), refl),
      ),
    )

-- Where the base class takes the properties, the producer takes them unchanged exactly if the
-- partitioner is missing or known and, where `enable.idempotence` is true, `max.in.flight` is
-- missing or a number of at most 5 and `acks` is missing, `all` or `-1`.
pub validate_and_reform_properties_iff :
    (base : PropertiesMap → Outcome PropertiesMap) (p q : PropertiesMap)
    → base p ≡ ok q
    → (validate_and_reform_properties base p ≡ ok q) ↔ Acceptable q
unfolding validate_and_reform_properties
validate_and_reform_properties_iff base p q h =
    let same_outcome =
      ap (λ o. o >>= λ x. check_partitioner (get_property "partitioner" x) >> (checks x >> ok x))
        h in
    (λ e. (checks_iff q).0 (sym same_outcome ∙ e), λ a. same_outcome ∙ (checks_iff q).1 a)
