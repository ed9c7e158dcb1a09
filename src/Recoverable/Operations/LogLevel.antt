-- ===== src/Recoverable/Operations/LogLevel.antt =====
-- A log level that is set on the recoverable producer, and the producers that are made after it.
use modern_cpp_kafka.Prelude.{
  Option-cases, inl, inr, String, ℕ, ◌<◌, ◌^◌, ℤ, pos, ◌≡◌, refl, ap, ◌∙◌, true, false, Option,
  some, arith, text_ord, text_lt,
}
use modern_cpp_kafka.Outcome.{
  bind-eq-ok, invalid_arg, Exception, Outcome, ok, throw, kafka_error, ◌>>=◌,
}
use modern_cpp_kafka.StdText.{stoi, to_string}
use modern_cpp_kafka.StdText.RoundTrip.{stoi-to_string}
use modern_cpp_kafka.Containers.Map.{insert}
use modern_cpp_kafka.Properties.{
  PropertiesMap, ValueType, str, log_callback, is_invalid, get_property,
}
use modern_cpp_kafka.Properties.Laws.{put-valid, get_property-insert}
use modern_cpp_kafka.Error.{Error, is_fatal}
use modern_cpp_kafka.Client.{
  KafkaClient, set_log_level as client_set_log_level, RdKafka, kafka_producer, unconfigured,
  validate_and_reform_properties,
}
use modern_cpp_kafka.Client.Configure.{
  validate_and_reform_properties_lem, validate_and_reform_properties_missing,
}
use modern_cpp_kafka.Client.Setup.{
  configure_log_level, fetch, construct, set_client_id, check_log_level,
}
use modern_cpp_kafka.Producer.{KafkaProducer}
use modern_cpp_kafka.Producer.Configure
use modern_cpp_kafka.Producer.Configure.{chain_iff}
use modern_cpp_kafka.Recoverable.{KafkaRecoverableProducer, Turn, replace, recover, turn}
use modern_cpp_kafka.Recoverable.Operations.{set_log_level}

with_level : ℤ → PropertiesMap → PropertiesMap
with_level level p = insert "log_level" (str (to_string level)) p

set_log_level-properties :
    (set : ℤ → KafkaProducer → KafkaProducer) (level : ℤ) (p : KafkaRecoverableProducer)
    (old : KafkaProducer)
    → p.producer ≡ some old
    → set_log_level set level p ≡ (
      record p { properties = with_level level p.properties; producer = some (set level old) },
      ok tt,
    )
unfolding set_log_level with_level is_invalid
set_log_level-properties set level p old h =
    ground (arith, put-valid "log_level" (str (to_string level)) p.properties refl, h)

level_kept :
    (level : ℤ) (p : PropertiesMap)
    → get_property "log_level" (with_level level p) ≡ some (to_string level)
unfolding with_level text_lt
level_kept level p = get_property-insert "log_level" "log_level" (to_string level) p

too_high :
    (n : ℕ)
    → 7 < n
    → n < 2 ^ 31
    → check_log_level (stoi (to_string (pos n))) ≡ throw (kafka_error invalid_arg)
too_high n h k = rw (stoi-to_string (pos n) k) (ground arith)

configure_too_high :
    (n : ℕ) (p : PropertiesMap) (c : KafkaClient)
    → 7 < n
    → n < 2 ^ 31
    → get_property "log_level" p ≡ some (to_string (pos n))
    → configure_log_level p c ≡ throw (kafka_error invalid_arg)
unfolding configure_log_level
configure_too_high n p c h k e = ground (arith, e, too_high n h k)

-- `validateAndReformProperties` of the producer, with the random name that a client may need.
abbrev pub reform : String → PropertiesMap → Outcome PropertiesMap
reform random p = Configure.validate_and_reform_properties (validate_and_reform_properties random) p

-- The constructor of a producer; `make` is what follows the constructor of KafkaClient.
abbrev pub create :
    RdKafka → String → (KafkaClient → Outcome KafkaProducer) → PropertiesMap → Outcome KafkaProducer
create rk random make p = reform random p >>= λ q. construct rk kafka_producer q >>= λ c. make c

-- The properties are taken for a producer, and their log callback, if any, is one.
abbrev pub IsTaken : String → PropertiesMap → Type 0
IsTaken random p =
    (q : PropertiesMap) × (reform random p ≡ ok q)
    × ((log : Option ValueType) × (fetch "log_cb" log_callback q ≡ ok log))

base_keeps_level :
    (random s : String) (p q : PropertiesMap)
    → validate_and_reform_properties random p ≡ ok q
    → get_property "log_level" p ≡ some s
    → get_property "log_level" q ≡ some s
unfolding text_lt
base_keeps_level random s p q h e = elim (Option-cases (get_property "bootstrap.servers" p)) [
  | inl none_there ↦
      absurd (ground (arith, validate_and_reform_properties_missing random p none_there, h))
  | inr (servers, there) ↦
      let (q', taken, lookup) = validate_and_reform_properties_lem random servers p there in
      ground (arith, lookup "log_level", e, taken, h)
]

reform_keeps_level :
    (random s : String) (p q : PropertiesMap)
    → reform random p ≡ ok q
    → get_property "log_level" p ≡ some s
    → get_property "log_level" q ≡ some s
unfolding Configure.validate_and_reform_properties
reform_keeps_level random s p q h e =
    let (q', taken, checked) = bind-eq-ok (validate_and_reform_properties random p) _ h in
    let same_map : ok q' ≡ ok q = ((chain_iff _ (ok q') q).0 ((chain_iff _ _ q).0 checked).1).1 in
    ground (arith, base_keeps_level random s p q' taken e, same_map)

create_too_high :
    (rk : RdKafka) (random : String) (make : KafkaClient → Outcome KafkaProducer) (n : ℕ)
    (p : PropertiesMap)
    → 7 < n
    → n < 2 ^ 31
    → get_property "log_level" p ≡ some (to_string (pos n))
    → IsTaken random p
    → create rk random make p ≡ throw (kafka_error invalid_arg)
unfolding construct
create_too_high rk random make n p h k e (q, reformed, (log, fetched)) = ground (
  arith,
  reformed,
  fetched,
  configure_too_high n q (record (set_client_id kafka_producer q unconfigured) { log_cb = log }) h k
      (reform_keeps_level random (to_string (pos n)) p q reformed e),
)

-- A turn that serves a fatal error and can make no producer ends in that exception.
pub turn_fails :
    (create : PropertiesMap → Outcome KafkaProducer) (t : Turn) (p : KafkaRecoverableProducer)
    (old : KafkaProducer) (e : Error) (x : Exception)
    → p.producer ≡ some old
    → t.error ≡ some e
    → is_fatal e ≡ true
    → t.stop ≡ false
    → create p.properties ≡ throw x
    → turn create t p ≡ throw x
unfolding turn recover replace
turn_fails create t p old e x ho he hf hs hc = ground (arith, ho, he, hf, hs, hc)

-- A log level above 7, which KafkaClient::setLogLevel takes for 7, is kept in the properties as it is
-- given. Where the properties are otherwise such as a producer takes, the turn that serves the next
-- fatal error and is not asked to stop ends in an exception, which leaves the poll thread.
pub set_log_level-terminates :
    (rk : RdKafka) (random : String) (make : KafkaClient → Outcome KafkaProducer)
    (set : ℤ → KafkaProducer → KafkaProducer) (n : ℕ) (t : Turn) (p : KafkaRecoverableProducer)
    (old : KafkaProducer) (e : Error)
    → 7 < n
    → n < 2 ^ 31
    → p.producer ≡ some old
    → t.error ≡ some e
    → is_fatal e ≡ true
    → t.stop ≡ false
    → IsTaken random (set_log_level set (pos n) p).0.properties
    → ((set_log_level set (pos n) p).1 ≡ ok tt)
      × ((c : KafkaClient) → (client_set_log_level (pos n) c).log_level ≡ pos 7)
      × (get_property "log_level" (set_log_level set (pos n) p).0.properties
          ≡ some (to_string (pos n)))
      × (turn (create rk random make) t (set_log_level set (pos n) p).0
          ≡ throw (kafka_error invalid_arg))
unfolding client_set_log_level
set_log_level-terminates rk random make set n t p old e h k ho he hf hs taken =
    let eq = set_log_level-properties set (pos n) p old ho in
    let level_there =
      ap (λ r. get_property "log_level" r.0.properties) eq ∙ level_kept (pos n) p.properties in
    (
      ap (λ r. r.1) eq,
      λ c. ground (arith, h),
      level_there,
      turn_fails (create rk random make) t (set_log_level set (pos n) p).0 (set (pos n) old) e
          (kafka_error invalid_arg) (ap (λ r. r.0.producer) eq) he hf hs
          (create_too_high rk random make n (set_log_level set (pos n) p).0.properties h k
            level_there taken),
    )
