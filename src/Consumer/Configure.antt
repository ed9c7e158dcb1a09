-- ===== src/Consumer/Configure.antt =====
-- `validateAndReformProperties` and the constructor of include/kafka/KafkaConsumer.h.
use text.Mathlib.Text.{◌==◌ as str_eq}
use modern_cpp_kafka.Prelude.{
  ◌≡◌, refl, ap, ◌∙◌, text_lt, ℕ, suc, ◌-◌, ◌^◌, String, ℤ, pos, negsuc, Bool, true, false, ◌||◌,
  none, some, [], if◌then◌else◌, text_ord,
}
use modern_cpp_kafka.Outcome.{
  RespErr, invalid_arg, Outcome, ok, throw, kafka_error, throw_if, ◌>>=◌, ◌>>◌,
}
use modern_cpp_kafka.StdText.{stoi, to_string}
use modern_cpp_kafka.Properties.{PropertiesMap, str, put, remove, get_property, is_non_string_key}
use modern_cpp_kafka.Properties.Laws.{get_property-put, get_property-remove}
use modern_cpp_kafka.Client
use modern_cpp_kafka.Client.{KafkaClient, RdKafka, kafka_consumer, put_default}
use modern_cpp_kafka.Client.Setup.{construct}
use modern_cpp_kafka.Client.Configure.{
  or_default, put_default_lem, validate_and_reform_properties_lem,
}
use modern_cpp_kafka.Consumer.{Consumer}

-- `random_id` and `random_group` are the random strings.
unfoldable pub reform_consumer_properties : String → String → PropertiesMap → Outcome PropertiesMap
reform_consumer_properties random_id random_group p =
    Client.validate_and_reform_properties random_id (remove "max.poll.records" p) >>= λ q.
    put_default "group.id" random_group q >>= λ r. put "enable.auto.commit" (str "false") r >>= λ s.
    put "auto.commit.interval.ms" (str "0") s >>= λ t. put "enable.auto.offset.store" (str "true") t

-- static_cast<std::size_t>, of 64 bits.
abbrev pub to_size : ℤ → ℕ
to_size (pos n) = n
to_size (negsuc n) = 2 ^ 64 - suc n

unfoldable pub read_max_poll_records : PropertiesMap → Outcome ℕ
read_max_poll_records p = elim (get_property "max.poll.records" p) [
  | none ↦ ok 500
  | some s ↦ stoi s >>= λ n. ok (to_size n)
]

abbrev pub says_true : String → Bool
says_true s = str_eq s "1" || str_eq s "true"

abbrev pub says_false : String → Bool
says_false s = str_eq s "0" || str_eq s "false"

unfoldable pub read_enable_auto_commit : PropertiesMap → Outcome Bool
read_enable_auto_commit p = elim (get_property "enable.auto.commit" p) [
  | none ↦ ok true
  | some s ↦
      if says_true s || says_false s then ok (says_true s) else throw (kafka_error invalid_arg)
]

abbrev pub new_consumer : ℕ → Bool → Consumer
new_consumer max_poll_records enable_auto_commit = record {
  opened = true;
  max_poll_records = max_poll_records;
  enable_auto_commit = enable_auto_commit;
  assignment = [];
  user_assignment = [];
  user_subscription = [];
  pending_event = none;
  cooperative_enabled = none;
  offsets_to_store = [];
  has_rebalance_cb = false;
  calls = [];
}

-- The constructor; `poll_set` is what rd_kafka_poll_set_consumer answers.
unfoldable pub construct_consumer :
    RdKafka → RespErr → String → String → PropertiesMap → Outcome (KafkaClient × Consumer)
unfolding reform_consumer_properties read_max_poll_records read_enable_auto_commit
construct_consumer rk poll_set random_id random_group p =
    reform_consumer_properties random_id random_group p >>= λ q.
    construct rk kafka_consumer q >>= λ client. read_max_poll_records p >>= λ n.
    put "max.poll.records" (str (to_string (pos n))) client.properties >>= λ a.
    read_enable_auto_commit p >>= λ b.
    put "enable.auto.commit" (str (if b then "true" else "false")) a >>= λ c.
    throw_if poll_set >> ok (record client { properties = c }, new_consumer n b)

-- From properties with `bootstrap.servers` the consumer makes properties in which
-- `enable.auto.commit` is false, `auto.commit.interval.ms` is 0, `enable.auto.offset.store` is
-- true, `max.poll.records` is missing, `group.id` is the given or else the random one, and the
-- servers are the given ones.
pub reform_consumer_properties_lem :
    (random_id random_group servers : String) (p : PropertiesMap)
    → get_property "bootstrap.servers" p ≡ some servers
    → (q : PropertiesMap) × (reform_consumer_properties random_id random_group p ≡ ok q)
      × (get_property "enable.auto.commit" q ≡ some "false")
      × (get_property "auto.commit.interval.ms" q ≡ some "0")
      × (get_property "enable.auto.offset.store" q ≡ some "true")
      × (get_property "max.poll.records" q ≡ none)
      × (get_property "group.id" q ≡ some (or_default (get_property "group.id" p) random_group))
      × (get_property "bootstrap.servers" q ≡ some servers)
unfolding reform_consumer_properties is_non_string_key text_lt
reform_consumer_properties_lem random_id random_group servers p h =
    let p' = remove "max.poll.records" p in
    let servers' = get_property-remove "max.poll.records" "bootstrap.servers" p ∙ h in
    let a = validate_and_reform_properties_lem random_id servers p' servers' in
    let b = put_default_lem "group.id" random_group a.0 refl in
    let c = get_property-put "enable.auto.commit" "false" b.0 refl in
    let d = get_property-put "auto.commit.interval.ms" "0" c.0 refl in
    let e = get_property-put "enable.auto.offset.store" "true" d.0 refl in
    (
      e.0,
      rw (a.1, b.1, c.1, d.1) e.1,
      e.2 "enable.auto.commit" ∙ d.2 "enable.auto.commit" ∙ c.2 "enable.auto.commit",
      e.2 "auto.commit.interval.ms" ∙ d.2 "auto.commit.interval.ms",
      e.2 "enable.auto.offset.store",
      e.2 "max.poll.records"
          ∙ d.2 "max.poll.records"
          ∙ c.2 "max.poll.records"
          ∙ b.2 "max.poll.records"
          ∙ a.2 "max.poll.records"
          ∙ get_property-remove "max.poll.records" "max.poll.records" p,
      e.2 "group.id"
          ∙ d.2 "group.id"
          ∙ c.2 "group.id"
          ∙ b.2 "group.id"
          ∙ ap (λ o. some (or_default o random_group))
              (a.2 "group.id" ∙ get_property-remove "max.poll.records" "group.id" p),
      e.2 "bootstrap.servers"
          ∙ d.2 "bootstrap.servers"
          ∙ c.2 "bootstrap.servers"
          ∙ b.2 "bootstrap.servers"
          ∙ a.2 "bootstrap.servers"
          ∙ servers',
    )
