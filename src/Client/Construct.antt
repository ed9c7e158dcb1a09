-- ===== src/Client/Construct.antt =====
-- The constructor of a client: which configurations it takes, and what it makes of them.
use modern_cpp_kafka.Prelude.{
  ◌≡◌, refl, ap, sym, ◌∙◌, ◌==◌, ℤ, pos, String, Bool, true, false, Bool-cases, Option-cases, inl,
  inr, same→eq, Option, none, some, [], ◌∷◌, if◌then◌else◌, text_ord, same, arith, ◌||◌,
}
use modern_cpp_kafka.Outcome.{ok, no_error, ◌>>=◌}
use modern_cpp_kafka.Containers.Map.{find, contains, insert, IsSorted}
use modern_cpp_kafka.Containers.Map.Laws.{find-insert}
use modern_cpp_kafka.Containers.Map.Sorted.{find-Above-same}
use modern_cpp_kafka.Containers.Map.Ascending.{Above-IsSorted}
use modern_cpp_kafka.Properties.{
  Kind, log_callback, error_callback, stats_callback, token_refresh_callback, interceptor,
  ValueType, str, object, PropertiesMap, is_invalid, get_property,
}
use modern_cpp_kafka.Properties.Laws.{IsValid, put-valid, get-valid}
use modern_cpp_kafka.Client.{KafkaClient, RdKafka, ClientType, unconfigured}
use modern_cpp_kafka.Client.Setup.{
  set_client_id, is_private_property_key, save_each, fetch, add_interceptor, add_brokers,
  check_log_level, configure_log_level, configure_manual_poll, read_bool, construct,
}
use modern_cpp_kafka.StdText.{stoi}

-- The value that takes effect: a text that librdkafka takes, or that is the wrapper's own.
abbrev pub in_effect : RdKafka → String → Option ValueType → Option ValueType
in_effect rk k none = none
in_effect rk k (some (object kind n)) = none
in_effect rk k (some (str v)) =
    if is_private_property_key k || rk.conf_set k v then some (str v) else none

abbrev over : Option ValueType → Option ValueType → Option ValueType
over none y = y
over (some x) y = some x

taken_same :
    (rk : RdKafka) (j k v : String)
    → same j k ≡ true
    → (is_private_property_key j || rk.conf_set j v)
      ≡ (is_private_property_key k || rk.conf_set k v)
taken_same rk j k v e = ap (λ x. is_private_property_key x || rk.conf_set x v) (same→eq j k e)

save_each-find :
    (rk : RdKafka) (p saved : PropertiesMap)
    → IsValid p
    → IsSorted p
    → (out : PropertiesMap) × (save_each rk p saved ≡ ok out)
      × ((k : String) → find k out ≡ over (in_effect rk k (find k p)) (find k saved))
unfolding save_each find
save_each-find rk [] saved v s = (saved, refl, λ k. refl)
save_each-find rk ((j, object kind n) ∷ p) saved v s =
    let rest = save_each-find rk p saved v.1 (Above-IsSorted j p s) in
    (rest.0, rest.1, λ k. ground (arith, rest.2 k, find-Above-same j k p s))
save_each-find rk ((j, str x) ∷ p) saved v s =
    elim (Bool-cases (is_private_property_key j || rk.conf_set j x)) [
      | inl e ↦
          let rest = save_each-find rk p (insert j (str x) saved) v.1 (Above-IsSorted j p s) in
          (
            rest.0,
            ground (arith, e, put-valid j (str x) saved v.0, rest.1),
            λ k. ground (
              arith,
              e,
              rest.2 k,
              find-insert j k (str x) saved,
              find-Above-same j k p s,
              taken_same rk j k x,
            ),
          )
      | inr e ↦
          let rest = save_each-find rk p saved v.1 (Above-IsSorted j p s) in
          (
            rest.0,
            ground (arith, e, rest.1),
            λ k. ground (arith, e, rest.2 k, find-Above-same j k p s, taken_same rk j k x),
          )
    ]

fetch-valid :
    (key : String) (kind : Kind) (p : PropertiesMap)
    → IsValid p
    → is_invalid key (object kind 0) ≡ false
    → fetch key kind p ≡ ok (find key p)
unfolding fetch contains
fetch-valid key kind p v h = elim (Option-cases (find key p)) [
  | inl e ↦ ground (arith, e)
  | inr (w, e) ↦ ground (arith, e, get-valid key (object kind 0) w p v h e)
]

-- What the options for the log level and the polling say, where they are there.
abbrev pub LevelIs : Option String → ℤ → Type 0
LevelIs none level = level ≡ pos 5
LevelIs (some s) level = check_log_level (stoi s) ≡ ok level

abbrev pub PollIs : Option String → Bool → Type 0
PollIs none manual = manual ≡ false
PollIs (some s) manual = read_bool s ≡ ok manual

level_case :
    (o : Option String) (c : KafkaClient) (level : ℤ)
    → c.log_level ≡ pos 5
    → LevelIs o level
    → (elim o [
      | none ↦ ok c
      | some s ↦ check_log_level (stoi s) >>= λ l. ok (record c { log_level = l })
    ])
      ≡ ok (record c { log_level = level })
level_case none c level h k = ap (λ l. ok (record c { log_level = l })) (h ∙ sym k)
level_case (some s) c level h k = rw k refl

poll_case :
    (o : Option String) (c : KafkaClient) (manual : Bool)
    → c.enable_manual_events_poll ≡ false
    → PollIs o manual
    → (elim o [
      | none ↦ ok c
      | some s ↦ read_bool s >>= λ b. ok (record c { enable_manual_events_poll = b })
    ])
      ≡ ok (record c { enable_manual_events_poll = manual })
poll_case none c manual h k = ap (λ b. ok (record c { enable_manual_events_poll = b })) (h ∙ sym k)
poll_case (some s) c manual h k = rw k refl

set_client_id_keeps :
    (type : ClientType) (p : PropertiesMap) (c : KafkaClient)
    → ((set_client_id type p c).log_level ≡ c.log_level)
      × ((set_client_id type p c).enable_manual_events_poll ≡ c.enable_manual_events_poll)
unfolding set_client_id
set_client_id_keeps type p c = elim (Option-cases (get_property "client.id" p)) [
  | inl e ↦ (ground (arith, e), ground (arith, e))
  | inr (s, e) ↦ (ground (arith, e), ground (arith, e))
]

interceptors_added :
    (rk : RdKafka) (o : Option ValueType) → rk.add_on_new ≡ no_error → add_interceptor rk o ≡ ok tt
unfolding add_interceptor
interceptors_added rk none h = refl
interceptors_added rk (some v) h = rw h refl

brokers_added :
    (rk : RdKafka) (p : PropertiesMap) (servers : String)
    → get_property "bootstrap.servers" p ≡ some servers
    → (rk.brokers_add servers == 0) ≡ false
    → add_brokers rk p ≡ ok tt
unfolding add_brokers
brokers_added rk p servers h k = ground (arith, h, k)

-- For properties whose values are valid for their keys and whose keys ascend, with a log level in
-- range and an option for polling by hand that can be read or are missing, servers of which one
-- can be added, and no error of librdkafka's, the constructor makes a client that is open, has
-- that log level and option, has the error and statistics callbacks of the properties, and keeps
-- as its properties exactly the texts that librdkafka takes or that are the wrapper's own.
pub construct_lem :
    (rk : RdKafka) (type : ClientType) (p : PropertiesMap) (level : ℤ) (manual : Bool)
    (servers : String)
    → IsValid p
    → IsSorted p
    → LevelIs (get_property "log_level" p) level
    → PollIs (get_property "enable.manual.events.poll" p) manual
    → get_property "bootstrap.servers" p ≡ some servers
    → (rk.brokers_add servers == 0) ≡ false
    → rk.add_on_new ≡ no_error
    → rk.last_error ≡ no_error
    → (c : KafkaClient) × (construct rk type p ≡ ok c)
      × (c.opened ≡ true)
      × (c.log_level ≡ level)
      × (c.enable_manual_events_poll ≡ manual)
      × (c.error_cb ≡ find "error_cb" p)
      × (c.stats_cb ≡ find "stats_cb" p)
      × ((k : String) → find k c.properties ≡ in_effect rk k (find k p))
unfolding construct is_invalid configure_log_level configure_manual_poll find
construct_lem rk type p level manual servers v s hl hm hb hn ha he =
    let saved = save_each-find rk p [] v s in
    let named = record (set_client_id type p unconfigured) { log_cb = find "log_cb" p } in
    let leveled = record named { log_level = level } in
    let keeps = set_client_id_keeps type p unconfigured in
    (
      record leveled {
        enable_manual_events_poll = manual;
        opened = true;
        stats_cb = find "stats_cb" p;
        error_cb = find "error_cb" p;
        oauthbearer_token_refresh_cb = find "oauthbearer_token_refresh_cb" p;
        interceptors = find "interceptors" p;
        properties = saved.0;
      },
      rw
          (
            fetch-valid "log_cb" log_callback p v refl,
            level_case (get_property "log_level" p) named level keeps.0 hl,
            poll_case (get_property "enable.manual.events.poll" p) leveled manual keeps.1 hm,
            saved.1,
            fetch-valid "stats_cb" stats_callback p v refl,
            fetch-valid "error_cb" error_callback p v refl,
            fetch-valid "oauthbearer_token_refresh_cb" token_refresh_callback p v refl,
            fetch-valid "interceptors" interceptor p v refl,
            interceptors_added rk (find "interceptors" p) ha,
            he,
            brokers_added rk p servers hb hn,
          )
          refl,
      refl,
      refl,
      refl,
      refl,
      refl,
      λ k. ground (arith, saved.2 k),
    )
