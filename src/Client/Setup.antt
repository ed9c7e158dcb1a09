-- ===== src/Client/Setup.antt =====
-- The constructor of include/kafka/KafkaClient.h.
use text.Mathlib.Text.{◌==◌ as str_eq}
use Prim.Native.String.{◌++◌ as append}
use modern_cpp_kafka.Prelude.{
  String, ℤ, ltb_ℤ, Bool, true, false, ◌||◌, Option, none, some, [], ◌∷◌, if◌then◌else◌, text_ord,
  ◌==◌,
}
use modern_cpp_kafka.Outcome.{invalid_arg, Outcome, ok, throw, kafka_error, throw_if, ◌>>=◌, ◌>>◌}
use modern_cpp_kafka.StdText.{stoi}
use modern_cpp_kafka.Containers.Map.{contains}
use modern_cpp_kafka.Properties.{
  Kind, log_callback, error_callback, stats_callback, token_refresh_callback, interceptor,
  ValueType, str, object, PropertiesMap, put, get, get_property,
}
use modern_cpp_kafka.Client.{
  ClientType, get_client_type_string, KafkaClient, unconfigured, RdKafka, emerg, debug,
}

unfoldable pub set_client_id : ClientType → PropertiesMap → KafkaClient → KafkaClient
set_client_id type p c = elim (get_property "client.id" p) [
  | none ↦ c
  | some id ↦ record c {
    client_id = id;
    client_name = append (append (append (get_client_type_string type) "[") id) "]";
  }
]

-- Any exception of `stoi` is turned into a KafkaException.
abbrev pub check_log_level : Outcome ℤ → Outcome ℤ
check_log_level (ok level) =
    if ltb_ℤ level emerg || ltb_ℤ debug level then throw (kafka_error invalid_arg) else ok level
check_log_level _ = throw (kafka_error invalid_arg)

unfoldable pub configure_log_level : PropertiesMap → KafkaClient → Outcome KafkaClient
configure_log_level p c = elim (get_property "log_level" p) [
  | none ↦ ok c
  | some s ↦ check_log_level (stoi s) >>= λ level. ok (record c { log_level = level })
]

unfoldable pub read_bool : String → Outcome Bool
read_bool s =
    if str_eq s "true" || str_eq s "t" || str_eq s "1"
    then ok true
    else if str_eq s "false" || str_eq s "f" || str_eq s "0"
    then ok false
    else throw (kafka_error invalid_arg)

unfoldable pub configure_manual_poll : PropertiesMap → KafkaClient → Outcome KafkaClient
unfolding read_bool
configure_manual_poll p c = elim (get_property "enable.manual.events.poll" p) [
  | none ↦ ok c
  | some s ↦ read_bool s >>= λ b. ok (record c { enable_manual_events_poll = b })
]

unfoldable pub is_private_property_key : String → Bool
is_private_property_key k = str_eq k "max.poll.records" || str_eq k "enable.manual.events.poll"

-- The loop over the properties, on those that remain; `saved` are those that took effect.
unfoldable pub save_each : RdKafka → PropertiesMap → PropertiesMap → Outcome PropertiesMap
unfolding is_private_property_key
save_each rk [] saved = ok saved
save_each rk ((k, object kind n) ∷ p) saved = save_each rk p saved
save_each rk ((k, str v) ∷ p) saved =
    (if is_private_property_key k || rk.conf_set k v then put k (str v) saved else ok saved)
    >>= λ saved'. save_each rk p saved'

-- One of the callbacks: where the property is there, it is fetched with its type.
unfoldable pub fetch : String → Kind → PropertiesMap → Outcome (Option ValueType)
fetch key kind p = if contains key p then (get (some kind) key p >>= λ v. ok (some v)) else ok none

unfoldable pub add_brokers : RdKafka → PropertiesMap → Outcome (Unit {0})
add_brokers rk p = elim (get_property "bootstrap.servers" p) [
  | none ↦ throw (kafka_error invalid_arg)
  | some s ↦ if rk.brokers_add s == 0 then throw (kafka_error invalid_arg) else ok tt
]

-- `rk.add_on_new` is asked for only where there are interceptors.
unfoldable pub add_interceptor : RdKafka → Option ValueType → Outcome (Unit {0})
add_interceptor rk none = ok tt
add_interceptor rk (some v) = throw_if rk.add_on_new

-- The constructor, on properties that were reformed.
unfoldable pub construct : RdKafka → ClientType → PropertiesMap → Outcome KafkaClient
unfolding set_client_id configure_log_level configure_manual_poll save_each fetch add_interceptor
    add_brokers
construct rk type p = fetch "log_cb" log_callback p >>= λ log.
    configure_log_level p (record (set_client_id type p unconfigured) { log_cb = log }) >>= λ c.
    configure_manual_poll p c >>= λ d. save_each rk p [] >>= λ saved.
    fetch "stats_cb" stats_callback p >>= λ stats. fetch "error_cb" error_callback p >>= λ error.
    fetch "oauthbearer_token_refresh_cb" token_refresh_callback p >>= λ token.
    fetch "interceptors" interceptor p >>= λ added.
    add_interceptor rk added
    >> (throw_if rk.last_error
        >> (add_brokers rk p
            >> ok (record d {
              opened = true;
              stats_cb = stats;
              error_cb = error;
              oauthbearer_token_refresh_cb = token;
              interceptors = added;
              properties = saved;
            })))
