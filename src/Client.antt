-- ===== src/Client.antt =====
-- include/kafka/KafkaClient.h: the base class of the clients. What librdkafka answers is a record of
-- functions; log lines are left out, and a random string is an argument.
pub mod Configure
pub mod Setup
pub mod Construct
pub mod Metadata
mod Tests
pub mod Callbacks
pub mod Logging
pub mod Polling
use text.Mathlib.Text.{◌==◌ as str_eq}
use Prim.Native.String.{◌++◌ as append}
use modern_cpp_kafka.Prelude.{
  ℕ, ◌-◌, ◌%◌, ◌^◌, ltb, String, ℤ, pos, negsuc, ltb_ℤ, Bool, true, false, not, ◌&&◌, ◌||◌, Option,
  none, some, [], ◌∷◌, if◌then◌else◌, text_ord, ◌==◌,
}
use modern_cpp_kafka.Outcome.{
  RespErr, no_error, invalid_arg, Outcome, ok, throw, kafka_error, throw_if, ◌>>=◌, ◌>>◌,
}
use modern_cpp_kafka.StdText.{stoi, to_string}
use modern_cpp_kafka.Containers.Map.{insert, contains}
use modern_cpp_kafka.Properties.{
  Kind, log_callback, error_callback, stats_callback, token_refresh_callback, interceptor,
  ValueType, str, object, PropertiesMap, put, get, get_property,
}

pub data ClientType : Type 0 where
  kafka_consumer kafka_producer admin_client : ClientType

abbrev pub get_client_type_string : ClientType → String
get_client_type_string kafka_consumer = "KafkaConsumer"
get_client_type_string kafka_producer = "KafkaProducer"
get_client_type_string admin_client = "AdminClient"

-- Timeouts are milliseconds.
abbrev pub int_max : ℤ
int_max = pos (2 ^ 31 - 1)

abbrev pub timeout_infinite : ℤ
timeout_infinite = negsuc 0

-- static_cast<int>
unfoldable pub static_cast_int : ℤ → ℤ
static_cast_int (pos n) =
    if ltb (n % 2 ^ 32) (2 ^ 31) then pos (n % 2 ^ 32) else negsuc (2 ^ 32 - n % 2 ^ 32 - 1)
static_cast_int (negsuc n) =
    if ltb (n % 2 ^ 32) (2 ^ 31) then negsuc (n % 2 ^ 32) else pos (2 ^ 32 - 1 - n % 2 ^ 32)

unfoldable pub convert_ms_duration_to_int : ℤ → ℤ
unfolding static_cast_int
convert_ms_duration_to_int ms = if ltb_ℤ int_max ms then timeout_infinite else static_cast_int ms

-- Log::Level::Emerg, Notice and Debug.
abbrev pub emerg : ℤ
emerg = pos 0

abbrev pub notice : ℤ
notice = pos 5

abbrev pub debug : ℤ
debug = pos 7

pub record KafkaClient : Type 0 where
  pub opened : Bool
  pub client_id : String
  pub client_name : String
  pub log_level : ℤ
  pub enable_manual_events_poll : Bool
  -- `none` is the default logger
  pub log_cb : Option ValueType
  pub stats_cb : Option ValueType
  pub error_cb : Option ValueType
  pub oauthbearer_token_refresh_cb : Option ValueType
  pub interceptors : Option ValueType
  pub properties : PropertiesMap

abbrev pub unconfigured : KafkaClient
unconfigured = record {
  opened = false;
  client_id = "";
  client_name = "";
  log_level = notice;
  enable_manual_events_poll = false;
  log_cb = none;
  stats_cb = none;
  error_cb = none;
  oauthbearer_token_refresh_cb = none;
  interceptors = none;
  properties = [];
}

-- librdkafka's answers while a client is made: whether it takes a property, the error of adding
-- the interceptor, rd_kafka_last_error after rd_kafka_new, and the number of brokers added.
pub record RdKafka : Type 0 where
  pub conf_set : String → String → Bool
  pub add_on_new : RespErr
  pub last_error : RespErr
  pub brokers_add : String → ℕ

abbrev pub is_with_auto_events_polling : KafkaClient → Bool
is_with_auto_events_polling c = not c.enable_manual_events_poll

-- Where the property is not there, `value` is put.
unfoldable pub put_default : String → String → PropertiesMap → Outcome PropertiesMap
put_default key value p = elim (get_property key p) [ none ↦ put key (str value) p | some s ↦ ok p ]

unfoldable pub validate_and_reform_properties : String → PropertiesMap → Outcome PropertiesMap
unfolding put_default
validate_and_reform_properties random p = elim (get_property "bootstrap.servers" p) [
  | none ↦ throw (kafka_error invalid_arg)
  | some s ↦ put_default "client.id" random p >>= λ q. put_default "log_level" (to_string notice) q
]

unfoldable pub set_log_level : ℤ → KafkaClient → KafkaClient
set_log_level level c = record c {
  log_level = if ltb_ℤ level emerg then emerg else if ltb_ℤ debug level then debug else level;
}

abbrev pub default_buf_size : ℕ
default_buf_size = 512

-- With a buffer of the size that the value needs the property has to be there: that is asserted.
abbrev pub read_again : Option (String × ℕ) → Outcome (Option String)
read_again none = Outcome.undefined
read_again (some (value, size)) = ok (some value)

-- `conf_get` is rd_kafka_conf_get with a buffer of a size: the text that fits into it and the size
-- that the value needs, if the property is known.
unfoldable pub client_property :
    (String → ℕ → Option (String × ℕ)) → String → KafkaClient → Outcome (Option String)
client_property conf_get name c =
    let again = λ (size : ℕ). read_again (conf_get name size) in
    elim (get_property name c.properties) [
      | some value ↦ ok (some value)
      | none ↦ elim (conf_get name default_buf_size) [
        | none ↦ ok none
        | some r ↦ if ltb default_buf_size r.1 then again r.1 else ok (some r.0)
      ]
    ]
