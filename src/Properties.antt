-- ===== src/Properties.antt =====
-- include/kafka/Properties.h: the configuration map. A callback, or the interceptors, is told from
-- another by a number; texts are `std::string`s.
pub mod Laws
pub mod Hidden
mod Tests
use Prim.Native.Char.{code}
use Prim.Native.String.{◌++◌ as append}
use text.Mathlib.Text.{◌==◌ as str_eq}
use modern_cpp_kafka.Prelude.{
  ℕ, String, Bool, true, false, not, ◌&&◌, ◌||◌, Option, none, some, List, [], ◌∷◌, if◌then◌else◌,
  text_ord, ◌==◌,
}
use modern_cpp_kafka.Outcome.{
  invalid_arg, Outcome, ok, throw, kafka_error, bad_cast, runtime_error, ◌>>=◌, ◌>>◌,
}
use modern_cpp_kafka.Containers.Map.{Map, find, contains, insert, erase}

-- What a value holds.
pub data Kind : Type 0 where
  log_callback error_callback stats_callback token_refresh_callback interceptor : Kind

pub data ValueType : Type 0 where
  str : String → ValueType
  object : Kind → ℕ → ValueType

abbrev pub PropertiesMap : Type 0
PropertiesMap = Map String ValueType

-- `expectedKey` of the constructors; a text has none.
abbrev pub expected_key : ValueType → Option String
expected_key (str s) = none
expected_key (object log_callback n) = some "log_cb"
expected_key (object error_callback n) = some "error_cb"
expected_key (object stats_callback n) = some "stats_cb"
expected_key (object token_refresh_callback n) = some "oauthbearer_token_refresh_cb"
expected_key (object interceptor n) = some "interceptors"

unfoldable pub is_non_string_key : String → Bool
is_non_string_key key =
    str_eq key "log_cb"
    || str_eq key "error_cb"
    || str_eq key "stats_cb"
    || str_eq key "oauthbearer_token_refresh_cb"
    || str_eq key "interceptors"

unfoldable pub is_invalid : String → ValueType → Bool
unfolding is_non_string_key
is_invalid key value = elim (expected_key value) [
  | none ↦ is_non_string_key key
  | some expected ↦ not (str_eq key expected)
]

unfoldable pub validate : String → ValueType → Outcome ValueType
unfolding is_invalid
validate key value = if is_invalid key value then throw runtime_error else ok value

unfoldable pub validate_all : PropertiesMap → Outcome (Unit {0})
unfolding validate
validate_all [] = ok tt
validate_all ((key, value) ∷ kv_map) = validate key value >>= λ _. validate_all kv_map

-- The constructor from a map.
unfoldable pub properties_of : PropertiesMap → Outcome PropertiesMap
unfolding validate_all
properties_of kv_map = validate_all kv_map >> ok kv_map

unfoldable pub put : String → ValueType → PropertiesMap → Outcome PropertiesMap
unfolding validate
put key value p = validate key value >>= λ v. ok (insert key v p)

unfoldable pub remove : String → PropertiesMap → PropertiesMap
remove key p = erase key p

-- `get<T>`, where `kind` is the type T: `string` for a text.
abbrev pub string : Option Kind
string = none

abbrev pub kind_of : ValueType → Option Kind
kind_of (str s) = string
kind_of (object kind n) = some kind

abbrev pub kind_id : Option Kind → ℕ
kind_id none = 0
kind_id (some log_callback) = 1
kind_id (some error_callback) = 2
kind_id (some stats_callback) = 3
kind_id (some token_refresh_callback) = 4
kind_id (some interceptor) = 5

unfoldable pub get : Option Kind → String → PropertiesMap → Outcome ValueType
get kind key p = elim (find key p) [
  | none ↦ throw (kafka_error invalid_arg)
  | some v ↦ if kind_id (kind_of v) == kind_id kind then ok v else throw bad_cast
]

abbrev pub text_of : Outcome ValueType → Option String
text_of (ok (str s)) = some s
text_of _ = none

-- A std::bad_cast is caught.
unfoldable pub get_property : String → PropertiesMap → Option String
unfolding get
get_property key p = if contains key p then text_of (get string key p) else none

-- `.` of the regular expressions does not match the end of a line.
unfoldable pub matches : String → String → Bool
matches suffix String.[] = false
matches suffix (String.◌∷◌ c s) =
    let rest = matches suffix s in
    not ((code c == 10) || (code c == 13)) && (str_eq s suffix || rest)

-- `.+\.password|.+\.username|.+secret|.+key|.+pem` on the whole key.
unfoldable pub is_sensitive : String → Bool
unfolding matches
is_sensitive key =
    matches ".password" key
    || matches ".username" key
    || matches "secret" key
    || matches "key" key
    || matches "pem" key

-- `type_name` is the implementation's name of a type.
abbrev pub value_text : (Kind → String) → ValueType → String
value_text type_name (str s) = s
value_text type_name (object kind n) = type_name kind

-- The loop of `toString` after `ret`.
pub show_from : (Kind → String) → PropertiesMap → String → String
unfolding is_sensitive
show_from type_name [] ret = ret
show_from type_name ((key, value) ∷ p) ret = show_from type_name p (
    append (append (append (append ret (if str_eq ret "" then "" else "|")) key) "=")
      (if is_sensitive key then "*" else value_text type_name value))

unfoldable pub show : (Kind → String) → PropertiesMap → String
unfolding show_from
show type_name p = show_from type_name p ""
