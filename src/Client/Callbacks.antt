-- ===== src/Client/Callbacks.antt =====
-- The callbacks that librdkafka calls on a client, in include/kafka/KafkaClient.h: errors, tokens
-- and interceptors. What a callback of the user's does is an argument, the calls of librdkafka and
-- of the user are listed.
use modern_cpp_kafka.Prelude.{
  ◌≡◌, ◌⊎◌, inl, inr, refl, String, ℤ, Bool, true, false, Option, none, some, List, [], ◌∷◌,
  if◌then◌else◌,
}
use modern_cpp_kafka.Outcome.{RespErr, no_error, fatal, is_error}
use modern_cpp_kafka.Containers.Map.{Map}
use modern_cpp_kafka.Error.{Error, with_message, is_fatal, value}

abbrev pub reported : RespErr → String → RespErr × String → Error
reported fatal reason fatal_error = with_message fatal_error.0 fatal_error.1 true
reported e reason fatal_error = with_message e reason false

-- `fatal_error` is what rd_kafka_fatal_error gives. The result is what the user's callback gets, if
-- there is one.
unfoldable pub error_callback : Bool → RespErr → String → RespErr × String → Option Error
error_callback has_error_cb err reason fatal_error =
    if has_error_cb then some (reported err reason fatal_error) else none

reported_lem :
    (err : RespErr) (reason : String) (fatal_error : RespErr × String)
    → let e = reported err reason fatal_error in
      (err ≡ fatal) × (is_fatal e ≡ true) × (value e ≡ fatal_error.0)
      ⊎ (is_fatal e ≡ false) × (value e ≡ err)
reported_lem fatal reason fatal_error = inl (refl, refl, refl)
reported_lem _ reason fatal_error = inr (refl, refl)

-- A fatal error reaches the user's callback with the code that made it fatal, and is marked; any
-- other error reaches it with its own code, and is not.
pub error_callback_lem :
    (err : RespErr) (reason : String) (fatal_error : RespErr × String)
    → (e : Error) × (error_callback true err reason fatal_error ≡ some e)
      × ((err ≡ fatal) × (is_fatal e ≡ true) × (value e ≡ fatal_error.0)
          ⊎ (is_fatal e ≡ false) × (value e ≡ err))
unfolding error_callback
error_callback_lem err reason fatal_error =
    (reported err reason fatal_error, refl, reported_lem err reason fatal_error)

pub record SaslOauthbearerToken : Type 0 where
  pub value : String
  pub md_lifetime : ℤ
  pub md_principal_name : String
  pub extensions : Map String String

pub data TokenCall : Type 0 where
  set_token : SaslOauthbearerToken → List String → TokenCall
  set_token_failure : String → TokenCall

-- The keys and values in turn.
unfoldable pub flatten : Map String String → List String
flatten [] = []
flatten ((k, v) ∷ m) = k ∷ v ∷ flatten m

abbrev pub given : Option String → String
given none = ""
given (some s) = s

-- `refresh` is the user's callback, which gives a token or the text of an exception, and
-- `set_result` the code and text of rd_kafka_oauthbearer_set_token.
unfoldable pub oauthbearer_token_refresh_callback :
    Option (String → SaslOauthbearerToken ⊎ String)
    → Option String
    → RespErr × String
    → List TokenCall
unfolding flatten
oauthbearer_token_refresh_callback none config set_result =
    set_token_failure "No OAUTHBEARER token refresh callback configured!" ∷ []
oauthbearer_token_refresh_callback (some refresh) config set_result =
    elim (refresh (given config)) [
      | inr what ↦ set_token_failure what ∷ []
      | inl token ↦
          set_token token (flatten token.extensions)
          ∷ (if is_error set_result.0 then set_token_failure set_result.1 ∷ [] else [])
    ]

pub data InterceptorCall : Type 0 where
  on_thread_start on_thread_exit on_broker_state_change : InterceptorCall

-- The three codes are those of the calls that add an interceptor.
unfoldable pub config_interceptor_on_new :
    RespErr → RespErr → RespErr → RespErr × List InterceptorCall
config_interceptor_on_new start exit broker =
    if is_error start
    then (start, on_thread_start ∷ [])
    else if is_error exit
    then (exit, on_thread_start ∷ on_thread_exit ∷ [])
    else if is_error broker
    then (broker, on_thread_start ∷ on_thread_exit ∷ on_broker_state_change ∷ [])
    else (no_error, on_thread_start ∷ on_thread_exit ∷ on_broker_state_change ∷ [])
