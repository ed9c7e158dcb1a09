-- ===== src/Client/Logging.antt =====
-- include/kafka/KafkaClient.h: the lines that a client logs, and the statistics and interceptor calls
-- that are passed on to the user's callbacks. Interceptors.h: which interceptors there are.
use modern_cpp_kafka.Prelude.{
  ℕ, String, ℤ, pos, leb_ℤ, ◌≤ℤ◌, ◌<ℤ◌, ◌≡◌, Bool, true, false, ◌&&◌, Option, none, some, List, [],
  ◌∷◌, ◌++◌, if◌then◌else◌, arith,
}
use mathlib.Core.List.{append-nil}
use modern_cpp_kafka.Outcome.{RespErr, no_error}
use modern_cpp_kafka.Log.{clear, take, print_all}
use modern_cpp_kafka.Log.Laws.{concat, print_all-clear}

abbrev pub log_buffer_size : ℕ
log_buffer_size = 1024

-- What the log callback gets: the level and the line.
pub record LogLine : Type 0 where
  pub level : ℤ
  pub line : List ℕ

-- `doLog`: `name` is the client's, with the space behind it, and `message` is what the format makes.
unfoldable pub do_log : ℤ → Bool → List ℕ → ℤ → List ℕ → Option LogLine
do_log log_level has_log_cb name level message =
    if leb_ℤ (pos 0) level && leb_ℤ level log_level && has_log_cb
    then some (record {
      level = level;
      line = (print_all log_buffer_size (name ∷ message ∷ []) clear).text;
    })
    else none

-- `onLog`: " | " between the facility and the text.
abbrev pub bar : List ℕ
bar = 32 ∷ 124 ∷ 32 ∷ []

unfoldable pub on_log : ℤ → Bool → List ℕ → ℤ → List ℕ → List ℕ → Option LogLine
unfolding do_log
on_log log_level has_log_cb name level fac buf =
    do_log log_level has_log_cb name level (fac ++ bar ++ buf)

-- `onStats`: what the callback gets.
abbrev pub on_stats : Bool → String → Option String
on_stats has_stats_cb json = if has_stats_cb then some json else none

-- Interceptors, by whether each callback is set.
pub record Interceptors : Type 0 where
  pub thread_start_cb : Bool
  pub thread_exit_cb : Bool
  pub broker_state_change_cb : Bool
  pub valid : Bool

abbrev pub no_interceptors : Interceptors
no_interceptors = record {
  thread_start_cb = false;
  thread_exit_cb = false;
  broker_state_change_cb = false;
  valid = false;
}

abbrev pub on_thread_start : Bool → Interceptors → Interceptors
on_thread_start cb i = record i { valid = true; thread_start_cb = cb }

abbrev pub on_thread_exit : Bool → Interceptors → Interceptors
on_thread_exit cb i = record i { valid = true; thread_exit_cb = cb }

abbrev pub on_broker_state_change : Bool → Interceptors → Interceptors
on_broker_state_change cb i = record i { valid = true; broker_state_change_cb = cb }

-- What librdkafka tells an interceptor.
pub data Event : Type 0 where
  thread_start thread_exit : String → String → Event
  broker_state_change : ℤ → String → String → ℤ → String → Event

-- The user's callback of the event, if it is set, and the answer to librdkafka.
unfoldable pub intercept : Interceptors → Event → Option Event × RespErr
intercept i (thread_start name type) =
    (if i.thread_start_cb then some (thread_start name type) else none, no_error)
intercept i (thread_exit name type) =
    (if i.thread_exit_cb then some (thread_exit name type) else none, no_error)
intercept i (broker_state_change id secproto host port state) = (
  if i.broker_state_change_cb then some (broker_state_change id secproto host port state) else none,
  no_error,
)

-- A line is logged exactly if there is a callback and the level is from 0 to the client's. It is the
-- name and the message, cut to 1023 bytes.
pub do_log_lem :
    (log_level level : ℤ) (name message : List ℕ)
    → (pos 0 ≤ℤ level
        → level ≤ℤ log_level
        → do_log log_level true name level message
          ≡ some (record { level = level; line = take 1023 (name ++ message) }))
      × (level <ℤ pos 0 → do_log log_level true name level message ≡ none)
      × (log_level <ℤ level → do_log log_level true name level message ≡ none)
      × (do_log log_level false name level message ≡ none)
unfolding do_log concat
do_log_lem log_level level name message = (
  λ h k. ground (
    arith,
    h,
    k,
    (print_all-clear 1024 (name ∷ message ∷ []) (omega arith)).0,
    append-nil message,
  ),
  λ h. ground (arith, h),
  λ h. ground (arith, h),
  ground arith,
)
