-- ===== src/Client/Polling.antt =====
-- include/kafka/KafkaClient.h: polling for events, by hand or on a thread of the client's own.
use modern_cpp_kafka.Prelude.{
  String, ℤ, pos, ◌≡◌, refl, Bool, true, false, List, [], ◌∷◌, ◌++◌, if◌then◌else◌,
}
use modern_cpp_kafka.Outcome.{Outcome, ok}
use modern_cpp_kafka.Client.{convert_ms_duration_to_int}

-- Whether there is a `_pollable`, and a poll thread.
pub record Polling : Type 0 where
  pub pollable : Bool
  pub poll_thread : Bool

-- What the thread does: the interceptors' calls and the polls, with their timeouts.
pub data Act : Type 0 where
  intercept_thread_start intercept_thread_exit : String → String → Act
  polled : ℤ → Act

abbrev pub callback_polling_interval_ms : ℤ
callback_polling_interval_ms = pos 10

unfoldable pub start_background_polling_if_necessary : Bool → Polling → Polling
start_background_polling_if_necessary auto_events_polling p = record p {
  pollable = true;
  poll_thread = if auto_events_polling then true else p.poll_thread;
}

-- The thread is asked to stop and joined before the pollable goes.
unfoldable pub stop_background_polling_if_necessary : Polling → Polling
stop_background_polling_if_necessary p = record { pollable = false; poll_thread = false }

-- The loop of the thread, by whether it is asked to stop before each poll; it polls on past those that
-- are given.
unfoldable pub poll_loop : List Bool → Outcome (List Act)
poll_loop [] = Outcome.out_of_fuel
poll_loop (true ∷ stops) = ok []
poll_loop (false ∷ stops) = elim (poll_loop stops) [
  | ok acts ↦ ok (polled callback_polling_interval_ms ∷ acts)
  | e ↦ e
]

unfoldable pub run_thread : List Bool → Outcome (List Act)
unfolding poll_loop
run_thread stops = elim (poll_loop stops) [
  | ok acts ↦ ok (
      intercept_thread_start "events-polling" "background" ∷ acts
      ++ (intercept_thread_exit "events-polling" "background" ∷ []))
  | e ↦ e
]

-- `pollEvents`: without a pollable its null pointer is read.
unfoldable pub poll_events : ℤ → Polling → Outcome ℤ
poll_events timeout p =
    if p.pollable then ok (convert_ms_duration_to_int timeout) else Outcome.undefined

-- After `close` has stopped the polling, polling for events reads a null pointer.
pub poll_events-stopped :
    (timeout : ℤ) (p : Polling)
    → poll_events timeout (stop_background_polling_if_necessary p) ≡ Outcome.undefined
unfolding poll_events stop_background_polling_if_necessary
poll_events-stopped timeout p = refl
