-- ===== src/Admin/Results.antt =====
-- What the administrative requests report.
use mathlib.Core.List.{append_assoc, append-nil}
use modern_cpp_kafka.Prelude.{
  ◌≡◌, refl, map, sym, ◌∙◌, not, String, Bool, false, Option, none, some, List, [], ◌∷◌, ◌++◌,
  if◌then◌else◌, arith, ◌||◌,
}
use modern_cpp_kafka.Outcome.{RespErr, no_error, timed_out, is_error}
use modern_cpp_kafka.Types.{Topic, Topics}
use modern_cpp_kafka.Error.{value}
use modern_cpp_kafka.Admin.{
  no_response, TopicResult, AdminEvent, create_topics_result, delete_topics_result, poll_event,
  event_errors, get_per_topic_results, combine_errors, make_delete_requests, delete_topics,
  finish_create, update_metadata,
}

-- The code of the first error among the event's and its topics'.
abbrev pub first_error : List TopicResult → RespErr
first_error [] = no_error
first_error (r ∷ rs) = if is_error r.err then r.err else first_error rs

abbrev pub event_code : AdminEvent → RespErr
event_code e = if is_error e.err then e.err else first_error e.topics

-- One of the listings succeeds.
abbrev pub any_listed : RespErr → List RespErr → Bool
any_listed err [] = not (is_error err)
any_listed err (next ∷ later) = not (is_error err) || any_listed next later

module _ (err2str : RespErr → String) where
  results_code :
      (rs : List TopicResult)
      → value (combine_errors err2str (get_per_topic_results err2str rs)) ≡ first_error rs
  unfolding combine_errors get_per_topic_results
  results_code [] = refl
  results_code (r ∷ rs) = ground (arith, results_code rs)

  event_code_lem :
      (e : AdminEvent)
      → value (
          combine_errors err2str (event_errors err2str e ++ get_per_topic_results err2str e.topics))
        ≡ event_code e
  unfolding combine_errors
  event_code_lem e = ground (arith, results_code e.topics)

  -- The code of a finished request, by the event that ends it.
  abbrev pub code_of : Option AdminEvent → RespErr
  code_of none = timed_out
  code_of (some e) = event_code e

  make_delete_requests_lem {ℓ} :
      {A : Type ℓ} (new_request : Topic → A) (ts : Topics) (made : List A)
      → make_delete_requests err2str new_request ts made
        ≡ made ++ map (λ (t : Topic × Unit {0}). new_request t.0) ts
  unfolding make_delete_requests
  make_delete_requests_lem new_request [] made = sym (append-nil made)
  make_delete_requests_lem new_request ((t, u) ∷ ts) made =
      make_delete_requests_lem new_request ts (made ++ (new_request t ∷ []))
      ∙ append_assoc made (new_request t ∷ []) _

  finished_delete :
      (o : Option AdminEvent)
      → value (elim o [
        | none ↦ no_response err2str
        | some e ↦
            combine_errors err2str
              (event_errors err2str e ++ get_per_topic_results err2str e.topics)
      ])
        ≡ code_of o
  finished_delete none = refl
  finished_delete (some e) = event_code_lem e

  -- `deleteTopics` makes one request for each topic, in their order, and ends with the code of the
  -- result event's error, or else of its first topic with an error, or else none; without a result
  -- event in time it ends with a time-out.
  pub delete_topics_code {ℓ} :
      {A : Type ℓ} (new_request : Topic → A) (topics : Topics) (events : List (Option AdminEvent))
      → ((delete_topics err2str new_request topics events).0
          ≡ map (λ (t : Topic × Unit {0}). new_request t.0) topics)
        × (value (delete_topics err2str new_request topics events).1
            ≡ code_of (poll_event err2str delete_topics_result events))
  unfolding delete_topics
  delete_topics_code new_request topics events = (
    make_delete_requests_lem new_request topics [],
    finished_delete (poll_event err2str delete_topics_result events),
  )

  update_metadata_code :
      (listed : RespErr) (later : List RespErr)
      → value (update_metadata err2str listed later)
        ≡ (if any_listed listed later then no_error else timed_out)
  unfolding update_metadata
  update_metadata_code listed [] = ground arith
  update_metadata_code listed (next ∷ later) = ground (arith, update_metadata_code next later)

  no_results :
      (rs : List TopicResult)
      → is_error (first_error rs) ≡ false
      → get_per_topic_results err2str rs ≡ []
  unfolding get_per_topic_results
  no_results [] h = refl
  no_results (r ∷ rs) h = ground (arith, h, no_results rs)

  no_errors :
      (e : AdminEvent)
      → is_error (event_code e) ≡ false
      → (event_errors err2str e ++ get_per_topic_results err2str e.topics) ≡ []
  no_errors e h = ground (arith, h, no_results e.topics)

  -- Where the result event of `createTopics` has no error in it, the call ends with no error if
  -- one of the listings in time succeeds, and with a time-out if none does.
  pub finish_create_done :
      (events : List (Option AdminEvent)) (e : AdminEvent) (listed : RespErr) (later : List RespErr)
      → poll_event err2str create_topics_result events ≡ some e
      → is_error (event_code e) ≡ false
      → value (finish_create err2str events listed later)
        ≡ (if any_listed listed later then no_error else timed_out)
  unfolding finish_create
  finish_create_done events e listed later h k =
      ground (arith, h, no_errors e k, update_metadata_code listed later)
