-- ===== src/Admin/Tests.antt =====
-- The administrative requests at concrete events.
use modern_cpp_kafka.Prelude.{◌≡◌, Option, none, some, List, [], ◌∷◌}
use modern_cpp_kafka.Outcome.{no_error, timed_out, fail}
use modern_cpp_kafka.Types.{Topics}
use modern_cpp_kafka.Error.{value}
use modern_cpp_kafka.Admin.{
  AdminEvent, create_topics_result, delete_topics_result, poll_event, delete_topics,
}
use modern_cpp_kafka.Admin.Results.{delete_topics_code}

abbrev deleted : AdminEvent
deleted = record {
  type = delete_topics_result;
  err = no_error;
  error_string = "";
  topics =
      record { name = "t"; err = no_error; error_string = "" }
      ∷ record { name = "u"; err = timed_out; error_string = "late" }
      ∷ [];
  partitions = none;
}

-- An event of another request comes first.
abbrev events : List (Option AdminEvent)
events =
    none ∷ some (record deleted { type = create_topics_result; err = fail }) ∷ some deleted ∷ []

abbrev t_and_u : Topics
t_and_u = ("t", tt) ∷ ("u", tt) ∷ []

delete_topics_code_example :
    ((delete_topics (λ e. "") (λ t. t) t_and_u events).0 ≡ "t" ∷ "u" ∷ [])
    × (value (delete_topics (λ e. "") (λ t. t) t_and_u events).1 ≡ timed_out)
unfolding poll_event
delete_topics_code_example = delete_topics_code (λ e. "") (λ t. t) t_and_u events
