-- ===== src/Tools/Tests.antt =====
-- The tools at concrete inputs.
use modern_cpp_kafka.Prelude.{
  ℕ, ◌≤◌, pos, negsuc, ◌≡◌, refl, String, true, false, some, List, [], ◌∷◌, arith, text_ord,
}
use modern_cpp_kafka.Outcome.{no_error, fail, Outcome, ok, Yields}
use modern_cpp_kafka.StdText.{stoi}
use modern_cpp_kafka.Tools.Options.{has_eq}
use modern_cpp_kafka.Tools.Options.{put_props}
use modern_cpp_kafka.Tools.Topics
use modern_cpp_kafka.Tools.Topics.Main
use modern_cpp_kafka.Tools.Topics.Laws.{IsComplete, parse_arguments-IsComplete, main_returns}
use modern_cpp_kafka.Tools.ProducerPerf
use modern_cpp_kafka.Tools.ProducerPerf.RoundTrip.{
  command_line, IsWritable, parse_arguments-command_line,
}
use modern_cpp_kafka.Tools.ProducerPerf.Stats.{PeriodStats}
use modern_cpp_kafka.Tools.ProducerPerf.Periods.{start, fresh}
use modern_cpp_kafka.Tools.ProducerPerf.Throttle.{Readings, Loop, rounds, send_all}
use modern_cpp_kafka.Tools.ProducerPerf.Throttle.Laws.{AllDue, rounds_unlimited}
use modern_cpp_kafka.Tools.ProducerPerf.Doubles.{due}
use modern_cpp_kafka.Tools.ProducerPerf.Throttle.Rounds.{IsSent, send_all-IsSent}
use modern_cpp_kafka.Tools.ConsumerPerf
use modern_cpp_kafka.Tools.ConsumerPerf.Consume.{Message, Round, consume, initial}
use modern_cpp_kafka.Tools.ConsumerPerf.Consume.Laws.{IsReceived, consume_correct, sound, sound_in}

-- A topic is created.
abbrev creation : List String
creation =
    "--topic" ∷ "logs" ∷ "--partitions" ∷ "3" ∷ "--create" ∷ "--replication-factor" ∷ "1" ∷ []

abbrev created : Topics.Arguments
created = record {
  broker_list = "";
  topic = "logs";
  op_type = Topics.create;
  partitions = pos 3;
  replication_factor = pos 1;
  admin_config = [];
  topic_props = [];
}

creation_parsed : Topics.parse_arguments creation ≡ ok (some created)
unfolding Topics.parse_arguments put_props stoi
creation_parsed = refl

parse_arguments-IsComplete_example : IsComplete Topics.create created
parse_arguments-IsComplete_example = parse_arguments-IsComplete creation created creation_parsed

abbrev answers : Main.Answers
answers = record {
  err2str = λ e. "error";
  listed = no_error;
  topics = [];
  new_topic = λ n r t. true;
  set_config = λ t k v. no_error;
  events = [];
  first_listing = no_error;
  later_listings = [];
}

main_returns_example : (r : Main.Run) × (Main.main (λ conf. ok tt) answers creation ≡ ok r)
main_returns_example = main_returns (λ conf. ok tt) answers creation (λ conf. tt)

-- The performance test of a producer.
abbrev perf_arguments : ProducerPerf.Arguments
perf_arguments = record {
  broker_list = "b:9092";
  topic = "logs";
  num_records = 2;
  throughput = pos 1000;
  props = ("acks", "all") ∷ [];
  record_size = 100;
  warmup_records = 1;
  reporting_interval_ms = 5000;
}

perf_arguments-IsWritable : IsWritable perf_arguments
unfolding has_eq
perf_arguments-IsWritable = record {
  has_broker_list = λ e. cc;
  has_topic = λ e. cc;
  has_records = omega arith;
  records_fit = omega arith;
  throughput_fits = omega arith;
  has_size = omega arith;
  size_fits = omega arith;
  warmup_within = omega arith;
  interval_fits = omega arith;
  props_ascend = tt;
  props_plain = (refl, refl, tt);
}

parse_arguments-command_line_example :
    ProducerPerf.parse_arguments (command_line perf_arguments)
    ≡ ok (ProducerPerf.parsed perf_arguments)
parse_arguments-command_line_example =
    parse_arguments-command_line perf_arguments perf_arguments-IsWritable

abbrev clock : ℕ → Readings
clock n = record {
  current_ts = n;
  ended = n;
  begun = n;
  warmup_ended = n;
  warmup_begun = n;
  restarted = n;
}

all_due : AllDue perf_arguments 1000 0 0 (1 ∷ 2 ∷ [])
unfolding due
all_due = omega arith

-- 290 milliseconds at 100 records a second: the product of doubles is just below 29.
due_rounded : due 100 290 ≡ 28
unfolding due
due_rounded = refl

send_all-IsSent_example :
    Yields (IsSent perf_arguments) (send_all perf_arguments clock 0 0 9 (1 ∷ 2 ∷ []))
send_all-IsSent_example = send_all-IsSent perf_arguments clock 0 0 9 1000 (1 ∷ 2 ∷ []) refl all_due

abbrev at_start : Loop
at_start = record {
  num_sent = 0;
  is_warming_up = false;
  period_start_timestamp_ms = 0;
  stats = start;
}

rounds_unlimited_example :
    rounds (record perf_arguments { throughput = negsuc 0 }) clock 0 (5 ∷ 2000 ∷ []) at_start
    ≡ Outcome.undefined
rounds_unlimited_example =
    rounds_unlimited (record perf_arguments { throughput = negsuc 0 }) clock 0 (5 ∷ []) 2000 []
      at_start 0 refl refl (omega arith) (omega arith, tt) (omega arith)

-- Three messages of 1, 1 and 3 milliseconds.
abbrev three : PeriodStats
three = record (fresh false 0) {
  msg_sent = 3;
  msg_succeed = 3;
  latency_per_ms_count = 0 ∷ 2 ∷ 0 ∷ 1 ∷ [];
}

-- The performance test of a consumer: an error and three records, of which two are asked for.
abbrev message : Message
message = record { err = no_error; value_size = 10; timestamp = pos 1 }

abbrev polls : List (List Message)
polls = [] ∷ (record message { err = fail } ∷ message ∷ message ∷ message ∷ []) ∷ []

abbrev consumer_arguments : ConsumerPerf.Arguments
consumer_arguments = record ConsumerPerf.defaults { num_records = 2 }

abbrev rounds_of : List (List Message) → List Round
rounds_of [] = []
rounds_of (ms ∷ polls) =
    record { polled = ok ms; current_ts = 7; ended = 7; begun = 7 } ∷ rounds_of polls

enough : 2 ≤ sound_in polls
unfolding sound_in sound
enough = omega arith

consume_correct_example :
    Yields
      (IsReceived consumer_arguments)
      (consume consumer_arguments (rounds_of polls) (initial 0 0))
consume_correct_example =
    consume_correct consumer_arguments 0 0 (rounds_of polls) polls (refl, (refl, tt)) enough
