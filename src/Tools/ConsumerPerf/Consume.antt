-- ===== src/Tools/ConsumerPerf/Consume.antt =====
-- tools/console_clients/KafkaConsumerPerfTest.cc: the loop of `main` that receives the records, and the
-- figures of its periods. A period is the main thread's own until it is pushed to the list. The
-- readings of the clock are arguments; the counters are unbounded, latencies are of 64 bits.
pub mod Laws
use modern_cpp_kafka.Prelude.{
  max, ℕ, zero, suc, ◌+◌, ◌-◌, ◌%◌, ◌^◌, ℤ, Bool, true, false, Option, none, some, List, [], ◌∷◌,
  ◌++◌, if◌then◌else◌, is_empty, ltb, leb,
}
use modern_cpp_kafka.Outcome.{RespErr, is_error, Outcome, ok, throw}
use modern_cpp_kafka.Tools.ProducerPerf.Stats.{latency_ms}
use modern_cpp_kafka.Tools.ProducerPerf.Throttle.{sub64}
use modern_cpp_kafka.Tools.ConsumerPerf.{Arguments}

-- What the loop reads of a record.
pub record Message : Type 0 where
  pub err : RespErr
  pub value_size : ℕ
  pub timestamp : ℤ

pub record PeriodStats : Type 0 where
  pub ts_begin_ms : ℕ
  pub ts_end_ms : ℕ
  pub msg_received : ℕ
  pub bytes_received : ℕ
  pub latency_ms_sum : ℕ
  pub latency_ms_max : ℕ

abbrev pub fresh : ℕ → PeriodStats
fresh now = record {
  ts_begin_ms = now;
  ts_end_ms = 0;
  msg_received = 0;
  bytes_received = 0;
  latency_ms_sum = 0;
  latency_ms_max = 0;
}

unfoldable pub update : Message → ℕ → PeriodStats → PeriodStats
update m ts s = record s {
  msg_received = suc s.msg_received;
  bytes_received = s.bytes_received + m.value_size;
  latency_ms_sum = (s.latency_ms_sum + latency_ms ts m.timestamp) % 2 ^ 64;
  latency_ms_max = max s.latency_ms_max (latency_ms ts m.timestamp);
}

-- The variables of the loop. `stats_list` has all periods that were pushed, also those that the
-- reporter has taken; `reported_errors` are the errors that are printed.
pub record Loop : Type 0 where
  pub num_received : ℕ
  pub period_start_timestamp_ms : ℕ
  pub current : PeriodStats
  pub stats_list : List PeriodStats
  pub reported_errors : List RespErr

-- `rollOutNewPeriodStats`
abbrev pub roll_out_new_period_stats : ℕ → ℕ → Loop → Loop
roll_out_new_period_stats ended begun l = record l {
  current = fresh begun;
  stats_list = l.stats_list ++ (record l.current { ts_end_ms = ended } ∷ []);
}

-- `completePeriodStats`: the list with the current period, if it has a message.
unfoldable pub complete_period_stats : ℕ → Loop → List PeriodStats
complete_period_stats now l =
    if ltb 0 l.current.msg_received
    then l.stats_list ++ (record l.current { ts_end_ms = now } ∷ [])
    else l.stats_list

abbrev pub is_eof : RespErr → Bool
is_eof RespErr.partition_eof = true
is_eof e = false

abbrev pub report_error : RespErr → Loop → Loop
report_error e l =
    if is_eof e then l else record l { reported_errors = l.reported_errors ++ (e ∷ []) }

abbrev pub receive : Message → ℕ → Loop → Loop
receive m ts l = record l { num_received = suc l.num_received; current = update m ts l.current }

-- The loop over the records of a poll, which ends once enough are received.
unfoldable pub receive_each : ℕ → ℕ → List Message → Loop → Loop
unfolding update
receive_each num_records ts [] l = l
receive_each num_records ts (m ∷ ms) l = elim (is_error m.err) [
  | true ↦ receive_each num_records ts ms (report_error m.err l)
  | false ↦ elim (leb num_records (suc l.num_received)) [
    | true ↦ receive m ts l
    | false ↦ receive_each num_records ts ms (receive m ts l)
  ]
]

-- A round: what the poll gives, and the readings of the clock after it.
pub record Round : Type 0 where
  pub polled : Outcome (List Message)
  pub current_ts : ℕ
  pub ended : ℕ
  pub begun : ℕ

unfoldable pub roll_if_due : Arguments → Round → Loop → Loop
roll_if_due a r l =
    if ltb a.reporting_interval_ms (sub64 r.current_ts l.period_start_timestamp_ms)
    then roll_out_new_period_stats r.ended r.begun (record l {
      period_start_timestamp_ms = (l.period_start_timestamp_ms + a.reporting_interval_ms) % 2 ^ 64;
    })
    else l

-- What follows a poll.
unfoldable pub take_records : Arguments → Round → List Message → Loop → Loop
unfolding roll_if_due receive_each
take_records a r records l =
    if is_empty records
    then l
    else receive_each a.num_records r.current_ts records (roll_if_due a r l)

-- The loop; it goes on past the rounds that are given.
unfoldable pub consume : Arguments → List Round → Loop → Outcome Loop
unfolding take_records
consume a [] l = if ltb l.num_received a.num_records then Outcome.out_of_fuel else ok l
consume a (r ∷ rs) l = elim (ltb l.num_received a.num_records) [
  | false ↦ ok l
  | true ↦ elim r.polled [
    | ok records ↦ consume a rs (take_records a r records l)
    | throw e ↦ throw e
    | Outcome.undefined ↦ Outcome.undefined
    | Outcome.out_of_fuel ↦ Outcome.out_of_fuel
  ]
]

abbrev pub initial : ℕ → ℕ → Loop
initial started begun = record {
  num_received = 0;
  period_start_timestamp_ms = started;
  current = fresh begun;
  stats_list = [];
  reported_errors = [];
}
