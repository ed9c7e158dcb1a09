-- ===== src/Tools/ProducerPerf/Periods.antt =====
-- tools/console_clients/KafkaProducerPerfTest.cc: the periods, which the main thread rolls, the delivery
-- callbacks update and the reporter takes. A period is told by the number of those before it, in
-- place of the shared pointer. A step is what one thread does at once: the list of periods is behind a
-- mutex, the counters are atomic, and each other write of a callback is a step of its own.
pub mod Invariant
pub mod Laws
pub mod Buckets
mod Tests
use modern_cpp_kafka.Prelude.{
  ℤ, ℕ, zero, suc, Bool, true, false, Option, none, some, List, [], ◌∷◌, ◌++◌, if◌then◌else◌, ltb,
  ◌==◌, ◌≡◌, ◌≢◌, is_empty,
}
use modern_cpp_kafka.Outcome.{Outcome, ok}
use modern_cpp_kafka.Producer.{take_out}
use modern_cpp_kafka.Tools.ProducerPerf.Stats.{
  PeriodStats, increase_msg_sent_count, update_failed, is_settled, zeros, max_latency_ms, Write,
  writes, run_write, count_succeeded, latency_ms,
}

-- `ready` is `_statsList`, `in_flight` the period of each message that is not reported, `uncounted`
-- that of the message that is handed over but not counted; `reported` are the periods that the
-- reporter has taken, the newest first; `pending` are the writes that the delivery callback that is
-- under way has before it.
pub record Stats : Type 0 where
  pub periods : ℕ → PeriodStats
  pub next : ℕ
  pub current : Option ℕ
  pub ready : List ℕ
  pub in_flight : List ℕ
  pub uncounted : Option ℕ
  pub reported : List ℕ
  pub pending : List (ℕ × Write)

abbrev pub update : (ℕ → PeriodStats) → ℕ → PeriodStats → ℕ → PeriodStats
update f i a j = if i == j then a else f j

abbrev pub fresh : Bool → ℕ → PeriodStats
fresh warmup now = record {
  warmup = warmup;
  ts_begin_ms = now;
  ts_end_ms = 0;
  msg_sent = 0;
  msg_succeed = 0;
  msg_failed = 0;
  msg_size_sum = 0;
  latency_ms_sum = 0;
  latency_ms_max = 0;
  latency_per_ms_count = zeros max_latency_ms;
}

-- `_currentStats->tsEndMs = now; _statsList.push_back(_currentStats);`
abbrev pub push_current : ℕ → Stats → Stats
push_current now s = elim s.current [
  | none ↦ s
  | some i ↦ record s {
    periods = update s.periods i (record (s.periods i) { ts_end_ms = now });
    ready = s.ready ++ (i ∷ []);
  }
]

abbrev pub begin_period : Bool → ℕ → Stats → Stats
begin_period warmup now s = record s {
  periods = update s.periods s.next (fresh warmup now);
  next = suc s.next;
  current = some s.next;
}

-- `rollOutNewPeriodStats`
unfoldable pub roll_out_new_period_stats : Bool → ℕ → ℕ → Stats → Stats
roll_out_new_period_stats warmup ended begun s = begin_period warmup begun (push_current ended s)

-- `completePeriodStats`
unfoldable pub complete_period_stats : ℕ → Stats → Stats
complete_period_stats now s = elim s.current [
  | none ↦ s
  | some i ↦
      if ltb 0 (s.periods i).msg_sent
      then record (push_current now s) { current = none }
      else record s { current = none }
]

-- `popStatsReadyForReport`
unfoldable pub pop_stats_ready_for_report : Stats → Stats
pop_stats_ready_for_report s = elim s.ready [
  | [] ↦ s
  | i ∷ rest ↦
      if is_settled (s.periods i) then record s { ready = rest; reported = i ∷ s.reported } else s
]

-- Whether `popStatsReadyForReport` returns a period.
abbrev pub has_report : Stats → Bool
has_report s = elim s.ready [ [] ↦ false | i ∷ rest ↦ is_settled (s.periods i) ]

-- The inner loop of `reportPeriodStats`, which prints periods as long as one is returned.
unfoldable pub report_ready : ℕ → Stats → Outcome Stats
unfolding pop_stats_ready_for_report
report_ready zero s = Outcome.out_of_fuel
report_ready (suc fuel) s =
    let rest = report_ready fuel (pop_stats_ready_for_report s) in
    if has_report s then rest else ok s

-- `empty`
unfoldable pub is_empty_stats : Stats → Bool
is_empty_stats s = elim s.current [ some i ↦ false | none ↦ is_empty s.ready ]

-- `producer.send`, with the callback for the period, and then `increaseMsgSentCount`.
unfoldable pub hand_over : ℕ → Stats → Stats
hand_over i s = record s { in_flight = i ∷ s.in_flight; uncounted = some i }

unfoldable pub count_sent : ℕ → Stats → Stats
count_sent i s = record s {
  periods = update s.periods i (increase_msg_sent_count (s.periods i));
  uncounted = none;
}

-- The callback for an error.
unfoldable pub deliver_failed : ℕ → Stats → Stats
unfolding take_out
deliver_failed i s = record s {
  periods = update s.periods i (update_failed (s.periods i));
  in_flight = take_out i s.in_flight;
}

abbrev pub at_period : ℕ → List Write → List (ℕ × Write)
at_period i [] = []
at_period i (w ∷ ws) = (i, w) ∷ at_period i ws

-- The callback for a delivered message counts it, and has the other writes of `update` before it.
unfoldable pub deliver : ℕ → ℕ → ℕ → Stats → Stats
unfolding take_out
deliver value_size latency i s = record s {
  periods = update s.periods i (count_succeeded (s.periods i));
  in_flight = take_out i s.in_flight;
  pending = at_period i (writes value_size latency);
}

-- The next write gave `p` for the figures of the period.
unfoldable pub written : ℕ → PeriodStats → List (ℕ × Write) → Stats → Stats
written i p rest s = record s { periods = update s.periods i p; pending = rest }

unfoldable pub count_of : ℕ → List ℕ → ℕ
count_of i [] = 0
count_of i (j ∷ js) = let rest = count_of i js in if i == j then suc rest else rest

-- The main thread counts a message before it goes on; the other threads step at any time. Callbacks
-- come one after the other, from the polling thread.
pub data Step : Stats → Stats → Type 0 where
  roll_step :
      {s : Stats} (warmup : Bool) (ended begun : ℕ)
      → s.uncounted ≡ none
      → Step s (roll_out_new_period_stats warmup ended begun s)
  hand_over_step :
      {s : Stats} (i : ℕ) → s.current ≡ some i → s.uncounted ≡ none → Step s (hand_over i s)
  count_step : {s : Stats} (i : ℕ) → s.uncounted ≡ some i → Step s (count_sent i s)
  complete_step : {s : Stats} (now : ℕ) → s.uncounted ≡ none → Step s (complete_period_stats now s)
  failed_step :
      {s : Stats} (i : ℕ)
      → s.pending ≡ []
      → count_of i s.in_flight ≢ 0
      → Step s (deliver_failed i s)
  deliver_step :
      {s : Stats} (now value_size : ℕ) (timestamp : ℤ) (i : ℕ)
      → s.pending ≡ []
      → count_of i s.in_flight ≢ 0
      → Step s (deliver value_size (latency_ms now timestamp) i s)
  write_step :
      {s : Stats} (i : ℕ) (w : Write) (p : PeriodStats) (rest : List (ℕ × Write))
      → s.pending ≡ (i, w) ∷ rest
      → run_write w (s.periods i) ≡ ok p
      → Step s (written i p rest s)
  report_step : {s : Stats} → Step s (pop_stats_ready_for_report s)

abbrev pub start : Stats
start = record {
  periods = λ i. fresh false 0;
  next = 0;
  current = none;
  ready = [];
  in_flight = [];
  uncounted = none;
  reported = [];
  pending = [];
}

pub data Reaches : Stats → Stats → Type 0 where
  here : {s : Stats} → Reaches s s
  after : {s t u : Stats} → Reaches s t → Step t u → Reaches s u
