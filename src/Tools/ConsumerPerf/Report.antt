-- ===== src/Tools/ConsumerPerf/Report.antt =====
-- tools/console_clients/KafkaConsumerPerfTest.cc: the table of the periods. A row is the list of its
-- cells, which are joined by commas; how a number is written is left out.
use Prim.Native.Char.{code}
use modern_cpp_kafka.Prelude.{
  ℕ, ◌+◌, ◌-◌, String, Bool, true, false, List, [], ◌∷◌, ◌++◌, ◌≢◌, if◌then◌else◌, ltb, ◌==◌,
  length, arith,
}
use modern_cpp_kafka.Tools.ConsumerPerf.Consume.{PeriodStats}

-- `header()`, by `withLatencyInfo`.
abbrev pub header : Bool → String
header with_latency_info =
    if with_latency_info
    then "start.time, end.time, data.consumed.in.MB, MB.sec, data.consumed.in.nMsg, nMsg.sec"
    else "start.time, end.time, data.consumed.in.MB, MB.sec, data.consumed.in.nMsg, nMsg.sec, avg.latency.ms, max.latency.ms"

-- What a cell is made of; a quotient is by its two numbers.
pub data Cell : Type 0 where
  date : ℕ → Cell
  number : ℕ → Cell
  quotient : ℕ → ℕ → Cell

-- The cell of a rate; a period that does not last has the rate zero.
abbrev pub rate : ℕ → PeriodStats → Cell
rate n s =
    if ltb s.ts_begin_ms s.ts_end_ms then quotient n (s.ts_end_ms - s.ts_begin_ms) else number 0

-- `toString()`
unfoldable pub row : Bool → PeriodStats → List Cell
row with_latency_info s =
    (date s.ts_begin_ms
      ∷ date s.ts_end_ms
      ∷ quotient s.bytes_received 1000000
      ∷ rate s.bytes_received s
      ∷ number s.msg_received
      ∷ rate s.msg_received s
      ∷ [])
    ++ (if with_latency_info
        then (if ltb 0 s.msg_received then quotient s.latency_ms_sum s.msg_received else number 0)
          ∷ number s.latency_ms_max
          ∷ []
        else [])

-- The columns that commas part.
unfoldable pub columns : String → ℕ
columns String.[] = 1
columns (String.◌∷◌ c s) = (if code c == 44 then 1 else 0) + columns s

-- The header never has as many columns as the rows below it: it names the latencies exactly where the
-- rows have none.
pub columns-header :
    (with_latency_info : Bool) (s : PeriodStats)
    → columns (header with_latency_info) ≢ length (row with_latency_info s)
unfolding columns row
columns-header true s = λ e. omega arith
columns-header false s = λ e. omega arith
