-- ===== src/Tools/ProducerPerf/Stats.antt =====
-- tools/console_clients/KafkaProducerPerfTest.cc: the figures of a period. The counters are unbounded,
-- latencies are of 64 bits; the divisions of `toString` are left out, but for its percentiles.
pub mod Laws
use modern_cpp_kafka.Prelude.{
  min, max, ℕ, zero, suc, ◌+◌, ◌-◌, ◌%◌, ◌^◌, ℤ, Bool, true, false, ◌&&◌, not, Option, none, some,
  List, [], ◌∷◌, if◌then◌else◌, ltb, ◌==◌,
}
use modern_cpp_kafka.Outcome.{Outcome, ok, throw, out_of_range, ◌>>=◌}
use modern_cpp_kafka.Tools.ProducerPerf.{to_size}

abbrev pub max_latency_ms : ℕ
max_latency_ms = 10000

pub record PeriodStats : Type 0 where
  pub warmup : Bool
  pub ts_begin_ms : ℕ
  pub ts_end_ms : ℕ
  pub msg_sent : ℕ
  pub msg_succeed : ℕ
  pub msg_failed : ℕ
  pub msg_size_sum : ℕ
  pub latency_ms_sum : ℕ
  pub latency_ms_max : ℕ
  pub latency_per_ms_count : List ℕ

-- An array of zeros.
unfoldable pub zeros : ℕ → List ℕ
zeros zero = []
zeros (suc n) = 0 ∷ zeros n

-- `++counts.at(i)`
unfoldable pub increase_at : List ℕ → ℕ → Outcome (List ℕ)
increase_at [] i = throw out_of_range
increase_at (n ∷ counts) zero = ok (suc n ∷ counts)
increase_at (n ∷ counts) (suc i) = increase_at counts i >>= λ rest. ok (n ∷ rest)

abbrev pub increase_msg_sent_count : PeriodStats → PeriodStats
increase_msg_sent_count s = record s { msg_sent = suc s.msg_sent }

-- The difference of `std::uint64_t` and `std::int64_t`.
abbrev pub latency_ms : ℕ → ℤ → ℕ
latency_ms now timestamp = (now + (2 ^ 64 - to_size timestamp)) % 2 ^ 64

-- `++msgSucceed`, the first write of `update` for a delivered message.
abbrev pub count_succeeded : PeriodStats → PeriodStats
count_succeeded s = record s { msg_succeed = suc s.msg_succeed }

-- The writes of `update` that follow it, in their order. They are not atomic together, and the fields
-- are no atomics.
pub data Write : Type 0 where
  size_write latency_sum_write latency_max_write bucket_write : ℕ → Write

abbrev pub writes : ℕ → ℕ → List Write
writes value_size latency =
    size_write value_size
    ∷ latency_sum_write latency
    ∷ latency_max_write latency
    ∷ bucket_write latency
    ∷ []

unfoldable pub run_write : Write → PeriodStats → Outcome PeriodStats
unfolding increase_at
run_write (size_write size) s = ok (record s { msg_size_sum = s.msg_size_sum + size })
run_write (latency_sum_write latency) s =
    ok (record s { latency_ms_sum = (s.latency_ms_sum + latency) % 2 ^ 64 })
run_write (latency_max_write latency) s =
    ok (record s { latency_ms_max = max s.latency_ms_max latency })
run_write (bucket_write latency) s =
    increase_at s.latency_per_ms_count (min latency (max_latency_ms - 1)) >>= λ counts.
    ok (record s { latency_per_ms_count = counts })

unfoldable pub run_writes : List Write → PeriodStats → Outcome PeriodStats
unfolding run_write
run_writes [] s = ok s
run_writes (w ∷ ws) s = run_write w s >>= λ t. run_writes ws t

-- `update` for a delivered message, by the size of its value and its timestamp.
unfoldable pub update_delivered : ℕ → ℕ → ℤ → PeriodStats → Outcome PeriodStats
unfolding run_writes
update_delivered now value_size timestamp s =
    run_writes (writes value_size (latency_ms now timestamp)) (count_succeeded s)

-- `update` for an error.
abbrev pub update_failed : PeriodStats → PeriodStats
update_failed s = record s { msg_failed = suc s.msg_failed }

-- The condition on which a period is reported.
abbrev pub is_settled : PeriodStats → Bool
is_settled s = not (s.ts_end_ms == 0) && (s.msg_sent == (s.msg_succeed + s.msg_failed))

-- The four percentiles of `toString`.
pub record Percentiles : Type 0 where
  pub p50 : Option ℕ
  pub p95 : Option ℕ
  pub p99 : Option ℕ
  pub p999 : Option ℕ

abbrev pub set_once : Bool → ℕ → Option ℕ → Option ℕ
set_once test i (some p) = some p
set_once test i none = if test then some i else none

-- The positions that are looked for. They are products of doubles in the source.
pub record Positions : Type 0 where
  pub index_p50 : ℕ
  pub index_p95 : ℕ
  pub index_p99 : ℕ
  pub index_p999 : ℕ

-- The loop over the buckets from the bucket `i`, where `index` is the sum of those before.
unfoldable pub percentile_loop : Positions → List ℕ → ℕ → ℕ → Percentiles → Percentiles
percentile_loop at_ [] i index p = p
percentile_loop at_ (n ∷ counts) i index p =
    percentile_loop at_ counts (suc i) (index + n) (record {
      p50 = set_once (ltb at_.index_p50 (index + n)) i p.p50;
      p95 = set_once (ltb at_.index_p95 (index + n)) i p.p95;
      p99 = set_once (ltb at_.index_p99 (index + n)) i p.p99;
      p999 = set_once (ltb at_.index_p999 (index + n)) i p.p999;
    })

abbrev pub unset : Percentiles
unset = record { p50 = none; p95 = none; p99 = none; p999 = none }

abbrev pub value_or_zero : Option ℕ → ℕ
value_or_zero none = 0
value_or_zero (some p) = p

-- `positions` gives the four positions by the number of the last message.
unfoldable pub percentiles : (ℕ → Positions) → PeriodStats → Percentiles
unfolding percentile_loop
percentiles positions s =
    if ltb 0 s.msg_succeed
    then percentile_loop (positions (s.msg_succeed - 1)) s.latency_per_ms_count 0 0 unset
    else unset
