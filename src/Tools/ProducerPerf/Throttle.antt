-- ===== src/Tools/ProducerPerf/Throttle.antt =====
-- tools/console_clients/KafkaProducerPerfTest.cc: the loop of `main` that sends the records. Every
-- reading of the clock is an argument; the number of records that are due is computed with
-- doubles. That `send` throws, or waits where the queue is full, is left out.
pub mod Laws
pub mod Total
pub mod Rounds
use modern_cpp_kafka.Prelude.{
  min, ℕ, zero, suc, ◌+◌, ◌-◌, ◌*◌, ◌/◌, ◌%◌, ◌^◌, ℤ, pos, negsuc, Bool, true, false, not, ◌&&◌,
  Option, none, some, List, [], ◌∷◌, if◌then◌else◌, ltb, ◌==◌,
}
use modern_cpp_kafka.Outcome.{Outcome, ok, ◌>>=◌}
use modern_cpp_kafka.Tools.ProducerPerf.{Arguments}
use modern_cpp_kafka.Tools.ProducerPerf.Doubles.{due}
use modern_cpp_kafka.Tools.ProducerPerf.Periods.{
  Stats, start, roll_out_new_period_stats, complete_period_stats, hand_over, count_sent,
}

-- a - b of `std::uint64_t`.
abbrev pub sub64 : ℕ → ℕ → ℕ
sub64 a b = (a + (2 ^ 64 - b % 2 ^ 64)) % 2 ^ 64

-- `static_cast<std::size_t>(elapsed / 1000.0 * throughput)`: a number of -1 or less, or one that is too
-- large, cannot be converted.
unfoldable pub records_due : ℤ → ℕ → Outcome ℕ
records_due (pos n) elapsed =
    if ltb (due n elapsed) (2 ^ 64) then ok (due n elapsed) else Outcome.undefined
records_due (negsuc n) elapsed = if ltb (elapsed * suc n) 1000 then ok 0 else Outcome.undefined

unfoldable pub num_to_send : ℤ → ℕ → ℕ → ℕ → Outcome ℕ
unfolding records_due
num_to_send throughput elapsed num_sent num_records =
    records_due throughput elapsed >>= λ due. ok (min (sub64 due num_sent) (num_records - num_sent))

-- The readings of the clock around one message.
pub record Readings : Type 0 where
  pub current_ts : ℕ
  pub ended : ℕ
  pub begun : ℕ
  pub warmup_ended : ℕ
  pub warmup_begun : ℕ
  pub restarted : ℕ

-- The variables of the loop.
pub record Loop : Type 0 where
  pub num_sent : ℕ
  pub is_warming_up : Bool
  pub period_start_timestamp_ms : ℕ
  pub stats : Stats

-- A new period, if the interval is over.
unfoldable pub roll_if_due : Arguments → Readings → Loop → Loop
roll_if_due a r l =
    if not l.is_warming_up
      && ltb a.reporting_interval_ms (sub64 r.current_ts l.period_start_timestamp_ms)
    then record l {
      period_start_timestamp_ms = (l.period_start_timestamp_ms + a.reporting_interval_ms) % 2 ^ 64;
      stats = roll_out_new_period_stats false r.ended r.begun l.stats;
    }
    else l

-- `producer.send(...)`, `currentStats->increaseMsgSentCount()` and `++numSent`.
unfoldable pub send_counted : Loop → Loop
send_counted l = record l {
  num_sent = suc l.num_sent;
  stats = elim l.stats.current [ none ↦ l.stats | some i ↦ count_sent i (hand_over i l.stats) ];
}

-- The end of the warm-up.
unfoldable pub end_warmup : Arguments → Readings → Loop → Loop
end_warmup a r l =
    if l.is_warming_up && (l.num_sent == a.warmup_records)
    then record l {
      is_warming_up = false;
      period_start_timestamp_ms = r.restarted;
      stats = roll_out_new_period_stats false r.warmup_ended r.warmup_begun l.stats;
    }
    else l

-- The body of the inner loop.
unfoldable pub send_one : Arguments → Readings → Loop → Loop
unfolding roll_if_due send_counted end_warmup
send_one a r l = end_warmup a r (send_counted (roll_if_due a r l))

-- The inner loop, with the readings for each message by its number.
unfoldable pub send_many : Arguments → (ℕ → Readings) → ℕ → Loop → Loop
send_many a clock zero l = l
send_many a clock (suc n) l = send_many a clock n (send_one a (clock l.num_sent) l)

-- The outer loop, with the clock's reading in each round; it goes on past those that are given.
unfoldable pub rounds : Arguments → (ℕ → Readings) → ℕ → List ℕ → Loop → Outcome Loop
unfolding num_to_send send_many
rounds a clock started [] l = if ltb l.num_sent a.num_records then Outcome.out_of_fuel else ok l
rounds a clock started (now ∷ nows) l = elim (ltb l.num_sent a.num_records) [
  | true ↦ num_to_send a.throughput (sub64 now started) l.num_sent a.num_records >>= λ n.
      rounds a clock started nows (send_many a clock n l)
  | false ↦ ok l
]

-- What `main` does between making the producer and waiting for the reports.
unfoldable pub send_all : Arguments → (ℕ → Readings) → ℕ → ℕ → ℕ → List ℕ → Outcome Stats
unfolding rounds
send_all a clock started begun ended nows =
    rounds a clock started nows (record {
      num_sent = 0;
      is_warming_up = ltb 0 a.warmup_records;
      period_start_timestamp_ms = started;
      stats = roll_out_new_period_stats (ltb 0 a.warmup_records) begun begun start;
    })
    >>= λ l. ok (complete_period_stats ended l.stats)
