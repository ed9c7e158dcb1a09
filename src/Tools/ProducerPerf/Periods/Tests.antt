-- ===== src/Tools/ProducerPerf/Periods/Tests.antt =====
-- A period at concrete figures.
use modern_cpp_kafka.Prelude.{
  List, [], ◌∷◌, pos, ◌/◌, ℕ, suc, length, ◌+◌, ◌≢◌, ◌≡◌, refl, true, false, none, arith,
}
use modern_cpp_kafka.Outcome.{ok}
use modern_cpp_kafka.Tools.ProducerPerf.Stats.{
  PeriodStats, Positions, zeros, increase_at, latency_ms, latency_sum_write, latency_max_write,
  bucket_write,
}
use modern_cpp_kafka.Tools.ProducerPerf.Stats.Laws.{sum, increase_at_lem}
use modern_cpp_kafka.Tools.ProducerPerf.Periods.Buckets.{length-zeros}
use modern_cpp_kafka.Tools.ProducerPerf.Periods.{
  Stats, start, Reaches, here, after, roll_step, hand_over_step, count_step, complete_step,
  deliver_step, failed_step, report_step, count_of, deliver_failed, written,
  roll_out_new_period_stats, hand_over, count_sent, deliver, complete_period_stats,
  pop_stats_ready_for_report, is_empty_stats, report_ready,
}
use modern_cpp_kafka.Tools.ProducerPerf.Periods.Invariant.{SameCounts}
use modern_cpp_kafka.Tools.ProducerPerf.Periods.Laws.{
  pending_at, reported_final, all_periods_reported, report_ready_ends, IsQuiet, AllEnded,
}

-- One message is sent, fails, and its period is reported.
abbrev begun : Stats
begun = roll_out_new_period_stats false 1 1 start

abbrev completed : Stats
completed = complete_period_stats 5 (deliver_failed 0 (count_sent 0 (hand_over 0 begun)))

abbrev done : Stats
done = pop_stats_ready_for_report completed

start-completed : Reaches start completed
unfolding roll_out_new_period_stats hand_over count_sent deliver_failed complete_period_stats
    count_of
start-completed =
    after
      (after
        (after (after (after here (roll_step false 1 1 refl)) (hand_over_step 0 refl refl))
          (count_step 0 refl))
        (failed_step 0 refl (λ e. omega arith)))
      (complete_step 5 refl)

start-done : Reaches start done
start-done = after start-completed report_step

done_reported : count_of 0 done.reported ≢ 0
unfolding roll_out_new_period_stats hand_over count_sent deliver_failed complete_period_stats
    count_of pop_stats_ready_for_report
done_reported = λ e. omega arith

reported_final_example :
    ((done.periods 0).msg_sent ≡ (done.periods 0).msg_succeed + (done.periods 0).msg_failed)
    × SameCounts (done.periods 0) (done.periods 0)
    × (pending_at 0 done.pending ≡ 0 → done.periods 0 ≡ done.periods 0)
reported_final_example = reported_final 0 start-done here done_reported

done_empty : is_empty_stats done ≡ true
unfolding roll_out_new_period_stats hand_over count_sent deliver_failed complete_period_stats
    pop_stats_ready_for_report is_empty_stats
done_empty = refl

done_counted : done.uncounted ≡ none
unfolding roll_out_new_period_stats hand_over count_sent deliver_failed complete_period_stats
    pop_stats_ready_for_report
done_counted = refl

all_periods_reported_example :
    ((done.periods 0).msg_sent ≡ (done.periods 0).msg_succeed + (done.periods 0).msg_failed)
    × ((done.periods 0).msg_sent ≢ 0 → count_of 0 done.reported ≡ 1)
all_periods_reported_example = all_periods_reported 0 start-done done_empty done_counted

-- The same period, before it is reported.
completed-IsQuiet : IsQuiet completed
unfolding roll_out_new_period_stats hand_over count_sent deliver_failed complete_period_stats
completed-IsQuiet = record { none_current = refl; all_counted = refl; none_in_flight = refl }

completed-AllEnded : AllEnded completed
unfolding roll_out_new_period_stats hand_over count_sent deliver_failed complete_period_stats
    count_of
completed-AllEnded i h = ground (arith, h)

report_ready_ends_example :
    (t : Stats) × (report_ready (suc (length completed.ready)) completed ≡ ok t)
    × (is_empty_stats t ≡ true)
    × ((i : ℕ)
        → ((t.periods i).msg_sent ≡ (t.periods i).msg_succeed + (t.periods i).msg_failed)
          × ((t.periods i).msg_sent ≢ 0 → count_of i t.reported ≡ 1))
report_ready_ends_example =
    report_ready_ends completed start-completed completed-IsQuiet completed-AllEnded

-- A message is sent and delivered after 5 milliseconds.
abbrev bucket :
    (more : List ℕ) × (increase_at (zeros 10000) 5 ≡ ok more)
    × (length more ≡ length (zeros 10000))
    × (sum more ≡ suc (sum (zeros 10000)))
bucket = increase_at_lem (zeros 10000) 5 (omega (arith, length-zeros 10000))

-- The callback has counted the message, and has written none of its other figures.
abbrev counted_one : Stats
counted_one = deliver 10 (latency_ms 6 (pos 1)) 0 (count_sent 0 (hand_over 0 begun))

start-counted_one : Reaches start counted_one
unfolding roll_out_new_period_stats hand_over count_sent count_of
start-counted_one =
    after
      (after (after (after here (roll_step false 1 1 refl)) (hand_over_step 0 refl refl))
        (count_step 0 refl))
      (deliver_step 6 10 (pos 1) 0 refl (λ e. omega arith))

-- The period can be reported before these are written.
abbrev reported_early : Stats
reported_early = pop_stats_ready_for_report (complete_period_stats 7 counted_one)

start-reported_early : Reaches start reported_early
unfolding roll_out_new_period_stats hand_over count_sent deliver
start-reported_early = after (after start-counted_one (complete_step 7 refl)) report_step

early_pending : (count_of 0 reported_early.reported ≡ 1) × (pending_at 0 reported_early.pending ≡ 4)
unfolding roll_out_new_period_stats hand_over count_sent deliver complete_period_stats
    pop_stats_ready_for_report count_of pending_at
early_pending = (refl, refl)

-- What the callback makes of the figures, one write after the other.
abbrev counted : PeriodStats
counted = counted_one.periods 0

abbrev sized : PeriodStats
sized = record counted { msg_size_sum = counted.msg_size_sum + 10 }

abbrev summed : PeriodStats
summed = record sized { latency_ms_sum = sized.latency_ms_sum + 5 }

abbrev raised : PeriodStats
raised = record summed { latency_ms_max = 5 }

abbrev bucketed : PeriodStats
bucketed = record raised { latency_per_ms_count = bucket.0 }

abbrev delivered_one : Stats
delivered_one = written 0 bucketed [] (
    written 0 raised ((0, bucket_write 5) ∷ []) (
      written 0 summed ((0, latency_max_write 5) ∷ (0, bucket_write 5) ∷ []) (
        written 0 sized
          ((0, latency_sum_write 5) ∷ (0, latency_max_write 5) ∷ (0, bucket_write 5) ∷ [])
          counted_one)))

abbrev positions : ℕ → Positions
positions n = record { index_p50 = n / 2; index_p95 = n; index_p99 = n; index_p999 = n }
