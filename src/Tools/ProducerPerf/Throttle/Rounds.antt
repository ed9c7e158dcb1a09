-- ===== src/Tools/ProducerPerf/Throttle/Rounds.antt =====
-- What the sending loop comes to: all records are sent, each counted in one period.
use native.Mathlib.Decide.{dec_lt}
use modern_cpp_kafka.Prelude.{
  min, ℕ, ◌-◌, ◌^◌, ◌<◌, ◌≤◌, ◌≡◌, pos, none, List, [], ◌∷◌, arith, ltb, subst, sym, ◌∙◌,
}
use modern_cpp_kafka.Outcome.{ok, Yields, yields, Yields-bind}
use modern_cpp_kafka.Tools.ProducerPerf.{Arguments}
use modern_cpp_kafka.Tools.ProducerPerf.Doubles.{due}
use modern_cpp_kafka.Tools.ProducerPerf.Periods.{
  Stats, start, roll_out_new_period_stats, complete_period_stats, Reaches, after, complete_step,
}
use modern_cpp_kafka.Tools.ProducerPerf.Throttle.{
  sub64, Readings, Loop, send_many, rounds, send_all,
}
use modern_cpp_kafka.Tools.ProducerPerf.Throttle.Total.{
  total_sent, Agrees, send_many-Agrees, complete-total_sent, start-Counts,
}
use modern_cpp_kafka.Tools.ProducerPerf.Throttle.Laws.{num_to_send-due, send_many-num_sent, AllDue}

-- A round sends what is due by then.
round_sends :
    (a : Arguments) (clock : ℕ → Readings) (started t now : ℕ) (nows : List ℕ) (l : Loop)
    → a.throughput ≡ pos t
    → due t (sub64 now started) < 2 ^ 64
    → l.num_sent ≤ due t (sub64 now started)
    → l.num_sent < a.num_records
    → rounds a clock started (now ∷ nows) l
      ≡ rounds a clock started nows
          (send_many a clock (min (due t (sub64 now started)) a.num_records - l.num_sent) l)
unfolding rounds
round_sends a clock started t now nows l h fits up below =
    ground (arith, h, below, num_to_send-due t (sub64 now started) l.num_sent a.num_records fits up)

round_done :
    (a : Arguments) (clock : ℕ → Readings) (started : ℕ) (nows : List ℕ) (l : Loop)
    → a.num_records ≤ l.num_sent
    → rounds a clock started nows l ≡ ok l
unfolding rounds
round_done a clock started [] l h = ground (arith, h)
round_done a clock started (now ∷ nows) l h = ground (arith, h)

-- The rounds end with all records sent.
abbrev AllSent : Arguments → Loop → Type 0
AllSent a l = Agrees l × (l.num_sent ≡ a.num_records)

rounds-AllSent :
    (a : Arguments) (clock : ℕ → Readings) (started t before : ℕ) (nows : List ℕ) (l : Loop)
    → a.throughput ≡ pos t
    → AllDue a t started before nows
    → l.num_sent ≡ min before a.num_records
    → Agrees l
    → Yields (AllSent a) (rounds a clock started nows l)
rounds-AllSent a clock started t before [] l h d e c =
    subst (Yields (AllSent a)) (sym (round_done a clock started [] l (ground (arith, d, e))))
      (yields (c, ground (arith, d, e)))
rounds-AllSent a clock started t before (now ∷ nows) l h (up, fits, d) e c =
    elim (dec_lt l.num_sent a.num_records) [
      | no above ↦
          subst (Yields (AllSent a)) (sym (round_done a clock started (now ∷ nows) l (omega arith)))
            (yields (c, ground (arith, e)))
      | yes below ↦
          subst (Yields (AllSent a))
            (sym (round_sends a clock started t now nows l h fits (ground (arith, e, up)) below))
            (rounds-AllSent a clock started t number_due nows (send_many a clock number l) h d
              (ground (arith, send_many-num_sent a clock number l, e, up))
              (send_many-Agrees a clock number l c))
    ]
  where
    number_due : ℕ
    number_due = due t (sub64 now started)

    number : ℕ
    number = min number_due a.num_records - l.num_sent

-- What `main` leaves to the reports.
pub record IsSent (a : Arguments) (s : Stats) : Type 0 where
  pub reached : Reaches start s
  pub none_current : s.current ≡ none
  pub all_counted : s.uncounted ≡ none
  pub all_sent : total_sent s.periods s.next ≡ a.num_records

complete-IsSent :
    (a : Arguments) (now : ℕ) (l : Loop)
    → AllSent a l
    → IsSent a (complete_period_stats now l.stats)
unfolding complete_period_stats
complete-IsSent a now l (c, e) = record {
  reached = after c.reached (complete_step now c.all_counted);
  none_current = ground (arith, c.at_period);
  all_counted = ground (arith, c.at_period, c.all_counted);
  all_sent = complete-total_sent now c.period l.stats c.at_period c.in_use ∙ c.totalled ∙ e;
}

-- With a throughput that is not negative, where the clock takes the records that are due neither back
-- nor beyond 64 bits, and at last all are due, the sending loop ends, with as many messages counted in the periods as there are records to
-- send, and no period is current.
pub send_all-IsSent :
    (a : Arguments) (clock : ℕ → Readings) (started begun ended t : ℕ) (nows : List ℕ)
    → a.throughput ≡ pos t
    → AllDue a t started 0 nows
    → Yields (IsSent a) (send_all a clock started begun ended nows)
unfolding send_all
send_all-IsSent a clock started begun ended t nows h d =
    Yields-bind
      (rounds-AllSent a clock started t 0 nows
        (record {
          num_sent = 0;
          is_warming_up = ltb 0 a.warmup_records;
          period_start_timestamp_ms = started;
          stats = roll_out_new_period_stats (ltb 0 a.warmup_records) begun begun start;
        })
        h d (ground arith) (start-Counts (ltb 0 a.warmup_records) begun))
      λ l all. yields (complete-IsSent a ended l all)
