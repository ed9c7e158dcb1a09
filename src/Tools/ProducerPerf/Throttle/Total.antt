-- ===== src/Tools/ProducerPerf/Throttle/Total.antt =====
-- The messages that the sending loop counts in the periods.
use modern_cpp_kafka.Prelude.{
  ℕ, zero, suc, ◌+◌, ◌<◌, ◌≤◌, ◌≡◌, refl, Bool, true, false, none, some, [], ◌∷◌, ◌++◌, arith, ltb,
  ◌==◌, not, ◌&&◌, Bool-cases, inl, inr, subst, ◌∙◌,
}
use modern_cpp_kafka.Tools.ProducerPerf.{Arguments}
use modern_cpp_kafka.Tools.ProducerPerf.Stats.{PeriodStats, increase_msg_sent_count}
use modern_cpp_kafka.Tools.ProducerPerf.Periods.{
  Stats, start, update, begin_period, fresh, roll_out_new_period_stats, complete_period_stats,
  hand_over, count_sent, Reaches, here, after, roll_step, hand_over_step, count_step,
}
use modern_cpp_kafka.Tools.ProducerPerf.Throttle.{
  sub64, Readings, Loop, roll_if_due, send_counted, end_warmup, send_one, send_many,
}

-- The messages that are counted in the first `n` periods.
unfoldable pub total_sent : (ℕ → PeriodStats) → ℕ → ℕ
total_sent f zero = 0
total_sent f (suc n) = total_sent f n + (f n).msg_sent

total_sent-update_of_le :
    (f : ℕ → PeriodStats) (n i : ℕ) (p : PeriodStats)
    → n ≤ i
    → total_sent (update f i p) n ≡ total_sent f n
unfolding total_sent
total_sent-update_of_le f zero i p h = refl
total_sent-update_of_le f (suc n) i p h = ground (arith, total_sent-update_of_le f n i p)

total_sent-update :
    (f : ℕ → PeriodStats) (n i : ℕ) (p : PeriodStats)
    → i < n
    → total_sent (update f i p) n + (f i).msg_sent ≡ total_sent f n + p.msg_sent
unfolding total_sent
total_sent-update f zero i p h = absurd (omega arith)
total_sent-update f (suc n) i p h =
    ground (arith, total_sent-update f n i p, total_sent-update_of_le f n i p)

-- The main thread between two messages, `n` of which are counted.
pub record Counts (n : ℕ) (s : Stats) : Type 0 where
  pub reached : Reaches start s
  pub period : ℕ
  pub at_period : s.current ≡ some period
  pub in_use : period < s.next
  pub all_counted : s.uncounted ≡ none
  pub totalled : total_sent s.periods s.next ≡ n

-- The current period in the list.
abbrev pushed : ℕ → ℕ → Stats → Stats
pushed now i s = record s {
  periods = update s.periods i (record (s.periods i) { ts_end_ms = now });
  ready = s.ready ++ (i ∷ []);
}

total_sent-begin :
    (warmup : Bool) (now : ℕ) (s : Stats)
    → total_sent (begin_period warmup now s).periods (suc s.next) ≡ total_sent s.periods s.next
unfolding total_sent
total_sent-begin warmup now s =
    ground (arith, total_sent-update_of_le s.periods s.next s.next (fresh warmup now))

total_sent-pushed :
    (now i : ℕ) (s : Stats)
    → i < s.next
    → total_sent (pushed now i s).periods s.next ≡ total_sent s.periods s.next
total_sent-pushed now i s h =
    omega (arith, total_sent-update s.periods s.next i (record (s.periods i) { ts_end_ms = now }) h)

roll-Counts :
    (n : ℕ) (warmup : Bool) (ended begun : ℕ) (s : Stats)
    → Counts n s
    → Counts n (roll_out_new_period_stats warmup ended begun s)
unfolding roll_out_new_period_stats
roll-Counts n warmup ended begun s c = record {
  reached = after c.reached (roll_step warmup ended begun c.all_counted);
  period = s.next;
  at_period = ground (arith, c.at_period);
  in_use = ground (arith, c.at_period);
  all_counted = ground (arith, c.at_period, c.all_counted);
  totalled =
      subst (λ (t : Stats). total_sent t.periods t.next ≡ n) rolled
        (total_sent-begin warmup begun (pushed ended c.period s)
          ∙ total_sent-pushed ended c.period s c.in_use
          ∙ c.totalled);
}
  where
    rolled :
        begin_period warmup begun (pushed ended c.period s)
        ≡ roll_out_new_period_stats warmup ended begun s
    rolled = ground (arith, c.at_period)

count-Counts :
    (n i : ℕ) (s : Stats)
    → s.current ≡ some i
    → Counts n s
    → Counts (suc n) (count_sent i (hand_over i s))
unfolding hand_over count_sent
count-Counts n i s h c = record {
  reached = after (after c.reached (hand_over_step i h c.all_counted)) (count_step i refl);
  period = i;
  at_period = h;
  in_use = ground (arith, c.at_period, c.in_use, h);
  all_counted = refl;
  totalled = ground (
    arith,
    total_sent-update s.periods s.next i (increase_msg_sent_count (s.periods i)),
    c.at_period,
    c.in_use,
    c.totalled,
    h,
  );
}

-- The loop's own count agrees.
abbrev pub Agrees : Loop → Type 0
Agrees l = Counts l.num_sent l.stats

roll_if_due-Agrees :
    (a : Arguments) (r : Readings) (l : Loop) → Agrees l → Agrees (roll_if_due a r l)
unfolding roll_if_due
roll_if_due-Agrees a r l c =
    elim (Bool-cases (
      not l.is_warming_up
      && ltb a.reporting_interval_ms (sub64 r.current_ts l.period_start_timestamp_ms))) [
        | inl h ↦ rw h (roll-Counts l.num_sent false r.ended r.begun l.stats c)
        | inr h ↦ rw h c
      ]

send_counted-Agrees : (l : Loop) → Agrees l → Agrees (send_counted l)
unfolding send_counted
send_counted-Agrees l c =
    subst (Counts (suc l.num_sent)) (ground (arith, c.at_period))
      (count-Counts l.num_sent c.period l.stats c.at_period c)

end_warmup-Agrees : (a : Arguments) (r : Readings) (l : Loop) → Agrees l → Agrees (end_warmup a r l)
unfolding end_warmup
end_warmup-Agrees a r l c =
    elim (Bool-cases (l.is_warming_up && (l.num_sent == a.warmup_records))) [
      | inl h ↦ rw h (roll-Counts l.num_sent false r.warmup_ended r.warmup_begun l.stats c)
      | inr h ↦ rw h c
    ]

pub send_many-Agrees :
    (a : Arguments) (clock : ℕ → Readings) (n : ℕ) (l : Loop)
    → Agrees l
    → Agrees (send_many a clock n l)
unfolding send_many send_one
send_many-Agrees a clock zero l c = c
send_many-Agrees a clock (suc n) l c =
    let r : Readings = clock l.num_sent in
    send_many-Agrees a clock n (send_one a r l) (
      end_warmup-Agrees a r (send_counted (roll_if_due a r l))
        (send_counted-Agrees (roll_if_due a r l) (roll_if_due-Agrees a r l c)))

pub complete-total_sent :
    (now i : ℕ) (s : Stats)
    → s.current ≡ some i
    → i < s.next
    → total_sent (complete_period_stats now s).periods (complete_period_stats now s).next
      ≡ total_sent s.periods s.next
unfolding complete_period_stats
complete-total_sent now i s h k = elim (Bool-cases (ltb 0 (s.periods i).msg_sent)) [
  | inl some_sent ↦
      subst (λ (t : Stats). total_sent t.periods t.next ≡ total_sent s.periods s.next)
        (some_pushed some_sent) (total_sent-pushed now i s k)
  | inr none_sent ↦
      subst (λ (t : Stats). total_sent t.periods t.next ≡ total_sent s.periods s.next)
        (none_left none_sent) refl
]
  where
    none_left :
        ltb 0 (s.periods i).msg_sent ≡ false
        → record s { current = none } ≡ complete_period_stats now s
    none_left e = ground (arith, h, e)

    some_pushed :
        ltb 0 (s.periods i).msg_sent ≡ true
        → record (pushed now i s) { current = none } ≡ complete_period_stats now s
    some_pushed e = ground (arith, h, e)

pub start-Counts :
    (warmup : Bool) (begun : ℕ) → Counts 0 (roll_out_new_period_stats warmup begun begun start)
unfolding roll_out_new_period_stats total_sent
start-Counts warmup begun = record {
  reached = after here (roll_step warmup begun begun refl);
  period = 0;
  at_period = refl;
  in_use = omega arith;
  all_counted = refl;
  totalled = refl;
}
