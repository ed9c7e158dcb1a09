-- ===== src/Tools/ProducerPerf/Periods/Invariant.antt =====
-- What the steps of the threads keep: where each message and each period stands.
use modern_cpp_kafka.Prelude.{
  ℕ, ◌+◌, ◌≤◌, ◌≡◌, ◌≢◌, refl, Bool, true, Option, none, some, List, [], ◌∷◌, ◌++◌, arith, ◌==◌,
  if◌then◌else◌, Bool-cases, Option-cases, ltb, ◌⊎◌, inl, inr, subst, sym,
}
use modern_cpp_kafka.Producer.{take_out}
use modern_cpp_kafka.Outcome.{ok, bind-eq-ok}
use modern_cpp_kafka.Tools.ProducerPerf.Stats.{
  PeriodStats, is_settled, Write, size_write, latency_sum_write, latency_max_write, bucket_write,
  run_write, increase_at, latency_ms,
}
use modern_cpp_kafka.Tools.ProducerPerf.Periods.{
  Stats, Step, roll_step, hand_over_step, count_step, complete_step, deliver_step, failed_step,
  write_step, report_step, Reaches, here, after, start, count_of, roll_out_new_period_stats,
  complete_period_stats, pop_stats_ready_for_report, hand_over, count_sent, deliver, deliver_failed,
  written, begin_period, update,
}

count_of-take_out :
    (i j : ℕ) (js : List ℕ)
    → count_of i js ≢ 0
    → count_of j js ≡ count_of j (take_out i js) + (if i == j then 1 else 0)
unfolding count_of take_out
count_of-take_out i j [] h = absurd (h refl)
count_of-take_out i j (k ∷ js) h = ground (arith, count_of-take_out i j js)

count_of-append :
    (i j : ℕ) (js : List ℕ)
    → count_of i (js ++ (j ∷ [])) ≡ count_of i js + (if i == j then 1 else 0)
unfolding count_of
count_of-append i j [] = ground arith
count_of-append i j (k ∷ js) = ground (arith, count_of-append i j js)

abbrev pub is_at : ℕ → Option ℕ → ℕ
is_at i none = 0
is_at i (some j) = if i == j then 1 else 0

-- The places where a period stands.
abbrev pub tally : ℕ → Stats → ℕ
tally i s = count_of i s.reported + count_of i s.ready + is_at i s.current

pub record Inv (s : Stats) : Type 0 where
  pub balanced :
      (i : ℕ)
      → (s.periods i).msg_sent + is_at i s.uncounted
        ≡ (s.periods i).msg_succeed + (s.periods i).msg_failed + count_of i s.in_flight
  pub uncounted_current : (i : ℕ) → is_at i s.uncounted ≤ is_at i s.current
  pub once : (i : ℕ) → tally i s ≤ 1
  pub unused : (i : ℕ) → s.next ≤ i → (tally i s ≡ 0)
  pub dropped : (i : ℕ) → tally i s ≡ 0 → (s.periods i).msg_sent ≡ 0
  pub final : (i : ℕ) → count_of i s.reported ≢ 0 → count_of i s.in_flight ≡ 0

pub Inv-start : Inv start
unfolding count_of
Inv-start = record {
  balanced = λ i. refl;
  uncounted_current = λ i. omega arith;
  once = λ i. omega arith;
  unused = λ i h. refl;
  dropped = λ i h. refl;
  final = λ i h. refl;
}

hand_over-Inv :
    (i : ℕ) (s : Stats) → s.current ≡ some i → s.uncounted ≡ none → Inv s → Inv (hand_over i s)
unfolding hand_over count_of
hand_over-Inv i s hc hu inv = record {
  balanced = λ j. ground (arith, inv.balanced j, hu);
  uncounted_current = λ j. ground (arith, hc);
  once = inv.once;
  unused = inv.unused;
  dropped = inv.dropped;
  final = λ j h. ground (arith, inv.final j h, inv.once j, hc, h);
}

count_sent-Inv : (i : ℕ) (s : Stats) → s.uncounted ≡ some i → Inv s → Inv (count_sent i s)
unfolding count_sent
count_sent-Inv i s hu inv = record {
  balanced = λ j. ground (arith, inv.balanced j, hu);
  uncounted_current = λ j. ground arith;
  once = inv.once;
  unused = inv.unused;
  dropped = λ j h. ground (arith, inv.dropped j h, inv.uncounted_current j, hu);
  final = inv.final;
}

deliver_failed-Inv :
    (i : ℕ) (s : Stats) → count_of i s.in_flight ≢ 0 → Inv s → Inv (deliver_failed i s)
unfolding deliver_failed
deliver_failed-Inv i s h inv = record {
  balanced = λ j. ground (arith, inv.balanced j, count_of-take_out i j s.in_flight h);
  uncounted_current = inv.uncounted_current;
  once = inv.once;
  unused = inv.unused;
  dropped = λ j k. ground (arith, inv.dropped j k);
  final = λ j k. ground (arith, inv.final j k, count_of-take_out i j s.in_flight h);
}

deliver-Inv :
    (value_size latency i : ℕ) (s : Stats)
    → count_of i s.in_flight ≢ 0
    → Inv s
    → Inv (deliver value_size latency i s)
unfolding deliver
deliver-Inv value_size latency i s h inv = record {
  balanced = λ j. ground (arith, inv.balanced j, count_of-take_out i j s.in_flight h);
  uncounted_current = inv.uncounted_current;
  once = inv.once;
  unused = inv.unused;
  dropped = λ j k. ground (arith, inv.dropped j k);
  final = λ j k. ground (arith, inv.final j k, count_of-take_out i j s.in_flight h);
}

-- The counters of messages are the same.
abbrev pub SameCounts : PeriodStats → PeriodStats → Type 0
SameCounts p q =
    (q.msg_sent ≡ p.msg_sent) × (q.msg_succeed ≡ p.msg_succeed) × (q.msg_failed ≡ p.msg_failed)

pub run_write-SameCounts : (w : Write) (p q : PeriodStats) → run_write w p ≡ ok q → SameCounts p q
unfolding run_write
run_write-SameCounts (size_write size) p q h = ground (arith, h)
run_write-SameCounts (latency_sum_write latency) p q h = ground (arith, h)
run_write-SameCounts (latency_max_write latency) p q h = ground (arith, h)
run_write-SameCounts (bucket_write latency) p q h =
    let (counts, _, same_stats) = bind-eq-ok (increase_at p.latency_per_ms_count _) _ h in
    ground (arith, same_stats)

written-Inv :
    (i : ℕ) (w : Write) (p : PeriodStats) (rest : List (ℕ × Write)) (s : Stats)
    → run_write w (s.periods i) ≡ ok p
    → Inv s
    → Inv (written i p rest s)
unfolding written
written-Inv i w p rest s h inv =
    let same_counts = run_write-SameCounts w (s.periods i) p h in
    record {
      balanced = λ j. ground (arith, inv.balanced j, same_counts);
      uncounted_current = inv.uncounted_current;
      once = inv.once;
      unused = inv.unused;
      dropped = λ j k. ground (arith, inv.dropped j k, same_counts);
      final = inv.final;
    }

-- The reporter takes nothing, or the first period if it is settled.
pub pop-cases :
    (s : Stats)
    → (pop_stats_ready_for_report s ≡ s)
      ⊎ ((i : ℕ) × (rest : List ℕ) × (s.ready ≡ i ∷ rest)
          × (is_settled (s.periods i) ≡ true)
          × (pop_stats_ready_for_report s ≡ record s { ready = rest; reported = i ∷ s.reported }))
unfolding pop_stats_ready_for_report
pop-cases s = by_ready s.ready refl
  where
    by_ready :
        (l : List ℕ)
        → s.ready ≡ l
        → (pop_stats_ready_for_report s ≡ s)
          ⊎ ((i : ℕ) × (rest : List ℕ) × (s.ready ≡ i ∷ rest)
              × (is_settled (s.periods i) ≡ true)
              × (pop_stats_ready_for_report s
                  ≡ record s { ready = rest; reported = i ∷ s.reported }))
    by_ready [] e = inl (ground (arith, e))
    by_ready (i ∷ rest) e = elim (Bool-cases (is_settled (s.periods i))) [
      | inl h ↦ inr (i, rest, e, h, ground (arith, e, h))
      | inr h ↦ inl (ground (arith, e, h))
    ]

pub take-Inv :
    (s : Stats) (i : ℕ) (rest : List ℕ)
    → s.ready ≡ i ∷ rest
    → is_settled (s.periods i) ≡ true
    → Inv s
    → Inv (record s { ready = rest; reported = i ∷ s.reported })
unfolding count_of
take-Inv s i rest e h inv = record {
  balanced = inv.balanced;
  uncounted_current = inv.uncounted_current;
  once = λ j. ground (arith, inv.once j, e);
  unused = λ j k. ground (arith, inv.unused j k, e);
  dropped = λ j k. ground (arith, inv.dropped j, e, k);
  final = λ j k.
      ground (arith, inv.final j, inv.balanced j, inv.once j, inv.uncounted_current j, e, h, k);
}

pop-Inv : (s : Stats) → Inv s → Inv (pop_stats_ready_for_report s)
pop-Inv s inv = elim (pop-cases s) [
  | inl e ↦ subst Inv (sym e) inv
  | inr (i, rest, e, h, p) ↦ subst Inv (sym p) (take-Inv s i rest e h inv)
]

-- The current period is moved to the list, and none is current.
abbrev retired : ℕ → ℕ → Stats → Stats
retired now i s = record s {
  periods = update s.periods i (record (s.periods i) { ts_end_ms = now });
  ready = s.ready ++ (i ∷ []);
  current = none;
}

retire-Inv :
    (now i : ℕ) (s : Stats)
    → s.current ≡ some i
    → s.uncounted ≡ none
    → Inv s
    → Inv (retired now i s)
unfolding count_of
retire-Inv now i s hc hu inv = record {
  balanced = λ j. ground (arith, inv.balanced j, hc);
  uncounted_current = λ j. ground (arith, hu);
  once = λ j. ground (arith, inv.once j, hc, count_of-append j i s.ready);
  unused = λ j k. ground (arith, inv.unused j k, hc, count_of-append j i s.ready);
  dropped = λ j k. ground (arith, inv.dropped j, hc, k, count_of-append j i s.ready);
  final = λ j k. ground (arith, inv.final j, hc, k);
}

forget-Inv :
    (i : ℕ) (s : Stats)
    → s.current ≡ some i
    → s.uncounted ≡ none
    → (s.periods i).msg_sent ≡ 0
    → Inv s
    → Inv (record s { current = none })
forget-Inv i s hc hu h inv = record {
  balanced = inv.balanced;
  uncounted_current = λ j. ground (arith, hu);
  once = λ j. ground (arith, inv.once j, hc);
  unused = λ j k. ground (arith, inv.unused j k, hc);
  dropped = λ j k. ground (arith, inv.dropped j, hc, k, h);
  final = inv.final;
}

begin-Inv :
    (warmup : Bool) (now : ℕ) (s : Stats)
    → s.current ≡ none
    → s.uncounted ≡ none
    → Inv s
    → Inv (begin_period warmup now s)
begin-Inv warmup now s hc hu inv = record {
  balanced = λ j. ground (arith, inv.balanced j, inv.unused j, inv.dropped j, hu, hc);
  uncounted_current = λ j. ground (arith, hu);
  once = λ j. ground (arith, inv.once j, inv.unused j, hc);
  unused = λ j k. ground (arith, inv.unused j, hc);
  dropped = λ j k. ground (arith, inv.dropped j, hc, k);
  final = λ j k. ground (arith, inv.final j, k);
}

complete-Inv :
    (now : ℕ) (s : Stats) → s.uncounted ≡ none → Inv s → Inv (complete_period_stats now s)
unfolding complete_period_stats
complete-Inv now s hu inv = elim (Option-cases s.current) [
  | inl hc ↦ subst Inv (ground (arith, hc)) inv
  | inr (i, hc) ↦ elim (Bool-cases (ltb 0 (s.periods i).msg_sent)) [
    | inl h ↦ subst Inv (ground (arith, hc, h)) (retire-Inv now i s hc hu inv)
    | inr h ↦ subst Inv (ground (arith, hc, h)) (forget-Inv i s hc hu (ground (arith, h)) inv)
  ]
]

roll-Inv :
    (warmup : Bool) (ended begun : ℕ) (s : Stats)
    → s.uncounted ≡ none
    → Inv s
    → Inv (roll_out_new_period_stats warmup ended begun s)
unfolding roll_out_new_period_stats
roll-Inv warmup ended begun s hu inv = elim (Option-cases s.current) [
  | inl hc ↦ subst Inv (ground (arith, hc)) (begin-Inv warmup begun s hc hu inv)
  | inr (i, hc) ↦
      subst Inv (ground (arith, hc))
        (begin-Inv warmup begun (retired ended i s) refl hu (retire-Inv ended i s hc hu inv))
]

pub Step-Inv : {s t : Stats} → Step s t → Inv s → Inv t
Step-Inv {s} (roll_step warmup ended begun h) inv = roll-Inv warmup ended begun s h inv
Step-Inv {s} (hand_over_step i h k) inv = hand_over-Inv i s h k inv
Step-Inv {s} (count_step i h) inv = count_sent-Inv i s h inv
Step-Inv {s} (complete_step now h) inv = complete-Inv now s h inv
Step-Inv {s} (failed_step i e h) inv = deliver_failed-Inv i s h inv
Step-Inv {s} (deliver_step now value_size timestamp i e h) inv =
    deliver-Inv value_size (latency_ms now timestamp) i s h inv
Step-Inv {s} (write_step i w p rest e h) inv = written-Inv i w p rest s h inv
Step-Inv {s} report_step inv = pop-Inv s inv

pub Reaches-Inv : {s t : Stats} → Reaches s t → Inv s → Inv t
Reaches-Inv here inv = inv
Reaches-Inv (after r step) inv = Step-Inv step (Reaches-Inv r inv)
