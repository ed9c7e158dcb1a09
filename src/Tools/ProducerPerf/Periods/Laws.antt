-- ===== src/Tools/ProducerPerf/Periods/Laws.antt =====
-- No message is lost from the figures, a reported period is final, and the reporter comes to an end.
use modern_cpp_kafka.Prelude.{
  ℕ, suc, ◌+◌, ◌==◌, ◌≡◌, ◌≢◌, refl, Bool, true, none, List, [], ◌∷◌, arith, if◌then◌else◌, inl,
  inr, subst, sym, ◌∙◌, length, ap,
}
use modern_cpp_kafka.Outcome.{ok}
use modern_cpp_kafka.Tools.ProducerPerf.Stats.{
  PeriodStats, is_settled, Write, run_write, latency_ms,
}
use modern_cpp_kafka.Tools.ProducerPerf.Periods.{
  Stats, Step, roll_step, hand_over_step, count_step, complete_step, deliver_step, failed_step,
  write_step, report_step, Reaches, here, after, start, count_of, roll_out_new_period_stats,
  complete_period_stats, pop_stats_ready_for_report, is_empty_stats, hand_over, count_sent, deliver,
  deliver_failed, written, has_report, report_ready,
}
use modern_cpp_kafka.Tools.ProducerPerf.Periods.Invariant.{
  Inv, Inv-start, Reaches-Inv, Step-Inv, pop-cases, SameCounts, run_write-SameCounts,
}

-- How many writes of the callback under way are to the period.
unfoldable pub pending_at : ℕ → List (ℕ × Write) → ℕ
pending_at i [] = 0
pending_at i ((j, w) ∷ ws) = let rest = pending_at i ws in if i == j then suc rest else rest

-- The counters of a reported period are left alone, and the other figures once no write is pending.
abbrev Kept : ℕ → Stats → Stats → Type 0
Kept i s t =
    SameCounts (s.periods i) (t.periods i)
    × (pending_at i s.pending ≡ 0 → (t.periods i ≡ s.periods i) × (pending_at i t.pending ≡ 0))
    × (count_of i t.reported ≢ 0)

same-SameCounts : (p q : PeriodStats) → q ≡ p → SameCounts p q
same-SameCounts p q e =
    (ap (λ x. x.msg_sent) e, ap (λ x. x.msg_succeed) e, ap (λ x. x.msg_failed) e)

-- A step that neither writes to the period nor to the pending writes.
untouched :
    (i : ℕ) (s t : Stats)
    → t.periods i ≡ s.periods i
    → t.pending ≡ s.pending
    → count_of i t.reported ≢ 0
    → Kept i s t
untouched i s t e p k =
    (same-SameCounts (s.periods i) (t.periods i) e, λ h. (e, ap (pending_at i) p ∙ h), k)

written-Kept :
    (i j : ℕ) (w : Write) (p : PeriodStats) (rest : List (ℕ × Write)) (s : Stats)
    → s.pending ≡ (j, w) ∷ rest
    → run_write w (s.periods j) ≡ ok p
    → count_of i s.reported ≢ 0
    → Kept i s (written j p rest s)
unfolding written pending_at
written-Kept i j w p rest s e h k =
    let same_counts = run_write-SameCounts w (s.periods j) p h in
    (
      (ground (arith, same_counts), ground (arith, same_counts), ground (arith, same_counts)),
      λ none_pending. (ground (arith, e, none_pending), ground (arith, e, none_pending)),
      k,
    )

deliver-Kept :
    (i j value_size latency : ℕ) (s : Stats)
    → Inv s
    → s.pending ≡ []
    → count_of j s.in_flight ≢ 0
    → count_of i s.reported ≢ 0
    → Kept i s (deliver value_size latency j s)
unfolding deliver pending_at
deliver-Kept i j value_size latency s inv e h k =
    let same_period : (deliver value_size latency j s).periods i ≡ s.periods i =
      ground (arith, inv.final i k, h) in
    (
      same-SameCounts (s.periods i) ((deliver value_size latency j s).periods i) same_period,
      λ none_pending. (same_period, ground (arith, inv.final i k, h)),
      k,
    )

Step-Kept : {s t : Stats} (i : ℕ) → Step s t → Inv s → count_of i s.reported ≢ 0 → Kept i s t
unfolding roll_out_new_period_stats complete_period_stats hand_over count_sent deliver_failed
    count_of
Step-Kept {s} {t} i (roll_step warmup ended begun h) inv k =
    untouched i s t (ground (arith, inv.once i, inv.unused i, k)) (ground arith) (ground (arith, k))
Step-Kept {s} {t} i (hand_over_step j h l) inv k = untouched i s t refl refl k
Step-Kept {s} {t} i (count_step j h) inv k =
    untouched i s t (ground (arith, inv.once i, inv.uncounted_current i, h, k)) refl k
Step-Kept {s} {t} i (complete_step now h) inv k =
    untouched i s t (ground (arith, inv.once i, k)) (ground arith) (ground (arith, k))
Step-Kept {s} {t} i (failed_step j e h) inv k =
    untouched i s t (ground (arith, inv.final i k, h)) refl k
Step-Kept {s} i (deliver_step now value_size timestamp j e h) inv k =
    deliver-Kept i j value_size (latency_ms now timestamp) s inv e h k
Step-Kept {s} i (write_step j w p rest e h) inv k = written-Kept i j w p rest s e h k
Step-Kept {s} i report_step inv k = elim (pop-cases s) [
  | inl e ↦ subst (Kept i s) (sym e) (untouched i s s refl refl k)
  | inr (j, rest, e, h, p) ↦
      let taken : Stats = record s { ready = rest; reported = j ∷ s.reported } in
      subst (Kept i s) (sym p) (untouched i s taken refl refl (ground (arith, k)))
]

Kept-trans : (i : ℕ) (s t u : Stats) → Kept i s t → Kept i t u → Kept i s u
Kept-trans i s t u (a, b, c) (d, e, f) = (
  (d.0 ∙ a.0, d.1 ∙ a.1, d.2 ∙ a.2),
  λ h. (let first = b h in let second = e first.1 in (second.0 ∙ first.0, second.1)),
  f,
)

Reaches-Kept : {s t : Stats} (i : ℕ) → Inv s → Reaches s t → count_of i s.reported ≢ 0 → Kept i s t
Reaches-Kept {s} i inv here k = untouched i s s refl refl k
Reaches-Kept {s} {t} i inv (after {t = m} r step) k =
    let kept = Reaches-Kept i inv r k in
    Kept-trans i s m t kept (Step-Kept i step (Reaches-Inv r inv) kept.2)

-- However the threads interleave, the counters of a reported period count each message that was sent
-- in it as delivered or failed and never change again; nor do its other figures, once no delivery
-- callback that is under way has a write to it before it.
pub reported_final :
    {s t : Stats} (i : ℕ)
    → Reaches start s
    → Reaches s t
    → count_of i s.reported ≢ 0
    → ((s.periods i).msg_sent ≡ (s.periods i).msg_succeed + (s.periods i).msg_failed)
      × SameCounts (s.periods i) (t.periods i)
      × (pending_at i s.pending ≡ 0 → t.periods i ≡ s.periods i)
reported_final {s} i r later k =
    let inv = Reaches-Inv r Inv-start in
    let kept = Reaches-Kept i inv later k in
    (
      ground (arith, inv.balanced i, inv.final i k, inv.once i, inv.uncounted_current i, k),
      kept.0,
      λ h. (kept.1 h).0,
    )

-- However the threads interleave, once the main thread finds no period that is current or in the list,
-- with each message counted, every period that a message was sent in has been reported, and its
-- messages are all delivered or failed.
pub all_periods_reported :
    {s : Stats} (i : ℕ)
    → Reaches start s
    → is_empty_stats s ≡ true
    → s.uncounted ≡ none
    → ((s.periods i).msg_sent ≡ (s.periods i).msg_succeed + (s.periods i).msg_failed)
      × ((s.periods i).msg_sent ≢ 0 → count_of i s.reported ≡ 1)
unfolding is_empty_stats count_of
all_periods_reported {s} i r e h =
    let inv = Reaches-Inv r Inv-start in
    (
      ground (arith, inv.balanced i, inv.final i, inv.dropped i, e, h),
      λ k. ground (arith, inv.once i, inv.dropped i, e, k),
    )

-- No period in the list has ended at the time 0.
abbrev pub AllEnded : Stats → Type 0
AllEnded s = (i : ℕ) → count_of i s.ready ≢ 0 → (s.periods i).ts_end_ms ≢ 0

-- Nothing is on its way, and no period is current.
pub record IsQuiet (s : Stats) : Type 0 where
  pub none_current : s.current ≡ none
  pub all_counted : s.uncounted ≡ none
  pub none_in_flight : s.in_flight ≡ []

ready-settled :
    (s : Stats) (i : ℕ) (rest : List ℕ)
    → s.ready ≡ i ∷ rest
    → Inv s
    → IsQuiet s
    → AllEnded s
    → is_settled (s.periods i) ≡ true
unfolding count_of
ready-settled s i rest e inv q ended =
    ground (arith, inv.balanced i, ended i, q.all_counted, q.none_in_flight, e)

-- The reporter has taken the period `i`.
abbrev taken : ℕ → List ℕ → Stats → Stats
taken i rest s = record s { ready = rest; reported = i ∷ s.reported }

pop-taken :
    (s : Stats) (i : ℕ) (rest : List ℕ)
    → s.ready ≡ i ∷ rest
    → is_settled (s.periods i) ≡ true
    → pop_stats_ready_for_report s ≡ taken i rest s
unfolding pop_stats_ready_for_report
pop-taken s i rest e h = ground (arith, e, h)

report_ready-taken :
    (n : ℕ) (s : Stats) (i : ℕ) (rest : List ℕ)
    → s.ready ≡ i ∷ rest
    → is_settled (s.periods i) ≡ true
    → report_ready (suc n) s ≡ report_ready n (taken i rest s)
unfolding report_ready
report_ready-taken n s i rest e h =
    let has : has_report s ≡ true = ground (arith, e, h) in
    ap (λ (b : Bool). if b then report_ready n (pop_stats_ready_for_report s) else ok s) has
    ∙ ap (report_ready n) (pop-taken s i rest e h)

Reaches_trans : {s t u : Stats} → Reaches s t → Reaches t u → Reaches s u
Reaches_trans r here = r
Reaches_trans r (after k step) = after (Reaches_trans r k) step

-- How the reporter's inner loop ends, from a list of periods.
abbrev Ends : ℕ → Stats → Type 0
Ends n s =
    (t : Stats) × (report_ready (suc n) s ≡ ok t)
    × Reaches s t
    × (is_empty_stats t ≡ true)
    × (t.uncounted ≡ none)

report_ready-Ends :
    (l : List ℕ) (s : Stats) → s.ready ≡ l → Inv s → IsQuiet s → AllEnded s → Ends (length l) s
unfolding report_ready is_empty_stats count_of
report_ready-Ends [] s e inv q ended =
    (s, rw e refl, here, ground (arith, e, q.none_current), q.all_counted)
report_ready-Ends (i ∷ rest) s e inv q ended =
    let h = ready-settled s i rest e inv q ended in
    let p = pop-taken s i rest e h in
    let (t, done, reached, empty, counted) =
      report_ready-Ends rest (taken i rest s) refl (subst Inv p (Step-Inv report_step inv))
        (record {
          none_current = q.none_current;
          all_counted = q.all_counted;
          none_in_flight = q.none_in_flight;
        })
        (λ j k. ended j (ground (arith, e, k))) in
    (
      t,
      report_ready-taken (suc (length rest)) s i rest e h ∙ done,
      Reaches_trans (subst (Reaches s) p (after here report_step)) reached,
      empty,
      counted,
    )

-- Once every message is reported, none is to be counted and no period is current, the reporter's
-- inner loop ends, where no period in its list ended at the time 0. The main thread then finds nothing
-- left, and every period that a message was sent in has been reported once, all its messages delivered
-- or failed.
pub report_ready_ends :
    (s : Stats)
    → Reaches start s
    → IsQuiet s
    → AllEnded s
    → (t : Stats) × (report_ready (suc (length s.ready)) s ≡ ok t)
      × (is_empty_stats t ≡ true)
      × ((i : ℕ)
          → ((t.periods i).msg_sent ≡ (t.periods i).msg_succeed + (t.periods i).msg_failed)
            × ((t.periods i).msg_sent ≢ 0 → count_of i t.reported ≡ 1))
report_ready_ends s r q ended =
    let (t, done, reached, empty, counted) =
      report_ready-Ends s.ready s refl (Reaches-Inv r Inv-start) q ended in
    (t, done, empty, λ i. all_periods_reported i (Reaches_trans r reached) empty counted)
