-- ===== src/Tools/ConsumerPerf/Consume/Laws.antt =====
-- How many records the performance test receives.
use native.Mathlib.Decide.{dec_lt}
use modern_cpp_kafka.Prelude.{
  min, ℕ, ◌+◌, ◌<◌, ◌≤◌, ◌≡◌, refl, List, [], ◌∷◌, ◌++◌, arith, subst, sym, ◌∙◌, if◌then◌else◌,
}
use modern_cpp_kafka.Outcome.{is_error, ok, Yields, yields}
use modern_cpp_kafka.Tools.ConsumerPerf.{Arguments}
use modern_cpp_kafka.Tools.ConsumerPerf.Consume.{
  Message, PeriodStats, Loop, receive, report_error, receive_each, Round, roll_if_due, take_records,
  consume, complete_period_stats, initial,
}

-- The records without an error.
unfoldable pub sound : List Message → ℕ
sound [] = 0
sound (m ∷ ms) = (if is_error m.err then 0 else 1) + sound ms

-- The records in the figures of some periods.
unfoldable pub received_in : List PeriodStats → ℕ
received_in [] = 0
received_in (s ∷ l) = s.msg_received + received_in l

received_in-append :
    (l : List PeriodStats) (s : PeriodStats)
    → received_in (l ++ (s ∷ [])) ≡ received_in l + s.msg_received
unfolding received_in
received_in-append [] s = omega arith
received_in-append (t ∷ l) s = omega (arith, received_in-append l s)

-- The figures agree with the loop's own count.
abbrev Tallies : Loop → Type 0
Tallies l = received_in l.stats_list + l.current.msg_received ≡ l.num_received

receive_each-num_received :
    (n ts : ℕ) (ms : List Message) (l : Loop)
    → l.num_received < n
    → (receive_each n ts ms l).num_received ≡ min (l.num_received + sound ms) n
unfolding receive_each sound
receive_each-num_received n ts [] l h = ground arith
receive_each-num_received n ts (m ∷ ms) l h = ground (
  arith,
  receive_each-num_received n ts ms (report_error m.err l),
  receive_each-num_received n ts ms (receive m ts l),
)

receive_each-Tallies :
    (n ts : ℕ) (ms : List Message) (l : Loop) → Tallies l → Tallies (receive_each n ts ms l)
unfolding receive_each
receive_each-Tallies n ts [] l h = h
receive_each-Tallies n ts (m ∷ ms) l h = ground (
  arith,
  receive_each-Tallies n ts ms (report_error m.err l),
  receive_each-Tallies n ts ms (receive m ts l),
  h,
)

roll_if_due-Tallies :
    (a : Arguments) (r : Round) (l : Loop)
    → Tallies l
    → Tallies (roll_if_due a r l) × ((roll_if_due a r l).num_received ≡ l.num_received)
unfolding roll_if_due received_in
roll_if_due-Tallies a r l h =
    ground (arith, received_in-append l.stats_list (record l.current { ts_end_ms = r.ended }), h)

take_records-num_received :
    (a : Arguments) (r : Round) (ms : List Message) (l : Loop)
    → l.num_received < a.num_records
    → Tallies l
    → ((take_records a r ms l).num_received ≡ min (l.num_received + sound ms) a.num_records)
      × Tallies (take_records a r ms l)
unfolding take_records sound
take_records-num_received a r [] l h t = (ground (arith, h), t)
take_records-num_received a r (m ∷ ms) l h t =
    let (rolled, same) = roll_if_due-Tallies a r l t in
    (
      receive_each-num_received a.num_records r.current_ts (m ∷ ms) (roll_if_due a r l)
            (ground (arith, same, h))
          ∙ rw same refl,
      receive_each-Tallies a.num_records r.current_ts (m ∷ ms) (roll_if_due a r l) rolled,
    )

-- Rounds whose polls return the given records.
abbrev pub Returned : List Round → List (List Message) → Type 0
Returned [] [] = Unit
Returned [] (ms ∷ polls) = ⊥
Returned (r ∷ rs) [] = ⊥
Returned (r ∷ rs) (ms ∷ polls) = (r.polled ≡ ok ms) × Returned rs polls

unfoldable pub sound_in : List (List Message) → ℕ
sound_in [] = 0
sound_in (ms ∷ polls) = sound ms + sound_in polls

-- All records are received, and in the figures.
abbrev pub IsReceived : Arguments → Loop → Type 0
IsReceived a l =
    (l.num_received ≡ a.num_records)
    × ((now : ℕ) → received_in (complete_period_stats now l) ≡ a.num_records)

complete-IsReceived :
    (a : Arguments) (l : Loop) → l.num_received ≡ a.num_records → Tallies l → IsReceived a l
unfolding complete_period_stats
complete-IsReceived a l h t = (
  h,
  λ now.
      ground (arith, received_in-append l.stats_list (record l.current { ts_end_ms = now }), h, t),
)

consume_done :
    (a : Arguments) (rs : List Round) (l : Loop)
    → a.num_records ≤ l.num_received
    → consume a rs l ≡ ok l
unfolding consume
consume_done a [] l h = ground (arith, h)
consume_done a (r ∷ rs) l h = ground (arith, h)

consume_more :
    (a : Arguments) (r : Round) (rs : List Round) (ms : List Message) (l : Loop)
    → l.num_received < a.num_records
    → r.polled ≡ ok ms
    → consume a (r ∷ rs) l ≡ consume a rs (take_records a r ms l)
unfolding consume
consume_more a r rs ms l h k = ground (arith, h, k)

consume_from :
    (a : Arguments) (rs : List Round) (polls : List (List Message)) (l : Loop)
    → Returned rs polls
    → l.num_received ≤ a.num_records
    → a.num_records ≤ l.num_received + sound_in polls
    → Tallies l
    → Yields (IsReceived a) (consume a rs l)
unfolding sound_in
consume_from a [] [] l k h e t =
    subst (Yields (IsReceived a)) (sym (consume_done a [] l (omega arith)))
      (yields (complete-IsReceived a l (omega arith) t))
consume_from a [] (ms ∷ polls) l k h e t = absurd k
consume_from a (r ∷ rs) [] l k h e t = absurd k
consume_from a (r ∷ rs) (ms ∷ polls) l (k, more) h e t =
    elim (dec_lt l.num_received a.num_records) [
      | no all ↦
          subst (Yields (IsReceived a)) (sym (consume_done a (r ∷ rs) l (omega arith)))
            (yields (complete-IsReceived a l (omega arith) t))
      | yes below ↦
          let (number, tally) = take_records-num_received a r ms l below t in
          subst (Yields (IsReceived a)) (sym (consume_more a r rs ms l below k)) (
            consume_from a rs polls (take_records a r ms l) more (ground (arith, number))
              (ground (arith, number, e)) tally)
    ]

-- Where every poll returns and together they give at least as many records without an error as are
-- asked for, the loop ends, has received exactly as many, and the periods in the list count each of
-- them once.
pub consume_correct :
    (a : Arguments) (started begun : ℕ) (rs : List Round) (polls : List (List Message))
    → Returned rs polls
    → a.num_records ≤ sound_in polls
    → Yields (IsReceived a) (consume a rs (initial started begun))
unfolding received_in
consume_correct a started begun rs polls k e =
    consume_from a rs polls (initial started begun) k (omega arith) (omega arith) refl
