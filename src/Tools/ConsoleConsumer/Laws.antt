-- ===== src/Tools/ConsoleConsumer/Laws.antt =====
-- What the console consumer writes, and when it stops.
use mathlib.Core.List.{append-nil, append_assoc}
use modern_cpp_kafka.Prelude.{ℕ, zero, suc, ◌≡◌, ◌∙◌, true, false, List, [], ◌∷◌, ◌++◌, map, arith}
use modern_cpp_kafka.Outcome.{ok}
use modern_cpp_kafka.Consumer.Poll.{ConsumerRecord}
use modern_cpp_kafka.Tools.ConsoleConsumer.{
  Signals, stop_running, Round, Line, line_of, consume, started,
}

stop_running-running :
    (n : ℕ) (s : Signals) → s.running ≡ false → (stop_running n s).running ≡ false
unfolding stop_running
stop_running-running zero s h = h
stop_running-running (suc n) s h =
    ground (arith, stop_running-running n (record s { ignored = true }), h)

-- The first interrupt stops the loop, whatever follows it.
stop_running_first : (n : ℕ) (s : Signals) → (stop_running (suc n) s).running ≡ false
unfolding stop_running
stop_running_first n s = ground (
  arith,
  stop_running-running n (record s { ignored = true }),
  stop_running-running n (record s { running = false }),
)

-- A round with no interrupt, whose poll returns.
abbrev pub quiet : List ConsumerRecord → Round
quiet records = record { interrupts = 0; polled = ok records }

abbrev pub lines_of : List (List ConsumerRecord) → List Line
lines_of [] = []
lines_of (records ∷ polls) = map (λ x. line_of x) records ++ lines_of polls

consume_lines_from :
    (polls : List (List ConsumerRecord)) (last : Round) (later : List Round) (n : ℕ)
    (lines : List Line)
    → last.interrupts ≡ suc n
    → consume (map quiet polls ++ (last ∷ later)) started lines ≡ (lines ++ lines_of polls, ok tt)
unfolding consume
consume_lines_from [] last later n lines h =
    ground (arith, stop_running_first n started, append-nil lines, h)
consume_lines_from (records ∷ polls) last later n lines h =
    consume_lines_from polls last later n (lines ++ map (λ x. line_of x) records) h
    ∙ rw append_assoc

-- Where all polls return, the records that they gave before the round of the first interrupt are
-- written, in order and each once, those with an error apart, and nothing of that round.
pub consume_lines :
    (polls : List (List ConsumerRecord)) (last : Round) (later : List Round) (n : ℕ)
    → last.interrupts ≡ suc n
    → consume (map quiet polls ++ (last ∷ later)) started [] ≡ (lines_of polls, ok tt)
consume_lines polls last later n h = consume_lines_from polls last later n [] h
