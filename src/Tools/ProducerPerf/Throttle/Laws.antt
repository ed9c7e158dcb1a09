-- ===== src/Tools/ProducerPerf/Throttle/Laws.antt =====
-- How many records the performance test sends, and when.
use modern_cpp_kafka.Prelude.{
  min, ℕ, zero, suc, ◌+◌, ◌-◌, ◌*◌, ◌^◌, ◌<◌, ◌≤◌, ◌≡◌, refl, pos, negsuc, List, [], ◌∷◌, ◌++◌,
  arith, ltb, Bool-cases, inl, inr, ap, lt→ltb, ltb→lt,
}
use modern_cpp_kafka.Outcome.{Outcome, ok}
use modern_cpp_kafka.Tools.ProducerPerf.{Arguments}
use modern_cpp_kafka.Tools.ProducerPerf.Doubles.{due}
use modern_cpp_kafka.Tools.ProducerPerf.Throttle.{
  sub64, num_to_send, Readings, Loop, send_one, send_many, rounds,
}

sub64-eq : (a b : ℕ) → b ≤ a → a < 2 ^ 64 → sub64 a b ≡ a - b
sub64-eq a b h k = omega arith

pub num_to_send-due :
    (t elapsed num_sent num_records : ℕ)
    → due t elapsed < 2 ^ 64
    → num_sent ≤ due t elapsed
    → num_sent ≤ num_records
    → num_to_send (pos t) elapsed num_sent num_records
      ≡ ok (min (due t elapsed) num_records - num_sent)
unfolding num_to_send
num_to_send-due t elapsed num_sent num_records fits h k =
    rw (lt→ltb (due t elapsed) (2 ^ 64) fits) (ap ok (smaller (due t elapsed) fits h))
  where
    smaller :
        (d : ℕ)
        → d < 2 ^ 64
        → num_sent ≤ d
        → min (sub64 d num_sent) (num_records - num_sent) ≡ min d num_records - num_sent
    smaller d f g = rw (sub64-eq d num_sent g f) (ground arith)

num_to_send_early :
    (n elapsed num_records : ℕ)
    → elapsed * suc n < 1000
    → num_to_send (negsuc n) elapsed 0 num_records ≡ ok 0
unfolding num_to_send
num_to_send_early n elapsed num_records h = rw (lt→ltb (elapsed * suc n) 1000 h) (ground arith)

num_to_send_late :
    (n elapsed num_sent num_records : ℕ)
    → 1000 ≤ elapsed * suc n
    → num_to_send (negsuc n) elapsed num_sent num_records ≡ Outcome.undefined
unfolding num_to_send
num_to_send_late n elapsed num_sent num_records h = elim (Bool-cases (ltb (elapsed * suc n) 1000)) [
  | inl e ↦ absurd (omega (arith, ltb→lt (elapsed * suc n) 1000 e))
  | inr e ↦ rw e refl
]

send_one-num_sent :
    (a : Arguments) (r : Readings) (l : Loop) → (send_one a r l).num_sent ≡ suc l.num_sent
unfolding send_one
send_one-num_sent a r l = ground arith

pub send_many-num_sent :
    (a : Arguments) (clock : ℕ → Readings) (n : ℕ) (l : Loop)
    → (send_many a clock n l).num_sent ≡ n + l.num_sent
unfolding send_many
send_many-num_sent a clock zero l = omega arith
send_many-num_sent a clock (suc n) l = omega (
  arith,
  send_many-num_sent a clock n (send_one a (clock l.num_sent) l),
  send_one-num_sent a (clock l.num_sent) l,
)

-- Readings of the clock at which the milliseconds since the start, times n + 1, are below 1000.
abbrev pub AllEarly : ℕ → ℕ → List ℕ → Type 0
AllEarly n started [] = Unit {0}
AllEarly n started (now ∷ nows) = (sub64 now started * suc n < 1000) × AllEarly n started nows

-- With a throughput of -(n + 1), which stands for no limit, and records to send, the sending loop comes
-- to the conversion of a number out of range, which is undefined: at the first reading of the clock at
-- which the milliseconds since the start, times n + 1, are 1000 or more.
pub rounds_unlimited :
    (a : Arguments) (clock : ℕ → Readings) (started : ℕ) (early : List ℕ) (now : ℕ) (later : List ℕ)
    (l : Loop) (n : ℕ)
    → a.throughput ≡ negsuc n
    → l.num_sent ≡ 0
    → 0 < a.num_records
    → AllEarly n started early
    → 1000 ≤ sub64 now started * suc n
    → rounds a clock started (early ++ (now ∷ later)) l ≡ Outcome.undefined
unfolding rounds
rounds_unlimited a clock started [] now later l n h z p e d =
    ground (arith, num_to_send_late n (sub64 now started) l.num_sent a.num_records d, h, z, p)
rounds_unlimited a clock started (now' ∷ early) now later l n h z p (below, e) d = ground (
  arith,
  num_to_send_early n (sub64 now' started) a.num_records below,
  rounds_unlimited a clock started early now later l n h z p e d,
  h,
  z,
  p,
)

-- The clock's readings, none of which takes the number of records due back or beyond 64 bits, up to
-- one at which all are due.
abbrev pub AllDue : Arguments → ℕ → ℕ → ℕ → List ℕ → Type 0
AllDue a t started before [] = a.num_records ≤ before
AllDue a t started before (now ∷ nows) =
    (before ≤ due t (sub64 now started))
    × (due t (sub64 now started) < 2 ^ 64)
    × AllDue a t started (due t (sub64 now started)) nows
