-- ===== src/Tools/ProducerPerf/Percentiles.antt =====
-- The percentiles that the performance test reports.
use native.Mathlib.Decide.{dec_lt}
use modern_cpp_kafka.Prelude.{
  ℕ, zero, suc, ◌+◌, ◌-◌, ◌<◌, ◌≤◌, ◌≡◌, refl, Option, none, some, List, [], ◌∷◌, arith, ltb,
}
use modern_cpp_kafka.Tools.ProducerPerf.Stats.{
  PeriodStats, Percentiles, Positions, set_once, percentile_loop, percentiles, unset,
}
use modern_cpp_kafka.Tools.ProducerPerf.Stats.Laws.{sum}

-- The sum of the first `n` buckets: the number of messages that are faster than `n` milliseconds.
unfoldable pub below : ℕ → List ℕ → ℕ
below zero counts = 0
below (suc n) [] = 0
below (suc n) (c ∷ counts) = c + below n counts

-- One of the four searches.
search_one : ℕ → List ℕ → ℕ → ℕ → Option ℕ → Option ℕ
search_one target [] i index p = p
search_one target (n ∷ counts) i index p =
    search_one target counts (suc i) (index + n) (set_once (ltb target (index + n)) i p)

-- The loop makes the four searches side by side.
percentile_loop_lem :
    (at_ : Positions) (counts : List ℕ) (i index : ℕ) (p : Percentiles)
    → percentile_loop at_ counts i index p ≡ record {
      p50 = search_one at_.index_p50 counts i index p.p50;
      p95 = search_one at_.index_p95 counts i index p.p95;
      p99 = search_one at_.index_p99 counts i index p.p99;
      p999 = search_one at_.index_p999 counts i index p.p999;
    }
unfolding percentile_loop search_one
percentile_loop_lem at_ [] i index p = refl
percentile_loop_lem at_ (n ∷ counts) i index p =
    percentile_loop_lem at_ counts (suc i) (index + n) _

search_one_set :
    (target : ℕ) (counts : List ℕ) (i index v : ℕ)
    → search_one target counts i index (some v) ≡ some v
unfolding search_one
search_one_set target [] i index v = refl
search_one_set target (n ∷ counts) i index v = search_one_set target counts (suc i) (index + n) v

-- A bucket that the position falls into.
abbrev pub FallsInto : ℕ → List ℕ → ℕ → Type 0
FallsInto target counts b = (below b counts ≤ target) × (target < below (suc b) counts)

search_one_lem :
    (target : ℕ) (counts : List ℕ) (i index : ℕ)
    → index ≤ target
    → target < index + sum counts
    → (b : ℕ) × (search_one target counts i index none ≡ some (i + b))
      × (index + below b counts ≤ target)
      × (target < index + below (suc b) counts)
unfolding search_one sum below
search_one_lem target [] i index h k = absurd (omega arith)
search_one_lem target (n ∷ counts) i index h k = elim (dec_lt target (index + n)) [
  | yes now ↦ (
    0,
    ground (arith, search_one_set target counts (suc i) (index + n) i),
    omega arith,
    ground arith,
  )
  | no later ↦
      let (b, e, l, g) =
        search_one_lem target counts (suc i) (index + n) (omega arith) (omega arith) in
      (suc b, ground (arith, e), omega (arith, l), omega (arith, g))
]

below_mono : (m n : ℕ) (counts : List ℕ) → m ≤ n → below m counts ≤ below n counts
unfolding below
below_mono zero n counts h = omega arith
below_mono (suc m) zero counts h = absurd (omega arith)
below_mono (suc m) (suc n) [] h = omega arith
below_mono (suc m) (suc n) (c ∷ counts) h = omega (arith, below_mono m n counts (omega arith))

FallsInto-le :
    (m n b c : ℕ) (counts : List ℕ) → FallsInto m counts b → FallsInto n counts c → m ≤ n → b ≤ c
FallsInto-le m n b c counts h k le = elim (dec_lt c b) [
  | yes lt ↦ absurd (omega (arith, h.0, k.1, below_mono (suc c) b counts (omega arith)))
  | no ge ↦ omega arith
]

-- The positions do not fall, and the last is that of a message.
pub record Ascend (p : Positions) (n : ℕ) : Type 0 where
  pub p50-p95 : p.index_p50 ≤ p.index_p95
  pub p95-p99 : p.index_p95 ≤ p.index_p99
  pub p99-p999 : p.index_p99 ≤ p.index_p999
  pub within : p.index_p999 < n

-- Where the buckets count the delivered messages, of which there is one, and the positions ascend
-- within these, each percentile is the bucket that the message at its position falls into when the
-- messages are put in the order of their latencies, and the percentiles do not fall.
pub percentiles_correct :
    (positions : ℕ → Positions) (s : PeriodStats)
    → sum s.latency_per_ms_count ≡ s.msg_succeed
    → 0 < s.msg_succeed
    → Ascend (positions (s.msg_succeed - 1)) s.msg_succeed
    → (a b c d : ℕ) × (percentiles positions s
        ≡ record { p50 = some a; p95 = some b; p99 = some c; p999 = some d })
      × FallsInto (positions (s.msg_succeed - 1)).index_p50 s.latency_per_ms_count a
      × FallsInto (positions (s.msg_succeed - 1)).index_p95 s.latency_per_ms_count b
      × FallsInto (positions (s.msg_succeed - 1)).index_p99 s.latency_per_ms_count c
      × FallsInto (positions (s.msg_succeed - 1)).index_p999 s.latency_per_ms_count d
      × (a ≤ b)
      × (b ≤ c)
      × (c ≤ d)
unfolding percentiles
percentiles_correct positions s k some_sent asc =
    let p : Positions = positions (s.msg_succeed - 1) in
    let counts : List ℕ = s.latency_per_ms_count in
    let (a, ea, la, ga) =
      search_one_lem p.index_p50 counts 0 0 (omega arith)
        (omega (arith, k, asc.p50-p95, asc.p95-p99, asc.p99-p999, asc.within)) in
    let (b, eb, lb, gb) =
      search_one_lem p.index_p95 counts 0 0 (omega arith)
        (omega (arith, k, asc.p95-p99, asc.p99-p999, asc.within)) in
    let (c, ec, lc, gc) =
      search_one_lem p.index_p99 counts 0 0 (omega arith)
        (omega (arith, k, asc.p99-p999, asc.within)) in
    let (d, ed, ld, gd) =
      search_one_lem p.index_p999 counts 0 0 (omega arith) (omega (arith, k, asc.within)) in
    let fa : FallsInto p.index_p50 counts a = (omega (arith, la), omega (arith, ga)) in
    let fb : FallsInto p.index_p95 counts b = (omega (arith, lb), omega (arith, gb)) in
    let fc : FallsInto p.index_p99 counts c = (omega (arith, lc), omega (arith, gc)) in
    let fd : FallsInto p.index_p999 counts d = (omega (arith, ld), omega (arith, gd)) in
    (
      a,
      b,
      c,
      d,
      ground (arith, percentile_loop_lem p counts 0 0 unset, ea, eb, ec, ed),
      fa,
      fb,
      fc,
      fd,
      FallsInto-le p.index_p50 p.index_p95 a b counts fa fb asc.p50-p95,
      FallsInto-le p.index_p95 p.index_p99 b c counts fb fc asc.p95-p99,
      FallsInto-le p.index_p99 p.index_p999 c d counts fc fd asc.p99-p999,
    )
