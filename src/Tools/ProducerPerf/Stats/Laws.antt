-- ===== src/Tools/ProducerPerf/Stats/Laws.antt =====
-- The histogram of latencies.
use modern_cpp_kafka.Prelude.{
  max, ◌%◌, ◌^◌, min, ℕ, zero, suc, ◌+◌, ◌-◌, ◌<◌, ℤ, ◌≡◌, refl, ap, ◌∙◌, List, [], ◌∷◌, arith,
  length,
}
use modern_cpp_kafka.Outcome.{ok}
use modern_cpp_kafka.Tools.ProducerPerf.Stats.{
  PeriodStats, max_latency_ms, latency_ms, increase_at, update_delivered,
}

unfoldable pub sum : List ℕ → ℕ
sum [] = 0
sum (n ∷ counts) = n + sum counts

-- Every delivered message is in one bucket.
pub record Counted (s : PeriodStats) : Type 0 where
  pub buckets : length s.latency_per_ms_count ≡ max_latency_ms
  pub counted : sum s.latency_per_ms_count ≡ s.msg_succeed

pub increase_at_lem :
    (counts : List ℕ) (i : ℕ)
    → i < length counts
    → (more : List ℕ) × (increase_at counts i ≡ ok more)
      × (length more ≡ length counts)
      × (sum more ≡ suc (sum counts))
unfolding increase_at sum
increase_at_lem [] i h = absurd (omega arith)
increase_at_lem (n ∷ counts) zero h = (suc n ∷ counts, refl, refl, omega arith)
increase_at_lem (n ∷ counts) (suc i) h =
    let (more, e, l, s) = increase_at_lem counts i (omega arith) in
    (n ∷ more, ground (arith, e), omega (arith, l), omega (arith, s))

-- A bucket is there for every latency.
pub bucket_there :
    (latency : ℕ) (counts : List ℕ)
    → length counts ≡ max_latency_ms
    → (more : List ℕ) × (increase_at counts (min latency (max_latency_ms - 1)) ≡ ok more)
      × (length more ≡ length counts)
      × (sum more ≡ suc (sum counts))
bucket_there latency counts h =
    increase_at_lem counts (min latency (max_latency_ms - 1)) (ground (arith, h))

-- A delivery is counted in a bucket that is there, whatever the clock and the timestamp are.
pub update_delivered-Counted :
    (now value_size : ℕ) (timestamp : ℤ) (s : PeriodStats)
    → Counted s
    → (t : PeriodStats) × (update_delivered now value_size timestamp s ≡ ok t) × Counted t
unfolding update_delivered
update_delivered-Counted now value_size timestamp s c =
    let latency : ℕ = latency_ms now timestamp in
    let (more, e, l, m) = bucket_there latency s.latency_per_ms_count c.buckets in
    (
      record s {
        msg_succeed = suc s.msg_succeed;
        msg_size_sum = s.msg_size_sum + value_size;
        latency_ms_sum = (s.latency_ms_sum + latency) % 2 ^ 64;
        latency_ms_max = max s.latency_ms_max latency;
        latency_per_ms_count = more;
      },
      ground (arith, e),
      record { buckets = l ∙ c.buckets; counted = m ∙ ap suc c.counted },
    )
