-- ===== src/Tools/ProducerPerf/Periods/Buckets.antt =====
-- The buckets of every period count its delivered messages, but one whose callback is under way, so that
-- its percentiles are right.
use modern_cpp_kafka.Prelude.{
  ℕ, zero, suc, ◌+◌, ◌≤◌, ◌≡◌, refl, ap, List, [], ◌∷◌, ◌==◌, if◌then◌else◌, length,
}
use modern_cpp_kafka.Tools.ProducerPerf.Stats.{zeros, max_latency_ms, Write, bucket_write}
use modern_cpp_kafka.Tools.ProducerPerf.Stats.Laws.{sum}
use modern_cpp_kafka.Tools.ProducerPerf.Periods.{Stats}

pub length-zeros : (n : ℕ) → length (zeros n) ≡ n
unfolding zeros
length-zeros zero = refl
length-zeros (suc n) = ap suc (length-zeros n)

-- How many of the pending writes count a message in a bucket of the period.
unfoldable pending_buckets : ℕ → List (ℕ × Write) → ℕ
pending_buckets i [] = 0
pending_buckets i ((j, bucket_write latency) ∷ ws) =
    let rest = pending_buckets i ws in if i == j then suc rest else rest
pending_buckets i ((j, w) ∷ ws) = pending_buckets i ws

-- All delivered messages of the period are in its buckets or about to be.
record Buckets (i : ℕ) (s : Stats) : Type 0 where
  buckets : length (s.periods i).latency_per_ms_count ≡ max_latency_ms
  counted :
      sum (s.periods i).latency_per_ms_count + pending_buckets i s.pending
      ≡ (s.periods i).msg_succeed
  unused : s.next ≤ i → pending_buckets i s.pending ≡ 0
