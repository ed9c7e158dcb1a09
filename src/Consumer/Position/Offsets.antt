-- ===== src/Consumer/Position/Offsets.antt =====
-- `getOffsets` and `offsetsForTime`: what the result holds for each partition.
use modern_cpp_kafka.Prelude.{
  ◌≡◌, refl, ◌∙◌, ap, eqb_ℤ, Bool, true, false, ◌||◌, Option, none, some, [], ◌∷◌, if◌then◌else◌,
  arith, text_ord, int_ord, pair_ord, same, same→eq,
}
use modern_cpp_kafka.Outcome.{no_error, ok}
use modern_cpp_kafka.Containers.Map.{find, contains, insert, IsSorted}
use modern_cpp_kafka.Containers.Map.Laws.{find-insert, contains-cons, contains-nil}
use modern_cpp_kafka.Containers.Map.Sorted.{find-Above-same}
use modern_cpp_kafka.Containers.Map.Ascending.{Above-IsSorted}
use modern_cpp_kafka.Types.{Offset, TopicPartition, TopicPartitions, TopicPartitionOffsets}
use modern_cpp_kafka.Consumer.Position.{
  Watermarks, chosen, get_offsets_from, get_offsets, erase_unanswered,
}

module _ (query : TopicPartition → Watermarks) (at_beginning : Bool) where
  abbrev Answered : TopicPartitions → Type 0
  Answered [] = Unit
  Answered ((tp, u) ∷ tps) = ((query tp).resp ≡ no_error) × Answered tps

  -- One step: a key that is the same as `x` has the bound of `x`.
  chosen_here :
      (tp x : TopicPartition) (s a b : Bool) (found y : Option Offset)
      → (s ≡ true → x ≡ tp)
      → found ≡ (if s then some (chosen at_beginning (query x)) else y)
      → b ≡ (s || a)
      → (if a then some (chosen at_beginning (query tp)) else found)
        ≡ (if b then some (chosen at_beginning (query tp)) else y)
  chosen_here tp x true a b found y same_key h k =
      ground (arith, h, k, ap (λ z. chosen at_beginning (query z)) (same_key refl))
  chosen_here tp x false a b found y same_key h k = ground (arith, h, k)

  get_offsets_from-find :
      (tps : TopicPartitions) (result : TopicPartitionOffsets)
      → Answered tps
      → (out : TopicPartitionOffsets) × (get_offsets_from query at_beginning tps result ≡ ok out)
        × ((tp : TopicPartition)
            → find tp out
              ≡ (if contains tp tps then some (chosen at_beginning (query tp)) else find tp result))
  unfolding get_offsets_from
  get_offsets_from-find [] result h = (result, refl, λ tp. rw (contains-nil tp) refl)
  get_offsets_from-find ((x, u) ∷ tps) result h =
      let here = chosen at_beginning (query x) in
      let rest = get_offsets_from-find tps (insert x here result) h.1 in
      (
        rest.0,
        rw (h.0) (rest.1),
        λ tp.
            rest.2 tp
            ∙ chosen_here tp x (same x tp) (contains tp tps) (contains tp ((x, u) ∷ tps))
                (find tp (insert x here result)) (find tp result) (same→eq x tp)
                (find-insert x tp here result) (contains-cons x tp u tps),
      )

  -- Where the broker answers for every given partition, `getOffsets` returns, and a lookup in the
  -- result gives for a given partition the bound that was asked for and for any other nothing.
  pub get_offsets-find :
      (tps : TopicPartitions)
      → Answered tps
      → (out : TopicPartitionOffsets) × (get_offsets query tps at_beginning ≡ ok out)
        × ((tp : TopicPartition)
            → find tp out
              ≡ (if contains tp tps then some (chosen at_beginning (query tp)) else none))
  unfolding get_offsets find
  get_offsets-find tps h = get_offsets_from-find tps [] h

-- On results whose keys ascend, the last loop of `offsetsForTime` takes away exactly the
-- partitions whose result is the time that was asked for, and keeps the other results.
pub erase_unanswered-find :
    (ms : Offset) (tp : TopicPartition) (results : TopicPartitionOffsets)
    → IsSorted results
    → find tp (erase_unanswered ms results)
      ≡ elim (find tp results) [ none ↦ none | some o ↦ if eqb_ℤ o ms then none else some o ]
unfolding erase_unanswered find
erase_unanswered-find ms tp [] h = refl
erase_unanswered-find ms tp ((x, o) ∷ results) h = ground (
  arith,
  erase_unanswered-find ms tp results (Above-IsSorted x results h),
  find-Above-same x tp results h,
)
