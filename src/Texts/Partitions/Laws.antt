-- ===== src/Texts/Partitions/Laws.antt =====
-- What the texts of partitions tell.
use Prim.Native.Char.{Char}
use text.Mathlib.TextEquality.{eq_iff}
use text.Mathlib.TextLemmas.{
  nil-append, cons-append, append_assoc, append-nil, append-ne-nil_of_right_ne-nil,
  head-eq_of_cons-eq, tail-eq_of_cons-eq, cons-ne-nil,
}
use modern_cpp_kafka.Prelude.{
  ℕ, String, pos, ◌≡◌, ◌≢◌, refl, ap, sym, ◌∙◌, true, false, [], ◌∷◌, arith,
}
use modern_cpp_kafka.StdText.{to_string}
use modern_cpp_kafka.StdText.RoundTrip.{to_string_inj, has_minus, has_minus-to_string}
use modern_cpp_kafka.Types.{Topic, TopicPartition, TopicPartitions}
use modern_cpp_kafka.Texts.{◌<>◌, comma}
use modern_cpp_kafka.Texts.Partitions.{
  show_topic_partition, append_partitions, show_topic_partitions,
}

abbrev dashed : String → String → String
dashed s d = s <> String.◌∷◌ "-" d

has_minus-dashed : (s d : String) → has_minus (dashed s d) ≡ true
unfolding has_minus
has_minus-dashed String.[] d = rw nil-append refl
has_minus-dashed (String.◌∷◌ c s) d = rw cons-append (ground (arith, has_minus-dashed s d))

-- The last minus parts a text in one way.
dashed_inj :
    (s t d e : String)
    → has_minus d ≡ false
    → has_minus e ≡ false
    → dashed s d ≡ dashed t e
    → (s ≡ t) × (d ≡ e)
dashed_inj String.[] String.[] d e h k eq =
    (refl, tail-eq_of_cons-eq (sym (nil-append _) ∙ eq ∙ nil-append _))
dashed_inj String.[] (String.◌∷◌ c t) d e h k eq =
    cc (h, has_minus-dashed t e, tail-eq_of_cons-eq (sym (nil-append _) ∙ eq ∙ cons-append c t _))
dashed_inj (String.◌∷◌ c s) String.[] d e h k eq =
    cc (k, has_minus-dashed s d, tail-eq_of_cons-eq (sym (cons-append c s _) ∙ eq ∙ nil-append _))
dashed_inj (String.◌∷◌ b s) (String.◌∷◌ c t) d e h k eq =
    let whole = sym (cons-append b s _) ∙ eq ∙ cons-append c t _ in
    let (front, back) = dashed_inj s t d e h k (tail-eq_of_cons-eq whole) in
    (cc (head-eq_of_cons-eq whole, front), back)

show_topic_partition-dashed :
    (topic : Topic) (n : ℕ) → show_topic_partition (topic, pos n) ≡ dashed topic (to_string (pos n))
unfolding show_topic_partition
show_topic_partition-dashed topic n = rw (cons-append, nil-append) refl

-- Partitions with numbers that are not negative have different texts.
pub show_topic_partition_inj :
    (s t : Topic) (m n : ℕ)
    → show_topic_partition (s, pos m) ≡ show_topic_partition (t, pos n)
    → (s ≡ t) × (m ≡ n)
show_topic_partition_inj s t m n h =
    let (topic, number) =
      dashed_inj s t (to_string (pos m)) (to_string (pos n)) (has_minus-to_string m)
        (has_minus-to_string n)
        (sym (show_topic_partition-dashed s m) ∙ h ∙ show_topic_partition-dashed t n) in
    (topic, to_string_inj m n number)

-- The texts of the elements, with commas between them.
abbrev pub joined : TopicPartitions → String
joined [] = ""
joined ((tp, _) ∷ []) = show_topic_partition tp
joined ((tp, _) ∷ next ∷ tps) = show_topic_partition tp <> "," <> joined (next ∷ tps)

abbrev after : TopicPartitions → String
after [] = ""
after ((tp, _) ∷ tps) = "," <> show_topic_partition tp <> after tps

joined-after :
    (tp : TopicPartition) (u : Unit {0}) (tps : TopicPartitions)
    → joined ((tp, u) ∷ tps) ≡ show_topic_partition tp <> after tps
joined-after tp u [] = sym (append-nil _)
joined-after tp u ((next, v) ∷ tps) =
    ap (λ (s : String). show_topic_partition tp <> "," <> s) (joined-after next v tps)

comma-ne : (ret : String) → ret ≢ "" → comma ret ≡ ","
comma-ne ret h = ground (arith, eq_iff ret "", h)

one_ne-nil : (c : Char) (s : String) → String.◌∷◌ c "" <> s ≢ ""
one_ne-nil c s e = cons-ne-nil c _ (sym (cons-append c "" s) ∙ e)

item-ne-nil : (tp : TopicPartition) → show_topic_partition tp ≢ ""
unfolding show_topic_partition
item-ne-nil (t, p) = append-ne-nil_of_right_ne-nil t (one_ne-nil "-" (to_string p))

append_partitions-after :
    (tps : TopicPartitions) (ret : String) → ret ≢ "" → append_partitions tps ret ≡ ret <> after tps
unfolding append_partitions show_topic_partition
append_partitions-after [] ret h = sym (append-nil ret)
append_partitions-after (((t, p), u) ∷ tps) ret h =
    ap (λ (s : String). append_partitions tps (ret <> s <> show_topic_partition (t, p)))
      (comma-ne ret h)
    ∙ append_partitions-after tps (ret <> "," <> show_topic_partition (t, p))
        (append-ne-nil_of_right_ne-nil ret (one_ne-nil "," (show_topic_partition (t, p))))
    ∙ append_assoc ret ("," <> show_topic_partition (t, p)) (after tps)
    ∙ ap (λ (s : String). ret <> s) (append_assoc "," (show_topic_partition (t, p)) (after tps))

-- The text of a set of partitions is the texts of the partitions with commas between them.
pub show_topic_partitions_lem : (tps : TopicPartitions) → show_topic_partitions tps ≡ joined tps
unfolding show_topic_partitions
show_topic_partitions_lem [] = refl
show_topic_partitions_lem (((t, p), u) ∷ tps) =
    ap (append_partitions tps) (nil-append _ ∙ nil-append _)
    ∙ append_partitions-after tps (show_topic_partition (t, p)) (item-ne-nil (t, p))
    ∙ sym (joined-after (t, p) u tps)
