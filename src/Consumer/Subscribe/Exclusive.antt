-- ===== src/Consumer/Subscribe/Exclusive.antt =====
-- Which operations change what the user assigned and subscribed to.
use modern_cpp_kafka.Prelude.{
  ◌≡◌, refl, ◌∙◌, true, ◌||◌, Option, none, some, List, [], ◌∷◌, is_empty, text_ord, int_ord,
  pair_ord, pos,
}
use modern_cpp_kafka.Outcome.{RespErr, ok, throw, undefined, out_of_fuel}
use modern_cpp_kafka.Types.{TopicPartitions}
use modern_cpp_kafka.Consumer.{Consumer, Step, ◌andthen◌, PendingEvent, PartitionsRebalanceEvent}
use modern_cpp_kafka.Consumer.Assignment.{Rebalance, on_rebalance, change_assignment}
use modern_cpp_kafka.Consumer.Assignment.Events.{on_rebalance-kept}
use modern_cpp_kafka.Consumer.Assignment.Sets.{change_assignment-contains}
use modern_cpp_kafka.Consumer.Subscribe.{serve, await}

-- What the user assigned and subscribed to.
pub record SameUse (c d : Consumer) : Type 0 where
  pub assigned : d.user_assignment ≡ c.user_assignment
  pub subscribed : d.user_subscription ≡ c.user_subscription

abbrev pub same_use : (c : Consumer) → SameUse c c
same_use c = record { assigned = refl; subscribed = refl }

pub SameUse-trans : (c d e : Consumer) → SameUse c d → SameUse d e → SameUse c e
SameUse-trans c d e h k = record {
  assigned = k.assigned ∙ h.assigned;
  subscribed = k.subscribed ∙ h.subscribed;
}

-- A step that keeps the user's choice, followed by one that does.
pub SameUse-andthen :
    {A B : Type 0} (c : Consumer) (m : Step A) (f : Consumer → A → Step B)
    → SameUse c m.0
    → ((d : Consumer) (a : A) → SameUse d (f d a).0)
    → SameUse c (m andthen f).0
SameUse-andthen c (d, ok a) f h k = SameUse-trans c d (f d a).0 h (k d a)
SameUse-andthen c (d, throw e) f h k = h
SameUse-andthen c (d, undefined) f h k = h
SameUse-andthen c (d, out_of_fuel) f h k = h

pub on_rebalance-SameUse : (r : Rebalance) (c : Consumer) → SameUse c (on_rebalance r c).0
on_rebalance-SameUse r c =
    let k = on_rebalance-kept r c in record { assigned = k.0; subscribed = k.1 }

pub serve-SameUse : (rs : List Rebalance) (c : Consumer) → SameUse c (serve rs c).0
unfolding serve
serve-SameUse [] c = same_use c
serve-SameUse (r ∷ rs) c =
    SameUse-andthen c (on_rebalance r c) (λ d _. serve rs d) (on_rebalance-SameUse r c)
      (λ d _. serve-SameUse rs d)

pub await-SameUse : (rounds : List (List Rebalance)) (c : Consumer) → SameUse c (await rounds c).0
unfolding await
await-SameUse [] c = record { assigned = refl; subscribed = refl }
await-SameUse (round ∷ rounds) c =
    SameUse-andthen c (serve round c) _ (serve-SameUse round c)
      λ d _. go d (await-SameUse rounds d) d.pending_event
  where
    go :
        (d : Consumer)
        → SameUse d (await rounds d).0
        → (p : Option PendingEvent)
        → SameUse d
            (let rest : Step (Unit {0}) = await rounds d in
              let out : Step (Unit {0}) = elim p [ none ↦ (d, ok tt) | some _ ↦ rest ] in out).0
    go d h none = same_use d
    go d h (some p) = h

-- The user's assignment or the user's subscription is empty.
abbrev pub Exclusive : Consumer → Type 0
Exclusive c = (is_empty c.user_assignment || is_empty c.user_subscription) ≡ true

pub Exclusive-SameUse : (c d : Consumer) → SameUse c d → Exclusive c → Exclusive d
Exclusive-SameUse c d s h = rw (s.assigned, s.subscribed) h

pub change_assignment-SameUse :
    (resp : RespErr) (event : PartitionsRebalanceEvent) (tps : TopicPartitions) (c : Consumer)
    → SameUse c (change_assignment resp event tps c).0
change_assignment-SameUse resp event tps c =
    let k = change_assignment-contains resp event tps c ("", pos 0) in
    record { assigned = k.1; subscribed = k.2 }
