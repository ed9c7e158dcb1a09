-- ===== src/Consumer/Subscribe/Waiting.antt =====
-- The waiting loop of `subscribe` and `unsubscribe`.
use modern_cpp_kafka.Prelude.{
  ◌≡◌, refl, ◌∙◌, ap, Bool, true, false, ◌||◌, Bool-cases, inl, inr, Option, none, some, List, [],
  ◌∷◌, All, arith, text_ord,
}
use modern_cpp_kafka.Outcome.{
  RespErr, no_error, timed_out, assign_partitions, revoke_partitions, ok, throw, kafka_error,
  Outcome,
}
use modern_cpp_kafka.Consumer.{
  Consumer, PendingEvent, partitions_assignment, partitions_revocation, andthen-ok,
}
use modern_cpp_kafka.Consumer.Assignment.{Rebalance, on_rebalance}
use modern_cpp_kafka.Consumer.Subscribe.{serve, await}

-- librdkafka accepts each assignment that the events ask of it.
abbrev pub Accepted : List Rebalance → Type 0
Accepted = All (λ r. r.resp ≡ no_error)

abbrev pub AllAccepted : List (List Rebalance) → Type 0
AllAccepted = All Accepted

abbrev pub answers : PendingEvent → RespErr → Bool
answers partitions_assignment assign_partitions = true
answers partitions_revocation revoke_partitions = true
answers _ _ = false

abbrev pub answered : PendingEvent → List Rebalance → Bool
answered p [] = false
answered p (r ∷ rs) = answers p r.err || answered p rs

-- Whether some round serves the awaited event.
abbrev pub arrives : PendingEvent → List (List Rebalance) → Bool
arrives p [] = false
arrives p (round ∷ rounds) = answered p round || arrives p rounds

abbrev after : Bool → PendingEvent → Option PendingEvent
after true p = none
after false p = some p

on_rebalance-ok : (r : Rebalance) (c : Consumer) → r.resp ≡ no_error → (on_rebalance r c).1 ≡ ok tt
unfolding on_rebalance
on_rebalance-ok r c accepted = ground arith

on_rebalance-pending :
    (r : Rebalance) (c : Consumer) (p : PendingEvent)
    → r.resp ≡ no_error
    → c.pending_event ≡ some p
    → (on_rebalance r c).0.pending_event ≡ after (answers p r.err) p
unfolding on_rebalance
on_rebalance-pending r c partitions_assignment accepted e = ground arith
on_rebalance-pending r c partitions_revocation accepted e = ground arith

on_rebalance-idle :
    (r : Rebalance) (c : Consumer)
    → r.resp ≡ no_error
    → c.pending_event ≡ none
    → (on_rebalance r c).0.pending_event ≡ none
unfolding on_rebalance
on_rebalance-idle r c accepted e = ground arith

serve-ok : (rs : List Rebalance) (c : Consumer) → Accepted rs → (serve rs c).1 ≡ ok tt
unfolding serve
serve-ok [] c h = refl
serve-ok (r ∷ rs) c h =
    rw (andthen-ok (on_rebalance r c) (λ d _. serve rs d) (on_rebalance-ok r c h.0))
      (serve-ok rs (on_rebalance r c).0 h.1)

serve-idle :
    (rs : List Rebalance) (c : Consumer)
    → Accepted rs
    → c.pending_event ≡ none
    → (serve rs c).0.pending_event ≡ none
unfolding serve
serve-idle [] c h e = e
serve-idle (r ∷ rs) c h e =
    rw (andthen-ok (on_rebalance r c) (λ d _. serve rs d) (on_rebalance-ok r c h.0))
      (serve-idle rs (on_rebalance r c).0 h.1 (on_rebalance-idle r c h.0 e))

serve-pending :
    (rs : List Rebalance) (c : Consumer) (p : PendingEvent)
    → Accepted rs
    → c.pending_event ≡ some p
    → (serve rs c).0.pending_event ≡ after (answered p rs) p
unfolding serve
serve-pending [] c p h e = e
serve-pending (r ∷ rs) c p h e =
    let next = on_rebalance-pending r c p h.0 e in
    rw (andthen-ok (on_rebalance r c) (λ d _. serve rs d) (on_rebalance-ok r c h.0))
      (elim (Bool-cases (answers p r.err)) [
        | inl hit ↦ rw hit (serve-idle rs (on_rebalance r c).0 h.1 (next ∙ ap (λ b. after b p) hit))
        | inr miss ↦
            rw miss (serve-pending rs (on_rebalance r c).0 p h.1 (next ∙ ap (λ b. after b p) miss))
      ])

abbrev pub verdict : Bool → Outcome (Unit {0})
verdict true = ok tt
verdict false = throw (kafka_error timed_out)

-- Where an event is pending and librdkafka accepts every assignment that the events ask of it,
-- the waiting loop returns if the pending event arrives in time and throws a time-out if not, and
-- in both cases no event stays pending.
pub await_correct :
    (rounds : List (List Rebalance)) (c : Consumer) (p : PendingEvent)
    → AllAccepted rounds
    → c.pending_event ≡ some p
    → ((await rounds c).1 ≡ verdict (arrives p rounds)) × ((await rounds c).0.pending_event ≡ none)
unfolding await
await_correct [] c p h e = (refl, refl)
await_correct (round ∷ rounds) c p h e =
    let next = serve-pending round c p h.0 e in
    rw (andthen-ok (serve round c) _ (serve-ok round c h.0)) (elim (Bool-cases (answered p round)) [
      | inl hit ↦ let done = next ∙ ap (λ b. after b p) hit in rw (hit, done) (refl, done)
      | inr miss ↦
          let waits = next ∙ ap (λ b. after b p) miss in
          rw (miss, waits) (await_correct rounds (serve round c).0 p h.1 waits)
    ])
