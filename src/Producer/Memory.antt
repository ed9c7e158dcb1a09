-- ===== src/Producer/Memory.antt =====
-- The opaques that keep the delivery callbacks: who deletes them.
use modern_cpp_kafka.Prelude.{
  ◌≡◌, ℕ, ◌+◌, ◌≤◌, Bool, true, false, some, List, [], ◌∷◌, ◌==◌, ltb, arith,
}
use modern_cpp_kafka.Outcome.{RespErr, no_error}
use modern_cpp_kafka.Producer.{
  KafkaProducer, ProducerRecord, SendOption, ActionWhileQueueIsFull, Vu, Delivery, sent, send,
  take_out, delivery_callback, send_arguments,
}

abbrev pub one_if : Bool → ℕ
one_if true = 1
one_if false = 0

-- How often `n` is in the list.
abbrev pub count : ℕ → List ℕ → ℕ
count n [] = 0
count n (m ∷ ms) = one_if (n == m) + count n ms

abbrev pub count_delivered : ℕ → List Delivery → ℕ
count_delivered n [] = 0
count_delivered n (d ∷ ds) = one_if (n == d.opaque) + count_delivered n ds

-- Every opaque that was made is held or deleted, and not both, nor twice; no callback was called more
-- often than its opaque was deleted.
abbrev pub Owned : KafkaProducer → Type 0
Owned p =
    (n : ℕ)
    → (count n p.held + count n p.freed ≡ one_if (ltb n p.next))
      × (count_delivered n p.delivered ≤ count n p.freed)

pub count-take_out :
    (k n : ℕ) (ms : List ℕ)
    → 1 ≤ count n ms
    → count k (take_out n ms) + one_if (k == n) ≡ count k ms
unfolding take_out
count-take_out k n [] h = absurd (omega (arith, h))
count-take_out k n (m ∷ ms) h = ground (arith, h, count-take_out k n ms)

sent-Owned :
    (err : RespErr) (arguments : List Vu) (p : KafkaProducer)
    → Owned p
    → Owned (sent err arguments p).0
sent-Owned no_error arguments p w n = ground (arith, w n)
sent-Owned _ arguments p w n = ground (arith, w n)

send-Owned :
    (produceva : List Vu → RespErr) (r : ProducerRecord) (option : SendOption)
    (action : ActionWhileQueueIsFull) (p : KafkaProducer)
    → Owned p
    → Owned (send produceva r option action p).0
unfolding send
send-Owned produceva r option action p w =
    let arguments = send_arguments p.auto_polling r p.next option action in
    sent-Owned (produceva arguments) arguments p w

delivery_callback-Owned :
    (n : ℕ) (err : RespErr) (p : KafkaProducer)
    → 1 ≤ count n p.held
    → Owned p
    → Owned (delivery_callback (some n) err p)
unfolding delivery_callback
delivery_callback-Owned n err p h w k = ground (arith, count-take_out k n p.held h, w k)

-- The producers that sends and delivery reports lead to: librdkafka reports only what it holds.
pub data Reaches : KafkaProducer → Type 0 where
  start :
      (auto_polling : Bool)
      → Reaches (record {
        opened = true;
        auto_polling = auto_polling;
        next = 0;
        held = [];
        freed = [];
        delivered = [];
        produced = [];
        purged = 0;
      })
  sending :
      (produceva : List Vu → RespErr) (r : ProducerRecord) (option : SendOption)
      (action : ActionWhileQueueIsFull) (p : KafkaProducer)
      → Reaches p
      → Reaches (send produceva r option action p).0
  reporting :
      (n : ℕ) (err : RespErr) (p : KafkaProducer)
      → 1 ≤ count n p.held
      → Reaches p
      → Reaches (delivery_callback (some n) err p)

-- After any sends, taken by librdkafka or not, and any reports on opaques that it holds, every
-- opaque that was made is either held by librdkafka or deleted, once, and its callback was called
-- at most as often as it was deleted.
pub Reaches-Owned : (p : KafkaProducer) → Reaches p → Owned p
Reaches-Owned _ (start auto_polling) = λ n. ground arith
Reaches-Owned _ (sending produceva r option action p h) =
    send-Owned produceva r option action p (Reaches-Owned p h)
Reaches-Owned _ (reporting n err p m h) = delivery_callback-Owned n err p m (Reaches-Owned p h)

-- After any sends, taken by librdkafka or not, and any reports on opaques that it holds, once it
-- holds none, every opaque that was made has been deleted exactly once, and no other.
pub all_reported :
    (p : KafkaProducer)
    → Reaches p
    → p.held ≡ []
    → (n : ℕ) → count n p.freed ≡ one_if (ltb n p.next)
all_reported p h e n = ground (arith, Reaches-Owned p h n, e)
