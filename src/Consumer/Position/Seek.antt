-- ===== src/Consumer/Position/Seek.antt =====
-- `seek` and `pause`: when they return and what they throw.
use modern_cpp_kafka.Prelude.{
  ◌≡◌, ◌≢◌, refl, true, false, none, List, [], ◌∷◌, ◌++◌, All, arith, ◌<◌,
}
use modern_cpp_kafka.Outcome.{RespErr, no_error, invalid_arg, ok, throw, kafka_error, throw_if}
use modern_cpp_kafka.RdKafka.{RkTopicPartition}
use modern_cpp_kafka.Consumer.Position.{
  is_retriable, seek_loop, seek, pause_or_resume_partitions, pause, resume, count_done,
}

abbrev pub Retried : List RespErr → Type 0
Retried = All (λ e. is_retriable e ≡ true)

seek_loop-settled :
    (first : RespErr) (retried later : List RespErr) (e : RespErr)
    → is_retriable first ≡ true
    → Retried retried
    → is_retriable e ≡ false
    → seek_loop first (retried ++ e ∷ later) ≡ e
unfolding seek_loop
seek_loop-settled first [] [] e h r s = ground arith
seek_loop-settled first [] (n ∷ later) e h r s = ground arith
seek_loop-settled first (x ∷ retried) later e h r s =
    rw h (seek_loop-settled x retried later e r.0 r.1 s)

-- Where a topic handle is made and the first answers ask for another try, `seek` ends as the
-- first answer that does not says, whatever follows it.
pub seek-settled :
    (first : RespErr) (retried later : List RespErr) (e : RespErr)
    → is_retriable first ≡ true
    → Retried retried
    → is_retriable e ≡ false
    → seek none first (retried ++ e ∷ later) ≡ throw_if e
unfolding seek
seek-settled first retried later e h r s = rw (seek_loop-settled first retried later e h r s)

seek_loop-IsRetriable :
    (first : RespErr) (answers : List RespErr)
    → is_retriable first ≡ true
    → Retried answers
    → is_retriable (seek_loop first answers) ≡ true
unfolding seek_loop
seek_loop-IsRetriable first [] h r = h
seek_loop-IsRetriable first (x ∷ answers) h r = rw h (seek_loop-IsRetriable x answers r.0 r.1)

retriable_throws : (e : RespErr) → is_retriable e ≡ true → throw_if e ≡ throw (kafka_error e)
retriable_throws e h = ground arith

-- Where a topic handle is made and all answers within the time limit ask for another try, `seek`
-- throws an error that asks for another try.
pub seek-exhausted :
    (first : RespErr) (answers : List RespErr)
    → is_retriable first ≡ true
    → Retried answers
    → (e : RespErr) × (is_retriable e ≡ true) × (seek none first answers ≡ throw (kafka_error e))
unfolding seek
seek-exhausted first answers h r =
    let last = seek_loop-IsRetriable first answers h r in
    (seek_loop first answers, last, retriable_throws (seek_loop first answers) last)

abbrev pub AllFailed : List RkTopicPartition → Type 0
AllFailed = All (λ e. e.err ≢ no_error)

count_done-AllFailed : (es : List RkTopicPartition) → AllFailed es → count_done es ≡ 0
count_done-AllFailed [] h = refl
count_done-AllFailed (e ∷ es) h = let first = h.0 in ground (arith, count_done-AllFailed es h.1)

count_done-one :
    (before after : List RkTopicPartition) (e : RkTopicPartition)
    → e.err ≡ no_error
    → 0 < count_done (before ++ e ∷ after)
count_done-one [] after e h = ground arith
count_done-one (b ∷ before) after e h = ground (arith, count_done-one before after e h)

-- Where librdkafka accepts the call, `pause` throws if all partitions have an error and returns
-- if one has none, and `resume` returns.
pub pause-resume :
    (es : List RkTopicPartition)
    → (AllFailed es
        → pause_or_resume_partitions no_error es pause ≡ throw (kafka_error invalid_arg))
      × ((before after : List RkTopicPartition) (e : RkTopicPartition)
          → es ≡ before ++ e ∷ after
          → e.err ≡ no_error
          → pause_or_resume_partitions no_error es pause ≡ ok tt)
      × (pause_or_resume_partitions no_error es resume ≡ ok tt)
unfolding pause_or_resume_partitions
pause-resume es = (
  (λ failed. rw (count_done-AllFailed es failed)),
  (λ before after e shape done.
      let some_done = count_done-one before after e done in rw shape (ground (arith, some_done))),
  refl,
)
