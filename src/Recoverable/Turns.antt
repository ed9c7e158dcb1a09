-- ===== src/Recoverable/Turns.antt =====
-- The poll thread of the recoverable producer.
use modern_cpp_kafka.Prelude.{◌≡◌, refl, true, false, Option, none, some, ◌∷◌, arith}
use modern_cpp_kafka.Outcome.{Outcome, ok}
use modern_cpp_kafka.Properties.{PropertiesMap}
use modern_cpp_kafka.Error.{Error, is_fatal, copy}
use modern_cpp_kafka.Producer.{KafkaProducer, poll_callbacks, close}
use modern_cpp_kafka.Recoverable.{
  KafkaRecoverableProducer, Turn, error_cb, purge, replace, recover, turn,
}

-- No error that a callback is given is fatal.
abbrev pub NotFatal : Option Error → Type 0
NotFatal none = Unit
NotFatal (some e) = is_fatal e ≡ false

error_cb-NotFatal :
    (o : Option Error) (p : KafkaRecoverableProducer) → NotFatal o → error_cb o p ≡ p
error_cb-NotFatal none p h = refl
error_cb-NotFatal (some e) p h = ground (arith, h)

-- A turn that serves a fatal error, is not asked to stop, can make a producer, and meets no fatal
-- error in closing, closes the old producer after a purge, goes on with the one made of the same
-- properties, and leaves no error.
turn_recovers :
    (create : PropertiesMap → Outcome KafkaProducer) (t : Turn) (p : KafkaRecoverableProducer)
    (old fresh : KafkaProducer) (e : Error)
    → p.producer ≡ some old
    → t.error ≡ some e
    → is_fatal e ≡ true
    → t.stop ≡ false
    → create p.properties ≡ ok fresh
    → NotFatal t.closing_error
    → turn create t p
      ≡ ok (record p {
        fatal_error = none;
        producer = some fresh;
        closed =
            close t.flush t.flush_reports t.last_reports (purge (poll_callbacks t.reports old))
            ∷ p.closed;
      })
unfolding turn recover replace
turn_recovers create t p old fresh e ho he hf hs hc hn = ground (
  arith,
  ho,
  he,
  hf,
  hs,
  hc,
  error_cb-NotFatal t.closing_error (record p { fatal_error = none }) hn,
)

-- A turn that meets no fatal error, where none is left over, only polls.
pub turn_polls :
    (create : PropertiesMap → Outcome KafkaProducer) (t : Turn) (p : KafkaRecoverableProducer)
    (old : KafkaProducer)
    → p.producer ≡ some old
    → p.fatal_error ≡ none
    → NotFatal t.error
    → turn create t p ≡ ok (record p { producer = some (poll_callbacks t.reports old) })
unfolding turn recover
turn_polls create t p old ho hf hn = ground (arith, ho, hf, error_cb-NotFatal t.error p hn)

-- A turn that serves a fatal error, is not asked to stop, can make a producer, and serves another
-- fatal error in closing, goes on with the new producer and with that error recorded.
pub turn_blames_fresh :
    (create : PropertiesMap → Outcome KafkaProducer) (t : Turn) (p : KafkaRecoverableProducer)
    (old fresh : KafkaProducer) (e late : Error)
    → p.producer ≡ some old
    → t.error ≡ some e
    → is_fatal e ≡ true
    → t.stop ≡ false
    → create p.properties ≡ ok fresh
    → t.closing_error ≡ some late
    → is_fatal late ≡ true
    → (q : KafkaRecoverableProducer) × (turn create t p ≡ ok q)
      × (q.producer ≡ some fresh)
      × (q.fatal_error ≡ some (copy late))
unfolding turn recover replace
turn_blames_fresh create t p old fresh e late ho he hf hs hc hl hg = (
  record p {
    fatal_error = some (copy late);
    producer = some fresh;
    closed =
        close t.flush t.flush_reports t.last_reports (purge (poll_callbacks t.reports old))
        ∷ p.closed;
  },
  ground (arith, ho, he, hf, hs, hc, hl, hg),
  refl,
  refl,
)

-- After it, a turn that meets no error at all purges that producer and replaces it.
pub turn_replaces_fresh :
    (create : PropertiesMap → Outcome KafkaProducer) (t : Turn) (q : KafkaRecoverableProducer)
    (fresh next : KafkaProducer) (late : Error)
    → q.producer ≡ some fresh
    → q.fatal_error ≡ some late
    → t.error ≡ none
    → t.stop ≡ false
    → create q.properties ≡ ok next
    → NotFatal t.closing_error
    → turn create t q
      ≡ ok (record q {
        fatal_error = none;
        producer = some next;
        closed =
            close t.flush t.flush_reports t.last_reports (purge (poll_callbacks t.reports fresh))
            ∷ q.closed;
      })
unfolding turn recover replace
turn_replaces_fresh create t q fresh next late ho hl he hs hc hn = ground (
  arith,
  ho,
  hl,
  he,
  hs,
  hc,
  error_cb-NotFatal t.closing_error (record q { fatal_error = none }) hn,
)
