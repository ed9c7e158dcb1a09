-- ===== src/Recoverable.antt =====
-- include/kafka/addons/KafkaRecoverableProducer.h: a producer that is made again after a fatal error.
-- The poll thread's loop is a function of what each turn meets. The operations, which take the mutex
-- and forward to the producer, stand between the turns: Operations has them.
pub mod Turns
pub mod Runs
pub mod Replaced
pub mod Operations
mod Tests
use modern_cpp_kafka.Prelude.{
  ℕ, suc, ℤ, Bool, true, false, Option, none, some, List, [], ◌∷◌, if◌then◌else◌,
}
use modern_cpp_kafka.Outcome.{RespErr, Outcome, ok, throw, ◌>>=◌}
use modern_cpp_kafka.StdText.{to_string}
use modern_cpp_kafka.Properties.{PropertiesMap, str, object, error_callback, put}
use modern_cpp_kafka.Error.{Error, is_fatal, copy}
use modern_cpp_kafka.Producer.{KafkaProducer, poll_callbacks, close}

pub record KafkaRecoverableProducer : Type 0 where
  pub properties : PropertiesMap
  pub fatal_error : Option Error
  -- the poll thread's loop has not ended
  pub polling : Bool
  pub producer : Option KafkaProducer
  -- the producers that were replaced or closed, the newest first
  pub closed : List KafkaProducer

-- The error callback that the constructor puts into the properties.
abbrev pub error_cb : Option Error → KafkaRecoverableProducer → KafkaRecoverableProducer
error_cb none p = p
error_cb (some e) p = if is_fatal e then record p { fatal_error = some (copy e) } else p

-- The constructor. `create` makes a KafkaProducer of the properties.
unfoldable pub construct :
    (PropertiesMap → Outcome KafkaProducer) → PropertiesMap → Outcome KafkaRecoverableProducer
construct create p = put "enable.manual.events.poll" (str "true") p >>= λ q.
    put "error_cb" (object error_callback 0) q >>= λ r. create r >>= λ producer. ok (record {
      properties = r;
      fatal_error = none;
      polling = true;
      producer = some producer;
      closed = [];
    })

-- What a turn of the loop meets: the delivery reports and the error that polling serves, whether the
-- thread is asked to stop by the time that it has purged, or by the end of a turn that does not purge, and what closing the producer meets.
pub record Turn : Type 0 where
  pub reports : List (ℕ × RespErr)
  pub error : Option Error
  pub stop : Bool
  pub flush : RespErr
  pub flush_reports : List (ℕ × RespErr)
  pub last_reports : List (ℕ × RespErr)
  pub closing_error : Option Error

abbrev pub purge : KafkaProducer → KafkaProducer
purge p = record p { purged = suc p.purged }

-- `_producer->close(); _producer = createProducer();`
unfoldable pub replace :
    (PropertiesMap → Outcome KafkaProducer)
    → Turn
    → KafkaProducer
    → KafkaRecoverableProducer
    → Outcome KafkaRecoverableProducer
replace create t old p = create p.properties >>= λ fresh. ok (record (error_cb t.closing_error p) {
  producer = some fresh;
  closed = close t.flush t.flush_reports t.last_reports old ∷ p.closed;
})

-- After the events are polled.
unfoldable pub recover :
    (PropertiesMap → Outcome KafkaProducer)
    → Turn
    → KafkaProducer
    → KafkaRecoverableProducer
    → Outcome KafkaRecoverableProducer
unfolding replace
recover create t polled p =
    let replaced = replace create t (purge polled) (record p { fatal_error = none }) in
    elim p.fatal_error [
      | none ↦ ok (record p { producer = some polled })
      | some e ↦
          if t.stop
          then ok (record p { producer = some (purge polled); polling = false })
          else replaced
    ]

-- One turn of the loop.
unfoldable pub turn :
    (PropertiesMap → Outcome KafkaProducer)
    → Turn
    → KafkaRecoverableProducer
    → Outcome KafkaRecoverableProducer
unfolding recover
turn create t p = elim p.producer [
  | none ↦ Outcome.undefined
  | some producer ↦ recover create t (poll_callbacks t.reports producer) (error_cb t.error p)
]

-- The loop, for as many turns as are given or up to the one by whose end the thread is asked to stop.
unfoldable pub turns :
    (PropertiesMap → Outcome KafkaProducer)
    → List Turn
    → KafkaRecoverableProducer
    → Outcome KafkaRecoverableProducer
unfolding turn
turns create [] p = ok p
turns create (t ∷ ts) p = turn create t p >>= λ q. elim t.stop [
  | true ↦ ok (record q { polling = false })
  | false ↦ turns create ts q
]

-- `close`, once the poll thread has ended.
unfoldable pub close_recoverable :
    RespErr
    → List (ℕ × RespErr)
    → List (ℕ × RespErr)
    → KafkaRecoverableProducer
    → KafkaRecoverableProducer
close_recoverable flush reports last_reports p = elim p.producer [
  | none ↦ p
  | some producer ↦ record p {
    polling = false;
    producer = none;
    closed = close flush reports last_reports producer ∷ p.closed;
  }
]
