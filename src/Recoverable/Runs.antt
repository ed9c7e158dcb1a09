-- ===== src/Recoverable/Runs.antt =====
-- What a turn of the recoverable producer's poll thread keeps, with the producers that it replaced.
use modern_cpp_kafka.Prelude.{
  ℕ, suc, ◌≤◌, ◌≡◌, refl, ◌∙◌, Bool, true, false, ◌||◌, if◌then◌else◌, Option, none, some, List, [],
  ◌∷◌, arith, length, ap, sym, subst, Option-cases, inl, inr,
}
use modern_cpp_kafka.Outcome.{RespErr, timed_out, Outcome, ok}
use modern_cpp_kafka.Properties.{PropertiesMap}
use modern_cpp_kafka.Error.{Error, is_fatal}
use modern_cpp_kafka.Producer.{KafkaProducer, poll_callbacks, delivery_callback, close}
use modern_cpp_kafka.Recoverable.{
  KafkaRecoverableProducer, Turn, error_cb, purge, replace, recover, turn,
}

-- An error that a callback is given, and that is fatal.
abbrev pub is_fatal_error : Option Error → Bool
is_fatal_error none = false
is_fatal_error (some e) = is_fatal e

-- Every producer was closed, after a purge.
abbrev pub AllRetired : List KafkaProducer → Type 0
AllRetired [] = Unit {0}
AllRetired (p ∷ ps) = (p.opened ≡ false) × (1 ≤ p.purged) × AllRetired ps

poll_callbacks-kept :
    (reports : List (ℕ × RespErr)) (p : KafkaProducer)
    → ((poll_callbacks reports p).opened ≡ p.opened)
      × ((poll_callbacks reports p).purged ≡ p.purged)
unfolding poll_callbacks
poll_callbacks-kept [] p = (refl, refl)
poll_callbacks-kept ((n, err) ∷ reports) p =
    let (o, q) = poll_callbacks-kept reports (delivery_callback (some n) err p) in (o, q)

close-retired :
    (flushed : RespErr) (reports last_reports : List (ℕ × RespErr)) (p : KafkaProducer)
    → 1 ≤ p.purged
    → ((close flushed reports last_reports p).opened ≡ false)
      × (1 ≤ (close flushed reports last_reports p).purged)
unfolding close
close-retired timed_out reports last_reports p h =
    let q = poll_callbacks reports (record p { opened = false }) in
    let (o, u) = poll_callbacks-kept reports (record p { opened = false }) in
    let (o', u') = poll_callbacks-kept last_reports (record q { purged = suc q.purged }) in
    (o' ∙ o, omega (arith, h, u, u'))
close-retired _ reports last_reports p h =
    let q = poll_callbacks reports (record p { opened = false }) in
    let (o, u) = poll_callbacks-kept reports (record p { opened = false }) in
    let (o', u') = poll_callbacks-kept last_reports q in (o' ∙ o, omega (arith, h, u, u'))

abbrev pub is_left_over : Option Error → Bool
is_left_over none = false
is_left_over (some e) = true

served :
    (o : Option Error) (p : KafkaRecoverableProducer)
    → is_left_over (error_cb o p).fatal_error ≡ (is_left_over p.fatal_error || is_fatal_error o)
served none p = ground arith
served (some e) p = ground arith

-- The poll thread between two turns, with a producer, `n` of which were replaced, and with a fatal
-- error left over or not.
pub record Runs (properties : PropertiesMap) (left_over : Bool) (n : ℕ)
    (p : KafkaRecoverableProducer) : Type 0 where
  pub same_properties : p.properties ≡ properties
  pub current : KafkaProducer
  pub running : p.producer ≡ some current
  pub left : is_left_over p.fatal_error ≡ left_over
  pub replaced : length p.closed ≡ n
  pub retired : AllRetired p.closed

error_cb-kept :
    (o : Option Error) (p : KafkaRecoverableProducer)
    → ((error_cb o p).properties ≡ p.properties)
      × ((error_cb o p).producer ≡ p.producer)
      × ((error_cb o p).closed ≡ p.closed)
error_cb-kept none p = (refl, refl, refl)
error_cb-kept (some e) p = (ground arith, ground arith, ground arith)

-- The producer is replaced.
replace-Runs :
    (create : PropertiesMap → Outcome KafkaProducer) (fresh old : KafkaProducer) (t : Turn)
    (p : KafkaRecoverableProducer)
    → create p.properties ≡ ok fresh
    → AllRetired p.closed
    → p.fatal_error ≡ none
    → (q : KafkaRecoverableProducer) × (replace create t (purge old) p ≡ ok q)
      × Runs p.properties (is_fatal_error t.closing_error) (suc (length p.closed)) q
unfolding replace
replace-Runs create fresh old t p h retired cleared =
    let closed_old = close t.flush t.flush_reports t.last_reports (purge old) in
    let q : KafkaRecoverableProducer = record (error_cb t.closing_error p) {
      producer = some fresh;
      closed = closed_old ∷ p.closed;
    } in
    let (o, u) = close-retired t.flush t.flush_reports t.last_reports (purge old) (omega arith) in
    (
      q,
      ground (arith, h),
      record {
        same_properties = (error_cb-kept t.closing_error p).0;
        current = fresh;
        running = refl;
        left = served t.closing_error p ∙ ground (arith, cleared);
        replaced = refl;
        retired = (o, u, retired);
      },
    )

-- What a turn finds once it has polled.
polled-Runs :
    (properties : PropertiesMap) (left_over : Bool) (n : ℕ) (t : Turn)
    (p : KafkaRecoverableProducer) (next : KafkaProducer)
    → Runs properties left_over n p
    → Runs properties
        (left_over || is_fatal_error t.error)
        n
        (record (error_cb t.error p) { producer = some next })
polled-Runs properties left_over n t p next r =
    let (e, _, c) = error_cb-kept t.error p in
    record {
      same_properties = e ∙ r.same_properties;
      current = next;
      running = refl;
      left = served t.error p ∙ ap (λ b. b || is_fatal_error t.error) r.left;
      replaced = ap length c ∙ r.replaced;
      retired = subst AllRetired (sym c) r.retired;
    }

pub turn-Runs :
    (create : PropertiesMap → Outcome KafkaProducer) (fresh : KafkaProducer)
    (properties : PropertiesMap) (left_over : Bool) (n : ℕ) (t : Turn)
    (p : KafkaRecoverableProducer)
    → create properties ≡ ok fresh
    → t.stop ≡ false
    → Runs properties left_over n p
    → (q : KafkaRecoverableProducer) × (turn create t p ≡ ok q)
      × Runs properties
          (if left_over || is_fatal_error t.error then is_fatal_error t.closing_error else false)
          (if left_over || is_fatal_error t.error then suc n else n)
          q
unfolding turn recover
turn-Runs create fresh properties left_over n t p h no_stop r =
    let met = error_cb t.error p in
    let polled = poll_callbacks t.reports r.current in
    let after_polling = polled-Runs properties left_over n t p polled r in
    elim (Option-cases met.fatal_error) [
      | inl nothing ↦
          let no_error_left : (left_over || is_fatal_error t.error) ≡ false =
            sym after_polling.left ∙ ap is_left_over nothing in
          (
            record met { producer = some polled },
            ground (arith, r.running, nothing),
            rw no_error_left (
                subst (λ b. Runs properties b n (record met { producer = some polled }))
                  no_error_left after_polling),
          )
      | inr (e, there) ↦
          let error_left : (left_over || is_fatal_error t.error) ≡ true =
            sym after_polling.left ∙ ap is_left_over there in
          let kept = error_cb-kept t.error p in
          let (q, done, runs) =
            replace-Runs create fresh polled t (record met { fatal_error = none })
              (ap create (kept.0 ∙ r.same_properties) ∙ h) (subst AllRetired (sym kept.2) r.retired)
              refl in
          (
            q,
            ground (arith, r.running, there, no_stop, done),
            rw error_left (record {
              same_properties = runs.same_properties ∙ kept.0 ∙ r.same_properties;
              current = runs.current;
              running = runs.running;
              left = runs.left;
              replaced = runs.replaced ∙ ap suc (ap length kept.2 ∙ r.replaced);
              retired = runs.retired;
            }),
          )
    ]

-- A turn that is asked to stop replaces nothing.
pub turn_stops :
    (create : PropertiesMap → Outcome KafkaProducer) (properties : PropertiesMap) (left_over : Bool)
    (n : ℕ) (t : Turn) (p : KafkaRecoverableProducer)
    → t.stop ≡ true
    → Runs properties left_over n p
    → (q : KafkaRecoverableProducer) × (turn create t p ≡ ok q)
      × Runs properties (left_over || is_fatal_error t.error) n q
unfolding turn recover
turn_stops create properties left_over n t p stops r =
    let met = error_cb t.error p in
    let polled = poll_callbacks t.reports r.current in
    elim (Option-cases met.fatal_error) [
      | inl nothing ↦ (
        record met { producer = some polled },
        ground (arith, r.running, nothing),
        polled-Runs properties left_over n t p polled r,
      )
      | inr (e, there) ↦
          let purged = polled-Runs properties left_over n t p (purge polled) r in
          (
            record met { producer = some (purge polled); polling = false },
            ground (arith, r.running, there, stops),
            record {
              same_properties = purged.same_properties;
              current = purge polled;
              running = refl;
              left = purged.left;
              replaced = purged.replaced;
              retired = purged.retired;
            },
          )
    ]
