-- ===== src/Outcome.antt =====
-- How a C++ call ends (the exceptions of include/kafka/KafkaException.h and the standard library):
-- with a value, an exception, undefined behaviour, or with the model's fuel used up.
use modern_cpp_kafka.Prelude.{ℤ, ◌≡◌, refl, Bool, true, false, Option, none, some, if◌then◌else◌}

-- The codes of `rd_kafka_resp_err_t` that the program tests, and any other by its value.
pub data RespErr : Type 0 where
  no_error fail timed_out invalid_arg no_offset state outdated : RespErr
  assign_partitions revoke_partitions partition_eof fatal : RespErr
  other : ℤ → RespErr

-- Conversion of a code to `bool`: all but `no_error` are errors.
abbrev pub is_error : RespErr → Bool
is_error no_error = false
is_error _ = true

-- A KafkaException carries an Error; the model keeps its code.
pub data Exception : Type 0 where
  kafka_error : RespErr → Exception
  out_of_range bad_cast runtime_error invalid_argument : Exception

pub data Outcome {ℓ} (A : Type ℓ) : Type ℓ where
  ok : A → Outcome A
  throw : Exception → Outcome A
  undefined out_of_fuel : Outcome A

infixl 5 ◌>>=◌ ◌>>◌
abbrev pub ◌>>=◌ {ℓ κ} : {A : Type ℓ} {B : Type κ} → Outcome A → (A → Outcome B) → Outcome B
ok a >>= f = f a
throw e >>= f = throw e
undefined >>= f = undefined
out_of_fuel >>= f = out_of_fuel

abbrev pub ◌>>◌ {ℓ} : {B : Type ℓ} → Outcome (Unit {0}) → Outcome B → Outcome B
m >> k = m >>= λ _. k

-- KAFKA_THROW_IF_WITH_ERROR
abbrev pub throw_if : RespErr → Outcome (Unit {0})
throw_if no_error = ok tt
throw_if e = throw (kafka_error e)

-- `o` or the failure that its absence is.
abbrev pub or_else {ℓ} : {A : Type ℓ} → Option A → Outcome A → Outcome A
or_else none e = e
or_else (some a) e = ok a

-- The call ends normally, in a value that satisfies `P`.
pub data Yields {ℓ κ} {A : Type ℓ} (P : A → Type κ) : Outcome A → Type (ℓ ⊔ κ) where
  yields : {a : A} → P a → Yields P (ok a)

module _ {ℓ κ} {A : Type ℓ} {P : A → Type κ} where
  pub Yields-bind {ℓ' κ'} :
      {B : Type ℓ'} {Q : B → Type κ'} {m : Outcome A} {f : A → Outcome B}
      → Yields P m
      → ((a : A) → P a → Yields Q (f a))
      → Yields Q (m >>= f)
  Yields-bind (yields p) next = next _ p

  pub Yields-weaken {κ'} :
      {Q : A → Type κ'} {m : Outcome A} → ((a : A) → P a → Q a) → Yields P m → Yields Q m
  Yields-weaken weaken (yields p) = yields (weaken _ p)

  -- Both ways of a test.
  pub Yields-if :
      (b : Bool) {x y : Outcome A}
      → (b ≡ true → Yields P x)
      → (b ≡ false → Yields P y)
      → Yields P (if b then x else y)
  Yields-if true then_case else_case = then_case refl
  Yields-if false then_case else_case = else_case refl

  pub Yields-value : {m : Outcome A} → Yields P m → (a : A) × (m ≡ ok a) × P a
  Yields-value (yields p) = (_, refl, p)

-- The call ends, in a value or in an exception.
abbrev pub Settles {ℓ} : {A : Type ℓ} → Outcome A → Type 0
Settles (ok a) = Unit
Settles (throw e) = Unit
Settles undefined = ⊥
Settles out_of_fuel = ⊥

pub Settles-bind {ℓ κ} :
    {A : Type ℓ} {B : Type κ} (m : Outcome A) (f : A → Outcome B)
    → Settles m
    → ((a : A) → Settles (f a))
    → Settles (m >>= f)
Settles-bind (ok a) f h k = k a
Settles-bind (throw e) f h k = tt
Settles-bind undefined f h k = h
Settles-bind out_of_fuel f h k = h

pub Settles-if {ℓ} :
    {A : Type ℓ} (b : Bool) (x y : Outcome A) → Settles x → Settles y → Settles (if b then x else y)
Settles-if true x y h k = h
Settles-if false x y h k = k

pub Settles-option {ℓ κ} :
    {A : Type ℓ} {B : Type κ} (o : Option A) (x : Outcome B) (f : A → Outcome B)
    → Settles x
    → ((a : A) → Settles (f a))
    → Settles (elim o [ none ↦ x | some a ↦ f a ])
Settles-option none x f h k = h
Settles-option (some a) x f h k = k a

-- What a bind that ends in a value went through.
pub bind-eq-ok {ℓ κ} :
    {A : Type ℓ} {B : Type κ} (m : Outcome A) (f : A → Outcome B) {b : B}
    → (m >>= f) ≡ ok b
    → (a : A) × (m ≡ ok a) × (f a ≡ ok b)
bind-eq-ok (ok a) f h = (a, refl, h)
bind-eq-ok (throw e) f h = cc
bind-eq-ok undefined f h = cc
bind-eq-ok out_of_fuel f h = cc

pub if-eq-ok {ℓ} :
    {A : Type ℓ} (b : Bool) (x : Outcome A) (e : Exception) {a : A}
    → (if b then throw e else x) ≡ ok a
    → (b ≡ false) × (x ≡ ok a)
if-eq-ok true x e h = cc
if-eq-ok false x e h = (refl, h)
