-- ===== src/Error.antt =====
-- include/kafka/Error.h: the unified error type, with rich info of librdkafka's or with a code only.
use modern_cpp_kafka.Prelude.{◌≡◌, refl, String, Bool, false, Option, none, some}
use modern_cpp_kafka.Outcome.{RespErr, no_error}

-- rd_kafka_error_t
pub record RkError : Type 0 where
  pub code : RespErr
  pub is_fatal : Bool
  pub is_retriable : Bool
  pub txn_requires_abort : Bool
  pub string : String

pub record Error : Type 0 where
  pub rk_error : Option RkError
  pub resp_err : RespErr
  pub detail : Option String
  pub fatal : Bool
  pub txn_requires_abort : Bool
  pub retriable : Option Bool

-- The constructors.
abbrev pub of_rk : Option RkError → Error
of_rk e = record {
  rk_error = e;
  resp_err = no_error;
  detail = none;
  fatal = false;
  txn_requires_abort = false;
  retriable = none;
}

abbrev pub with_message : RespErr → String → Bool → Error
with_message e message fatal = record {
  rk_error = none;
  resp_err = e;
  detail = some message;
  fatal = fatal;
  txn_requires_abort = false;
  retriable = none;
}

abbrev pub of_code : RespErr → Error
of_code e = record {
  rk_error = none;
  resp_err = e;
  detail = none;
  fatal = false;
  txn_requires_abort = false;
  retriable = none;
}

abbrev pub value : Error → RespErr
value e = elim e.rk_error [ none ↦ e.resp_err | some r ↦ r.code ]

-- `err2str` is rd_kafka_err2str.
abbrev pub message : (RespErr → String) → Error → String
message err2str e = elim e.detail [
  | some s ↦ s
  | none ↦ elim e.rk_error [ none ↦ err2str e.resp_err | some r ↦ r.string ]
]

abbrev pub is_fatal : Error → Bool
is_fatal e = elim e.rk_error [ none ↦ e.fatal | some r ↦ r.is_fatal ]

abbrev pub is_retriable : Error → Option Bool
is_retriable e = elim e.rk_error [ none ↦ e.retriable | some r ↦ some r.is_retriable ]

-- The flag that `copy` keeps is not read here.
abbrev pub transaction_requires_abort : Error → Bool
transaction_requires_abort e = elim e.rk_error [ none ↦ false | some r ↦ r.txn_requires_abort ]

-- The copy constructor and the assignment.
unfoldable pub copy : Error → Error
copy e = record {
  rk_error = none;
  resp_err = value e;
  detail = e.detail;
  fatal = is_fatal e;
  txn_requires_abort = transaction_requires_abort e;
  retriable = is_retriable e;
}

-- A copy has the code, the fatal mark and the retriable mark of the original.
pub copy-value :
    (e : Error)
    → (value (copy e) ≡ value e)
      × (is_fatal (copy e) ≡ is_fatal e)
      × (is_retriable (copy e) ≡ is_retriable e)
unfolding copy
copy-value e = (refl, refl, refl)

-- No copy says that the transaction is to be aborted, whatever the original says, although it holds
-- the mark.
pub copy-transaction_requires_abort :
    (e : Error)
    → (transaction_requires_abort (copy e) ≡ false)
      × ((copy e).txn_requires_abort ≡ transaction_requires_abort e)
unfolding copy
copy-transaction_requires_abort e = (refl, refl)
