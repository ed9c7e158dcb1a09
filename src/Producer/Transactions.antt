-- ===== src/Producer/Transactions.antt =====
-- The transactions' calls of include/kafka/KafkaProducer.h.
use modern_cpp_kafka.Prelude.{◌≡◌, ℕ, ◌+◌, ◌*◌, ◌%◌, ◌≤◌, ℤ, pos, arith}
use modern_cpp_kafka.Outcome.{RespErr, Outcome, throw_if}
use modern_cpp_kafka.Types.{TopicPartitionOffsets}
use modern_cpp_kafka.RdKafka.{RkList, create_of_offsets}
use modern_cpp_kafka.Client.{static_cast_int}

-- The calls of the transactions: the timeout that librdkafka gets, which is cast to `int`, and how
-- the call ends. `resp` is the code of librdkafka's error.
unfoldable pub init_transactions : RespErr → ℤ → ℤ × Outcome (Unit {0})
init_transactions resp timeout = (static_cast_int timeout, throw_if resp)

unfoldable pub begin_transaction : RespErr → Outcome (Unit {0})
begin_transaction resp = throw_if resp

unfoldable pub commit_transaction : RespErr → ℤ → ℤ × Outcome (Unit {0})
commit_transaction resp timeout = (static_cast_int timeout, throw_if resp)

unfoldable pub abort_transaction : RespErr → ℤ → ℤ × Outcome (Unit {0})
abort_transaction resp timeout = (static_cast_int timeout, throw_if resp)

-- With the list of offsets that librdkafka gets.
unfoldable pub send_offsets_to_transaction :
    RespErr → TopicPartitionOffsets → ℤ → RkList × ℤ × Outcome (Unit {0})
send_offsets_to_transaction resp tpos timeout =
    (create_of_offsets tpos, static_cast_int timeout, throw_if resp)

mod_wraps : (k n : ℕ) → n ≤ 2147483647 → (4294967296 * k + n) % 4294967296 ≡ n
mod_wraps k n h = omega (arith, h)

cast_wraps : (k n : ℕ) → n ≤ 2147483647 → static_cast_int (pos (4294967296 * k + n)) ≡ pos n
unfolding static_cast_int
cast_wraps k n h = ground (arith, mod_wraps k n h, h)

-- For n of at most 2^31 - 1, a timeout of 2^32 * k + n milliseconds reaches librdkafka as n, in
-- starting, committing and aborting a transaction.
pub transaction_timeouts :
    (resp : RespErr) (k n : ℕ)
    → n ≤ 2147483647
    → ((init_transactions resp (pos (4294967296 * k + n))).0 ≡ pos n)
      × ((commit_transaction resp (pos (4294967296 * k + n))).0 ≡ pos n)
      × ((abort_transaction resp (pos (4294967296 * k + n))).0 ≡ pos n)
unfolding init_transactions commit_transaction abort_transaction
transaction_timeouts resp k n h = (cast_wraps k n h, cast_wraps k n h, cast_wraps k n h)
