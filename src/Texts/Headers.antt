-- ===== src/Texts/Headers.antt =====
-- include/kafka/ConsumerRecord.h: the headers of a record, which librdkafka gives one by one.
use modern_cpp_kafka.Prelude.{
  ℕ, zero, suc, ◌+◌, ◌≡◌, String, true, Option, none, some, List, [], ◌∷◌, if◌then◌else◌, arith,
  length, ap, ◌∙◌, get_elem?,
}
use modern_cpp_kafka.Outcome.{RespErr, no_error, is_error, Outcome, ok, ◌>>=◌}
use modern_cpp_kafka.Texts.{ConstBuffer}

-- `Header::Value()`
abbrev pub null_value : ConstBuffer
null_value = record { is_null = true; bytes = [] }

-- The loop of `headers` from the header `i`: `get_all` is rd_kafka_header_get_all, with `none` where it
-- returns an error.
unfoldable pub headers_loop :
    (ℕ → Option (String × ConstBuffer)) → ℕ → ℕ → Outcome (List (String × ConstBuffer))
headers_loop get_all zero i = Outcome.out_of_fuel
headers_loop get_all (suc fuel) i =
    let rest = headers_loop get_all fuel (suc i) in
    elim (get_all i) [ none ↦ ok [] | some header ↦ rest >>= λ hs. ok (header ∷ hs) ]

-- `headers`: `err` is the answer to rd_kafka_message_headers.
unfoldable pub headers :
    RespErr → (ℕ → Option (String × ConstBuffer)) → ℕ → Outcome (List (String × ConstBuffer))
unfolding headers_loop
headers err get_all fuel = if is_error err then ok [] else headers_loop get_all fuel 0

-- `lastHeaderValue`: `get_last` is rd_kafka_header_get_last.
unfoldable pub last_header_value : RespErr → (String → RespErr × ConstBuffer) → String → ConstBuffer
last_header_value err get_last key =
    if is_error err
    then null_value
    else if is_error (get_last key).0
    then null_value
    else (get_last key).1

-- What is read from the place after `before`.
headers_loop_lem :
    (get_all : ℕ → Option (String × ConstBuffer)) (hs : List (String × ConstBuffer)) (i : ℕ)
    → ((j : ℕ) → get_all (i + j) ≡ get_elem? hs j)
    → headers_loop get_all (suc (length hs)) i ≡ ok hs
unfolding headers_loop
headers_loop_lem get_all [] i h =
    let here : i ≡ i + 0 = omega arith in ground (arith, ap get_all here ∙ h 0)
headers_loop_lem get_all (x ∷ hs) i h =
    let here : i ≡ i + 0 = omega arith in
    let rest = headers_loop_lem get_all hs (suc i) (λ j. later j) in
    ground (arith, ap get_all here ∙ h 0, rest)
  where
    later : (j : ℕ) → get_all (suc i + j) ≡ get_elem? hs j
    later j = let next : suc i + j ≡ i + suc j = omega arith in ap get_all next ∙ h (suc j)

-- Where librdkafka gives the headers of a list by their places, the loop ends and returns that list.
pub headers_lem :
    (get_all : ℕ → Option (String × ConstBuffer)) (hs : List (String × ConstBuffer))
    → ((j : ℕ) → get_all j ≡ get_elem? hs j)
    → headers no_error get_all (suc (length hs)) ≡ ok hs
unfolding headers
headers_lem get_all hs h =
    headers_loop_lem get_all hs 0
      (λ j. (let same : 0 + j ≡ j = omega arith in ap get_all same ∙ h j))
