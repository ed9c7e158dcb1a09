-- ===== src/Producer/Send.antt =====
-- The arguments of `send` of the producer.
use modern_cpp_kafka.Prelude.{◌≡◌, refl, ap, ℕ, suc, ◌+◌, Bool, List, [], ◌∷◌, arith, length}
use modern_cpp_kafka.Producer.{
  ProducerRecord, Header, SendOption, ActionWhileQueueIsFull, send_arguments, header_vus,
}

header_vus-length : (hs : List Header) → length (header_vus hs) ≡ length hs
unfolding header_vus
header_vus-length [] = refl
header_vus-length (h ∷ hs) = ap suc (header_vus-length hs)

-- The arguments fill the vector that is made for them: six, and one for each header.
pub send_arguments-length :
    (auto_polling : Bool) (r : ProducerRecord) (opaque : ℕ) (option : SendOption)
    (action : ActionWhileQueueIsFull)
    → length (send_arguments auto_polling r opaque option action) ≡ 6 + length r.headers
unfolding send_arguments
send_arguments-length auto_polling r opaque option action =
    ground (arith, header_vus-length r.headers)
