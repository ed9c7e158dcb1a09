-- ===== src/Texts.antt =====
-- The texts that are made of the values: include/kafka/Types.h, Error.h, Header.h, Timestamp.h,
-- ConsumerRecord.h, ProducerCommon.h, BrokerMetadata.h and KafkaException.h. Local time is a parameter.
pub mod Partitions
pub mod Records
pub mod Metadata
pub mod Headers
pub mod Produced
use Prim.Native.String.{◌++◌ as append}
use modern_cpp_kafka.Prelude.{
  ℕ, zero, suc, ◌+◌, ◌-◌, ◌/◌, ◌%◌, ◌≤◌, String, ℤ, pos, negsuc, Bool, true, false, ◌&&◌, Option,
  none, some, List, [], ◌∷◌, if◌then◌else◌, leb, ltb, ◌==◌,
}
use text.Mathlib.Text.{◌==◌ as str_eq}
use modern_cpp_kafka.Outcome.{RespErr}
use modern_cpp_kafka.StdText.{to_string}
use modern_cpp_kafka.Error.{Error, value, is_fatal, is_retriable, transaction_requires_abort}

infixr 64 ◌<>◌
abbrev pub ◌<>◌ : String → String → String
s <> t = append s t

-- `ret.append(ret.empty() ? "" : ",").append(...)`
abbrev pub comma : String → String
comma ret = if str_eq ret "" then "" else ","

-- The character of `s` at a place, as a text.
unfoldable pub char_at : ℕ → String → String
char_at i String.[] = ""
char_at zero (String.◌∷◌ c s) = String.◌∷◌ c ""
char_at (suc i) (String.◌∷◌ c s) = char_at i s

-- The characters from 32 to 126, for which `std::isprint` holds.
abbrev pub printable : String
printable =
    " !\"#$%&'()*+,-./0123456789:;<=>?@ABCDEFGHIJKLMNOPQRSTUVWXYZ[\\]^_`abcdefghijklmnopqrstuvwxyz{|}~"

-- A memory block, by its bytes and whether its address is null.
pub record ConstBuffer : Type 0 where
  pub is_null : Bool
  pub bytes : List ℕ

-- A byte in hexadecimal, of two places.
unfoldable pub hex_byte : ℕ → String
unfolding char_at
hex_byte c = char_at (c / 16) "0123456789abcdef" <> char_at (c % 16) "0123456789abcdef"

unfoldable pub print_char : ℕ → String
unfolding hex_byte
print_char c =
    if leb 32 c && leb c 126 then char_at (c - 32) printable else "[0x" <> hex_byte c <> "]"

unfoldable pub print_bytes : List ℕ → String
unfolding print_char
print_bytes [] = ""
print_bytes (c ∷ bytes) = print_char c <> print_bytes bytes

-- ConstBuffer::toString
unfoldable pub show_buffer : ConstBuffer → String
unfolding print_bytes
show_buffer b = elim b.bytes [
  | [] ↦ if b.is_null then "[null]" else "[empty]"
  | c ∷ bytes ↦ print_bytes (c ∷ bytes)
]

-- Error::toString: `err2str` is rd_kafka_err2str, and `code` the number of a code.
unfoldable pub show_error : (RespErr → String) → (RespErr → ℤ) → Error → String
show_error err2str code e =
    err2str (value e)
    <> " ["
    <> to_string (code (value e))
    <> "]"
    <> (if is_fatal e then " fatal" else "")
    <> (if transaction_requires_abort e then " | transaction-requires-abort" else "")
    <> (elim (is_retriable e) [
      | none ↦ ""
      | some r ↦ " | " <> (if r then "retriable" else "non-retriable")
    ])
    <> (elim e.detail [ none ↦ "" | some message ↦ " | " <> message ])

-- KafkaException::what: `local_time` is the text of the time of the exception.
unfoldable pub what : (RespErr → String) → (RespErr → ℤ) → String → String → ℕ → Error → String
unfolding show_error
what err2str code local_time filename lineno e =
    local_time
    <> ": "
    <> show_error err2str code e
    <> " ("
    <> filename
    <> ":"
    <> to_string (pos lineno)
    <> ")"
