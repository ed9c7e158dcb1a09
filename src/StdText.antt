-- ===== src/StdText.antt =====
-- The standard library's conversions between text and integers that the program uses: `std::stoi`,
-- `std::stoull` and `std::to_string`.
pub mod RoundTrip
pub mod Settles
use Prim.Native.Char.{Char, code}
use Prim.Native.String.{◌++◌ as append}
use modern_cpp_kafka.Prelude.{
  ℕ, zero, suc, ◌+◌, ◌-◌, ◌*◌, ◌/◌, ◌%◌, ◌^◌, String, ℤ, pos, negsuc, Bool, true, false, ◌&&◌, ◌||◌,
  Option, none, some, if◌then◌else◌, leb, ltb, ◌==◌,
}
use modern_cpp_kafka.Outcome.{Outcome, ok, throw, invalid_argument, out_of_range}

-- isspace
abbrev pub is_space : Char → Bool
is_space c = (leb 9 (code c) && leb (code c) 13) || (code c == 32)

abbrev pub is_digit : Char → Bool
is_digit c = leb 48 (code c) && leb (code c) 57

-- The number that the digits at the front make after `acc`.
unfoldable pub read_digits : ℕ → String → ℕ
read_digits acc String.[] = acc
read_digits acc (String.◌∷◌ c s) =
    let rest = read_digits (acc * 10 + (code c - 48)) s in if is_digit c then rest else acc

unfoldable pub read_number : String → Option ℕ
unfolding read_digits
read_number String.[] = none
read_number (String.◌∷◌ c s) = if is_digit c then some (read_digits (code c - 48) s) else none

-- The value within the range of `int`.
abbrev pub to_int : Bool → Option ℕ → Outcome ℤ
to_int negative none = throw invalid_argument
to_int true (some n) =
    if n == 0
    then ok (pos 0)
    else if leb n (2 ^ 31)
    then ok (negsuc (n - 1))
    else throw out_of_range
to_int false (some n) = if ltb n (2 ^ 31) then ok (pos n) else throw out_of_range

unfoldable pub read_signed : String → Outcome ℤ
unfolding read_number
read_signed String.[] = throw invalid_argument
read_signed (String.◌∷◌ c s) =
    if code c == 45
    then to_int true (read_number s)
    else if code c == 43
    then to_int false (read_number s)
    else to_int false (read_number (String.◌∷◌ c s))

-- Space at the front is passed over, and whatever follows the digits is left alone.
unfoldable pub stoi : String → Outcome ℤ
unfolding read_signed
stoi String.[] = throw invalid_argument
stoi (String.◌∷◌ c s) =
    let rest = stoi s in if is_space c then rest else read_signed (String.◌∷◌ c s)

-- The value within the range of `unsigned long long`; a sign wraps it around.
abbrev pub to_ull : Bool → Option ℕ → Outcome ℕ
to_ull negative none = throw invalid_argument
to_ull negative (some n) =
    if ltb n (2 ^ 64)
    then ok (if negative then (2 ^ 64 - n) % 2 ^ 64 else n)
    else throw out_of_range

unfoldable pub read_wrapped : String → Outcome ℕ
unfolding read_number
read_wrapped String.[] = throw invalid_argument
read_wrapped (String.◌∷◌ c s) =
    if code c == 45
    then to_ull true (read_number s)
    else if code c == 43
    then to_ull false (read_number s)
    else to_ull false (read_number (String.◌∷◌ c s))

unfoldable pub stoull : String → Outcome ℕ
unfolding read_wrapped
stoull String.[] = throw invalid_argument
stoull (String.◌∷◌ c s) =
    let rest = stoull s in if is_space c then rest else read_wrapped (String.◌∷◌ c s)

abbrev pub digit : ℕ → String
digit n =
    if n == 0
    then "0"
    else if n == 1
    then "1"
    else if n == 2
    then "2"
    else if n == 3
    then "3"
    else if n == 4
    then "4"
    else if n == 5
    then "5"
    else if n == 6
    then "6"
    else if n == 7
    then "7"
    else if n == 8
    then "8"
    else "9"

-- The decimal digits, in at most `fuel` places.
unfoldable pub show_digits : ℕ → ℕ → String
show_digits zero n = digit n
show_digits (suc fuel) n =
    let front = show_digits fuel (n / 10) in
    if ltb n 10 then digit n else append front (digit (n % 10))

-- A number has no more places than its value.
unfoldable pub to_string : ℤ → String
unfolding show_digits
to_string (pos n) = show_digits n n
to_string (negsuc n) = append "-" (show_digits (suc n) (suc n))
