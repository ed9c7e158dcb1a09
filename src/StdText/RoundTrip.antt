-- ===== src/StdText/RoundTrip.antt =====
-- Numbers that are printed are read back.
use Prim.Native.Char.{Char, code}
use Prim.Native.String.{◌++◌ as append}
use text.Mathlib.TextLemmas.{nil-append, cons-append, append_assoc, append-nil}
use modern_cpp_kafka.Prelude.{
  ℕ, zero, suc, ◌+◌, ◌-◌, ◌*◌, ◌/◌, ◌%◌, ◌^◌, ◌≤◌, ◌<◌, String, ℤ, pos, negsuc, ◌≡◌, refl, ap, sym,
  ◌∙◌, Bool, true, false, some, if◌then◌else◌, arith, ltb, ◌==◌, Bool-cases, inl, inr,
}
use modern_cpp_kafka.Outcome.{ok}
use modern_cpp_kafka.StdText.{
  is_digit, digit, show_digits, to_string, read_digits, read_number, stoi, stoull, to_int, to_ull,
}

-- The character of a digit.
digit_char : ℕ → Char
digit_char n =
    if n == 0
    then "0"
    else if n == 1
    then "1"
    else if n == 2
    then "2"
    else if n == 3
    then "3"
    else if n == 4
    then "4"
    else if n == 5
    then "5"
    else if n == 6
    then "6"
    else if n == 7
    then "7"
    else if n == 8
    then "8"
    else "9"

-- One clause for each digit.
digit_cases {ℓ} :
    (P : ℕ → Type ℓ)
    → P 0
    → P 1
    → P 2
    → P 3
    → P 4
    → P 5
    → P 6
    → P 7
    → P 8
    → P 9
    → (n : ℕ) → n < 10
    → P n
digit_cases P p0 p1 p2 p3 p4 p5 p6 p7 p8 p9 zero h = p0
digit_cases P p0 p1 p2 p3 p4 p5 p6 p7 p8 p9 (suc zero) h = p1
digit_cases P p0 p1 p2 p3 p4 p5 p6 p7 p8 p9 (suc (suc zero)) h = p2
digit_cases P p0 p1 p2 p3 p4 p5 p6 p7 p8 p9 (suc (suc (suc zero))) h = p3
digit_cases P p0 p1 p2 p3 p4 p5 p6 p7 p8 p9 (suc (suc (suc (suc zero)))) h = p4
digit_cases P p0 p1 p2 p3 p4 p5 p6 p7 p8 p9 (suc (suc (suc (suc (suc zero))))) h = p5
digit_cases P p0 p1 p2 p3 p4 p5 p6 p7 p8 p9 (suc (suc (suc (suc (suc (suc zero)))))) h = p6
digit_cases P p0 p1 p2 p3 p4 p5 p6 p7 p8 p9 (suc (suc (suc (suc (suc (suc (suc zero))))))) h = p7
digit_cases P p0 p1 p2 p3 p4 p5 p6 p7 p8 p9 (suc (suc (suc (suc (suc (suc (suc (suc zero)))))))) h =
    p8
digit_cases P p0 p1 p2 p3 p4 p5 p6 p7 p8 p9
      (suc (suc (suc (suc (suc (suc (suc (suc (suc zero))))))))) h =
    p9
digit_cases P p0 p1 p2 p3 p4 p5 p6 p7 p8 p9
      (suc (suc (suc (suc (suc (suc (suc (suc (suc (suc n)))))))))) h =
    absurd (omega arith)

code-digit_char : (n : ℕ) → n < 10 → code (digit_char n) ≡ 48 + n
unfolding digit_char
code-digit_char =
    digit_cases (λ n. code (digit_char n) ≡ 48 + n) refl refl refl refl refl refl refl refl refl
      refl

digit_lem : (n : ℕ) → n < 10 → digit n ≡ String.◌∷◌ (digit_char n) ""
unfolding digit_char
digit_lem =
    digit_cases (λ n. digit n ≡ String.◌∷◌ (digit_char n) "") refl refl refl refl refl refl refl
      refl refl refl

append-digit : (n : ℕ) (t : String) → n < 10 → append (digit n) t ≡ String.◌∷◌ (digit_char n) t
append-digit n t h = rw (digit_lem n h, cons-append, nil-append)

digit_char_lem : (n : ℕ) → n < 10 → is_digit (digit_char n) ≡ true
unfolding digit_char
digit_char_lem =
    digit_cases (λ n. is_digit (digit_char n) ≡ true) refl refl refl refl refl refl refl refl refl
      refl

read_digits-cons :
    (acc : ℕ) (c : Char) (t : String)
    → is_digit c ≡ true
    → read_digits acc (String.◌∷◌ c t) ≡ read_digits (acc * 10 + (code c - 48)) t
unfolding read_digits
read_digits-cons acc c t h = rw h refl

read_digits-digit :
    (acc n : ℕ) (t : String)
    → n < 10
    → read_digits acc (append (digit n) t) ≡ read_digits (acc * 10 + n) t
read_digits-digit acc n t h = rw (append-digit n t h) (
    read_digits-cons acc (digit_char n) t (digit_char_lem n h)
    ∙ ap (λ (m : ℕ). read_digits m t) (omega (arith, code-digit_char n h)))

read_digits-show_digits :
    (fuel n : ℕ) (t : String)
    → n ≤ fuel
    → read_digits 0 (append (show_digits fuel n) t) ≡ read_digits n t
unfolding show_digits
read_digits-show_digits zero n t h = ground (arith, read_digits-digit 0 n t)
read_digits-show_digits (suc fuel) n t h = ground (
  arith,
  read_digits-digit 0 n t,
  append_assoc (show_digits fuel (n / 10)) (digit (n % 10)) t,
  read_digits-show_digits fuel (n / 10) (append (digit (n % 10)) t),
  read_digits-digit (n / 10) (n % 10) t,
)

-- A printed number begins with a digit.
record IsNumber (s : String) : Type 0 where
  head : Char
  tail : String
  whole : s ≡ String.◌∷◌ head tail
  digit_first : is_digit head ≡ true

show_digits-IsNumber : (fuel n : ℕ) → n ≤ fuel → IsNumber (show_digits fuel n)
unfolding show_digits
show_digits-IsNumber zero n h = record {
  head = digit_char n;
  tail = "";
  whole = digit_lem n (omega arith);
  digit_first = digit_char_lem n (omega arith);
}
show_digits-IsNumber (suc fuel) n h = elim (Bool-cases (ltb n 10)) [
  | inl below ↦ record {
    head = digit_char n;
    tail = "";
    whole = rw below (digit_lem n (ground arith));
    digit_first = digit_char_lem n (ground arith);
  }
  | inr above ↦
      let front = show_digits-IsNumber fuel (n / 10) (omega arith) in
      record {
        head = front.head;
        tail = append front.tail (digit (n % 10));
        whole = rw (above, front.whole) (cons-append front.head front.tail (digit (n % 10)));
        digit_first = front.digit_first;
      }
]

read_number-digits : (s : String) → IsNumber s → read_number s ≡ some (read_digits 0 s)
unfolding read_number read_digits
read_number-digits s d =
    rw (d.whole, d.digit_first) (ap (λ (n : ℕ). some (read_digits n d.tail)) (omega arith))

read_digits-to_string : (n : ℕ) → read_digits 0 (show_digits n n) ≡ n
unfolding read_digits
read_digits-to_string n =
    ap (read_digits 0) (sym (append-nil (show_digits n n)))
    ∙ read_digits-show_digits n n "" (omega arith)

read_number-show_digits : (n : ℕ) → read_number (show_digits n n) ≡ some n
read_number-show_digits n =
    read_number-digits (show_digits n n) (show_digits-IsNumber n n (omega arith))
    ∙ ap some (read_digits-to_string n)

-- A digit is neither space nor a sign.
stoi-digits : (s : String) → IsNumber s → stoi s ≡ to_int false (read_number s)
unfolding stoi
stoi-digits s d = rw d.whole (ground (arith, d.digit_first))

stoull-digits : (s : String) → IsNumber s → stoull s ≡ to_ull false (read_number s)
unfolding stoull
stoull-digits s d = rw d.whole (ground (arith, d.digit_first))

stoi-minus : (s : String) → stoi (append "-" s) ≡ to_int true (read_number s)
unfolding stoi
stoi-minus s = rw (cons-append, nil-append) refl

abbrev pub FitsInt : ℤ → Type 0
FitsInt (pos n) = n < 2 ^ 31
FitsInt (negsuc n) = n < 2 ^ 31

-- An `int` is read back from its decimal text.
pub stoi-to_string : (n : ℤ) → FitsInt n → stoi (to_string n) ≡ ok n
unfolding to_string
stoi-to_string (pos n) h =
    rw (stoi-digits _ (show_digits-IsNumber n n (omega arith)), read_number-show_digits n)
      (ground arith)
stoi-to_string (negsuc n) h = rw (stoi-minus, read_number-show_digits (suc n)) (ground arith)

-- An `unsigned long long` is read back from its decimal text.
pub stoull-to_string : (n : ℕ) → n < 2 ^ 64 → stoull (to_string (pos n)) ≡ ok n
unfolding to_string
stoull-to_string n h =
    rw (stoull-digits _ (show_digits-IsNumber n n (omega arith)), read_number-show_digits n)
      (ground arith)

-- `to_string` tells numbers apart, and a number that is not negative has no minus in it.
pub to_string_inj : (m n : ℕ) → to_string (pos m) ≡ to_string (pos n) → m ≡ n
unfolding to_string
to_string_inj m n h = sym (read_digits-to_string m) ∙ ap (read_digits 0) h ∙ read_digits-to_string n

unfoldable pub has_minus : String → Bool
has_minus String.[] = false
has_minus (String.◌∷◌ c s) = let rest = has_minus s in if code c == 45 then true else rest

has_minus-append :
    (s t : String) → has_minus s ≡ false → has_minus t ≡ false → has_minus (append s t) ≡ false
unfolding has_minus
has_minus-append String.[] t h k = rw nil-append k
has_minus-append (String.◌∷◌ c s) t h k =
    rw cons-append (ground (arith, has_minus-append s t, h, k))

has_minus-digit : (n : ℕ) → n < 10 → has_minus (digit n) ≡ false
unfolding has_minus
has_minus-digit =
    digit_cases (λ n. has_minus (digit n) ≡ false) refl refl refl refl refl refl refl refl refl refl

has_minus-show_digits : (fuel n : ℕ) → n ≤ fuel → has_minus (show_digits fuel n) ≡ false
unfolding show_digits
has_minus-show_digits zero n h = has_minus-digit n (omega arith)
has_minus-show_digits (suc fuel) n h = ground (
  arith,
  has_minus-digit n,
  has_minus-append (show_digits fuel (n / 10)) (digit (n % 10)),
  has_minus-show_digits fuel (n / 10),
  has_minus-digit (n % 10),
)

pub has_minus-to_string : (n : ℕ) → has_minus (to_string (pos n)) ≡ false
unfolding to_string
has_minus-to_string n = has_minus-show_digits n n (omega arith)
