-- ===== src/StdText/Settles.antt =====
-- Reading a number ends, in a value or an exception.
use Prim.Native.Char.{code}
use modern_cpp_kafka.Prelude.{ℕ, String, Bool, true, false, Option, none, some, ltb, leb, ◌==◌, ◌^◌}
use modern_cpp_kafka.Outcome.{Settles, Settles-if}
use modern_cpp_kafka.StdText.{is_space, to_int, read_number, read_signed, stoi}

to_int-Settles : (negative : Bool) (n : Option ℕ) → Settles (to_int negative n)
to_int-Settles true none = tt
to_int-Settles false none = tt
to_int-Settles true (some n) = Settles-if (n == 0) _ _ tt (Settles-if (leb n (2 ^ 31)) _ _ tt tt)
to_int-Settles false (some n) = Settles-if (ltb n (2 ^ 31)) _ _ tt tt

read_signed-Settles : (s : String) → Settles (read_signed s)
unfolding read_signed
read_signed-Settles String.[] = tt
read_signed-Settles (String.◌∷◌ c s) =
    Settles-if (code c == 45) _ _ (to_int-Settles true (read_number s)) (
      Settles-if (code c == 43) _ _ (to_int-Settles false (read_number s))
        (to_int-Settles false (read_number (String.◌∷◌ c s))))

pub stoi-Settles : (s : String) → Settles (stoi s)
unfolding stoi
stoi-Settles String.[] = tt
stoi-Settles (String.◌∷◌ c s) =
    Settles-if (is_space c) _ _ (stoi-Settles s) (read_signed-Settles (String.◌∷◌ c s))
