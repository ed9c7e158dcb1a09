-- ===== src/Tools/ProducerPerf/Doubles.antt =====
-- tools/console_clients/KafkaProducerPerfTest.cc: the arithmetic on `double` that tells how many records
-- are due. A number that is not negative is told by its 53 bits and a power of two, and each
-- operation rounds to the nearest, to the even one of two. Those at hand are neither so small nor so
-- large that the exponent matters.
pub mod Bits
use modern_cpp_kafka.Prelude.{
  ℕ, zero, suc, ◌+◌, ◌*◌, ◌/◌, ◌%◌, ◌^◌, true, false, ◌&&◌, ◌||◌, if◌then◌else◌, ltb, ◌==◌,
}

-- mantissa * 2 ^ up / 2 ^ down
pub record Double : Type 0 where
  pub mantissa : ℕ
  pub up : ℕ
  pub down : ℕ

-- A fraction, as a numerator and a denominator.
abbrev pub Fraction : Type 0
Fraction = ℕ × ℕ

abbrev pub exact : Double → Fraction
exact d = (d.mantissa * 2 ^ d.up, 2 ^ d.down)

-- The nearest number to a fraction.
abbrev pub nearest : Fraction → ℕ
nearest (n, d) =
    let q = n / d in
    let twice = 2 * (n % d) in if ltb d twice || ((twice == d) && (q % 2 == 1)) then suc q else q

-- Doublings of the numerator up to 53 bits.
unfoldable pub raise : ℕ → Fraction → ℕ → Double
raise zero (n, d) down = record { mantissa = nearest (n, d); up = 0; down = down }
raise (suc fuel) (n, d) down = elim (ltb n (d * 2 ^ 52)) [
  | true ↦ raise fuel (2 * n, d) (suc down)
  | false ↦ record { mantissa = nearest (n, d); up = 0; down = down }
]

-- Doublings of the denominator down to 53 bits.
unfoldable pub lower : ℕ → Fraction → ℕ → Double
lower zero (n, d) up = record { mantissa = nearest (n, d); up = up; down = 0 }
lower (suc fuel) (n, d) up = elim (ltb n (d * 2 ^ 53)) [
  | true ↦ record { mantissa = nearest (n, d); up = up; down = 0 }
  | false ↦ lower fuel (n, 2 * d) (suc up)
]

-- A fraction n / d other than 0 takes at most 52 + d doublings, or n.
unfoldable pub round : Fraction → Double
unfolding raise lower
round (n, d) =
    if n == 0
    then record { mantissa = 0; up = 0; down = 0 }
    else if ltb n (d * 2 ^ 53)
    then raise (52 + d) (n, d) 0
    else lower n (n, d) 0

-- `static_cast<double>` of an integer.
abbrev pub of_integer : ℕ → Double
of_integer n = round (n, 1)

-- Division by an integer that a double has exactly, and multiplication.
abbrev pub divided : Double → ℕ → Double
divided x k = let (n, d) = exact x in round (n, d * k)

abbrev pub times : Double → ℕ → Double
times x k = let (n, d) = exact x in round (n * k, d)

abbrev pub truncated : Double → ℕ
truncated x = let (n, d) = exact x in n / d

-- `static_cast<double>(elapsed) / 1000.0 * throughput`, and the records that are due by it. The
-- throughput is an `int`.
unfoldable pub due : ℕ → ℕ → ℕ
unfolding round
due throughput elapsed = truncated (times (divided (of_integer elapsed) 1000) throughput)
