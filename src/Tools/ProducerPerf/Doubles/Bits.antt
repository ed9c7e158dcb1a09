-- ===== src/Tools/ProducerPerf/Doubles/Bits.antt =====
-- Rounding to a double leaves 53 bits: the doublings are enough.
use native.Mathlib.Nat.{le-div_iff_mul-le, div-lt_iff_lt-mul, pow-suc}
use modern_cpp_kafka.Prelude.{
  ℕ, zero, suc, ◌+◌, ◌*◌, ◌/◌, ◌^◌, ◌<◌, ◌≤◌, arith, ltb, Bool-cases, inl, inr, subst, ◌≡◌, ap,
  refl,
}
use modern_cpp_kafka.Tools.ProducerPerf.Doubles.{nearest, raise, lower, round}

-- The next power of two stands for a number that is rounded up to it.
abbrev Has53Bits : ℕ → Type 0
Has53Bits m = (2 ^ 52 ≤ m) × (m ≤ 2 ^ 53)

nearest-Has53Bits : (n d : ℕ) → 0 < d → d * 2 ^ 52 ≤ n → n < d * 2 ^ 53 → Has53Bits (nearest (n, d))
nearest-Has53Bits n d h low high =
    let above : 2 ^ 52 ≤ n / d = (le-div_iff_mul-le h).1 (omega (arith, low)) in
    let below : n / d < 2 ^ 53 = (div-lt_iff_lt-mul h).1 (omega (arith, high)) in
    ground (arith, above, below)

raise-Has53Bits :
    (fuel n d down : ℕ)
    → 0 < d
    → d * 2 ^ 52 ≤ n * 2 ^ fuel
    → n < d * 2 ^ 53
    → Has53Bits (raise fuel (n, d) down).mantissa
unfolding raise
raise-Has53Bits zero n d down h low high = nearest-Has53Bits n d h (omega (arith, low)) high
raise-Has53Bits (suc fuel) n d down h low high = elim (Bool-cases (ltb n (d * 2 ^ 52))) [
  | inl e ↦
      rw (e, raise)
        (raise-Has53Bits fuel (2 * n) d (suc down) h
          (grind (arith, subst (λ k. d * 2 ^ 52 ≤ n * k) (pow-suc 2 fuel) low)) (ground (arith, e)))
  | inr e ↦ rw (e, raise) (nearest-Has53Bits n d h (ground (arith, e)) high)
]

lower-Has53Bits :
    (fuel n d up : ℕ)
    → 0 < d
    → d * 2 ^ 52 ≤ n
    → n < d * 2 ^ 53 * 2 ^ fuel
    → Has53Bits (lower fuel (n, d) up).mantissa
unfolding lower
lower-Has53Bits zero n d up h low high = nearest-Has53Bits n d h low (omega (arith, high))
lower-Has53Bits (suc fuel) n d up h low high = elim (Bool-cases (ltb n (d * 2 ^ 53))) [
  | inl e ↦ rw (e, lower) (nearest-Has53Bits n d h low (ground (arith, e)))
  | inr e ↦
      rw (e, lower)
        (lower-Has53Bits fuel n (2 * d) (suc up) (omega (arith, h)) (ground (arith, e))
          (grind (arith, subst (λ k. n < d * 2 ^ 53 * k) (pow-suc 2 fuel) high)))
]

below_pow : (n : ℕ) → n < 2 ^ n
below_pow zero = omega arith
below_pow (suc n) = omega (arith, below_pow n, pow-suc 2 n)

times_some : (a b : ℕ) → 0 < a → b ≤ a * b
times_some zero b h = absurd (omega (arith, h))
times_some (suc a) b h = omega arith

pow_52 : (d : ℕ) → 2 ^ (52 + d) ≡ 2 ^ 52 * 2 ^ d
pow_52 zero = refl
pow_52 (suc d) =
    omega (arith, pow_52 d, pow-suc 2 d, pow-suc 2 (52 + d), ap (λ n. 2 ^ n) (the_suc d))
  where
    the_suc : (n : ℕ) → 52 + suc n ≡ suc (52 + n)
    the_suc n = omega arith

raised_enough : (n d : ℕ) → 0 < n → d * 2 ^ 52 ≤ n * 2 ^ (52 + d)
raised_enough n d h =
    let split : 2 ^ (52 + d) ≡ 2 ^ 52 * 2 ^ d = pow_52 d in
    omega (arith, times_some n (2 ^ (52 + d)) h, split, below_pow d)

lowered_enough : (n d : ℕ) → 0 < d → n < d * 2 ^ 53 * 2 ^ n
lowered_enough n d h =
    omega (arith, times_some (d * 2 ^ 53) (2 ^ n) (omega (arith, h)), below_pow n)

-- A fraction other than 0 is rounded to 53 bits.
round-Has53Bits : (n d : ℕ) → 0 < n → 0 < d → Has53Bits (round (n, d)).mantissa
unfolding round
round-Has53Bits n d some_there h = elim (Bool-cases (ltb n (d * 2 ^ 53))) [
  | inl e ↦ ground (
    arith,
    e,
    some_there,
    raise-Has53Bits (52 + d) n d 0 h (raised_enough n d some_there) (ground (arith, e)),
  )
  | inr e ↦
      ground
        (arith, e, some_there, lower-Has53Bits n n d 0 h (ground (arith, e)) (lowered_enough n d h))
]
