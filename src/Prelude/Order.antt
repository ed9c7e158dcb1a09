-- ===== src/Prelude/Order.antt =====
-- The order that C++ containers ask of their keys (`operator<`), with the laws of a strict total
-- order.
use mathlib.Core.Path.{◌≡◌}
use mathlib.Core.Bool.{Bool, true, false, ◌&&◌, not}
use native.Mathlib.Omega.{arith}

pub record Ord {ℓ} (A : Type ℓ) : Type ℓ where
  pub lt : A → A → Bool
  pub lt_irrefl : (a : A) → lt a a ≡ false
  pub lt_trans : (a b c : A) → lt a b ≡ true → lt b c ≡ true → lt a c ≡ true
  pub lt_connex : (a b : A) → lt a b ≡ false → lt b a ≡ false → a ≡ b

module _ {ℓ} {A : Type ℓ} ⦃o : Ord A⦄ where
  abbrev pub lt : A → A → Bool
  lt = o.lt

  abbrev pub Le : A → A → Type 0
  Le a b = o.lt b a ≡ false

  pub lt-asymm : (a b : A) → o.lt a b ≡ true → o.lt b a ≡ false
  lt-asymm a b h = ground (arith, o.lt_irrefl a, o.lt_trans a b a)

  pub le_refl : (a : A) → Le a a
  le_refl a = o.lt_irrefl a

  pub le_trans : (a b c : A) → Le a b → Le b c → Le a c
  le_trans a b c h k = ground (arith, o.lt_trans c a b, o.lt_connex a b)

  pub lt_of_lt_of_le : (a b c : A) → o.lt a b ≡ true → Le b c → o.lt a c ≡ true
  lt_of_lt_of_le a b c h k = ground (arith, o.lt_trans a b c, o.lt_connex b c)

  -- Keys are the same when neither is below the other.
  abbrev pub same : A → A → Bool
  same a b = not (o.lt a b) && not (o.lt b a)

  pub same_refl : (a : A) → same a a ≡ true
  same_refl a = ground (arith, o.lt_irrefl a)

  pub same→eq : (a b : A) → same a b ≡ true → a ≡ b
  same→eq a b h = ground (arith, o.lt_connex a b)
