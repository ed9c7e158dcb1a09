-- ===== src/Prelude/Keys.antt =====
-- The orders of the program's key types: integers, text (`std::string`, compared by code points,
-- which is the order of the UTF-8 bytes) and pairs (`std::pair`, by the first component first).
use Prim.Native.Char.{code}
use Prim.Native.String.{String}
use mathlib.Core.Path.{◌≡◌, refl, ap₂}
use mathlib.Core.Bool.{Bool, true, false}
use native.Mathlib.Omega.{arith}
use text.Mathlib.TextEquality.{Char-path}
use modern_cpp_kafka.Prelude.Tests.{ltb, if◌then◌else◌}
use modern_cpp_kafka.Prelude.Int.{ℤ, ltb_ℤ, eq_of_parts}
use modern_cpp_kafka.Prelude.Order.{Ord, lt-asymm}

pub ltb_ℤ_irrefl : (a : ℤ) → ltb_ℤ a a ≡ false
ltb_ℤ_irrefl a = ground arith

pub ltb_ℤ_trans : (a b c : ℤ) → ltb_ℤ a b ≡ true → ltb_ℤ b c ≡ true → ltb_ℤ a c ≡ true
ltb_ℤ_trans a b c h k = ground arith

pub ltb_ℤ_connex : (a b : ℤ) → ltb_ℤ a b ≡ false → ltb_ℤ b a ≡ false → a ≡ b
ltb_ℤ_connex a b h k = ground (arith, eq_of_parts a b)

instance abbrev pub int_ord : Ord ℤ
int_ord = record {
  lt = ltb_ℤ;
  lt_irrefl = ltb_ℤ_irrefl;
  lt_trans = ltb_ℤ_trans;
  lt_connex = ltb_ℤ_connex;
}

unfoldable pub text_lt : String → String → Bool
text_lt String.[] String.[] = false
text_lt String.[] (String.◌∷◌ d t) = true
text_lt (String.◌∷◌ c s) String.[] = false
text_lt (String.◌∷◌ c s) (String.◌∷◌ d t) =
    let rest = text_lt s t in
    if ltb (code c) (code d) then true else if ltb (code d) (code c) then false else rest

pub text_lt_irrefl : (s : String) → text_lt s s ≡ false
unfolding text_lt
text_lt_irrefl String.[] = refl
text_lt_irrefl (String.◌∷◌ c s) = ground (arith, text_lt_irrefl s)

pub text_lt_trans : (s t u : String) → text_lt s t ≡ true → text_lt t u ≡ true → text_lt s u ≡ true
unfolding text_lt
text_lt_trans String.[] String.[] String.[] h k = h
text_lt_trans String.[] String.[] (String.◌∷◌ e u) h k = refl
text_lt_trans String.[] (String.◌∷◌ d t) String.[] h k = k
text_lt_trans String.[] (String.◌∷◌ d t) (String.◌∷◌ e u) h k = refl
text_lt_trans (String.◌∷◌ c s) String.[] String.[] h k = h
text_lt_trans (String.◌∷◌ c s) String.[] (String.◌∷◌ e u) h k = ground arith
text_lt_trans (String.◌∷◌ c s) (String.◌∷◌ d t) String.[] h k = k
text_lt_trans (String.◌∷◌ c s) (String.◌∷◌ d t) (String.◌∷◌ e u) h k =
    ground (arith, text_lt_trans s t u)

pub text_lt_connex : (s t : String) → text_lt s t ≡ false → text_lt t s ≡ false → s ≡ t
unfolding text_lt
text_lt_connex String.[] String.[] h k = refl
text_lt_connex String.[] (String.◌∷◌ d t) h k = ground arith
text_lt_connex (String.◌∷◌ c s) String.[] h k = ground arith
text_lt_connex (String.◌∷◌ c s) (String.◌∷◌ d t) h k =
    ap₂ String.◌∷◌ (Char-path c d (ground arith)) (text_lt_connex s t (ground arith) (ground arith))

instance abbrev pub text_ord : Ord String
text_ord = record {
  lt = text_lt;
  lt_irrefl = text_lt_irrefl;
  lt_trans = text_lt_trans;
  lt_connex = text_lt_connex;
}

module _ {ℓ κ} {A : Type ℓ} {B : Type κ} ⦃o : Ord A⦄ ⦃p : Ord B⦄ where
  abbrev pub pair_lt : A × B → A × B → Bool
  pair_lt (a, b) (c, d) = if o.lt a c then true else if o.lt c a then false else p.lt b d

  pub pair_lt_irrefl : (x : A × B) → pair_lt x x ≡ false
  pair_lt_irrefl (a, b) = ground (arith, o.lt_irrefl a, p.lt_irrefl b)

  pub pair_lt_trans : (x y z : A × B) → pair_lt x y ≡ true → pair_lt y z ≡ true → pair_lt x z ≡ true
  pair_lt_trans (a, b) (c, d) (e, f) h k = ground (
    arith,
    o.lt_trans a c e,
    o.lt_trans c e a,
    o.lt_trans e a c,
    o.lt_connex a c,
    o.lt_connex c e,
    lt-asymm a c,
    lt-asymm c e,
    p.lt_trans b d f,
  )

  pub pair_lt_connex : (x y : A × B) → pair_lt x y ≡ false → pair_lt y x ≡ false → x ≡ y
  pair_lt_connex (a, b) (c, d) h k = ground (arith, o.lt_connex a c, p.lt_connex b d, lt-asymm a c)

  instance abbrev pub pair_ord : Ord (A × B)
  pair_ord = record {
    lt = pair_lt;
    lt_irrefl = pair_lt_irrefl;
    lt_trans = pair_lt_trans;
    lt_connex = pair_lt_connex;
  }
