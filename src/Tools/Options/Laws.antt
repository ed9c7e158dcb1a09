-- ===== src/Tools/Options/Laws.antt =====
-- What the tools take for a `key=value` text.
use Prim.Native.Char.{Char}
use text.Mathlib.TextEquality.{Char-path}
use text.Mathlib.TextLemmas.{nil-append, cons-append}
use modern_cpp_kafka.Prelude.{
  String, ◌≡◌, refl, ap, sym, ◌∙◌, true, false, some, List, [], ◌∷◌, arith, ◌↔◌, ◌⊎◌, inl, inr,
  Bool-cases, subst,
}
use modern_cpp_kafka.Tools.Options.{
  is_eq, extend, pieces, pair_of, key_value, has_eq, before_eq, after_eq, assignment,
}

-- A text with no `=` is one piece.
pieces_whole : (s : String) → has_eq s ≡ false → pieces s ≡ s ∷ []
unfolding pieces has_eq
pieces_whole String.[] h = refl
pieces_whole (String.◌∷◌ c s) h = ground (arith, pieces_whole s)

pieces-assignment :
    (key value : String) → has_eq key ≡ false → pieces (assignment key value) ≡ key ∷ pieces value
unfolding pieces has_eq
pieces-assignment String.[] value h = rw nil-append
pieces-assignment (String.◌∷◌ c key) value h =
    rw cons-append (ground (arith, pieces-assignment key value))

-- The text that the pieces come from.
join_eq : List String → String
join_eq [] = String.[]
join_eq (piece ∷ []) = piece
join_eq (piece ∷ next ∷ pieces) = assignment piece (join_eq (next ∷ pieces))

join_eq-extend : (c : Char) (l : List String) → join_eq (extend c l) ≡ String.◌∷◌ c (join_eq l)
unfolding join_eq
join_eq-extend c [] = refl
join_eq-extend c (piece ∷ []) = refl
join_eq-extend c (piece ∷ next ∷ l) = cons-append c piece _

abbrev IsCut : List String → Type 0
IsCut [] = ⊥
IsCut (piece ∷ []) = has_eq piece ≡ false
IsCut (piece ∷ next ∷ l) = (has_eq piece ≡ false) × IsCut (next ∷ l)

IsCut-extend : (c : Char) (l : List String) → is_eq c ≡ false → IsCut l → IsCut (extend c l)
unfolding has_eq
IsCut-extend c [] h k = absurd k
IsCut-extend c (piece ∷ []) h k = ground arith
IsCut-extend c (piece ∷ next ∷ l) h k = ground arith

join_eq-cons : (l : List String) → IsCut l → join_eq ("" ∷ l) ≡ String.◌∷◌ "=" (join_eq l)
unfolding join_eq
join_eq-cons [] h = absurd h
join_eq-cons (piece ∷ l) h = nil-append _

IsCut-cons : (l : List String) → IsCut l → IsCut ("" ∷ l)
unfolding has_eq
IsCut-cons [] h = absurd h
IsCut-cons (piece ∷ l) h = (refl, h)

pieces-cons :
    (c : Char) (s : String)
    → ((c ≡ "=") × (pieces (String.◌∷◌ c s) ≡ "" ∷ pieces s))
      ⊎ ((is_eq c ≡ false) × (pieces (String.◌∷◌ c s) ≡ extend c (pieces s)))
unfolding pieces
pieces-cons c s = elim (Bool-cases (is_eq c)) [
  | inl h ↦ inl (Char-path c "=" (ground arith), ground arith)
  | inr h ↦ inr (h, ground arith)
]

pieces-IsCut : (s : String) → IsCut (pieces s)
unfolding pieces has_eq
pieces-IsCut String.[] = refl
pieces-IsCut (String.◌∷◌ c s) = elim (pieces-cons c s) [
  | inl (h, e) ↦ subst IsCut (sym e) (IsCut-cons (pieces s) (pieces-IsCut s))
  | inr (h, e) ↦ subst IsCut (sym e) (IsCut-extend c (pieces s) h (pieces-IsCut s))
]

join_eq-pieces : (s : String) → join_eq (pieces s) ≡ s
unfolding pieces join_eq
join_eq-pieces String.[] = refl
join_eq-pieces (String.◌∷◌ c s) = elim (pieces-cons c s) [
  | inl (h, e) ↦ cc (e, h, join_eq-cons (pieces s) (pieces-IsCut s), join_eq-pieces s)
  | inr (h, e) ↦ cc (e, join_eq-extend c (pieces s), join_eq-pieces s)
]

key_value-pieces :
    (prop key value : String) → key_value prop ≡ some (key, value) → pieces prop ≡ key ∷ value ∷ []
unfolding key_value
key_value-pieces String.[] key value h = cc
key_value-pieces (String.◌∷◌ c s) key value h = pair_of-eq (pieces (String.◌∷◌ c s)) h
  where
    pair_of-eq : (l : List String) → pair_of l ≡ some (key, value) → l ≡ key ∷ value ∷ []
    pair_of-eq [] h = cc
    pair_of-eq (a ∷ []) h = cc
    pair_of-eq (a ∷ b ∷ []) h = cc
    pair_of-eq (a ∷ b ∷ c ∷ l) h = cc

pieces-key_value :
    (prop key value : String) → pieces prop ≡ key ∷ value ∷ [] → key_value prop ≡ some (key, value)
unfolding key_value pieces
pieces-key_value String.[] key value h = cc
pieces-key_value (String.◌∷◌ c s) key value h = ap pair_of h

-- A text is taken for a key and a value exactly if it is the key, `=` and the value, with no other
-- `=`.
pub key_value_iff :
    (prop key value : String)
    → (key_value prop ≡ some (key, value))
      ↔ ((prop ≡ assignment key value) × (has_eq key ≡ false) × (has_eq value ≡ false))
unfolding join_eq
key_value_iff prop key value = (
  (λ h.
      let e = key_value-pieces prop key value h in
      let (k, v) = subst IsCut e (pieces-IsCut prop) in
      (sym (join_eq-pieces prop) ∙ ap join_eq e, k, v)),
  (λ (e, k, v). pieces-key_value prop key value (
      ap pieces e
      ∙ pieces-assignment key value k
      ∙ ap (λ (l : List String). key ∷ l) (pieces_whole value v))),
)

pub has_eq-before_eq : (s : String) → has_eq (before_eq s) ≡ false
unfolding has_eq before_eq
has_eq-before_eq String.[] = refl
has_eq-before_eq (String.◌∷◌ c s) = elim (Bool-cases (is_eq c)) [
  | inl h ↦ rw h refl
  | inr h ↦ rw h (rw h (has_eq-before_eq s))
]

-- A text with an `=` is cut at the first.
pub assignment-before_eq :
    (s : String) → has_eq s ≡ true → assignment (before_eq s) (after_eq s) ≡ s
unfolding has_eq before_eq after_eq
assignment-before_eq String.[] h = cc
assignment-before_eq (String.◌∷◌ c s) h = ground (
  arith,
  Char-path c "=",
  nil-append (String.◌∷◌ "=" s),
  cons-append c (before_eq s) (String.◌∷◌ "=" (after_eq s)),
  assignment-before_eq s,
)

pub before_eq-assignment :
    (key value : String) → has_eq key ≡ false → before_eq (assignment key value) ≡ key
unfolding before_eq has_eq
before_eq-assignment String.[] value h = rw nil-append
before_eq-assignment (String.◌∷◌ c key) value h =
    rw cons-append (ground (arith, before_eq-assignment key value))

pub after_eq-assignment :
    (key value : String) → has_eq key ≡ false → after_eq (assignment key value) ≡ value
unfolding after_eq has_eq
after_eq-assignment String.[] value h = rw nil-append
after_eq-assignment (String.◌∷◌ c key) value h =
    rw cons-append (ground (arith, after_eq-assignment key value))

pub has_eq-assignment : (key value : String) → has_eq (assignment key value) ≡ true
unfolding has_eq
has_eq-assignment String.[] value = rw nil-append
has_eq-assignment (String.◌∷◌ c key) value =
    rw cons-append (ground (arith, has_eq-assignment key value))
