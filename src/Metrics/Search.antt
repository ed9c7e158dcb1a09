-- ===== src/Metrics/Search.antt =====
-- The matches of a path of keys in a document, and the results of the search.
use modern_cpp_kafka.Prelude.{
  ◌≡◌, ◌⊎◌, inl, inr, refl, sym, ◌∙◌, ap, true, false, Option, none, some, String, List, [], ◌∷◌,
  ◌++◌, arith, back, All,
}
use modern_cpp_kafka.Outcome.{Outcome, ok, Yields, yields, Yields-bind, Yields-weaken, Yields-if}
use modern_cpp_kafka.Metrics.{
  Json, object, string, integer, other, Members, done, member, ValueType, Value, get_value,
  KeysType, ResultsType, is_wildcard, find_member, each_member, one_result, get_results,
}

-- `j` is a member called `name`.
abbrev pub Among : String → Json → Members → Type 0
Among name j done = ⊥
Among name j (member n k ms) = ((n ≡ name) × (k ≡ j)) ⊎ Among name j ms

-- The keys lead from a value to a value of the type, past members with the names `wild` at the
-- wildcards.
pub data Matches (type : ValueType) : KeysType → Json → KeysType → Value → Type 0 where
  ends :
      {key : String} {ms : Members} {j : Json} {v : Value}
      → is_wildcard key ≡ false
      → find_member key ms ≡ some j
      → get_value type j ≡ some v
      → Matches type (key ∷ []) (object ms) [] v
  goes_on :
      {key next : String} {keys wild : KeysType} {ms : Members} {j : Json} {v : Value}
      → is_wildcard key ≡ false
      → find_member key ms ≡ some j
      → Matches type (next ∷ keys) j wild v
      → Matches type (key ∷ next ∷ keys) (object ms) wild v
  spreads :
      {key name : String} {keys wild : KeysType} {ms : Members} {j : Json} {v : Value}
      → is_wildcard key ≡ true
      → Among name j ms
      → Matches type keys j wild v
      → Matches type (key ∷ keys) (object ms) (name ∷ wild) v

-- A result after the names `before`.
abbrev pub IsMatch : ValueType → KeysType → Json → KeysType → KeysType × Value → Type 0
IsMatch type keys j before r =
    (wild : KeysType) × (r.0 ≡ before ++ wild) × Matches type keys j wild r.1

abbrev pub LastIsPlain : KeysType → Type 0
LastIsPlain [] = ⊥
LastIsPlain (key ∷ keys) = is_wildcard (back key keys) ≡ false

module _ {A : Type 0} (P : A → Type 0) where
  All-append : (xs ys : List A) → All P xs → All P ys → All P (xs ++ ys)
  All-append [] ys h k = k
  All-append (x ∷ xs) ys h k = (h.0, All-append xs ys h.1 k)

  All-map : (Q : A → Type 0) (xs : List A) → ((x : A) → P x → Q x) → All P xs → All Q xs
  All-map Q [] f h = tt
  All-map Q (x ∷ xs) f h = (f x h.0, All-map Q xs f h.1)

pub append-nil : (l : KeysType) → l ++ [] ≡ l
append-nil [] = refl
append-nil (x ∷ l) = ap (λ r. x ∷ r) (append-nil l)

pub snoc-append :
    (before wild : KeysType) (name : String)
    → ((before ++ name ∷ []) ++ wild) ≡ before ++ name ∷ wild
snoc-append [] wild name = refl
snoc-append (x ∷ before) wild name = ap (λ l. x ∷ l) (snoc-append before wild name)

each_member_sound :
    (P : KeysType × Value → Type 0) (visit : String → Json → Outcome ResultsType) (ms : Members)
    → ((name : String) (j : Json) → Among name j ms → Yields (All P) (visit name j))
    → Yields (All P) (each_member visit ms)
each_member_sound P visit done h = yields tt
each_member_sound P visit (member name j ms) h = Yields-bind (h name j (inl (refl, refl))) λ here p.
    Yields-bind (each_member_sound P visit ms (λ n k a. h n k (inr a)))
      λ rest q. yields (All-append P here rest p q)

module _ (type : ValueType) (before : KeysType) (key : String) (ms : Members) where
  -- The last key.
  last_sound :
      (o : Option Json)
      → is_wildcard key ≡ false
      → find_member key ms ≡ o
      → Yields
          (All (IsMatch type (key ∷ []) (object ms) before))
          (elim o [ none ↦ ok [] | some j ↦ ok (one_result before (get_value type j)) ])
  last_sound none plain e = yields tt
  last_sound (some j) plain e = yields (value (get_value type j) refl)
    where
      value :
          (v : Option Value)
          → get_value type j ≡ v
          → All (IsMatch type (key ∷ []) (object ms) before) (one_result before v)
      value none f = tt
      value (some v) f = ((([], sym (append-nil before), ends plain e f)), tt)

  next_sound :
      (next : String) (keys : KeysType) (o : Option Json)
      → ((j : Json)
          → Yields
              (All (IsMatch type (next ∷ keys) j before))
              (get_results type (next ∷ keys) before j))
      → is_wildcard key ≡ false
      → find_member key ms ≡ o
      → Yields
          (All (IsMatch type (key ∷ next ∷ keys) (object ms) before))
          (elim o [ none ↦ ok [] | some j ↦ get_results type (next ∷ keys) before j ])
  next_sound next keys none ih plain e = yields tt
  next_sound next keys (some j) ih plain e =
      Yields-weaken
        (λ rs.
          All-map (IsMatch type (next ∷ keys) j before)
            (IsMatch type (key ∷ next ∷ keys) (object ms) before) rs
            (λ r (wild, f, m). (wild, f, goes_on plain e m)))
        (ih j)

  spread_sound :
      (keys : KeysType)
      → ((b : KeysType) (j : Json)
          → Yields (All (IsMatch type keys j b)) (get_results type keys b j))
      → is_wildcard key ≡ true
      → Yields
          (All (IsMatch type (key ∷ keys) (object ms) before))
          (each_member (λ name j. get_results type keys (before ++ name ∷ []) j) ms)
  spread_sound keys ih wildcard =
      each_member_sound (IsMatch type (key ∷ keys) (object ms) before)
        (λ name j. get_results type keys (before ++ name ∷ []) j) ms
        λ name j a.
          Yields-weaken
            (λ rs.
              All-map (IsMatch type keys j (before ++ name ∷ []))
                (IsMatch type (key ∷ keys) (object ms) before) rs
                (λ r (wild, f, m).
                  (name ∷ wild, f ∙ snoc-append before wild name, spreads wildcard a m)))
            (ih (before ++ name ∷ []) j)

-- With a last key that is no wildcard, `getResults` returns, and each result is a match of the keys.
pub get_results_sound :
    (type : ValueType) (keys before : KeysType) (j : Json)
    → LastIsPlain keys
    → Yields (All (IsMatch type keys j before)) (get_results type keys before j)
unfolding get_results
get_results_sound type [] before j h = absurd h
get_results_sound type (key ∷ keys) before (string s) h = yields tt
get_results_sound type (key ∷ keys) before (integer n) h = yields tt
get_results_sound type (key ∷ keys) before other h = yields tt
get_results_sound type (key ∷ []) before (object ms) h =
    Yields-if (is_wildcard key) (λ w. absurd (ground (arith, w, h)))
      λ p. last_sound type before key ms (find_member key ms) p refl
get_results_sound type (key ∷ next ∷ keys) before (object ms) h =
    Yields-if (is_wildcard key)
      (spread_sound type before key ms (next ∷ keys)
        (λ b j. get_results_sound type (next ∷ keys) b j h))
      λ p.
        next_sound type before key ms next keys (find_member key ms)
          (λ j. get_results_sound type (next ∷ keys) before j h) p refl
