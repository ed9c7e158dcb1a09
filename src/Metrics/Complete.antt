-- ===== src/Metrics/Complete.antt =====
-- Which results the search of the metrics has, for the matches of the keys.
use modern_cpp_kafka.Prelude.{
  ◌≡◌, ◌⊎◌, inl, inr, refl, sym, ◌∙◌, ap, subst, false, String, [], ◌∷◌, ◌++◌, arith, All,
}
use modern_cpp_kafka.Outcome.{Outcome, ok, Yields, yields, Yields-bind, Yields-weaken, Yields-value}
use modern_cpp_kafka.Metrics.{
  Json, object, Members, done, member, ValueType, Value, KeysType, ResultsType, is_wildcard,
  each_member, get_results, get,
}
use modern_cpp_kafka.Metrics.Search.{
  Among, Matches, ends, goes_on, spreads, IsMatch, LastIsPlain, get_results_sound, snoc-append,
  append-nil,
}

abbrev pub Listed : KeysType × Value → ResultsType → Type 0
Listed r [] = ⊥
Listed r (x ∷ xs) = (x ≡ r) ⊎ Listed r xs

Listed-left : (r : KeysType × Value) (xs ys : ResultsType) → Listed r xs → Listed r (xs ++ ys)
Listed-left r [] ys h = absurd h
Listed-left r (x ∷ xs) ys (inl e) = inl e
Listed-left r (x ∷ xs) ys (inr h) = inr (Listed-left r xs ys h)

Listed-right : (r : KeysType × Value) (xs ys : ResultsType) → Listed r ys → Listed r (xs ++ ys)
Listed-right r [] ys h = h
Listed-right r (x ∷ xs) ys h = inr (Listed-right r xs ys h)

abbrev Returns : Outcome ResultsType → Type 0
Returns = Yields (λ rs. Unit {0})

module _ (visit : String → Json → Outcome ResultsType)
    (all : (n : String) (j : Json) → Returns (visit n j)) where
  each_member-returns : (ms : Members) → Returns (each_member visit ms)
  each_member-returns done = yields tt
  each_member-returns (member n j ms) =
      Yields-bind (all n j) λ here u. Yields-bind (each_member-returns ms) λ rest w. yields tt

  each_member-complete :
      (r : KeysType × Value) (ms : Members) (name : String) (j : Json)
      → Among name j ms
      → Yields (Listed r) (visit name j)
      → Yields (Listed r) (each_member visit ms)
  each_member-complete r done name j a h = absurd a
  each_member-complete r (member n k ms) name j (inl (e, f)) h =
      Yields-bind
        (subst (λ x. Yields (Listed r) (visit x k)) (sym e)
          (subst (λ y. Yields (Listed r) (visit name y)) (sym f) h))
        λ here l. Yields-bind (each_member-returns ms) λ rest w. yields (Listed-left r here rest l)
  each_member-complete r (member n k ms) name j (inr a) h = Yields-bind (all n k) λ here u.
      Yields-bind (each_member-complete r ms name j a h)
        λ rest l. yields (Listed-right r here rest l)

get_results-returns :
    (type : ValueType) (keys before : KeysType) (j : Json)
    → LastIsPlain keys
    → Returns (get_results type keys before j)
get_results-returns type keys before j h =
    Yields-weaken (λ rs p. tt) (get_results_sound type keys before j h)

-- With a last key that is no wildcard, `getResults` returns, and every match of the keys is among
-- the results.
pub get_results-complete :
    (type : ValueType) (keys before wild : KeysType) (j : Json) (v : Value)
    → LastIsPlain keys
    → Matches type keys j wild v
    → Yields (Listed (before ++ wild, v)) (get_results type keys before j)
unfolding get_results
get_results-complete type _ before _ _ v h (ends {key = key} {ms = ms} {j = j} p e f) =
    rw (p, e, f) (yields (inl (ap (λ l. (l, v)) (sym (append-nil before)))))
get_results-complete type _ before wild _ v h
      (goes_on {key = key} {next = next} {keys = keys} {ms = ms} {j = j} p e m) =
    rw (p, e) (get_results-complete type (next ∷ keys) before wild j v h m)
get_results-complete type _ before _ _ v h
      (spreads {key = key} {name = name} {keys = []} {wild = wild} {ms = ms} {j = j} w a m) =
    absurd (ground (arith, w, h))
get_results-complete type _ before _ _ v h
      (spreads {key = key} {name = name} {keys = next ∷ keys} {wild = wild} {ms = ms} {j = j} w a
        m) =
    let visit = λ (n : String) (k : Json). get_results type (next ∷ keys) (before ++ n ∷ []) k in
    let found = get_results-complete type (next ∷ keys) (before ++ name ∷ []) wild j v h m in
    rw w (
      each_member-complete visit
        (λ n k. get_results-returns type (next ∷ keys) (before ++ n ∷ []) k h)
        (before ++ name ∷ wild, v) ms name j a
        (subst (λ l. Yields (Listed (l, v)) (visit name j)) (snoc-append before wild name) found))

unwrap : {A : Type 0} (P : A → Type 0) (a : A) → Yields P (ok a) → P a
unwrap P a (yields p) = p

get_as_results :
    (type : ValueType) (key : String) (keys : KeysType) (ms : Members)
    → is_wildcard key ≡ false
    → LastIsPlain (key ∷ keys)
    → get type (key ∷ keys) (object ms) ≡ get_results type (key ∷ keys) [] (object ms)
unfolding get get_results
get_as_results type key keys ms p h = rw (p, h) refl

-- On a document that is an object, with keys of which neither the first nor the last is a wildcard,
-- `get` returns, each result is a match of the keys with the names that stand for the wildcards, and
-- every match is among the results.
pub get_correct :
    (type : ValueType) (key : String) (keys : KeysType) (ms : Members)
    → is_wildcard key ≡ false
    → LastIsPlain (key ∷ keys)
    → (results : ResultsType) × (get type (key ∷ keys) (object ms) ≡ ok results)
      × All (IsMatch type (key ∷ keys) (object ms) []) results
      × ((wild : KeysType) (v : Value)
          → Matches type (key ∷ keys) (object ms) wild v
          → Listed (wild, v) results)
get_correct type key keys ms p h =
    let sound = Yields-value (get_results_sound type (key ∷ keys) [] (object ms) h) in
    (
      sound.0,
      get_as_results type key keys ms p h ∙ sound.1,
      sound.2,
      λ wild v m. unwrap (Listed (wild, v)) sound.0 (
          subst (Yields (Listed (wild, v))) sound.1
            (get_results-complete type (key ∷ keys) [] wild (object ms) v h m)),
    )
