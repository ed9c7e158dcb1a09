-- ===== src/Metrics.antt =====
-- include/kafka/addons/KafkaMetrics.h: values of a JSON document by a path of keys with wildcards. The
-- parser is rapidjson; its document is an argument.
pub mod Search
pub mod Complete
pub mod Texts
mod Tests
use text.Mathlib.Text.{◌==◌ as str_eq}
use modern_cpp_kafka.Prelude.{
  ◌^◌, ℤ, pos, negsuc, leb_ℤ, Bool, true, false, ◌&&◌, Option, none, some, String, List, [], ◌∷◌,
  ◌++◌, if◌then◌else◌, is_empty, back,
}
use modern_cpp_kafka.Outcome.{Outcome, ok, throw, undefined, invalid_argument, ◌>>=◌}

-- rapidjson's values and the members of an object. `other` is any other value: an array, a truth
-- value, null, or a number that is not an integer.
mutual
  pub data Json : Type 0 where
    object : Members → Json
    string : String → Json
    integer : ℤ → Json
    other : Json

  pub data Members : Type 0 where
    done : Members
    member : String → Json → Members → Members

-- `getInt` or `getString`.
pub data ValueType : Type 0 where
  int_value string_value : ValueType

pub data Value : Type 0 where
  int_of : ℤ → Value
  string_of : String → Value

-- IsInt() asks for 32 bits.
abbrev pub is_int : ℤ → Bool
is_int n = leb_ℤ (negsuc 2147483647) n && leb_ℤ n (pos 2147483647)

-- The value, if it has the type.
abbrev pub get_value : ValueType → Json → Option Value
get_value int_value (integer n) = if is_int n then some (int_of n) else none
get_value string_value (string s) = some (string_of s)
get_value _ _ = none

abbrev pub KeysType : Type 0
KeysType = List String

abbrev pub ResultsType : Type 0
ResultsType = List (KeysType × Value)

abbrev pub is_wildcard : String → Bool
is_wildcard key = str_eq key "*"

-- FindMember: the first member of the name.
abbrev pub find_member : String → Members → Option Json
find_member key done = none
find_member key (member name j ms) = if str_eq name key then some j else find_member key ms

-- The results of every member, one after the other.
abbrev pub each_member : (String → Json → Outcome ResultsType) → Members → Outcome ResultsType
each_member visit done = ok []
each_member visit (member name j ms) =
    visit name j >>= λ here. each_member visit ms >>= λ rest. ok (here ++ rest)

abbrev pub one_result : KeysType → Option Value → ResultsType
one_result wild none = []
one_result wild (some v) = (wild, v) ∷ []

-- `getResults`, with the results that it adds. An object with no key left would be read past the
-- end of the keys.
unfoldable pub get_results : ValueType → KeysType → KeysType → Json → Outcome ResultsType
get_results type [] wild (object ms) = undefined
get_results type (key ∷ keys) wild (object ms) =
    let deeper = λ (w : KeysType) (j : Json). get_results type keys w j in
    let at_end = λ (j : Json).
      if is_empty keys then ok (one_result wild (get_value type j)) else deeper wild j in
    if is_wildcard key
    then each_member (λ name j. deeper (wild ++ name ∷ []) j) ms
    else (elim (find_member key ms) [ none ↦ ok [] | some j ↦ at_end j ])
get_results type keys wild json = ok []

-- `get`. FindMember on a document that is no object is not defined.
unfoldable pub get : ValueType → KeysType → Json → Outcome ResultsType
unfolding get_results
get type [] doc = throw invalid_argument
get type (key ∷ keys) doc =
    if is_wildcard key
    then throw invalid_argument
    else if is_wildcard (back key keys)
    then throw invalid_argument
    else (elim doc [
      | object ms ↦ elim (find_member key ms) [
        | none ↦ ok []
        | some j ↦
            if is_empty keys
            then ok (one_result [] (get_value type j))
            else get_results type keys [] j
      ]
      | string s ↦ undefined
      | integer n ↦ undefined
      | other ↦ undefined
    ])
