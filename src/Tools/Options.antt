-- ===== src/Tools/Options.antt =====
-- What the tools share in reading a command line: `key=value` texts, which the console tools split at
-- each `=` and the performance tests cut at the first. How a tool ends.
pub mod Laws
use Prim.Native.Char.{Char, code}
use Prim.Native.String.{◌++◌ as append}
use modern_cpp_kafka.Prelude.{
  String, Bool, true, false, ◌&&◌, not, Option, none, some, List, [], ◌∷◌, if◌then◌else◌, ◌==◌,
  text_ord,
}
use modern_cpp_kafka.Outcome.{Outcome, ok, throw, invalid_argument, ◌>>=◌}
use modern_cpp_kafka.Containers.Map.{Map, insert}
use modern_cpp_kafka.Properties.{PropertiesMap, str, put}

-- EXIT_SUCCESS, EXIT_FAILURE, or the end of the process by an exception that `main` does not catch.
pub data Exit : Type 0 where
  exit_success exit_failure terminated : Exit

abbrev pub is_eq : Char → Bool
is_eq c = code c == 61

-- `c` before the first of the pieces.
abbrev pub extend : Char → List String → List String
extend c [] = String.◌∷◌ c String.[] ∷ []
extend c (piece ∷ pieces) = String.◌∷◌ c piece ∷ pieces

-- The pieces between the `=` of a text.
unfoldable pub pieces : String → List String
pieces String.[] = String.[] ∷ []
pieces (String.◌∷◌ c s) = let rest = pieces s in if is_eq c then String.[] ∷ rest else extend c rest

-- `prop | std::views::split('=')`: an empty text has no piece.
unfoldable pub split_eq : String → List String
unfolding pieces
split_eq String.[] = []
split_eq (String.◌∷◌ c s) = pieces (String.◌∷◌ c s)

abbrev pub pair_of : List String → Option (String × String)
pair_of [] = none
pair_of (key ∷ []) = none
pair_of (key ∷ value ∷ []) = some (key, value)
pair_of (key ∷ value ∷ other ∷ pieces) = none

unfoldable pub key_value : String → Option (String × String)
unfolding split_eq
key_value prop = pair_of (split_eq prop)

-- The loop that puts the texts into properties.
unfoldable pub put_props : List String → PropertiesMap → Outcome PropertiesMap
put_props [] p = ok p
put_props (prop ∷ props) p = elim (key_value prop) [
  | none ↦ throw invalid_argument
  | some (key, value) ↦ put key (str value) p >>= λ q. put_props props q
]

-- The loop that puts them into a map of texts.
unfoldable pub set_props : List String → Map String String → Outcome (Map String String)
set_props [] m = ok m
set_props (prop ∷ props) m = elim (key_value prop) [
  | none ↦ throw invalid_argument
  | some (key, value) ↦ set_props props (insert key value m)
]

-- The loop that puts a map of texts into the properties of a client.
unfoldable pub put_map : Map String String → PropertiesMap → Outcome PropertiesMap
put_map [] p = ok p
put_map ((key, value) ∷ m) p = put key (str value) p >>= λ q. put_map m q

-- `next.contains('=')`
unfoldable pub has_eq : String → Bool
has_eq String.[] = false
has_eq (String.◌∷◌ c s) = let rest = has_eq s in if is_eq c then true else rest

-- `next.substr(0, eq)` and `next.substr(eq + 1)`, where `eq` is the place of the first `=`.
unfoldable pub before_eq : String → String
before_eq String.[] = String.[]
before_eq (String.◌∷◌ c s) =
    let rest = before_eq s in if is_eq c then String.[] else String.◌∷◌ c rest

unfoldable pub after_eq : String → String
after_eq String.[] = String.[]
after_eq (String.◌∷◌ c s) = let rest = after_eq s in if is_eq c then s else rest

abbrev pub is_dash : Char → Bool
is_dash c = code c == 45

-- `next.starts_with("--")`
abbrev pub starts_with_dashes : String → Bool
starts_with_dashes String.[] = false
starts_with_dashes (String.◌∷◌ c String.[]) = false
starts_with_dashes (String.◌∷◌ c (String.◌∷◌ d s)) = is_dash c && is_dash d

-- What `--command-property` takes.
unfoldable pub is_command_property : String → Bool
unfolding has_eq
is_command_property next = not (starts_with_dashes next) && has_eq next

-- `props[next.substr(0, eq)] = next.substr(eq + 1)`
unfoldable pub add_command_property : String → Map String String → Map String String
unfolding before_eq after_eq
add_command_property next props = insert (before_eq next) (after_eq next) props

-- `key=value`, as it is written.
abbrev pub assignment : String → String → String
assignment key value = append key (String.◌∷◌ "=" value)
