-- ===== src/Properties/Hidden.antt =====
-- `toString` of the configuration map.
use modern_cpp_kafka.Prelude.{◌≡◌, refl, String, Bool, true, false, ap, [], ◌∷◌, if◌then◌else◌}
use modern_cpp_kafka.Properties.{
  Kind, ValueType, PropertiesMap, is_sensitive, value_text, show_from, show,
}

-- The same keys in the same order, with the same values but under the sensitive keys.
abbrev pub SameButSecrets : PropertiesMap → PropertiesMap → Type 0
SameButSecrets [] [] = Unit
SameButSecrets [] (y ∷ q) = ⊥
SameButSecrets (x ∷ p) [] = ⊥
SameButSecrets ((k, v) ∷ p) ((j, w) ∷ q) =
    (k ≡ j) × (is_sensitive k ≡ false → v ≡ w) × SameButSecrets p q

shown_value :
    (type_name : Kind → String) (b : Bool) (v w : ValueType)
    → (b ≡ false → v ≡ w)
    → (if b then "*" else value_text type_name v) ≡ (if b then "*" else value_text type_name w)
shown_value type_name true v w h = refl
shown_value type_name false v w h = ap (value_text type_name) (h refl)

show_from-SameButSecrets :
    (type_name : Kind → String) (p q : PropertiesMap) (ret : String)
    → SameButSecrets p q
    → show_from type_name p ret ≡ show_from type_name q ret
unfolding show_from
show_from-SameButSecrets type_name [] [] ret h = refl
show_from-SameButSecrets type_name [] (y ∷ q) ret h = absurd h
show_from-SameButSecrets type_name (x ∷ p) [] ret h = absurd h
show_from-SameButSecrets type_name ((k, v) ∷ p) ((j, w) ∷ q) ret h = cc (
  h.0,
  shown_value type_name (is_sensitive k) v w h.1,
  show_from-SameButSecrets type_name p q _ h.2,
)

-- Two maps with the same keys in the same order, and the same values but under sensitive keys,
-- have the same text.
pub show-SameButSecrets :
    (type_name : Kind → String) (p q : PropertiesMap)
    → SameButSecrets p q
    → show type_name p ≡ show type_name q
unfolding show
show-SameButSecrets type_name p q h = show_from-SameButSecrets type_name p q "" h
