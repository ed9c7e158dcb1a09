-- ===== src/Properties/Laws.antt =====
-- The configuration map: what a lookup gives after each operation, and valid maps.
use text.Mathlib.Text.{◌==◌ as str_eq}
use text.Mathlib.TextEquality.{eq_iff}
use modern_cpp_kafka.Prelude.{
  ℕ, ◌≡◌, refl, sym, subst, not, same→eq, String, false, Bool-cases, inl, inr, none, some, [], ◌∷◌,
  if◌then◌else◌, text_ord, same, arith,
}
use modern_cpp_kafka.Outcome.{ok}
use modern_cpp_kafka.Containers.Map.{find, contains, insert, erase}
use modern_cpp_kafka.Containers.Map.Laws.{find-insert, find-erase}
use modern_cpp_kafka.Properties.{
  log_callback, error_callback, stats_callback, token_refresh_callback, interceptor, kind_id,
  ValueType, str, object, kind_of, PropertiesMap, is_invalid, is_non_string_key, validate,
  validate_all, properties_of, put, remove, get, get_property,
}

-- Each value is valid for its key.
abbrev pub IsValid : PropertiesMap → Type 0
IsValid [] = Unit
IsValid ((key, value) ∷ p) = (is_invalid key value ≡ false) × IsValid p

pub get_property-find :
    (key : String) (p : PropertiesMap)
    → get_property key p
      ≡ elim (find key p) [ none ↦ none | some v ↦ elim v [ str s ↦ some s | object k n ↦ none ] ]
unfolding get_property get contains
get_property-find key p = ground arith

pub put-valid :
    (key : String) (value : ValueType) (p : PropertiesMap)
    → is_invalid key value ≡ false
    → put key value p ≡ ok (insert key value p)
unfolding put validate
put-valid key value p h = ground (arith, h)

pub get_property-insert :
    (key j : String) (s : String) (p : PropertiesMap)
    → get_property j (insert key (str s) p) ≡ (if same key j then some s else get_property j p)
get_property-insert key j s p = ground (
  arith,
  get_property-find j (insert key (str s) p),
  get_property-find j p,
  find-insert key j (str s) p,
)

-- Putting a text under a key that is not reserved for a callback returns, and a lookup then gives
-- the text under that key and under every other key what it gave.
pub get_property-put :
    (key : String) (s : String) (p : PropertiesMap)
    → is_non_string_key key ≡ false
    → (q : PropertiesMap) × (put key (str s) p ≡ ok q)
      × ((j : String) → get_property j q ≡ (if same key j then some s else get_property j p))
unfolding is_invalid
get_property-put key s p h =
    (insert key (str s) p, put-valid key (str s) p h, λ j. get_property-insert key j s p)

pub get_property-remove :
    (key j : String) (p : PropertiesMap)
    → get_property j (remove key p) ≡ (if same key j then none else get_property j p)
unfolding remove
get_property-remove key j p =
    ground (arith, get_property-find j (erase key p), get_property-find j p, find-erase key j p)

validate_all-IsValid : (m : PropertiesMap) → validate_all m ≡ ok tt → IsValid m
unfolding validate_all validate
validate_all-IsValid [] h = tt
validate_all-IsValid ((key, value) ∷ m) h = ground (arith, validate_all-IsValid m)

-- A map that the constructor takes is valid.
pub properties_of-IsValid : (m p : PropertiesMap) → properties_of m ≡ ok p → (p ≡ m) × IsValid p
unfolding properties_of
properties_of-IsValid m p h = ground (arith, validate_all-IsValid m, h)

insert-IsValid :
    (key : String) (value : ValueType) (p : PropertiesMap)
    → is_invalid key value ≡ false
    → IsValid p
    → IsValid (insert key value p)
unfolding insert
insert-IsValid key value [] h v = (h, tt)
insert-IsValid key value ((j, w) ∷ p) h v = ground (arith, insert-IsValid key value p h v.1)

pub remove-IsValid : (key : String) (p : PropertiesMap) → IsValid p → IsValid (remove key p)
unfolding remove erase
remove-IsValid key [] v = tt
remove-IsValid key ((j, w) ∷ p) v = ground (arith, remove-IsValid key p v.1)

-- The kind that a key asks for.
abbrev key_kind : String → ℕ
key_kind key =
    if str_eq key "log_cb"
    then 1
    else if str_eq key "error_cb"
    then 2
    else if str_eq key "stats_cb"
    then 3
    else if str_eq key "oauthbearer_token_refresh_cb"
    then 4
    else if str_eq key "interceptors"
    then 5
    else 0

kind_for :
    (key expected : String) (n : ℕ)
    → not (str_eq key expected) ≡ false
    → n ≡ key_kind expected
    → n ≡ key_kind key
kind_for key expected n h e =
    subst (λ k. n ≡ key_kind k) (sym ((eq_iff key expected).0 (ground (arith, h)))) e

kind_of-valid :
    (key : String) (v : ValueType) → is_invalid key v ≡ false → kind_id (kind_of v) ≡ key_kind key
unfolding is_invalid is_non_string_key
kind_of-valid key (str s) h = ground (arith, h)
kind_of-valid key (object log_callback n) h = kind_for key "log_cb" 1 h refl
kind_of-valid key (object error_callback n) h = kind_for key "error_cb" 2 h refl
kind_of-valid key (object stats_callback n) h = kind_for key "stats_cb" 3 h refl
kind_of-valid key (object token_refresh_callback n) h =
    kind_for key "oauthbearer_token_refresh_cb" 4 h refl
kind_of-valid key (object interceptor n) h = kind_for key "interceptors" 5 h refl

find-valid :
    (key : String) (w : ValueType) (p : PropertiesMap)
    → IsValid p
    → find key p ≡ some w
    → is_invalid key w ≡ false
unfolding find
find-valid key w [] v h = absurd (ground arith)
find-valid key w ((j, x) ∷ p) v h = elim (Bool-cases (same j key)) [
  | inl e ↦
      subst (λ k. is_invalid k w ≡ false) (same→eq j key e)
        (subst (λ y. is_invalid j y ≡ false) (ground (arith, e, h)) v.0)
  | inr e ↦ find-valid key w p v.1 (ground (arith, e, h))
]

-- In a map whose values are valid for their keys, where a value stands under a key, `get` with
-- the type of any value that is valid for the key gives it.
pub get-valid :
    (key : String) (value w : ValueType) (p : PropertiesMap)
    → IsValid p
    → is_invalid key value ≡ false
    → find key p ≡ some w
    → get (kind_of value) key p ≡ ok w
unfolding get
get-valid key value w p v h e =
    ground (arith, kind_of-valid key value h, kind_of-valid key w (find-valid key w p v e), e)
