-- ===== src/Client/Configure.antt =====
-- The configuration of a client: `validateAndReformProperties`, `setLogLevel` and the timeouts.
use modern_cpp_kafka.Prelude.{
  ◌≡◌, refl, ap, same→eq, text_lt, ℕ, ◌≤◌, ◌%◌, leb, ℤ, pos, negsuc, ◌≤ℤ◌, String, true, false,
  Option-cases, inl, inr, Option, none, some, if◌then◌else◌, text_ord, same, arith,
}
use modern_cpp_kafka.Outcome.{ok, throw, kafka_error, invalid_arg}
use modern_cpp_kafka.StdText.{to_string}
use modern_cpp_kafka.Properties.{PropertiesMap, is_non_string_key, get_property}
use modern_cpp_kafka.Properties.Laws.{get_property-put}
use modern_cpp_kafka.Client.{
  KafkaClient, put_default, set_log_level, convert_ms_duration_to_int, static_cast_int,
  validate_and_reform_properties,
}

same_property :
    (k j : String) (p : PropertiesMap) → same k j ≡ true → get_property k p ≡ get_property j p
same_property k j p e = ap (λ x. get_property x p) (same→eq k j e)

-- `v`, or `d` where there is none.
abbrev pub or_default : Option String → String → String
or_default none d = d
or_default (some s) d = s

pub set_log_level_lem :
    (level : ℤ) (c : KafkaClient)
    → (pos 0 ≤ℤ (set_log_level level c).log_level)
      × ((set_log_level level c).log_level ≤ℤ pos 7)
      × (pos 0 ≤ℤ level → level ≤ℤ pos 7 → (set_log_level level c).log_level ≡ level)
unfolding set_log_level
set_log_level_lem level c = (ground arith, ground arith, λ h k. ground (arith, h, k))

mod_small : (n : ℕ) → n ≤ 2147483647 → n % 4294967296 ≡ n
mod_small n h = omega (arith, h)

-- A timeout that is not negative is passed on if it is at most 2^31 - 1 milliseconds and becomes
-- the infinite one, -1, if it is longer.
pub convert_ms_duration_to_int_lem :
    (n : ℕ) → convert_ms_duration_to_int (pos n) ≡ (if leb n 2147483647 then pos n else negsuc 0)
unfolding convert_ms_duration_to_int static_cast_int
convert_ms_duration_to_int_lem n = ground (arith, mod_small n)

pub put_default_lem :
    (key d : String) (p : PropertiesMap)
    → is_non_string_key key ≡ false
    → (q : PropertiesMap) × (put_default key d p ≡ ok q)
      × ((j : String)
          → get_property j q
            ≡ (if same key j then some (or_default (get_property key p) d) else get_property j p))
unfolding put_default
put_default_lem key d p h = elim (Option-cases (get_property key p)) [
  | inl e ↦
      let r = get_property-put key d p h in
      (r.0, ground (arith, e, r.1), λ j. ground (arith, e, r.2 j))
  | inr (s, e) ↦ (p, ground (arith, e), λ j. kept j s e)
]
  where
    kept :
        (j s : String)
        → get_property key p ≡ some s
        → get_property j p
          ≡ (if same key j then some (or_default (get_property key p) d) else get_property j p)
    kept j s e = ground (arith, e, same_property key j p)

distinct_keys : same {A = String} "client.id" "log_level" ≡ false
unfolding text_lt
distinct_keys = refl

-- Properties with `bootstrap.servers` are taken: in the result `log_level` is the given or else
-- 5, `client.id` the given or else the random one, and every other lookup gives what it gave.
pub validate_and_reform_properties_lem :
    (random servers : String) (p : PropertiesMap)
    → get_property "bootstrap.servers" p ≡ some servers
    → (q : PropertiesMap) × (validate_and_reform_properties random p ≡ ok q)
      × ((j : String)
          → get_property j q ≡ (
              if same "log_level" j
              then some (or_default (get_property "log_level" p) "5")
              else if same "client.id" j
              then some (or_default (get_property "client.id" p) random)
              else get_property j p))
unfolding validate_and_reform_properties to_string is_non_string_key
validate_and_reform_properties_lem random servers p h =
    let a = put_default_lem "client.id" random p refl in
    let b = put_default_lem "log_level" "5" a.0 refl in
    (
      b.0,
      ground (arith, h, a.1, b.1),
      λ j. ground (arith, a.2 j, a.2 "log_level", b.2 j, distinct_keys),
    )

-- Without `bootstrap.servers` they are refused.
pub validate_and_reform_properties_missing :
    (random : String) (p : PropertiesMap)
    → get_property "bootstrap.servers" p ≡ none
    → validate_and_reform_properties random p ≡ throw (kafka_error invalid_arg)
unfolding validate_and_reform_properties
validate_and_reform_properties_missing random p h = ground (arith, h)
