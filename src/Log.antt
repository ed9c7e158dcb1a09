-- ===== src/Log.antt =====
-- include/kafka/Log.h: the names of the levels, the buffer that a line is printed into, and the global
-- logger. `std::snprintf` is modelled by the text that its format and arguments make.
pub mod Laws
mod Tests
use text.Mathlib.Text.{◌==◌ as str_eq}
use modern_cpp_kafka.Prelude.{
  min, ℕ, zero, suc, ◌+◌, ◌-◌, ◌≤◌, String, Bool, true, false, Option, none, some, List, [], ◌∷◌,
  ◌++◌, if◌then◌else◌, ltb, get_or, length,
}
use modern_cpp_kafka.Texts.{◌<>◌}

abbrev pub level_names : List String
level_names =
    "EMERG" ∷ "ALERT" ∷ "CRIT" ∷ "ERR" ∷ "WARNING" ∷ "NOTICE" ∷ "INFO" ∷ "DEBUG" ∷ "INVALID" ∷ []

-- `levelNames.at(min(level, maxIndex))`
abbrev pub level_string : ℕ → String
level_string level = get_or level_names (if ltb 8 level then 8 else level) ""

-- The characters of the buffer up to the terminating zero, and the place that `_wptr` points to. The
-- buffer has `capacity` bytes.
pub record LogBuffer : Type 0 where
  pub text : List ℕ
  pub wptr : ℕ

abbrev pub clear : LogBuffer
clear = record { text = []; wptr = 0 }

abbrev pub take : ℕ → List ℕ → List ℕ
take zero s = []
take (suc n) [] = []
take (suc n) (c ∷ s) = c ∷ take n s

-- `capacity()`: the bytes from the place on.
abbrev pub capacity_left : ℕ → LogBuffer → ℕ
capacity_left capacity b = capacity - b.wptr

-- `print` of a text without a zero: `snprintf` writes what fits with a zero behind it, and returns the
-- length of the whole. What stood after the place is gone, since the zero ends the text.
unfoldable pub print : ℕ → List ℕ → LogBuffer → LogBuffer
print capacity [] b = record b { text = take b.wptr b.text }
print capacity (c ∷ s) b = record {
  text = take b.wptr b.text ++ take (capacity_left capacity b - 1) (c ∷ s);
  wptr = min (b.wptr + length (c ∷ s)) (capacity - 1);
}

unfoldable pub print_all : ℕ → List (List ℕ) → LogBuffer → LogBuffer
unfolding print
print_all capacity [] b = b
print_all capacity (s ∷ ss) b = print_all capacity ss (print capacity s b)

-- The global logger: whether it has been initialised, and the callback, `none` for an empty one.
pub record GlobalLogger : Type 0 where
  pub init_once : Bool
  pub log_cb : Option ℕ

abbrev pub default_logger : ℕ
default_logger = 0

abbrev pub set_global_logger : Option ℕ → GlobalLogger → GlobalLogger
set_global_logger cb g = record { init_once = true; log_cb = cb }

abbrev pub log_buffer_size : ℕ
log_buffer_size = 1024

-- KAFKA_API_LOG: the logger after it, and the callback that is called, with the line.
unfoldable pub log : List ℕ → GlobalLogger → GlobalLogger × Option (ℕ × List ℕ)
unfolding print
log line g =
    let h = if g.init_once then g else record { init_once = true; log_cb = some default_logger } in
    (
      h,
      elim h.log_cb [ none ↦ none | some cb ↦ some (cb, (print log_buffer_size line clear).text) ],
    )
