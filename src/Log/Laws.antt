-- ===== src/Log/Laws.antt =====
-- The buffer holds the front of all that is printed, and nothing is written beyond it.
use mathlib.Core.List.{append_assoc, append-nil}
use mathlib.Core.Path.{ap₂}
use modern_cpp_kafka.Prelude.{
  min, ℕ, zero, suc, ◌-◌, ◌<◌, ◌≤◌, ◌≡◌, refl, ap, sym, ◌∙◌, List, [], ◌∷◌, ◌++◌, arith, length,
  length-append, subst,
}
use modern_cpp_kafka.Log.{LogBuffer, clear, take, capacity_left, print, print_all}

length-take : (n : ℕ) (s : List ℕ) → length (take n s) ≡ min n (length s)
length-take zero s = ground arith
length-take (suc n) [] = ground arith
length-take (suc n) (c ∷ s) = ground (arith, length-take n s)

take_all : (n : ℕ) (s : List ℕ) → length s ≤ n → take n s ≡ s
take_all zero [] h = refl
take_all zero (c ∷ s) h = absurd (omega arith)
take_all (suc n) [] h = refl
take_all (suc n) (c ∷ s) h = ap (λ (l : List ℕ). c ∷ l) (take_all n s (omega arith))

take_none : (n : ℕ) (s : List ℕ) → n ≡ 0 → take n s ≡ []
take_none zero s h = refl
take_none (suc n) s h = absurd (omega arith)

take-append : (n : ℕ) (s t : List ℕ) → take n (s ++ t) ≡ take n s ++ take (n - length s) t
take-append zero s t = sym (take_none (0 - length s) t (omega arith))
take-append (suc n) [] t = let e : suc n ≡ suc n - 0 = omega arith in ap (λ (k : ℕ). take k t) e
take-append (suc n) (c ∷ s) t =
    let e : n - length s ≡ suc n - suc (length s) = omega arith in
    ap (λ (l : List ℕ). c ∷ l) (take-append n s t) ∙ ap (λ (k : ℕ). (c ∷ take n s) ++ take k t) e

unfoldable pub concat : List (List ℕ) → List ℕ
concat [] = []
concat (s ∷ ss) = s ++ concat ss

take_nil : (n : ℕ) → take n [] ≡ []
take_nil n = take_all n [] (omega arith)

min_comm : (m n : ℕ) → min m n ≡ min n m
min_comm m n = ground arith

-- The buffer after the text `s` was printed.
abbrev Holds : ℕ → List ℕ → LogBuffer → Type 0
Holds capacity s b = (b.text ≡ take (capacity - 1) s) × (b.wptr ≡ min (length s) (capacity - 1))

print-Holds :
    (capacity : ℕ) (s t : List ℕ) (b : LogBuffer)
    → 0 < capacity
    → Holds capacity s b
    → Holds capacity (s ++ t) (print capacity t b)
unfolding print
print-Holds capacity s [] b h (text, wptr) = (
  kept ∙ text ∙ ap (take (capacity - 1)) (sym (append-nil s)),
  wptr ∙ ap (λ (l : List ℕ). min (length l) (capacity - 1)) (sym (append-nil s)),
)
  where
    kept : take b.wptr b.text ≡ b.text
    kept = take_all b.wptr b.text (
        omega (
          arith,
          ap length text,
          length-take (capacity - 1) s,
          min_comm (length s) (capacity - 1),
          wptr,
        ))
print-Holds capacity s (c ∷ t) b h (text, wptr) = (
  ap₂ ◌++◌ (kept ∙ text) (ap (λ (n : ℕ). take n (c ∷ t)) room)
      ∙ sym (take-append (capacity - 1) s (c ∷ t)),
  ground (arith, wptr, length-append s (c ∷ t)),
)
  where
    kept : take b.wptr b.text ≡ b.text
    kept = take_all b.wptr b.text (
        omega (
          arith,
          ap length text,
          length-take (capacity - 1) s,
          min_comm (length s) (capacity - 1),
          wptr,
        ))

    room : capacity_left capacity b - 1 ≡ capacity - 1 - length s
    room = ground (arith, wptr)

print_all-Holds :
    (capacity : ℕ) (ss : List (List ℕ)) (s : List ℕ) (b : LogBuffer)
    → 0 < capacity
    → Holds capacity s b
    → Holds capacity (s ++ concat ss) (print_all capacity ss b)
unfolding print_all concat
print_all-Holds capacity [] s b h k =
    subst (λ (l : List ℕ). Holds capacity l b) (sym (append-nil s)) k
print_all-Holds capacity (t ∷ ts) s b h k =
    subst (λ (l : List ℕ). Holds capacity l (print_all capacity ts (print capacity t b)))
      (append_assoc s t (concat ts))
      (print_all-Holds capacity ts (s ++ t) (print capacity t b) h (print-Holds capacity s t b h k))

-- After any prints into a cleared buffer of at least one byte, it holds the front of all that was
-- printed, as much as leaves room for the zero, and its place is behind that and within the buffer.
pub print_all-clear :
    (capacity : ℕ) (ss : List (List ℕ))
    → 0 < capacity
    → ((print_all capacity ss clear).text ≡ take (capacity - 1) (concat ss))
      × ((print_all capacity ss clear).wptr ≡ length (print_all capacity ss clear).text)
      × ((print_all capacity ss clear).wptr < capacity)
print_all-clear capacity ss h =
    let (text, wptr) =
      print_all-Holds capacity ss [] clear h (sym (take_nil (capacity - 1)), ground (arith, h)) in
    (
      text,
      omega (
        arith,
        wptr,
        ap length text,
        length-take (capacity - 1) (concat ss),
        min_comm (length (concat ss)) (capacity - 1),
      ),
      ground (arith, wptr, h),
    )
