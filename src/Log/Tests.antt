-- ===== src/Log/Tests.antt =====
-- Two prints into a buffer of four bytes.
use modern_cpp_kafka.Prelude.{◌<◌, ◌≡◌, [], ◌∷◌, arith, length}
use modern_cpp_kafka.Log.{clear, take, print_all}
use modern_cpp_kafka.Log.Laws.{concat, print_all-clear}

print_all-clear_example :
    ((print_all 4 ((72 ∷ 105 ∷ []) ∷ (33 ∷ 33 ∷ []) ∷ []) clear).text
      ≡ take 3 (concat ((72 ∷ 105 ∷ []) ∷ (33 ∷ 33 ∷ []) ∷ [])))
    × ((print_all 4 ((72 ∷ 105 ∷ []) ∷ (33 ∷ 33 ∷ []) ∷ []) clear).wptr
        ≡ length (print_all 4 ((72 ∷ 105 ∷ []) ∷ (33 ∷ 33 ∷ []) ∷ []) clear).text)
    × ((print_all 4 ((72 ∷ 105 ∷ []) ∷ (33 ∷ 33 ∷ []) ∷ []) clear).wptr < 4)
print_all-clear_example = print_all-clear 4 ((72 ∷ 105 ∷ []) ∷ (33 ∷ 33 ∷ []) ∷ []) (omega arith)
