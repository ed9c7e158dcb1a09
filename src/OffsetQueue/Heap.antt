-- ===== src/OffsetQueue/Heap.antt =====
-- The class template `Heap` of include/kafka/addons/UnorderedOffsetCommitQueue.h: a binary min-heap
-- in a vector. `data.at` throws out of range. Indices stay far below the width of `std::size_t`.
pub mod Swap
pub mod Order
pub mod Push
mod Tests
pub mod Pop
use modern_cpp_kafka.Prelude.{
  ℕ, zero, suc, ◌+◌, ◌-◌, ◌*◌, ◌/◌, List, [], ◌∷◌, ◌++◌, Ord, ltb, leb, if◌then◌else◌, length, set,
  get_elem?, back, pop_back, is_empty,
}
use modern_cpp_kafka.Outcome.{
  Outcome, ok, throw, undefined, out_of_fuel, out_of_range, ◌>>=◌, or_else,
}

-- ((indexCurrent + 1) / 2) - 1
abbrev pub parent : ℕ → ℕ
parent i = (i + 1) / 2 - 1

module _ {ℓ} {A : Type ℓ} where
  -- data.at(i)
  pub at : List A → ℕ → Outcome A
  at a i = or_else (get_elem? a i) (throw out_of_range)

  -- std::swap(data.at(i), data.at(j))
  pub swap : List A → ℕ → ℕ → Outcome (List A)
  unfolding at
  swap a i j = do x ← at a i; y ← at a j; ok (set (set a i y) j x)

  unfoldable pub front : List A → Outcome A
  unfolding at
  front a = at a 0

module _ {ℓ} {A : Type ℓ} ⦃o : Ord A⦄ where
  pub push_loop : ℕ → List A → ℕ → Outcome (List A)
  push_loop zero a current = out_of_fuel
  push_loop (suc fuel) a current =
      let rise = swap a current (parent current) >>= λ b. push_loop fuel b (parent current) in
      let compare : Outcome (List A) = do
        x ← at a current
        y ← at a (parent current)
        if o.lt x y then rise else ok a
      in if ltb 0 current then compare else ok a

  unfoldable pub push : A → List A → Outcome (List A)
  unfolding push_loop swap
  push t a = let grown = a ++ t ∷ [] in push_loop (length grown) grown (length grown - 1)

  -- The left child if there is no right one, or if the left is smaller.
  pub min_child : List A → ℕ → Outcome ℕ
  min_child a current =
      let right = (current + 1) * 2 in
      let left = right - 1 in
      if leb (length a) right
      then ok left
      else do x ← at a left; y ← at a right; ok (if o.lt x y then left else right)

  pub pop_loop : ℕ → List A → ℕ → Outcome (List A)
  pop_loop zero a current = out_of_fuel
  pop_loop (suc fuel) a current =
      let sink : Outcome (List A) = do
        child ← min_child a current
        x ← at a child
        y ← at a current
        let deeper = swap a current child >>= λ b. pop_loop fuel b child
        if o.lt x y then deeper else ok a
      in if leb (length a) ((current + 1) * 2 - 1) then ok a else sink

  -- `data.back()` of an empty vector is undefined.
  unfoldable pub pop_front : List A → Outcome (List A)
  unfolding pop_loop min_child swap
  pop_front [] = undefined
  pop_front (x ∷ xs) =
      let rest = pop_back (back x xs ∷ xs) in
      if is_empty rest then ok rest else pop_loop (length rest) rest 0
