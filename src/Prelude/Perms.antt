-- ===== src/Prelude/Perms.antt =====
-- Permutations measured by native numbers, and what their members satisfy.
use Prim.Native.Nat.{suc}
use mathlib.Core.Path.{◌≡◌, refl, ap, ◌∙◌}
use mathlib.Core.Logic.{∥∥₁_elim}
use mathlib.Core.Logic.Or
use mathlib.Core.List.{List, [], ◌∷◌, Perm, Permᴰ, Mem, mem-cons, not-mem-nil}
use native.Mathlib.Nat.{ℕ_set}
use modern_cpp_kafka.Prelude.Lists.{length, All}

module _ {ℓ} {A : Type ℓ} where
  -- By recursion on the exchanges that make up the permutation.
  length-Permᴰ : {xs ys : List A} → Permᴰ xs ys → length xs ≡ length ys
  length-Permᴰ (Permᴰ.trans first second) = length-Permᴰ first ∙ length-Permᴰ second
  length-Permᴰ (Permᴰ.swap x y) = refl
  length-Permᴰ (Permᴰ.cons x rest) = ap suc (length-Permᴰ rest)
  length-Permᴰ Permᴰ.nil = refl

  pub length-perm : {us vs : List A} → Perm us vs → length us ≡ length vs
  length-perm same_elements = ∥∥₁_elim same_elements (ℕ_set _ _) length-Permᴰ

  pub All-mem {κ} :
      (P : A → Type κ) (y : A) (xs : List A)
      → IsProp (P y)
      → ((x : A) → y ≡ x → P x → P y)
      → All P xs
      → Mem y xs
      → P y
  All-mem P y [] prop carry h m = absurd (not-mem-nil m)
  All-mem P y (x ∷ xs) prop carry h m =
      Or.elim prop (mem-cons.0 m) (λ e. carry x e h.0) (All-mem P y xs prop carry h.1)
