-- ===== src/OffsetQueue/CommitQueue/Marks.antt =====
-- Laws of the marks: what acking one offset changes, and when there is nothing to settle.
use native.Mathlib.Bridge.{le_prop}
use mathlib.Core.List.{Perm, Mem}
use mathlib.Core.List.Perm
use modern_cpp_kafka.Prelude.{
  ℤ, ◌<ℤ◌, ◌≤ℤ◌, eqb_ℤ, eq_of_parts, ◌≡◌, ◌≢◌, refl, inl, inr, true, false, [], ◌∷◌, All, All-mem,
  arith, List,
}
use modern_cpp_kafka.OffsetQueue.CommitQueue.Spec.{
  Marked, mark, settle, offsets, acked_offsets, Beyond, Ascending, Unacked, IsSettled,
}

pub eqb_ℤ-ne : (a b : ℤ) → a ≢ b → eqb_ℤ a b ≡ false
eqb_ℤ-ne a b ne = ground (arith, eq_of_parts a b)

pub eqb_ℤ-eq : (a b : ℤ) → a ≡ b → eqb_ℤ a b ≡ true
eqb_ℤ-eq a b e = ground arith

pub offsets-mark : (o : ℤ) (m : Marked) → offsets (mark o m) ≡ offsets m
unfolding mark
offsets-mark o [] = refl
offsets-mark o ((p, acked) ∷ r) = ground (arith, offsets-mark o r)

pub Beyond-mark : (b o : ℤ) (m : Marked) → Beyond b m → Beyond b (mark o m)
unfolding mark
Beyond-mark b o [] h = tt
Beyond-mark b o ((p, acked) ∷ r) h = ground (arith, Beyond-mark p o r h.1)

pub Ascending-mark : (o : ℤ) (m : Marked) → Ascending m → Ascending (mark o m)
unfolding mark
Ascending-mark o [] h = tt
Ascending-mark o ((p, acked) ∷ r) h = ground (arith, Beyond-mark p o r h)

pub acked_offsets-mark :
    (o : ℤ) (m : Marked) → Unacked o m → Perm (o ∷ acked_offsets m) (acked_offsets (mark o m))
unfolding mark
acked_offsets-mark o [] u = absurd u
acked_offsets-mark o ((p, true) ∷ r) (inl (e, f)) = absurd (ground arith)
acked_offsets-mark o ((p, false) ∷ r) (inl (e, f)) =
    rw (eqb_ℤ-eq p o e) (Perm.cons' (ground arith) Perm.rfl)
acked_offsets-mark o ((p, true) ∷ r) (inr (ne, u)) =
    rw (eqb_ℤ-ne p o ne)
      (Perm.trans (Perm.swap p o (acked_offsets r)) (Perm.cons p (acked_offsets-mark o r u)))
acked_offsets-mark o ((p, false) ∷ r) (inr (ne, u)) =
    rw (eqb_ℤ-ne p o ne) (acked_offsets-mark o r u)

-- Where no offset is acked there is nothing to settle.
pub settle-unacked :
    (m : Marked) (n : ℤ) → acked_offsets m ≡ [] → settle m n ≡ record { waiting = m; ready = n }
unfolding settle
settle-unacked [] n e = refl
settle-unacked ((p, true) ∷ r) n e = absurd (ground arith)
settle-unacked ((p, false) ∷ r) n e = refl

pub IsSettled-unacked : (m : Marked) → acked_offsets m ≡ [] → IsSettled m
IsSettled-unacked [] e = tt
IsSettled-unacked ((p, true) ∷ r) e = ground arith
IsSettled-unacked ((p, false) ∷ r) e = refl

Beyond-lower : (a b : ℤ) (m : Marked) → a ≤ℤ b → Beyond b m → Beyond a m
Beyond-lower a b [] h k = tt
Beyond-lower a b ((p, acked) ∷ r) h k = (omega (arith, k.0), k.1)

pub Beyond-Ascending : (b : ℤ) (m : Marked) → Beyond b m → Ascending m
Beyond-Ascending b [] h = tt
Beyond-Ascending b ((p, acked) ∷ r) h = h.1

pub acked_offsets-Beyond : (b : ℤ) (m : Marked) → Beyond b m → All (λ z. b <ℤ z) (acked_offsets m)
acked_offsets-Beyond b [] h = tt
acked_offsets-Beyond b ((p, true) ∷ r) h =
    (h.0, acked_offsets-Beyond b r (Beyond-lower b p r (omega (arith, h.0)) h.1))
acked_offsets-Beyond b ((p, false) ∷ r) h =
    acked_offsets-Beyond b r (Beyond-lower b p r (omega (arith, h.0)) h.1)

pub All-mem-lt : (b y : ℤ) (xs : List ℤ) → All (λ z. b <ℤ z) xs → Mem y xs → b <ℤ y
All-mem-lt b y xs = All-mem (λ z. b <ℤ z) y xs le_prop (λ x e h. ground arith)

pub All-mem-le : (b y : ℤ) (xs : List ℤ) → All (λ z. b ≤ℤ z) xs → Mem y xs → b ≤ℤ y
All-mem-le b y xs = All-mem (λ z. b ≤ℤ z) y xs le_prop (λ x e h. ground arith)
