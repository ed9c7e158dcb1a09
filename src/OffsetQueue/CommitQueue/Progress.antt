-- ===== src/OffsetQueue/CommitQueue/Progress.antt =====
-- What a settled view says of the history.
use modern_cpp_kafka.Prelude.{
  ℤ, pos, ◌+ℤ◌, +ℤ_parts, ◌<ℤ◌, ◌≤ℤ◌, ◌≡◌, inl, inr, refl, Bool, true, false, List, [], ◌∷◌, ◌++◌,
  All, arith, back,
}
use modern_cpp_kafka.OffsetQueue.CommitQueue.Spec.{
  Marked, mark, settle, spec_wait, spec_ack, offsets, Beyond, Ascending, Unacked,
}
use modern_cpp_kafka.OffsetQueue.CommitQueue.Marks.{Beyond-Ascending, eqb_ℤ-ne, eqb_ℤ-eq}

-- Waiting for an offset and settling commute.
pub settle-append :
    (m : Marked) (n o : ℤ) → settle (m ++ (o, false) ∷ []) n ≡ spec_wait o (settle m n)
unfolding settle spec_wait
settle-append [] n o = refl
settle-append ((p, true) ∷ r) n o = settle-append r (p +ℤ pos 1) o
settle-append ((p, false) ∷ r) n o = refl

-- So do acking an offset and settling, where the offset is not acked yet.
pub settle-mark :
    (m : Marked) (n o : ℤ) → Unacked o m → settle (mark o m) n ≡ spec_ack o (settle m n)
unfolding settle mark spec_ack
settle-mark [] n o u = absurd u
settle-mark ((p, true) ∷ r) n o (inl (e, f)) = ground arith
settle-mark ((p, true) ∷ r) n o (inr (ne, u)) = ground (arith, settle-mark r (p +ℤ pos 1) o u)
settle-mark ((p, false) ∷ r) n o u = refl

pub Unacked-settle : (m : Marked) (n o : ℤ) → Unacked o m → Unacked o (settle m n).waiting
unfolding settle
Unacked-settle [] n o u = absurd u
Unacked-settle ((p, true) ∷ r) n o (inl (e, f)) = absurd (ground arith)
Unacked-settle ((p, true) ∷ r) n o (inr (ne, u)) = Unacked-settle r (p +ℤ pos 1) o u
Unacked-settle ((p, false) ∷ r) n o u = u

pub All-settle :
    (m : Marked) (n o : ℤ)
    → All (λ p. p <ℤ o) (offsets m)
    → All (λ p. p <ℤ o) (offsets (settle m n).waiting)
unfolding settle
All-settle [] n o h = tt
All-settle ((p, true) ∷ r) n o h = All-settle r (p +ℤ pos 1) o h.1
All-settle ((p, false) ∷ r) n o h = h

Unacked-Beyond : (b o : ℤ) (m : Marked) → Beyond b m → Unacked o m → b <ℤ o
Unacked-Beyond b o [] h u = absurd u
Unacked-Beyond b o ((p, acked) ∷ r) h (inl (e, f)) = let k = h.0 in ground (arith, k)
Unacked-Beyond b o ((p, acked) ∷ r) h (inr (ne, u)) = omega (arith, h.0, Unacked-Beyond p o r h.1 u)

-- The commit position never passes an offset that is not acked.
pub ready-le-unacked :
    (m : Marked) (n o : ℤ) → Ascending m → n ≤ℤ o → Unacked o m → (settle m n).ready ≤ℤ o
unfolding settle
ready-le-unacked [] n o asc h u = absurd u
ready-le-unacked ((p, true) ∷ r) n o asc h (inl (e, f)) = absurd (ground arith)
ready-le-unacked ((p, true) ∷ r) n o asc h (inr (ne, u)) =
    ready-le-unacked r (p +ℤ pos 1) o (Beyond-Ascending p r asc)
      (omega (arith, +ℤ_parts p (pos 1), Unacked-Beyond p o r asc u)) u
ready-le-unacked ((p, false) ∷ r) n o asc h u = h

abbrev pub AllAcked : Marked → Type 0
AllAcked [] = Unit
AllAcked ((p, acked) ∷ r) = (acked ≡ true) × AllAcked r

-- Once all are acked, nothing is left waiting, and the position is one past the last.
pub settle-AllAcked :
    (p : ℤ) (acked : Bool) (r : Marked) (n : ℤ)
    → AllAcked ((p, acked) ∷ r)
    → settle ((p, acked) ∷ r) n ≡ record { waiting = []; ready = back p (offsets r) +ℤ pos 1 }
unfolding settle
settle-AllAcked p true [] n h = refl
settle-AllAcked p true ((p', acked') ∷ r) n h = settle-AllAcked p' acked' r (p +ℤ pos 1) h.1
settle-AllAcked p false r n h = absurd (ground arith)

All-raise : (a b : ℤ) (xs : List ℤ) → a ≤ℤ b → All (λ p. b ≤ℤ p) xs → All (λ p. a ≤ℤ p) xs
All-raise a b [] h k = tt
All-raise a b (x ∷ xs) h k = (omega (arith, k.0), All-raise a b xs h k.1)

offsets-Beyond : (b : ℤ) (m : Marked) → Beyond b m → All (λ p. b +ℤ pos 1 ≤ℤ p) (offsets m)
offsets-Beyond b [] h = tt
offsets-Beyond b ((p, acked) ∷ r) h = (
  omega (arith, +ℤ_parts b (pos 1), h.0),
  All-raise (b +ℤ pos 1) (p +ℤ pos 1) (offsets r)
      (omega (arith, +ℤ_parts b (pos 1), +ℤ_parts p (pos 1), h.0)) (offsets-Beyond p r h.1),
)

ready-ge :
    (m : Marked) (n : ℤ) → Ascending m → All (λ p. n ≤ℤ p) (offsets m) → n ≤ℤ (settle m n).ready
unfolding settle
ready-ge [] n asc h = omega arith
ready-ge ((p, true) ∷ r) n asc h =
    let later = ready-ge r (p +ℤ pos 1) (Beyond-Ascending p r asc) (offsets-Beyond p r asc) in
    omega (arith, later, +ℤ_parts p (pos 1), h.0)
ready-ge ((p, false) ∷ r) n asc h = omega arith

-- Acking moves the commit position forward only.
pub ready-mono :
    (m : Marked) (n o : ℤ)
    → Ascending m
    → All (λ p. n ≤ℤ p) (offsets m)
    → Unacked o m
    → (settle m n).ready ≤ℤ (settle (mark o m) n).ready
unfolding settle mark
ready-mono [] n o asc h u = absurd u
ready-mono ((p, true) ∷ r) n o asc h (inl (e, f)) = absurd (ground arith)
ready-mono ((p, true) ∷ r) n o asc h (inr (ne, u)) =
    rw (eqb_ℤ-ne p o ne)
      (ready-mono r (p +ℤ pos 1) o (Beyond-Ascending p r asc) (offsets-Beyond p r asc) u)
ready-mono ((p, false) ∷ r) n o asc h (inl (e, f)) =
    let later = ready-ge r (p +ℤ pos 1) (Beyond-Ascending p r asc) (offsets-Beyond p r asc) in
    rw (eqb_ℤ-eq p o e) (omega (arith, later, +ℤ_parts p (pos 1), h.0))
ready-mono ((p, false) ∷ r) n o asc h (inr (ne, u)) = rw (eqb_ℤ-ne p o ne) (omega arith)
