-- ===== src/OffsetQueue/CommitQueue/Wait.antt =====
-- `waitOffset`: which offsets are accepted, and what they add.
use modern_cpp_kafka.Prelude.{
  ℤ, pos, ◌<ℤ◌, ◌≤ℤ◌, ltb_ℤ, ◌≡◌, refl, true, false, List, [], ◌∷◌, ◌++◌, All, arith, back,
}
use modern_cpp_kafka.OffsetQueue.CommitQueue.{CommitQueue, wait_offset, not_beyond}
use modern_cpp_kafka.OffsetQueue.CommitQueue.Spec.{
  Marked, View, spec_wait, offsets, acked_offsets, Beyond, Ascending, IsSettled, Refines,
}

pub offsets-append : (m : Marked) (o : ℤ) → offsets (m ++ (o, false) ∷ []) ≡ offsets m ++ o ∷ []
offsets-append [] o = refl
offsets-append ((p, acked) ∷ r) o = rw (offsets-append r o)

pub acked_offsets-append :
    (m : Marked) (o : ℤ) → acked_offsets (m ++ (o, false) ∷ []) ≡ acked_offsets m
acked_offsets-append [] o = refl
acked_offsets-append ((p, true) ∷ r) o = rw (acked_offsets-append r o)
acked_offsets-append ((p, false) ∷ r) o = acked_offsets-append r o

Beyond-append :
    (b o : ℤ) (m : Marked)
    → b <ℤ o
    → All (λ p. p <ℤ o) (offsets m)
    → Beyond b m
    → Beyond b (m ++ (o, false) ∷ [])
Beyond-append b o [] lt h k = (lt, tt)
Beyond-append b o ((p, acked) ∷ r) lt h k = (k.0, Beyond-append p o r h.0 h.1 k.1)

pub Ascending-append :
    (o : ℤ) (m : Marked)
    → All (λ p. p <ℤ o) (offsets m)
    → Ascending m
    → Ascending (m ++ (o, false) ∷ [])
Ascending-append o [] h k = tt
Ascending-append o ((p, acked) ∷ r) h k = Beyond-append p o r h.0 h.1 k

IsSettled-append : (m : Marked) (o : ℤ) → IsSettled m → IsSettled (m ++ (o, false) ∷ [])
IsSettled-append [] o h = refl
IsSettled-append ((p, acked) ∷ r) o h = h

back-below : (x o : ℤ) (xs : List ℤ) → All (λ p. p <ℤ o) (x ∷ xs) → back x xs <ℤ o
back-below x o [] h = h.0
back-below x o (y ∷ ys) h = back-below y o ys h.1

beyond-All : (o : ℤ) (xs : List ℤ) → All (λ p. p <ℤ o) xs → not_beyond o xs ≡ false
beyond-All o [] h = refl
beyond-All o (x ∷ xs) h = let b = back-below x o xs h in ground (arith, b)

-- An offset that is not negative, and beyond all that are waited for, is added.
pub wait_offset-Refines :
    (o : ℤ) (q : CommitQueue) (v : View)
    → Refines q v
    → pos 0 ≤ℤ o
    → All (λ p. p <ℤ o) (offsets v.waiting)
    → Refines (wait_offset o q) (spec_wait o v)
unfolding wait_offset spec_wait
wait_offset-Refines o q v h nonneg beyond =
    let accepted : ltb_ℤ o (pos 0) ≡ false = ground arith in
    let fresh = beyond-All o (offsets v.waiting) beyond in
    rw (h.received, accepted, fresh)
      (record {
        received = rw (offsets-append v.waiting o);
        heap = h.heap;
        acked = rw acked_offsets-append (h.acked);
        ready = h.ready;
        ascending = Ascending-append o v.waiting beyond (h.ascending);
        settled = IsSettled-append v.waiting o (h.settled);
      })
