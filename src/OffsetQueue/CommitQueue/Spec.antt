-- ===== src/OffsetQueue/CommitQueue/Spec.antt =====
-- What `UnorderedOffsetCommitQueue` promises: the received offsets with a mark on each that is
-- acked, from the first one that is not, and the offset up to which all are acked.
use mathlib.Core.List.{Perm}
use modern_cpp_kafka.Prelude.{
  ℤ, pos, ◌+ℤ◌, ◌<ℤ◌, eqb_ℤ, ◌≡◌, ◌≢◌, ◌⊎◌, Bool, true, false, List, [], ◌∷◌, ◌++◌, if◌then◌else◌,
  int_ord,
}
use modern_cpp_kafka.OffsetQueue.Heap.Order.{IsHeap}
use modern_cpp_kafka.OffsetQueue.CommitQueue.{CommitQueue}

abbrev pub Marked : Type 0
Marked = List (ℤ × Bool)

pub record View : Type 0 where
  pub waiting : Marked
  pub ready : ℤ

unfoldable pub mark : ℤ → Marked → Marked
mark o [] = []
mark o ((p, acked) ∷ r) = if eqb_ℤ p o then (p, true) ∷ r else (p, acked) ∷ mark o r

-- Drop the acked offsets in front; the last of them moves the commit position.
unfoldable pub settle : Marked → ℤ → View
settle [] n = record { waiting = []; ready = n }
settle ((p, true) ∷ r) n = settle r (p +ℤ pos 1)
settle ((p, false) ∷ r) n = record { waiting = (p, false) ∷ r; ready = n }

unfoldable pub spec_wait : ℤ → View → View
spec_wait o v = record v { waiting = v.waiting ++ (o, false) ∷ [] }

unfoldable pub spec_ack : ℤ → View → View
unfolding mark settle
spec_ack o v = settle (mark o v.waiting) v.ready

abbrev pub offsets : Marked → List ℤ
offsets [] = []
offsets ((p, acked) ∷ r) = p ∷ offsets r

abbrev pub acked_offsets : Marked → List ℤ
acked_offsets [] = []
acked_offsets ((p, true) ∷ r) = p ∷ acked_offsets r
acked_offsets ((p, false) ∷ r) = acked_offsets r

abbrev pub Beyond : ℤ → Marked → Type 0
Beyond b [] = Unit
Beyond b ((p, acked) ∷ r) = (b <ℤ p) × Beyond p r

abbrev pub Ascending : Marked → Type 0
Ascending [] = Unit
Ascending ((p, acked) ∷ r) = Beyond p r

-- `o` was received and is not acked yet.
abbrev pub Unacked : ℤ → Marked → Type 0
Unacked o [] = ⊥
Unacked o ((p, acked) ∷ r) = ((p ≡ o) × (acked ≡ false)) ⊎ ((p ≢ o) × Unacked o r)

abbrev pub IsSettled : Marked → Type 0
IsSettled [] = Unit
IsSettled ((p, acked) ∷ r) = acked ≡ false

-- The queue holds exactly what the view shows.
pub record Refines (q : CommitQueue) (v : View) : Type 0 where
  pub received : q.offsets_received ≡ offsets v.waiting
  pub heap : IsHeap (pos 0) q.offsets_to_commit
  pub acked : Perm q.offsets_to_commit (acked_offsets v.waiting)
  pub ready : q.to_commit ≡ v.ready
  pub ascending : Ascending v.waiting
  pub settled : IsSettled v.waiting
