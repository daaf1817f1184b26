-- ===== src/Function/Order/Work.antt =====
-- The rounds that the depth-first search has left.
use xdec.Base.{
  ℕ, zero, suc, ◌+◌, ◌-◌, ◌≤◌, ◌<◌, ◌≡◌, refl, List, [], ◌∷◌, length, if◌then◌else◌, arith,
}
use native.Mathlib.Decide.{ℕ_discrete}
use xdec.Function.Order.{Mark, seen, put, rounds}

module _ (succ : ℕ → List ℕ) where
  abbrev pub weight : ℕ → ℕ
  weight b = suc (length (succ b))

  abbrev pub pending : ℕ → (ℕ → Mark) → ℕ
  pending zero marks = 0
  pending (suc n) marks = (if seen (marks n) then 0 else weight n) + pending n marks

  abbrev pub stacked : List (ℕ × ℕ) → ℕ
  stacked [] = 0
  stacked ((b, c) ∷ st) = suc (length (succ b) - c) + stacked st

  pending_above :
      (n v : ℕ) (m : Mark) (marks : ℕ → Mark) → n ≤ v → pending n (put v m marks) ≡ pending n marks
  pending_above zero v m marks h = refl
  pending_above (suc n) v m marks h = ground (arith, pending_above n v m marks)

  pub pending-open :
      (n v : ℕ) (marks : ℕ → Mark)
      → v < n
      → marks v ≡ Mark.unvisited
      → pending n (put v Mark.opened marks) + weight v ≡ pending n marks
  pending-open zero v marks h e = absurd (omega arith)
  pending-open (suc n) v marks h e = elim (ℕ_discrete n v) [
    | yes p ↦ ground (arith, pending_above n v Mark.opened marks)
    | no p ↦ ground (arith, pending-open n v marks)
  ]

  pub pending-done :
      (n v : ℕ) (marks : ℕ → Mark)
      → marks v ≡ Mark.opened
      → pending n (put v Mark.done marks) ≡ pending n marks
  pending-done zero v marks e = refl
  pending-done (suc n) v marks e = ground (arith, pending-done n v marks)

  pub pending_all : (n : ℕ) → pending n (λ b. Mark.unvisited) ≡ rounds succ n
  unfolding rounds
  pending_all zero = refl
  pending_all (suc n) = omega (arith, pending_all n)
