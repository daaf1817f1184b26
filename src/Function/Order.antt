-- ===== src/Function/Order.antt =====
-- `Function::reversePostOrder`: a depth-first search with its stack spelled out. The order is kept
-- with the newest block first, which is what reversing the vector gives.
pub mod Invariant
pub mod Work
pub mod Reached
pub mod Rebuilt
use xdec.Base.{
  ℕ, zero, suc, ◌+◌, ◌≡◌, Bool, true, false, Option, none, some, List, [], ◌∷◌, length, get_elem?,
  ◌==◌, if◌then◌else◌,
}
use xdec.Function.{Function, contains}
use xdec.Function.Edges.{successors}

pub data Mark : Type 0 where
  unvisited opened done : Mark

abbrev pub seen : Mark → Bool
seen Mark.unvisited = false
seen Mark.opened = true
seen Mark.done = true

abbrev pub put : ℕ → Mark → (ℕ → Mark) → ℕ → Mark
put b m marks x = if x == b then m else marks x

pub record Search : Type 0 where
  pub marks : ℕ → Mark
  pub stack : List (ℕ × ℕ)
  pub order : List ℕ

module _ (succ : ℕ → List ℕ) where
  -- One round, with the top of the stack taken apart: its next successor, or the end of its list.
  unfoldable pub visit_top : ℕ → ℕ → List (ℕ × ℕ) → Search → Search
  visit_top b child rest s = elim (get_elem? (succ b) child) [
    | some v ↦
        if seen (s.marks v)
        then record s { stack = (b, suc child) ∷ rest }
        else record s { marks = put v Mark.opened s.marks; stack = (v, 0) ∷ (b, suc child) ∷ rest }
    | none ↦ record { marks = put b Mark.done s.marks; stack = rest; order = b ∷ s.order }
  ]

  unfoldable pub search_loop : ℕ → Search → Option (List ℕ)
  unfolding visit_top
  search_loop zero s = elim s.stack [ [] ↦ some s.order | _ ∷ _ ↦ none ]
  search_loop (suc fuel) s = elim s.stack [
    | [] ↦ some s.order
    | (b, child) ∷ rest ↦ search_loop fuel (visit_top b child rest s)
  ]

  abbrev pub start : ℕ → Search
  start entry = record {
    marks = put entry Mark.opened (λ b. Mark.unvisited);
    stack = (entry, 0) ∷ [];
    order = [];
  }

  -- Each block takes a round for each of its successors and one more.
  unfoldable pub rounds : ℕ → ℕ
  rounds zero = 0
  rounds (suc n) = suc (length (succ n)) + rounds n

unfoldable pub reverse_post_order : Function → Option (List ℕ)
unfolding search_loop rounds successors
reverse_post_order f =
    let succ = successors f.blocks in
    if contains f.entry_block f.blocks
    then search_loop succ (rounds succ (length f.blocks)) (start succ f.entry_block)
    else some []
