-- ===== src/Function/WellFormed.antt =====
-- What every function of the IL keeps: slices within the pools, blocks that list ops that are there
-- with a terminator at the end only, and values that know the op that defines them.
pub mod Blocks
pub mod Values
pub mod Steps
pub mod Edits
pub mod Removal
pub mod Relink
use xdec.Base.{
  ℕ, ◌+◌, ◌≤◌, ◌<◌, ◌≡◌, Bool, true, false, Option, none, some, List, [], ◌∷◌, length, get_elem?,
}
use xdec.Function.{Function, Op, Block, ValueInfo, invalid, valid, ends_block}
use xdec.Function.Interning.{IsInterned}

abbrev pub ends_at : List Op → ℕ → Bool
ends_at ops id = elim (get_elem? ops id) [ none ↦ false | some op ↦ ends_block op.code ]

-- Handles of ops, of which only the last may end a block.
abbrev pub Listed : List Op → List ℕ → Type 0
Listed ops [] = Unit
Listed ops (x ∷ []) = x < length ops
Listed ops (x ∷ y ∷ xs) = (x < length ops) × (ends_at ops x ≡ false) × Listed ops (y ∷ xs)

abbrev pub BlocksOk : List Op → List Block → Type 0
BlocksOk ops blocks = (b : ℕ) (x : Block) → get_elem? blocks b ≡ some x → Listed ops x.ops

abbrev pub SlicesOk : List Op → List ℕ → List ℕ → Type 0
SlicesOk ops operand_pool target_pool =
    (id : ℕ) (op : Op)
    → get_elem? ops id ≡ some op
    → (op.operand_start + op.operand_count ≤ length operand_pool)
      × (op.target_start + op.target_count ≤ length target_pool)

-- A valid result is a value whose definition is the op.
abbrev pub ValuesOk : List Op → List ValueInfo → Type 0
ValuesOk ops values =
    (id : ℕ) (op : Op)
    → get_elem? ops id ≡ some op
    → valid op.result ≡ true
    → (info : ValueInfo) × (get_elem? values op.result ≡ some info) × (info.definition ≡ id)

pub record IsWellFormed (f : Function) : Type 0 where
  pub pool : IsInterned f.exprs
  pub op_count : length f.ops ≤ invalid
  pub block_count : length f.blocks ≤ invalid
  pub value_count : length f.values ≤ invalid
  pub slices : SlicesOk f.ops f.operand_pool f.target_pool
  pub blocks : BlocksOk f.ops f.blocks
  pub values : ValuesOk f.ops f.values
