-- ===== src/Function/Edges.antt =====
-- `Function::rebuildEdges`: the edges of the blocks from their terminators.
pub mod Links
pub mod Dual
use xdec.Base.{
  ℕ, suc, Option, none, some, List, [], ◌∷◌, get_elem?, push_back, set, ◌>>=◌, if◌then◌else◌,
}
use xdec.Function.{Function, Block, contains, at, ends_block, targets}
use xdec.Function.Append.{back}

-- A target that is no block is left out; equal targets are kept.
unfoldable pub keep_blocks : List Block → List ℕ → List ℕ
keep_blocks blocks [] = []
keep_blocks blocks (t ∷ ts) =
    if contains t blocks then t ∷ keep_blocks blocks ts else keep_blocks blocks ts

unfoldable pub derived_successors : Function → Block → Option (List ℕ)
unfolding keep_blocks targets ends_block
derived_successors f block = elim (back block.ops) [
  | none ↦ some []
  | some last ↦ do
    op ← at f.ops last
    some (if ends_block op.code then keep_blocks f.blocks (targets f op) else [])
]

-- Both lists are cleared, and the successors are set.
unfoldable pub derive_all : Function → List Block → Option (List Block)
unfolding derived_successors
derive_all f [] = some []
derive_all f (x ∷ xs) = do
  successors ← derived_successors f x
  rest ← derive_all f xs
  some (record x { successors = successors; predecessors = [] } ∷ rest)

-- `blocks_[successor].predecessors.push_back(id)`; the successor is a block.
unfoldable pub push_predecessor : ℕ → ℕ → List Block → List Block
push_predecessor id successor blocks = elim (get_elem? blocks successor) [
  | none ↦ blocks
  | some x ↦ set blocks successor (record x { predecessors = push_back x.predecessors id })
]

unfoldable pub link : ℕ → List ℕ → List Block → List Block
unfolding push_predecessor
link id [] blocks = blocks
link id (s ∷ ss) blocks = link id ss (push_predecessor id s blocks)

unfoldable pub link_all : ℕ → List Block → List Block → List Block
unfolding link
link_all id [] blocks = blocks
link_all id (x ∷ xs) blocks = link_all (suc id) xs (link id x.successors blocks)

unfoldable pub rebuild_edges : Function → Option Function
unfolding derive_all link_all
rebuild_edges f = do
  derived ← derive_all f f.blocks
  some (record f { blocks = link_all 0 derived derived })

unfoldable pub successors : List Block → ℕ → List ℕ
successors blocks b = elim (get_elem? blocks b) [ none ↦ [] | some x ↦ x.successors ]

unfoldable pub predecessors : List Block → ℕ → List ℕ
predecessors blocks b = elim (get_elem? blocks b) [ none ↦ [] | some x ↦ x.predecessors ]
