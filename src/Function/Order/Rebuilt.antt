-- ===== src/Function/Order/Rebuilt.antt =====
-- `rebuildEdges` followed by `reversePostOrder`, as the analyses use them.
use xdec.Base.{ℕ, ◌≡◌, true, some, List}
use xdec.Graph.{IsReversePostOrder}
use xdec.Function.{Function, contains}
use xdec.Function.Edges.{rebuild_edges, successors}
use xdec.Function.Edges.Dual.{rebuild_edges-EdgesAgree}
use xdec.Function.Order.{reverse_post_order}
use xdec.Function.Order.Reached.{reverse_post_order-IsReversePostOrder}

-- After `rebuild_edges` has succeeded on a function whose entry is a block, `reverse_post_order`
-- ends within its rounds, and its result starts with the entry, has no block twice, has exactly the
-- blocks that the entry reaches, and has the start of every edge before its end unless the end
-- reaches the start.
pub rebuilt_order :
    (f f' : Function)
    → rebuild_edges f ≡ some f'
    → contains f'.entry_block f'.blocks ≡ true
    → (order : List ℕ) × (reverse_post_order f' ≡ some order)
      × IsReversePostOrder (successors f'.blocks) f'.entry_block order
rebuilt_order f f' h entry =
    reverse_post_order-IsReversePostOrder f' entry (rebuild_edges-EdgesAgree f f' h).bounded
