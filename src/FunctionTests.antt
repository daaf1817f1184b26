-- ===== src/FunctionTests.antt =====
-- Concrete runs of the function model: a diamond of four blocks, and the theorems at it.
use xdec.Base.{
  ℕ, ◌≡◌, refl, ◌↔◌, ◌%◌, ◌^◌, min, true, Option, none, some, List, [], ◌∷◌, length, arith,
}
use native.Mathlib.Decide.{ℕ_discrete}
use xdec.Expr.{IlType, TypeKind, ExprOp, Expr}
use xdec.Graph.{IsReversePostOrder}
use xdec.Function.{ends_block, Function, new_function, contains, boolean_type, emplace}
use xdec.Bits.{zero_extend}
use xdec.Table.{find, intern_key}
use xdec.Function.Append.{
  create_block, append_cond_branch, append_nop, append_branch, append_return,
}
use xdec.Function.Build.{
  boolean, intern, constant, node, Expr-discrete, ExprOp-discrete, IlType-discrete,
}
use xdec.Function.Edit.{set_operands}
use xdec.Function.Edges.{rebuild_edges, successors, predecessors}
use xdec.Function.Edges.Dual.{EdgesAgree, rebuild_edges-EdgesAgree}
use xdec.Function.Order.{reverse_post_order}
use xdec.Function.Order.Rebuilt.{rebuilt_order}
use xdec.Function.Interning.{Interns, IsInterned, intern-Interns, intern-handle_iff}
use xdec.Function.Constants.{constant-handle_iff}
use xdec.Function.WellFormed.{IsWellFormed}
use xdec.Function.Slices.{ReplacesOperands, set_operands-ReplacesOperands}
use xdec.Function.Session.{Call, perform_all}
use xdec.Function.Session.Keeps.{
  perform_all-IsWellFormed, session-IsWellFormed, new_function-IsWellFormed,
}

abbrev word_type : IlType
word_type = record { kind = TypeKind.int; element_bits = 8; lanes = 1 }

abbrev fresh : Function
fresh = new_function (word_type ∷ []) 0x1000

abbrev calls : List Call
calls =
    Call.create_block 0x1000
    ∷ Call.create_block 0x1010
    ∷ Call.create_block 0x1020
    ∷ Call.create_block 0x1030
    ∷ Call.boolean true
    ∷ Call.append_cond_branch 0 0x1000 0 1 2
    ∷ Call.append_nop 1 0x1010
    ∷ Call.append_branch 1 0x1014 3
    ∷ Call.append_branch 2 0x1020 3
    ∷ Call.append_return 3 0x1030
    ∷ []

or_else : Option Function → Function → Function
or_else none d = d
or_else (some f) d = f

diamond : Function
unfolding perform_all new_function or_else
diamond = or_else (perform_all calls fresh) fresh

diamond_built : perform_all calls fresh ≡ some diamond
unfolding diamond perform_all new_function Expr-discrete ExprOp-discrete IlType-discrete ℕ_discrete
    or_else create_block emplace boolean find append_cond_branch append_nop append_branch ends_block
    append_return
diamond_built = refl

linked : Function
unfolding rebuild_edges or_else
linked = or_else (rebuild_edges diamond) fresh

linked_built : rebuild_edges diamond ≡ some linked
unfolding linked diamond rebuild_edges perform_all new_function Expr-discrete ExprOp-discrete
    IlType-discrete ℕ_discrete or_else create_block emplace boolean find append_cond_branch
    append_nop append_branch ends_block append_return
linked_built = refl

diamond_edges :
    (predecessors linked.blocks 3 ≡ 1 ∷ 2 ∷ [])
    × (reverse_post_order linked ≡ some (0 ∷ 2 ∷ 1 ∷ 3 ∷ []))
unfolding linked diamond rebuild_edges predecessors reverse_post_order perform_all new_function
    Expr-discrete ExprOp-discrete IlType-discrete ℕ_discrete or_else create_block emplace boolean
    find append_cond_branch append_nop append_branch ends_block append_return
diamond_edges = (refl, refl)

diamond_ok : IsWellFormed diamond
diamond_ok =
    perform_all-IsWellFormed calls fresh diamond (new_function-IsWellFormed (word_type ∷ []) 0x1000)
      diamond_built

session-IsWellFormed_example : IsWellFormed diamond
session-IsWellFormed_example =
    session-IsWellFormed (word_type ∷ []) 0x1000 calls diamond diamond_built

rebuild_edges-EdgesAgree_example : EdgesAgree diamond linked
rebuild_edges-EdgesAgree_example = rebuild_edges-EdgesAgree diamond linked linked_built

linked_entry : contains linked.entry_block linked.blocks ≡ true
unfolding linked diamond rebuild_edges perform_all new_function Expr-discrete ExprOp-discrete
    IlType-discrete ℕ_discrete or_else create_block emplace boolean find append_cond_branch
    append_nop append_branch ends_block append_return
linked_entry = refl

rebuilt_order_example :
    (order : List ℕ) × (reverse_post_order linked ≡ some order)
    × IsReversePostOrder (successors linked.blocks) linked.entry_block order
rebuilt_order_example = rebuilt_order diamond linked linked_built linked_entry

abbrev flag_type : IlType
flag_type = boolean_type

fresh_pool : IsInterned fresh.exprs
fresh_pool = (new_function-IsWellFormed (word_type ∷ []) 0x1000).pool

after_call : Option (ℕ × Function) → Function
after_call none = fresh
after_call (some (id, f)) = f

once : Function
unfolding constant after_call
once = after_call (constant word_type 0x1ff fresh)

twice : Function
unfolding constant after_call
twice = after_call (constant word_type 0xff once)

once_built : constant word_type 0x1ff fresh ≡ some (0, once)
unfolding once constant new_function find intern_key zero_extend after_call
once_built = refl

twice_built : constant word_type 0xff once ≡ some (0, twice)
unfolding twice once constant new_function find intern_key zero_extend after_call Expr-discrete
    ExprOp-discrete IlType-discrete ℕ_discrete
twice_built = refl

constant-handle_iff_example : (◌≡◌ {A = ℕ} 0 0) ↔ (0x1ff % 2 ^ min 8 64 ≡ 0xff % 2 ^ min 8 64)
constant-handle_iff_example =
    constant-handle_iff word_type 0x1ff 0xff fresh once twice 0 0 fresh_pool (omega arith)
      (omega arith) once_built twice_built

abbrev const_node : ℕ → Expr
const_node v = node ExprOp.const word_type [] v

first : Function
unfolding intern after_call
first = after_call (intern (const_node 1) fresh)

second : Function
unfolding intern after_call
second = after_call (intern (const_node 2) first)

first_built : intern (const_node 1) fresh ≡ some (0, first)
unfolding first intern new_function find intern_key zero_extend after_call
first_built = refl

second_built : intern (const_node 2) first ≡ some (1, second)
unfolding second first intern new_function find intern_key zero_extend after_call Expr-discrete
    ExprOp-discrete IlType-discrete ℕ_discrete
second_built = refl

intern-Interns_example : Interns (const_node 1) fresh 0 first
intern-Interns_example = intern-Interns (const_node 1) fresh first 0 fresh_pool first_built

intern-handle_iff_example : (◌≡◌ {A = ℕ} 0 1) ↔ (const_node 1 ≡ const_node 2)
intern-handle_iff_example =
    intern-handle_iff (const_node 1) (const_node 2) fresh first second 0 1 fresh_pool first_built
      second_built

reoperand : Function
unfolding set_operands or_else
reoperand = or_else (set_operands 0 (7 ∷ []) diamond) fresh

reoperand_built : set_operands 0 (7 ∷ []) diamond ≡ some reoperand
unfolding reoperand diamond set_operands perform_all new_function Expr-discrete ExprOp-discrete
    IlType-discrete ℕ_discrete or_else create_block emplace boolean find append_cond_branch
    append_nop append_branch ends_block append_return
reoperand_built = refl

diamond_pool : length diamond.operand_pool ≡ 1
unfolding diamond perform_all new_function Expr-discrete ExprOp-discrete IlType-discrete ℕ_discrete
    or_else create_block emplace boolean find append_cond_branch append_nop append_branch ends_block
    append_return
diamond_pool = refl

set_operands-ReplacesOperands_example : ReplacesOperands 0 (7 ∷ []) diamond reoperand
set_operands-ReplacesOperands_example =
    set_operands-ReplacesOperands 0 (7 ∷ []) diamond reoperand diamond_ok
      (omega (arith, diamond_pool)) (omega arith) reoperand_built
