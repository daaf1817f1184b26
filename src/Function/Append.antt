-- ===== src/Function/Append.antt =====
-- src/il/function.cpp: blocks, and the appenders of ops. Each appender returns the handle
-- that the code returns and the function after it.
use xdec.Base.{
  ℕ, ◌%◌, ◌^◌, Bool, false, not, Option, none, some, List, [], ◌∷◌, ◌++◌, length, push_back, set,
  assert, ◌>>=◌, ◌>>◌, ◌==◌, if◌then◌else◌,
}
use xdec.Expr.{IlType}
use xdec.Function.{
  Function, Block, Op, OpCode, invalid, valid, contains, at, emplace, ends_block, is_void, blank_op,
}

-- `block.ops.back()`.
abbrev pub back : List ℕ → Option ℕ
back [] = none
back (x ∷ []) = some x
back (x ∷ y ∷ xs) = back (y ∷ xs)

-- Whether the block's last op ends it; `ops_[…]` of a handle out of range aborts.
unfoldable pub is_ended : Function → Block → Option Bool
is_ended f block = elim (back block.ops) [
  | none ↦ some false
  | some last ↦ do op ← at f.ops last; some (ends_block op.code)
]

-- `blocksByAddress_.emplace(va, id)`: the first block at an address stays.
unfoldable pub emplace_address : ℕ → ℕ → (ℕ → Option ℕ) → ℕ → Option ℕ
emplace_address va id index a = elim (index a) [
  | some old ↦ some old
  | none ↦ if a == va then some id else none
]

abbrev pub new_block : ℕ → Block
new_block va = record {
  va = va;
  end_va = va;
  ops = [];
  successors = [];
  predecessors = [];
  is_external = false;
}

unfoldable pub create_block : ℕ → Function → Option (ℕ × Function)
unfolding emplace_address
create_block va f = do
  (id, blocks) ← emplace f.blocks (new_block va)
  some (
    id,
    record f {
      blocks = blocks;
      blocks_by_address = emplace_address va id f.blocks_by_address;
      entry_block = if valid f.entry_block then f.entry_block else id;
    },
  )

unfoldable pub block_at : Function → ℕ → ℕ
block_at f va = elim (f.blocks_by_address va) [ some id ↦ id | none ↦ invalid ]

-- The op with its pass and its slices of the pools, which start where the pools end.
unfoldable pub placed : Op → List ℕ → List ℕ → Function → Op
placed op operands targets f = record op {
  origin = f.current_pass;
  operand_start = length f.operand_pool % 2 ^ 32;
  operand_count = length operands % 2 ^ 32;
  target_start = length f.target_pool % 2 ^ 32;
  target_count = length targets % 2 ^ 32;
}

unfoldable pub append_op : ℕ → Op → List ℕ → List ℕ → Function → Option (ℕ × Function)
unfolding is_ended placed at emplace
append_op block_id op operands targets f = do
  block ← at f.blocks block_id
  ended ← is_ended f block
  assert (not ended)
  (id, ops) ← emplace f.ops (placed op operands targets f)
  some (
    id,
    record f {
      ops = ops;
      operand_pool = f.operand_pool ++ operands;
      target_pool = f.target_pool ++ targets;
      blocks = set f.blocks block_id (record block { ops = push_back block.ops id });
    },
  )

unfoldable pub define_value : IlType → ℕ → ℕ → Function → Option (ℕ × Function)
define_value type definition block f = do
  (id, values) ← emplace f.values (record { type = type; definition = definition; block = block })
  some (id, record f { values = values })

-- `ops_[id].result = value`.
unfoldable pub set_result : ℕ → ℕ → Function → Option Function
set_result id value f = do
  op ← at f.ops id
  some (record f { ops = set f.ops id (record op { result = value }) })

-- An op that defines a value: the value's handle, then the op's.
unfoldable pub append_definition : ℕ → Op → List ℕ → Function → Option ((ℕ × ℕ) × Function)
unfolding append_op define_value set_result
append_definition block op operands f = do
  (id, appended) ← append_op block op operands [] f
  (value, defined) ← define_value op.type id block appended
  result ← set_result id value defined
  some ((value, id), result)

unfoldable pub append_read_reg : ℕ → ℕ → ℕ → Function → Option (ℕ × Function)
unfolding append_definition
append_read_reg block va reg f = do
  type ← at f.registers reg
  (handles, result) ←
      append_definition block (record (blank_op OpCode.read_reg va) { type = type; payload = reg })
        [] f
  some (handles.0, result)

unfoldable pub append_write_reg : ℕ → ℕ → ℕ → ℕ → Function → Option (ℕ × Function)
unfolding append_op
append_write_reg block va reg value f = do
  assert (contains reg f.registers)
  append_op block (record (blank_op OpCode.write_reg va) { payload = reg }) (value ∷ []) [] f

unfoldable pub append_load : ℕ → ℕ → IlType → ℕ → Function → Option (ℕ × Function)
unfolding append_definition
append_load block va type address f = do
  (handles, result) ←
      append_definition block (record (blank_op OpCode.load va) { type = type }) (address ∷ []) f
  some (handles.0, result)

unfoldable pub append_store : ℕ → ℕ → IlType → ℕ → ℕ → Function → Option (ℕ × Function)
unfolding append_op
append_store block va type address value f =
    append_op block (record (blank_op OpCode.store va) { type = type }) (address ∷ value ∷ []) [] f

unfoldable pub append_branch : ℕ → ℕ → ℕ → Function → Option (ℕ × Function)
unfolding append_op
append_branch block va target f = append_op block (blank_op OpCode.branch va) [] (target ∷ []) f

unfoldable pub append_cond_branch : ℕ → ℕ → ℕ → ℕ → ℕ → Function → Option (ℕ × Function)
unfolding append_op
append_cond_branch block va condition if_true if_false f =
    append_op block (blank_op OpCode.cond_branch va) (condition ∷ []) (if_true ∷ if_false ∷ []) f

unfoldable pub append_indirect_branch : ℕ → ℕ → ℕ → Function → Option (ℕ × Function)
unfolding append_op
append_indirect_branch block va target f =
    append_op block (blank_op OpCode.indirect_branch va) (target ∷ []) [] f

-- An op that defines a value unless its type is void.
unfoldable pub append_maybe_definition : ℕ → Op → List ℕ → Function → Option (ℕ × Function)
unfolding append_op append_definition
append_maybe_definition block op operands f =
    if is_void op.type
    then append_op block op operands [] f
    else (append_definition block op operands f >>= λ r. some (r.0.1, r.1))

unfoldable pub append_call : ℕ → ℕ → ℕ → IlType → Function → Option (ℕ × Function)
unfolding append_maybe_definition
append_call block va target result_type f =
    append_maybe_definition block (record (blank_op OpCode.call va) { type = result_type })
      (target ∷ []) f

unfoldable pub append_return : ℕ → ℕ → Function → Option (ℕ × Function)
unfolding append_op
append_return block va f = append_op block (blank_op OpCode.return va) [] [] f

unfoldable pub append_nop : ℕ → ℕ → Function → Option (ℕ × Function)
unfolding append_op
append_nop block va f = append_op block (blank_op OpCode.nop va) [] [] f

unfoldable pub append_unreachable : ℕ → ℕ → Function → Option (ℕ × Function)
unfolding append_op
append_unreachable block va f = append_op block (blank_op OpCode.unreachable va) [] [] f
