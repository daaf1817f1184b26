-- ===== src/Function/Edit.antt =====
-- src/il/function.cpp: the appenders that intern a name, phis, and the edits of ops in place.
use Prim.Native.String.{String}
use xdec.Base.{
  ℕ, ◌%◌, ◌^◌, not, Option, none, some, List, [], ◌∷◌, ◌++◌, length, set, assert, ◌>>=◌, ◌>>◌, ◌==◌,
  if◌then◌else◌,
}
use xdec.Expr.{IlType}
use xdec.Function.{Function, Op, OpCode, invalid, valid, at, emplace, ends_block, is_phi, blank_op}
use xdec.Function.Names.{intern_name, put_note}
use xdec.Function.Append.{
  back, placed, append_op, append_definition, append_maybe_definition, define_value, set_result,
}

unfoldable pub append_unimplemented : ℕ → ℕ → String → Function → Option (ℕ × Function)
unfolding append_op intern_name
append_unimplemented block va mnemonic f =
    let (name, named) = intern_name mnemonic f in
    append_op block (record (blank_op OpCode.unimplemented va) { payload = name }) [] [] named

unfoldable pub append_intrinsic :
    ℕ → ℕ → String → IlType → List ℕ → Function → Option (ℕ × Function)
unfolding append_maybe_definition intern_name
append_intrinsic block va name result_type arguments f =
    let (id, named) = intern_name name f in
    append_maybe_definition block
      (record (blank_op OpCode.intrinsic va) { type = result_type; payload = id }) arguments named

unfoldable pub append_phi : ℕ → ℕ → IlType → List ℕ → Function → Option (ℕ × Function)
unfolding append_definition
append_phi block va type incoming f = do
  (handles, result) ←
      append_definition block (record (blank_op OpCode.phi va) { type = type }) incoming f
  some (handles.1, result)

-- After the phis that lead the list.
unfoldable pub insert_after_phis : List Op → ℕ → List ℕ → Option (List ℕ)
unfolding is_phi
insert_after_phis ops id [] = some (id ∷ [])
insert_after_phis ops id (x ∷ xs) = do
  op ← at ops x
  if is_phi op.code
      then (insert_after_phis ops id xs >>= λ rest. some (x ∷ rest))
      else some (id ∷ x ∷ xs)

unfoldable pub prepend_phi : ℕ → ℕ → IlType → Function → Option (ℕ × Function)
unfolding insert_after_phis define_value set_result placed
prepend_phi block_id va type f = do
  block ← at f.blocks block_id
  (id, ops) ← emplace f.ops (placed (record (blank_op OpCode.phi va) { type = type }) [] [] f)
  block_ops ← insert_after_phis ops id block.ops
  (value, defined) ←
      define_value type id block_id
        (record f { ops = ops; blocks = set f.blocks block_id (record block { ops = block_ops }) })
  result ← set_result id value defined
  some (value, result)

unfoldable pub set_targets : ℕ → List ℕ → Function → Option Function
unfolding ends_block
set_targets id targets f = do
  op ← at f.ops id
  assert (ends_block op.code)
  some (record f {
    ops = set f.ops id (record op {
      target_start = length f.target_pool % 2 ^ 32;
      target_count = length targets % 2 ^ 32;
    });
    target_pool = f.target_pool ++ targets;
  })

unfoldable pub set_operands : ℕ → List ℕ → Function → Option Function
set_operands id operands f = do
  op ← at f.ops id
  some (record f {
    ops = set f.ops id (record op {
      operand_start = length f.operand_pool % 2 ^ 32;
      operand_count = length operands % 2 ^ 32;
    });
    operand_pool = f.operand_pool ++ operands;
  })

unfoldable pub result_of : Function → ℕ → ℕ
result_of f id = elim (at f.ops id) [ some op ↦ op.result | none ↦ invalid ]

-- `block.ops.erase(find(…))`; `none` if the op is not there.
unfoldable pub erase_op : ℕ → List ℕ → Option (List ℕ)
erase_op id [] = none
erase_op id (x ∷ xs) = if x == id then some xs else (erase_op id xs >>= λ rest. some (x ∷ rest))

-- Clears the op's result, and marks the value as removed.
unfoldable pub tombstone : ℕ → Function → Option Function
tombstone id f = at f.ops id >>= λ op.
    if valid op.result
    then (at f.values op.result >>= λ info. some (record f {
      values = set f.values op.result (record info { definition = invalid });
      ops = set f.ops id (record op { result = invalid });
    }))
    else some f

unfoldable pub remove_op : ℕ → ℕ → Function → Option Function
unfolding erase_op tombstone ends_block
remove_op block_id id f = do
  block ← at f.blocks block_id
  op ← at f.ops id
  block_ops ← erase_op id block.ops
  assert (not (ends_block op.code))
  cleared ← tombstone id f
  some (
      put_note id none (record cleared {
        blocks = set cleared.blocks block_id (record block { ops = block_ops });
      }))

-- `block.ops.pop_back()`.
abbrev pub pop_back : List ℕ → List ℕ
pop_back [] = []
pop_back (x ∷ []) = []
pop_back (x ∷ y ∷ xs) = x ∷ pop_back (y ∷ xs)

unfoldable pub drop_terminator : ℕ → Function → Option Function
unfolding tombstone ends_block
drop_terminator block_id f = do
  block ← at f.blocks block_id
  id ← back block.ops
  op ← at f.ops id
  assert (ends_block op.code)
  cleared ← tombstone id f
  last ← at cleared.ops id
  some (
      put_note id none (record cleared {
        ops = set cleared.ops id (record last { target_count = 0 });
        blocks = set cleared.blocks block_id (record block { ops = pop_back block.ops });
      }))
