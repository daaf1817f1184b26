-- ===== src/Function/Session.antt =====
-- The public operations of `Function` in any order, as a pass calls them. A pass can also write to
-- a block or an op through a reference; such writes are not steps here.
pub mod Builders
pub mod Keeps
use Prim.Native.String.{String}
use xdec.Base.{ℕ, Bool, Option, none, some, List, [], ◌∷◌, ◌>>=◌}
use xdec.Expr.{IlType, ExprOp, FlagBitIndex, Expr}
use xdec.Flags.{FlagOp, ConditionCode}
use xdec.Function.{Function}
use xdec.Function.Build as Build
use xdec.Function.Append as Append
use xdec.Function.Names as Names
use xdec.Function.Edit as Edit
use xdec.Function.Edges as Edges

pub data Call : Type 0 where
  intern : Expr → Call
  constant : IlType → ℕ → Call
  boolean : Bool → Call
  value_ref : ℕ → Call
  undefined : IlType → Call
  entry_reg : ℕ → Call
  unary : ExprOp → ℕ → Call
  binary : ExprOp → ℕ → ℕ → Call
  cast : ExprOp → IlType → ℕ → Call
  extract : IlType → ℕ → ℕ → Call
  concat : IlType → ℕ → ℕ → Call
  select : ℕ → ℕ → ℕ → Call
  flag_def : FlagOp → ℕ → List ℕ → Call
  flag_condition : ℕ → ConditionCode → Call
  flag_bit_of : ℕ → FlagBitIndex → Call
  create_block : ℕ → Call
  append_read_reg : ℕ → ℕ → ℕ → Call
  append_write_reg : ℕ → ℕ → ℕ → ℕ → Call
  append_load : ℕ → ℕ → IlType → ℕ → Call
  append_store : ℕ → ℕ → IlType → ℕ → ℕ → Call
  append_branch : ℕ → ℕ → ℕ → Call
  append_cond_branch : ℕ → ℕ → ℕ → ℕ → ℕ → Call
  append_indirect_branch : ℕ → ℕ → ℕ → Call
  append_call : ℕ → ℕ → ℕ → IlType → Call
  append_return append_nop append_unreachable : ℕ → ℕ → Call
  append_unimplemented : ℕ → ℕ → String → Call
  append_intrinsic : ℕ → ℕ → String → IlType → List ℕ → Call
  append_phi : ℕ → ℕ → IlType → List ℕ → Call
  prepend_phi : ℕ → ℕ → IlType → Call
  set_targets set_operands : ℕ → List ℕ → Call
  remove_op : ℕ → ℕ → Call
  drop_terminator : ℕ → Call
  intern_name intern_pass : String → Call
  set_current_pass set_entry_block : ℕ → Call
  annotate append_note : ℕ → String → Call
  rebuild_edges : Call

-- The function after a call that returns a handle.
abbrev pub after : Option (ℕ × Function) → Option Function
after none = none
after (some (id, f)) = some f

unfoldable pub perform : Call → Function → Option Function
perform (Call.intern expr) f = after (Build.intern expr f)
perform (Call.constant type value) f = after (Build.constant type value f)
perform (Call.boolean value) f = after (Build.boolean value f)
perform (Call.value_ref value) f = after (Build.value_ref value f)
perform (Call.undefined type) f = after (Build.undefined type f)
perform (Call.entry_reg reg) f = after (Build.entry_reg reg f)
perform (Call.unary op x) f = after (Build.unary op x f)
perform (Call.binary op x y) f = after (Build.binary op x y f)
perform (Call.cast op type x) f = after (Build.cast op type x f)
perform (Call.extract type x low) f = after (Build.extract type x low f)
perform (Call.concat type x y) f = after (Build.concat type x y f)
perform (Call.select c x y) f = after (Build.select c x y f)
perform (Call.flag_def op width args) f = after (Build.flag_def op width args f)
perform (Call.flag_condition flags code) f = after (Build.flag_condition flags code f)
perform (Call.flag_bit_of flags bit) f = after (Build.flag_bit_of flags bit f)
perform (Call.create_block va) f = after (Append.create_block va f)
perform (Call.append_read_reg b va reg) f = after (Append.append_read_reg b va reg f)
perform (Call.append_write_reg b va reg x) f = after (Append.append_write_reg b va reg x f)
perform (Call.append_load b va type x) f = after (Append.append_load b va type x f)
perform (Call.append_store b va type x y) f = after (Append.append_store b va type x y f)
perform (Call.append_branch b va target) f = after (Append.append_branch b va target f)
perform (Call.append_cond_branch b va c t e) f = after (Append.append_cond_branch b va c t e f)
perform (Call.append_indirect_branch b va x) f = after (Append.append_indirect_branch b va x f)
perform (Call.append_call b va x type) f = after (Append.append_call b va x type f)
perform (Call.append_return b va) f = after (Append.append_return b va f)
perform (Call.append_nop b va) f = after (Append.append_nop b va f)
perform (Call.append_unreachable b va) f = after (Append.append_unreachable b va f)
perform (Call.append_unimplemented b va name) f = after (Edit.append_unimplemented b va name f)
perform (Call.append_intrinsic b va name type args) f =
    after (Edit.append_intrinsic b va name type args f)
perform (Call.append_phi b va type incoming) f = after (Edit.append_phi b va type incoming f)
perform (Call.prepend_phi b va type) f = after (Edit.prepend_phi b va type f)
perform (Call.set_targets id targets) f = Edit.set_targets id targets f
perform (Call.set_operands id operands) f = Edit.set_operands id operands f
perform (Call.remove_op b id) f = Edit.remove_op b id f
perform (Call.drop_terminator b) f = Edit.drop_terminator b f
perform (Call.intern_name name) f = some (Names.intern_name name f).1
perform (Call.intern_pass name) f = some (Names.intern_pass name f).1
perform (Call.set_current_pass pass) f = some (record f { current_pass = pass })
perform (Call.set_entry_block b) f = some (record f { entry_block = b })
perform (Call.annotate op note) f = Names.annotate op note f
perform (Call.append_note op note) f = Names.append_note op note f
perform Call.rebuild_edges f = Edges.rebuild_edges f

unfoldable pub perform_all : List Call → Function → Option Function
unfolding perform
perform_all [] f = some f
perform_all (call ∷ calls) f = perform call f >>= perform_all calls
