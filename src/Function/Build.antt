-- ===== src/Function/Build.antt =====
-- src/il/function.cpp: `intern` and the builders of expressions. A builder returns the handle and
-- the function with its pool grown.
use native.Mathlib.Decide.{ℕ_discrete}
use xdec.Base.{
  ℕ, zero, suc, ◌%◌, Bool, true, false, ◌&&◌, ◌||◌, Option, none, some, List, [], ◌∷◌, length,
  assert, ◌>>=◌, ◌>>◌, ltb, leb, get_or, bit_or, if◌then◌else◌,
}
use xdec.Bits.{zero_extend, ◌<<◌}
use xdec.Expr.{IlType, TypeKind, ExprOp, Expr, FlagBitIndex, bits}
use xdec.Flags.{FlagOp, ConditionCode}
use xdec.Function.Rules.{min_arity, max_arity, result_rule, is_boolean, is_explicit}
use xdec.Table.{find, intern_key}
use xdec.Function.{Function, valid, invalid, handle_count, at, contains, boolean_type, flags_type}

-- `operator==` of two expressions.
unfoldable pub ExprOp-discrete : Discrete ExprOp
ExprOp-discrete = hlevel

unfoldable pub IlType-discrete : Discrete IlType
IlType-discrete = hlevel ℕ_discrete

unfoldable pub Expr-discrete : Discrete Expr
Expr-discrete = hlevel (ℕ_discrete, ExprOp-discrete, IlType-discrete)

abbrev pub max_operands : ℕ
max_operands = 3

-- The assertion on the handle space stands in `HandleVector::emplace`, which only a new
-- expression reaches.
unfoldable pub intern : Expr → Function → Option (ℕ × Function)
intern expr f = do
  assert (leb (length expr.operands) max_operands)
  let (id, exprs) = intern_key Expr-discrete handle_count expr f.exprs
  elim (find Expr-discrete expr f.exprs.index) [
    | some old ↦ some (id, record f { exprs = exprs })
    | none ↦ do
      assert (valid (length f.exprs.items % handle_count))
      some (id, record f { exprs = exprs })
  ]

abbrev pub node : ExprOp → IlType → List ℕ → ℕ → Expr
node op type operands immediate = record {
  op = op;
  type = type;
  operands = operands;
  immediate = immediate;
}

abbrev is_int : IlType → Bool
is_int t = elim t.kind [ TypeKind.int ↦ true | _ ↦ false ]

abbrev is_float : IlType → Bool
is_float t = elim t.kind [ TypeKind.float ↦ true | _ ↦ false ]

unfoldable pub constant : IlType → ℕ → Function → Option (ℕ × Function)
unfolding intern
constant type value f = do
  assert ((is_int type && leb (bits type) 128) || is_float type)
  let immediate = if leb 64 (bits type) then value else zero_extend value (bits type)
  intern (node ExprOp.const type [] immediate) f

unfoldable pub boolean : Bool → Function → Option (ℕ × Function)
unfolding constant
boolean value f = constant boolean_type (if value then 1 else 0) f

unfoldable pub value_ref : ℕ → Function → Option (ℕ × Function)
unfolding intern
value_ref value f = do
  assert (contains value f.values)
  info ← at f.values value
  intern (node ExprOp.value info.type [] value) f

unfoldable pub undefined : IlType → Function → Option (ℕ × Function)
unfolding intern
undefined type f = intern (node ExprOp.undef type [] 0) f

unfoldable pub entry_reg : ℕ → Function → Option (ℕ × Function)
unfolding intern
entry_reg reg f = do type ← at f.registers reg; intern (node ExprOp.entry_reg type [] reg) f

unfoldable pub unary : ExprOp → ℕ → Function → Option (ℕ × Function)
unfolding intern min_arity max_arity result_rule
unary op operand f = do
  assert (leb (min_arity op) 1 && leb 1 (max_arity op))
  arg ← at f.exprs.items operand
  let type = if is_boolean (result_rule op) then boolean_type else arg.type
  intern (node op type (operand ∷ []) 0) f

-- The left operand is read only where its type is wanted.
unfoldable pub binary : ExprOp → ℕ → ℕ → Function → Option (ℕ × Function)
unfolding intern min_arity max_arity result_rule
binary op lhs rhs f = do
  assert (leb (min_arity op) 2 && leb 2 (max_arity op))
  type ←
      if is_boolean (result_rule op)
      then some boolean_type
      else (at f.exprs.items lhs >>= λ arg. some arg.type)
  intern (node op type (lhs ∷ rhs ∷ []) 0) f

unfoldable pub cast : ExprOp → IlType → ℕ → Function → Option (ℕ × Function)
unfolding intern result_rule
cast op type operand f = do
  assert (is_explicit (result_rule op))
  intern (node op type (operand ∷ []) 0) f

unfoldable pub extract : IlType → ℕ → ℕ → Function → Option (ℕ × Function)
unfolding intern
extract type operand low_bit f = intern (node ExprOp.extract type (operand ∷ []) low_bit) f

unfoldable pub concat : IlType → ℕ → ℕ → Function → Option (ℕ × Function)
unfolding intern
concat type high low f = intern (node ExprOp.concat type (high ∷ low ∷ []) 0) f

unfoldable pub select : ℕ → ℕ → ℕ → Function → Option (ℕ × Function)
unfolding intern
select condition if_true if_false f = do
  arg ← at f.exprs.items if_true
  intern (node ExprOp.select arg.type (condition ∷ if_true ∷ if_false ∷ []) 0) f

-- The enumerators' numbers.
unfoldable pub flag_op_number : FlagOp → ℕ
flag_op_number op = elim op [
  | FlagOp.add ↦ 0
  | FlagOp.sub ↦ 1
  | FlagOp.add_carry ↦ 2
  | FlagOp.sub_carry ↦ 3
  | FlagOp.logical ↦ 4
  | FlagOp.const ↦ 5
]

unfoldable pub condition_number : ConditionCode → ℕ
condition_number code = elim code [
  | ConditionCode.equal ↦ 0
  | ConditionCode.not_equal ↦ 1
  | ConditionCode.carry_set ↦ 2
  | ConditionCode.carry_clear ↦ 3
  | ConditionCode.negative ↦ 4
  | ConditionCode.non_negative ↦ 5
  | ConditionCode.overflow ↦ 6
  | ConditionCode.no_overflow ↦ 7
  | ConditionCode.unsigned_greater ↦ 8
  | ConditionCode.unsigned_less_equal ↦ 9
  | ConditionCode.signed_greater_equal ↦ 10
  | ConditionCode.signed_less ↦ 11
  | ConditionCode.signed_greater ↦ 12
  | ConditionCode.signed_less_equal ↦ 13
  | ConditionCode.always ↦ 14
  | ConditionCode.never ↦ 15
]

unfoldable pub flag_bit_number : FlagBitIndex → ℕ
flag_bit_number bit = elim bit [
  | FlagBitIndex.negative ↦ 0
  | FlagBitIndex.zero ↦ 1
  | FlagBitIndex.carry ↦ 2
  | FlagBitIndex.overflow ↦ 3
]

unfoldable pub pack_flag_def : FlagOp → ℕ → ℕ
unfolding flag_op_number
pack_flag_def op width = bit_or (flag_op_number op) (width << 8)

unfoldable pub flag_def : FlagOp → ℕ → List ℕ → Function → Option (ℕ × Function)
unfolding intern pack_flag_def
flag_def op width operands f = do
  assert (ltb 0 (length operands) && leb (length operands) max_operands)
  intern (node ExprOp.flag_def flags_type operands (pack_flag_def op width)) f

unfoldable pub flag_condition : ℕ → ConditionCode → Function → Option (ℕ × Function)
unfolding intern condition_number
flag_condition flags code f =
    intern (node ExprOp.flag_cond boolean_type (flags ∷ []) (condition_number code)) f

unfoldable pub flag_bit_of : ℕ → FlagBitIndex → Function → Option (ℕ × Function)
unfolding intern flag_bit_number
flag_bit_of flags bit f =
    intern (node ExprOp.flag_bit boolean_type (flags ∷ []) (flag_bit_number bit)) f

abbrev is_const : ExprOp → Bool
is_const op = elim op [ ExprOp.const ↦ true | _ ↦ false ]

abbrev is_width_cast : ExprOp → Bool
is_width_cast op = elim op [
  | ExprOp.z_ext ↦ true
  | ExprOp.s_ext ↦ true
  | ExprOp.trunc ↦ true
  | ExprOp.bitcast ↦ true
  | _ ↦ false
]

-- The bool result with its out parameter; a handle out of range is no constant.
unfoldable pub as_constant : Function → ℕ → Option ℕ
as_constant f id = do expr ← at f.exprs.items id; assert (is_const expr.op); some expr.immediate

-- Eight rounds, as the loop over `depth`.
unfoldable pub constant_behind : ℕ → Function → ℕ → Option ℕ
unfolding as_constant
constant_behind zero f id = none
constant_behind (suc rounds) f id = elim (as_constant f id) [
  | some value ↦ some value
  | none ↦ do
    expr ← at f.exprs.items id
    assert (is_width_cast expr.op)
    constant_behind rounds f (get_or expr.operands 0 invalid)
]

unfoldable pub as_constant_through_casts : Function → ℕ → Option ℕ
unfolding constant_behind
as_constant_through_casts f id = constant_behind 8 f id
