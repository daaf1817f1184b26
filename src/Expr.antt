-- ===== src/Expr.antt =====
-- include/xdec/il/expr.h and type.h: the pure expressions of the IL and their machine types. A
-- function's expression pool is a map from ids; `operandCount` is the length of the operand list.
use xdec.Base.{
  ℕ, ◌*◌, ◌%◌, ◌^◌, bit_and, Bool, true, false, Option, none, some, List, get_or, ◌==◌,
  if◌then◌else◌,
}
use xdec.Bits.{◌>>◌}
use xdec.Flags.{FlagOp, ConditionCode}

pub data TypeKind : Type 0 where
  void int float flags int_vector float_vector : TypeKind

pub record IlType : Type 0 where
  pub kind : TypeKind
  pub element_bits : ℕ
  pub lanes : ℕ

abbrev pub bits : IlType → ℕ
bits t = t.element_bits * t.lanes

abbrev pub is_flags : IlType → Bool
is_flags t = elim t.kind [ TypeKind.flags ↦ true | _ ↦ false ]

pub data FlagBitIndex : Type 0 where
  negative zero carry overflow : FlagBitIndex

pub data ExprOp : Type 0 where
  const value undef entry_reg : ExprOp
  add sub mul mul_hi_u mul_hi_s div_u div_s rem_u rem_s neg : ExprOp
  and or xor not : ExprOp
  shl shr_u shr_s rot_r rot_l : ExprOp
  cmp_eq cmp_ne cmp_lt_u cmp_le_u cmp_lt_s cmp_le_s : ExprOp
  z_ext s_ext trunc bitcast extract concat : ExprOp
  clz ctz pop_count byte_swap bit_reverse : ExprOp
  select flag_def flag_cond flag_bit : ExprOp
  f_add f_sub f_mul f_div f_neg f_abs f_sqrt f_ceil : ExprOp
  f_cmp_eq f_cmp_lt f_cmp_le f_cmp_unordered : ExprOp
  fp_convert fp_to_int_s fp_to_int_u int_to_fp_s int_to_fp_u : ExprOp

pub record Expr : Type 0 where
  pub op : ExprOp
  pub type : IlType
  pub operands : List ℕ
  pub immediate : ℕ

abbrev pub Pool : Type 0
Pool = ℕ → Option Expr

abbrev pub no_type : IlType
no_type = record { kind = TypeKind.void; element_bits = 0; lanes = 1 }

-- `function.expr(expr.operands[i]).type.bits()`; an id outside the pool has no width.
unfoldable pub operand_bits : Pool → Expr → ℕ → ℕ
operand_bits pool e i = elim (pool (get_or e.operands i 0)) [ none ↦ 0 | some x ↦ bits x.type ]

-- The casts of `immediate` to an enumeration. A byte past the last enumerator falls through every
-- switch on it: such an `Op` has no flags and such a condition never holds.
unfoldable pub flag_def_op : ℕ → Option FlagOp
flag_def_op immediate =
    let k = bit_and immediate 0xff in
    if k == 0
    then some FlagOp.add
    else if k == 1
    then some FlagOp.sub
    else if k == 2
    then some FlagOp.add_carry
    else if k == 3
    then some FlagOp.sub_carry
    else if k == 4
    then some FlagOp.logical
    else if k == 5
    then some FlagOp.const
    else none

unfoldable pub flag_def_width : ℕ → ℕ
flag_def_width immediate = bit_and (immediate >> 8) 0xffff

unfoldable pub condition_code : ℕ → Option ConditionCode
condition_code immediate =
    let k = immediate % 2 ^ 8 in
    if k == 0
    then some ConditionCode.equal
    else if k == 1
    then some ConditionCode.not_equal
    else if k == 2
    then some ConditionCode.carry_set
    else if k == 3
    then some ConditionCode.carry_clear
    else if k == 4
    then some ConditionCode.negative
    else if k == 5
    then some ConditionCode.non_negative
    else if k == 6
    then some ConditionCode.overflow
    else if k == 7
    then some ConditionCode.no_overflow
    else if k == 8
    then some ConditionCode.unsigned_greater
    else if k == 9
    then some ConditionCode.unsigned_less_equal
    else if k == 10
    then some ConditionCode.signed_greater_equal
    else if k == 11
    then some ConditionCode.signed_less
    else if k == 12
    then some ConditionCode.signed_greater
    else if k == 13
    then some ConditionCode.signed_less_equal
    else if k == 14
    then some ConditionCode.always
    else if k == 15
    then some ConditionCode.never
    else none

-- The position of a flag bit in the nibble; everything past `Carry` reads bit 0.
unfoldable pub flag_position : ℕ → ℕ
flag_position immediate =
    let k = immediate % 2 ^ 8 in if k == 0 then 3 else if k == 1 then 2 else if k == 2 then 1 else 0
