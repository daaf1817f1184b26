-- ===== src/Interp.antt =====
-- src/il/interp.cpp, `Interpreter::eval` and `evalFlagsOperand`. The nesting limit of 512 is fuel:
-- depths 0 to 512 are 513 levels. What an expression reads from the running block is a record; the
-- C++ float operations, which have no counterpart here, are a function of it.
pub mod Agree
use xdec.Base.{
  ℕ, zero, suc, ◌+◌, ◌-◌, ◌*◌, ◌/◌, ◌%◌, ◌^◌, bit_and, bit_or, bit_xor, Bool, true, false, not,
  ◌&&◌, ◌||◌, Option, none, some, List, [], ◌∷◌, get_or, ltb, leb, ◌==◌, ◌/=◌, if◌then◌else◌,
  Result, ok, err, diag, DiagCode,
}
use xdec.Bits.{complement, sub64, ◌>>◌, popcount}
use xdec.U128
use xdec.U128.{U128, u128, mask, mask_of, mul64x64, cmp_u, cmp_s}
use xdec.Flags.{arg, eval_condition}
use xdec.Expr.{ExprOp, Expr, Pool, bits, is_flags, operand_bits, condition_code, flag_position}
use xdec.Eval.{boolean, is_lt, is_le, to_unsigned, flag_bundle, is_flag_def}
use xdec.Eval.Signed.{div_s64, rem_s64, minus_one}

pub record Machine : Type 0 where
  pub pool : Pool
  -- The values that the block has defined so far.
  pub values : ℕ → Option U128
  -- `readRegister`, by register id.
  pub registers : ℕ → U128
  -- The float arithmetic, comparisons and conversions.
  pub float_op : Expr → List U128 → Result U128

infixl 5 ◌>>=◌
abbrev pub ◌>>=◌ : {A B : Type 0} → Result A → (A → Result B) → Result B
ok a >>= f = f a
err e >>= f = err e

abbrev pub refuse : {A : Type 0} → DiagCode → Result A
refuse c = err (diag c)

unfoldable pub exec_mul_hi_s : U128 → U128 → U128
exec_mul_hi_s a b =
    let hi_u = (mul64x64 a.lo b.lo).0 in
    let hi_a = if (a.lo >> 63) /= 0 then sub64 hi_u b.lo else hi_u in
    let hi = if (b.lo >> 63) /= 0 then sub64 hi_a a.lo else hi_a in u128 hi 0

unfoldable pub exec_div_s : U128 → U128 → ℕ → U128
exec_div_s a b width =
    let dividend = (U128.sext a width 64).lo in
    let divisor = (U128.sext b width 64).lo in
    if divisor == 0
    then u128 0 0
    else mask (u128 (if divisor == minus_one then sub64 0 dividend else div_s64 dividend divisor) 0)
        width

unfoldable pub exec_rem_s : U128 → U128 → ℕ → U128
exec_rem_s a b width =
    let dividend = (U128.sext a width 64).lo in
    let divisor = (U128.sext b width 64).lo in
    if divisor == 0
    then mask a width
    else mask (u128 (if divisor == minus_one then 0 else rem_s64 dividend divisor) 0) width

-- The switch of `Interpreter::eval`, once the operands have values.
unfoldable pub exec_op : Machine → Expr → List U128 → Result U128
exec_op m e args =
    let a = arg args 0 in
    let b = arg args 1 in
    let width = bits e.type in
    let w0 = operand_bits m.pool e 0 in
    let w1 = operand_bits m.pool e 1 in
    elim e.op [
      | ExprOp.const ↦ ok (mask (u128 e.immediate 0) width)
      | ExprOp.value ↦ elim (m.values (e.immediate % 2 ^ 32)) [
        | none ↦ refuse DiagCode.verify_failure
        | some v ↦ ok v
      ]
      | ExprOp.undef ↦ refuse DiagCode.lift_failure
      | ExprOp.entry_reg ↦ ok (m.registers (e.immediate % 2 ^ 32))
      | ExprOp.add ↦ ok (U128.add a b width).0
      | ExprOp.sub ↦ ok (U128.sub a b width)
      | ExprOp.mul ↦ ok (U128.mul_low a b width)
      | ExprOp.mul_hi_u ↦
          if width /= 64
          then refuse DiagCode.not_implemented
          else ok (u128 (mul64x64 a.lo b.lo).0 0)
      | ExprOp.mul_hi_s ↦
          if width /= 64 then refuse DiagCode.not_implemented else ok (exec_mul_hi_s a b)
      | ExprOp.div_u ↦
          if ltb 64 width
          then refuse DiagCode.not_implemented
          else ok (if b.lo == 0 then u128 0 0 else mask (u128 (a.lo / b.lo) 0) width)
      | ExprOp.div_s ↦
          if ltb 64 width then refuse DiagCode.not_implemented else ok (exec_div_s a b width)
      | ExprOp.rem_u ↦
          if ltb 64 width
          then refuse DiagCode.not_implemented
          else ok (if b.lo == 0 then mask a width else mask (u128 (a.lo % b.lo) 0) width)
      | ExprOp.rem_s ↦
          if ltb 64 width then refuse DiagCode.not_implemented else ok (exec_rem_s a b width)
      | ExprOp.neg ↦ ok (U128.sub (u128 0 0) a width)
      | ExprOp.and ↦ ok (mask (u128 (bit_and a.lo b.lo) (bit_and a.hi b.hi)) width)
      | ExprOp.or ↦ ok (mask (u128 (bit_or a.lo b.lo) (bit_or a.hi b.hi)) width)
      | ExprOp.xor ↦ ok (mask (u128 (bit_xor a.lo b.lo) (bit_xor a.hi b.hi)) width)
      | ExprOp.not ↦ ok (u128 (bit_xor a.lo (mask_of width).lo) (bit_xor a.hi (mask_of width).hi))
      | ExprOp.shl ↦ ok (U128.shl a width (to_unsigned b.lo))
      | ExprOp.shr_u ↦ ok (U128.shr_u a width (to_unsigned b.lo))
      | ExprOp.shr_s ↦ ok (U128.shr_s a width (to_unsigned b.lo))
      | ExprOp.rot_r ↦ ok (U128.rot_r a width (to_unsigned b.lo))
      | ExprOp.rot_l ↦ ok (U128.rot_l a width (to_unsigned b.lo))
      | ExprOp.cmp_eq ↦ ok (boolean ((a.lo == b.lo) && (a.hi == b.hi)))
      | ExprOp.cmp_ne ↦ ok (boolean ((a.lo /= b.lo) || (a.hi /= b.hi)))
      | ExprOp.cmp_lt_u ↦ ok (boolean (is_lt (cmp_u a b)))
      | ExprOp.cmp_le_u ↦ ok (boolean (is_le (cmp_u a b)))
      | ExprOp.cmp_lt_s ↦ ok (boolean (is_lt (cmp_s a b w0)))
      | ExprOp.cmp_le_s ↦ ok (boolean (is_le (cmp_s a b w0)))
      | ExprOp.z_ext ↦ ok (U128.zext a w0 width)
      | ExprOp.s_ext ↦ ok (U128.sext a w0 width)
      | ExprOp.trunc ↦ ok (mask a width)
      | ExprOp.bitcast ↦ ok (mask a width)
      | ExprOp.extract ↦ ok (U128.extract a w0 (to_unsigned e.immediate) width)
      | ExprOp.concat ↦
          (let high = U128.shl a width w1 in
            let low = mask b w1 in
            ok (mask (u128 (bit_or high.lo low.lo) (bit_or high.hi low.hi)) width))
      | ExprOp.clz ↦ ok (u128 (U128.clz_of a width) 0)
      | ExprOp.ctz ↦ ok (u128 (U128.ctz_of a width) 0)
      | ExprOp.pop_count ↦
          ok (u128 (popcount 64 (mask a width).lo + popcount 64 (mask a width).hi) 0)
      | ExprOp.byte_swap ↦ ok (U128.bswap_of a width)
      | ExprOp.bit_reverse ↦ ok (U128.brev_of a width)
      | ExprOp.select ↦ ok (if bit_and a.lo 1 /= 0 then b else arg args 2)
      | ExprOp.flag_def ↦ ok (flag_bundle e args)
      | ExprOp.flag_cond ↦ ok (
          boolean (elim (condition_code e.immediate) [
            | none ↦ false
            | some c ↦ eval_condition c (bit_and a.lo 0xf)
          ]))
      | ExprOp.flag_bit ↦ ok (boolean (bit_and (a.lo >> flag_position e.immediate) 1 /= 0))
      | ExprOp.f_neg ↦ ok (u128 (bit_xor a.lo (if width == 32 then 0x80000000 else 2 ^ 63)) 0)
      | ExprOp.f_abs ↦
          ok (u128 (bit_and a.lo (if width == 32 then 0x7fffffff else complement (2 ^ 63))) 0)
      | _ ↦ m.float_op e args
    ]

unfoldable pub exec_all : (ℕ → Result U128) → List ℕ → Result (List U128)
exec_all ev [] = ok []
exec_all ev (id ∷ ids) = do v ← ev id; vs ← exec_all ev ids; ok (v ∷ vs)

-- An id outside the pool breaks an assertion of `Function::expr`.
abbrev pub find_expr : Pool → ℕ → Result Expr
find_expr pool id = elim (pool id) [ none ↦ refuse DiagCode.internal | some e ↦ ok e ]

unfoldable pub flags_operand : (ℕ → Result U128) → Pool → ℕ → Result U128
flags_operand below pool id = find_expr pool id >>= λ e.
    if is_flag_def e.op
    then (exec_all below e.operands >>= λ args. ok (flag_bundle e args))
    else (below id >>= λ v. ok (u128 (bit_and v.lo 0xf) 0))

abbrev pub reads_flags : ExprOp → Bool
reads_flags op = elim op [ ExprOp.flag_cond ↦ true | ExprOp.flag_bit ↦ true | _ ↦ false ]

-- One call of `eval`: `below` evaluates one level deeper and `below2` two, as the operand of a flag
-- reader is.
unfoldable pub exec_node : (ℕ → Result U128) → (ℕ → Result U128) → Machine → Expr → Result U128
exec_node below below2 m e =
    if ltb 128 (bits e.type) && not (is_flags e.type)
    then refuse DiagCode.internal
    else (exec_all (if reads_flags e.op then flags_operand below2 m.pool else below) e.operands
        >>= exec_op m e)

unfoldable pub exec_rec : ℕ → Machine → ℕ → Result U128
exec_rec zero m id = refuse DiagCode.analysis_limit
exec_rec (suc zero) m id = find_expr m.pool id >>= exec_node (exec_rec zero m) (exec_rec zero m) m
exec_rec (suc (suc levels)) m id =
    find_expr m.pool id >>= exec_node (exec_rec (suc levels) m) (exec_rec levels m) m

unfoldable pub interp_eval : Machine → ℕ → Result U128
interp_eval m id = exec_rec 513 m id
