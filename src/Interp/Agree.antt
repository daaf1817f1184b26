-- ===== src/Interp/Agree.antt =====
-- src/il/ceval.cpp against src/il/interp.cpp: where the folder and the interpreter both give a value
-- to one operation over the same operands, it is the same value, but for a remainder by zero.
mod Division
mod Concat
mod Compare
use mathlib.Core.Path.{subst}
use Division.{
  fold_div_s-exec_div_s, fold_rem_s-exec_rem_s, fold_mul_hi_s-exec_mul_hi_s, mask_low_word,
}
use Concat.{insert-or}
use Compare.{exec_compare, fold_compare-exec_compare}
use xdec.Base.{
  ℕ, ◌+◌, ◌≤◌, ◌<◌, ◌^◌, ◌≡◌, refl, sym, ap, ◌∙◌, arith, ◌≢◌, Bool, true, false, Bool-cases, some,
  List, Result, ok, err, ==→eq, ◌==◌, inl, inr, ltb, ◌/=◌,
}
use xdec.U128.{U128, u128, mask}
use xdec.U128.Value.{Fits, IsWords, mask_self}
use xdec.U128.Product.{mul64x64-words}
use xdec.Flags.{arg}
use xdec.Expr.{ExprOp, Expr, Pool, bits, operand_bits}
use xdec.Eval.{Cmp, fold_op}
use xdec.Interp.{Machine, exec_op, exec_rem_s}

-- The result rules of include/xdec/il/expr.h that matter here, on the widths of the result and of
-- the first two operands.
abbrev pub IsTyped : ExprOp → ℕ → ℕ → ℕ → Type 0
IsTyped ExprOp.mul_hi_u w w0 w1 = (w0 ≡ w) × (w1 ≡ w)
IsTyped ExprOp.mul_hi_s w w0 w1 = (w0 ≡ w) × (w1 ≡ w)
IsTyped ExprOp.div_s w w0 w1 = (w0 ≡ w) × (w1 ≡ w)
IsTyped ExprOp.rem_s w w0 w1 = (w0 ≡ w) × (w1 ≡ w)
IsTyped ExprOp.cmp_eq w w0 w1 = w1 ≡ w0
IsTyped ExprOp.cmp_ne w w0 w1 = w1 ≡ w0
IsTyped ExprOp.cmp_lt_u w w0 w1 = w1 ≡ w0
IsTyped ExprOp.cmp_le_u w w0 w1 = w1 ≡ w0
IsTyped ExprOp.cmp_lt_s w w0 w1 = w1 ≡ w0
IsTyped ExprOp.cmp_le_s w w0 w1 = w1 ≡ w0
IsTyped ExprOp.bitcast w w0 w1 = w0 ≡ w
IsTyped _ w w0 w1 = Unit

-- A remainder has a divisor.
abbrev pub HasDivisor : ExprOp → U128 → Type 0
HasDivisor ExprOp.rem_u b = b.lo ≢ 0
HasDivisor ExprOp.rem_s b = b.lo ≢ 0
HasDivisor _ b = Unit

module _ (m : Machine) (e : Expr) (args : List U128) (v v' : U128) where
  abbrev w : ℕ
  w = bits e.type

  abbrev w0 : ℕ
  w0 = operand_bits m.pool e 0

  abbrev w1 : ℕ
  w1 = operand_bits m.pool e 1

  abbrev a : U128
  a = arg args 0

  abbrev b : U128
  b = arg args 1

  module _ (fa : Fits w0 a) (fb : Fits w1 b) (f : fold_op m.pool e args ≡ some v)
      (x : exec_op m e args ≡ ok v') (le : w ≤ 128) where
    same : {n k : ℕ} (u : U128) → n ≡ k → Fits n u → Fits k u
    same u t h = subst (λ n. Fits n u) t h

    agree : (op : ExprOp) → e.op ≡ op → IsTyped op w w0 w1 → HasDivisor op b → v ≡ v'
    unfolding fold_op exec_op exec_compare
    agree ExprOp.mul_hi_u q t d = ground (arith, mask_low_word _ (mul64x64-words a.lo b.lo).0)
    agree ExprOp.mul_hi_s q t d = ground (arith, fold_mul_hi_s-exec_mul_hi_s a b fa.0 fb.0)
    agree ExprOp.div_s q t d =
        ground
          (arith, λ (h : w ≤ 64). fold_div_s-exec_div_s a b w h (same a t.0 fa) (same b t.1 fb))
    agree ExprOp.rem_s q t d =
        ground
          (arith, λ (h : w ≤ 64). fold_rem_s-exec_rem_s a b w h (same a t.0 fa) (same b t.1 fb) d)
    agree ExprOp.cmp_eq q t d =
        ground (arith, fold_compare-exec_compare Cmp.eq w0 a b v fa (same b t fb))
    agree ExprOp.cmp_ne q t d =
        ground (arith, fold_compare-exec_compare Cmp.ne w0 a b v fa (same b t fb))
    agree ExprOp.cmp_lt_u q t d =
        ground (arith, fold_compare-exec_compare Cmp.lt_u w0 a b v fa (same b t fb))
    agree ExprOp.cmp_le_u q t d =
        ground (arith, fold_compare-exec_compare Cmp.le_u w0 a b v fa (same b t fb))
    agree ExprOp.cmp_lt_s q t d =
        ground (arith, fold_compare-exec_compare Cmp.lt_s w0 a b v fa (same b t fb))
    agree ExprOp.cmp_le_s q t d =
        ground (arith, fold_compare-exec_compare Cmp.le_s w0 a b v fa (same b t fb))
    agree ExprOp.bitcast q t d = ground (arith, mask_self a w (same a t fa) le)
    agree ExprOp.concat q t d = ground (arith, λ (h : w1 + w0 ≤ 128). insert-or a b w0 w1 h fa fb)
    agree _ q t d = ground arith

-- For one operation over the same operands: if the operands fit their widths, the result is at most
-- 128 bits wide, the expression is typed and a remainder has a divisor with a nonzero low word,
-- then a value that the constant folder gives and a value that the interpreter gives are equal.
pub fold_op-exec_op :
    (m : Machine) (e : Expr) (args : List U128) (v v' : U128)
    → Fits (operand_bits m.pool e 0) (arg args 0)
    → Fits (operand_bits m.pool e 1) (arg args 1)
    → bits e.type ≤ 128
    → IsTyped e.op (bits e.type) (operand_bits m.pool e 0) (operand_bits m.pool e 1)
    → HasDivisor e.op (arg args 1)
    → fold_op m.pool e args ≡ some v
    → exec_op m e args ≡ ok v'
    → v ≡ v'
fold_op-exec_op m e args v v' fa fb le t d f x = agree m e args v v' fa fb f x le e.op refl t d
