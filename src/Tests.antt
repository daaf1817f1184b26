-- ===== src/Tests.antt =====
-- Concrete runs of the arithmetic, the flags and the two evaluators.
use xdec.Base.{
  ℕ, ◌+◌, ◌-◌, ◌*◌, ◌/◌, ◌%◌, ◌^◌, ◌≤◌, ◌<◌, ◌≡◌, refl, ◌↔◌, true, not, none, some, List, [], ◌∷◌,
  ok, err, arith,
}
use xdec.U128.{U128, u128}
use Prim.Native.Nat.{Ordering}
use xdec.Base.{◌==◌, if◌then◌else◌, signed, ◌<ℤ◌, DiagCode, diag}
use xdec.U128
use xdec.U128.{mask, mask_of, mul64x64, cmp_u}
use xdec.U128.Value.{value, IsWords, Fits, value-mask}
use xdec.U128.Arith.{value-add, add-carry_iff, value-sub, cmp_u-lt_iff}
use xdec.U128.Product.{mul64x64_exact, value-mul_low}
use xdec.U128.Shift.{value-shl, value-shr_u}
use xdec.Flags.{ConditionCode, add_sum, sub_sum, eval_condition, invert, arg}
use xdec.Flags.Sums.{IsSum, add_sum-IsSum, sub_sum-IsSum}
use xdec.Flags.Compare.{after_cmp, cmp_conditions, eval_condition-invert}
use xdec.Expr.{TypeKind, IlType, ExprOp, Expr, Pool, operand_bits}
use xdec.Eval.{fold_op, fold_div_s}
use xdec.Eval.Signed.{div_s64, magnitude, is_negative}
use xdec.Interp.{Machine, exec_op, exec_div_s}
use xdec.Interp.Agree.{IsTyped, fold_op-exec_op}

-- Words and widths.
abbrev big : U128
big = u128 0xfedcba9876543210 0x0123456789abcdef

big-IsWords : IsWords big
big-IsWords = (omega arith, omega arith)

small-Fits : Fits 72 (u128 0xfedcba9876543210 0xab)
small-Fits = ((omega arith, omega arith), omega arith)

value-mask_example : value (mask big 100) ≡ value big % 2 ^ 100
value-mask_example = value-mask big 100 big-IsWords (omega arith)

value-add_example : value (U128.add big big 100).0 ≡ (value big + value big) % 2 ^ 100
value-add_example = value-add big big 100 big-IsWords big-IsWords (omega arith)

add-carry_iff_example : ((U128.add big big 100).1 ≡ true) ↔ (2 ^ 128 ≤ value big + value big)
add-carry_iff_example = add-carry_iff big big 100 big-IsWords big-IsWords

value-sub_example :
    value (U128.sub (u128 5 0) big 100) ≡ (value (u128 5 0) + 2 ^ 128 - value big) % 2 ^ 100
value-sub_example =
    value-sub (u128 5 0) big 100 (omega arith, omega arith) big-IsWords (omega arith)

value-mul_low_example : value (U128.mul_low big big 128) ≡ value big * value big % 2 ^ 128
value-mul_low_example = value-mul_low big big 128 big-IsWords big-IsWords (omega arith)

mul64x64_exact_example :
    (mul64x64 big.lo big.hi).0 * 2 ^ 64 + (mul64x64 big.lo big.hi).1 ≡ big.lo * big.hi
mul64x64_exact_example = mul64x64_exact big.lo big.hi (omega arith) (omega arith)

value-shl_example : value (U128.shl big 100 68) ≡ value big * 2 ^ 68 % 2 ^ 100
value-shl_example = value-shl big 100 68 big-IsWords (omega arith)

value-shr_u_example :
    value (U128.shr_u (u128 0xfedcba9876543210 0xab) 72 68)
    ≡ value (u128 0xfedcba9876543210 0xab) / 2 ^ 68
value-shr_u_example = value-shr_u (u128 0xfedcba9876543210 0xab) 72 68 small-Fits (omega arith)

cmp_u-lt_iff_example : (cmp_u (u128 5 0) big ≡ Ordering.lt) ↔ (value (u128 5 0) < value big)
cmp_u-lt_iff_example = cmp_u-lt_iff (u128 5 0) big (omega arith, omega arith) big-IsWords

-- Flags.
add_sum-IsSum_example : IsSum 8 (200 + 100 + 1) (add_sum 8 200 100 1)
add_sum-IsSum_example =
    add_sum-IsSum 8 200 100 1 (omega arith) (omega arith) (omega arith) (omega arith)

sub_sum-IsSum_example : IsSum 8 (5 + (2 ^ 8 - 1 - 7) + 1) (sub_sum 8 5 7 1)
sub_sum-IsSum_example =
    sub_sum-IsSum 8 5 7 1 (omega arith) (omega arith) (omega arith) (omega arith)

cmp_conditions_example :
    ((after_cmp 8 0x80 1 ConditionCode.equal ≡ true) ↔ (◌≡◌ {A = ℕ} 0x80 1))
    × ((after_cmp 8 0x80 1 ConditionCode.carry_set ≡ true) ↔ (1 ≤ 0x80))
    × ((after_cmp 8 0x80 1 ConditionCode.unsigned_greater ≡ true) ↔ (1 < 0x80))
    × ((after_cmp 8 0x80 1 ConditionCode.signed_less ≡ true) ↔ (signed 8 0x80 <ℤ signed 8 1))
    × ((after_cmp 8 0x80 1 ConditionCode.signed_greater ≡ true) ↔ (signed 8 1 <ℤ signed 8 0x80))
cmp_conditions_example =
    cmp_conditions 8 0x80 1 (omega arith) (omega arith) (omega arith) (omega arith)

eval_condition-invert_example :
    eval_condition (invert ConditionCode.signed_greater) 9
    ≡ not (eval_condition ConditionCode.signed_greater 9)
eval_condition-invert_example = eval_condition-invert ConditionCode.signed_greater 9

-- Two constants of eight bits, and an operation on them.
abbrev byte : IlType
byte = record { kind = TypeKind.int; element_bits = 8; lanes = 1 }

abbrev literal : ℕ → Expr
literal n = record { op = ExprOp.const; type = byte; operands = []; immediate = n }

abbrev two_operands : ExprOp → Expr
two_operands op = record { op = op; type = byte; operands = 0 ∷ 1 ∷ []; immediate = 0 }

abbrev bytes_pool : Pool
bytes_pool id =
    if id == 0 then some (literal 0x80) else if id == 1 then some (literal 0xff) else none

abbrev machine : Machine
machine = record {
  pool = bytes_pool;
  values = λ id. none;
  registers = λ id. u128 0 0;
  float_op = λ e args. err (diag DiagCode.internal);
}

abbrev two_words : List U128
two_words = u128 0x80 0 ∷ u128 0xff 0 ∷ []

byte-Fits0 : Fits (operand_bits machine.pool (two_operands ExprOp.div_s) 0) (arg two_words 0)
unfolding operand_bits
byte-Fits0 = ((omega arith, omega arith), omega arith)

byte-Fits1 : Fits (operand_bits machine.pool (two_operands ExprOp.div_s) 1) (arg two_words 1)
unfolding operand_bits
byte-Fits1 = ((omega arith, omega arith), omega arith)

byte-IsTyped :
    IsTyped ExprOp.div_s 8
      (operand_bits machine.pool (two_operands ExprOp.div_s) 0)
      (operand_bits machine.pool (two_operands ExprOp.div_s) 1)
unfolding operand_bits
byte-IsTyped = (refl, refl)

-- -128 divided by -1 is -128 again, in both.
folded : fold_op machine.pool (two_operands ExprOp.div_s) two_words ≡ some (u128 0x80 0)
unfolding fold_op fold_div_s mask U128.sext U128.sign_bit div_s64 magnitude is_negative mask_of
folded = refl

executed : exec_op machine (two_operands ExprOp.div_s) two_words ≡ ok (u128 0x80 0)
unfolding exec_op exec_div_s U128.sext U128.sign_bit mask mask_of
executed = refl

fold_op-exec_op_example : u128 0x80 0 ≡ u128 0x80 0
fold_op-exec_op_example =
    fold_op-exec_op machine (two_operands ExprOp.div_s) two_words (u128 0x80 0) (u128 0x80 0)
      byte-Fits0 byte-Fits1 (omega arith) byte-IsTyped tt folded executed
