-- ===== src/Eval.antt =====
-- src/il/ceval.cpp: `evalRec` and `tryEvalConst`. The bool result with its out parameter is an
-- `Option`. `kMaxEvalDepth` becomes fuel: depths 0 to 256 are 257 levels.
pub mod Signed
use Prim.Native.Nat.{Ordering}
use xdec.Base.{
  ℕ, zero, suc, ◌+◌, ◌-◌, ◌*◌, ◌/◌, ◌%◌, ◌^◌, bit_and, bit_or, bit_xor, Bool, true, false, ◌&&◌,
  ◌||◌, Option, none, some, List, [], ◌∷◌, get_or, ltb, leb, ◌==◌, ◌/=◌, if◌then◌else◌,
}
use xdec.Bits.{sub64, ◌>>◌, popcount}
use xdec.U128
use xdec.U128.{U128, u128, mask, mask_of, sign_bit, mul64x64, cmp_u, cmp_s, bool_word}
use xdec.Flags.{FlagOp, ConditionCode, arg, eval_flag_def, eval_condition}
use xdec.Expr.{
  ExprOp, Expr, Pool, bits, is_flags, operand_bits, flag_def_op, flag_def_width, condition_code,
  flag_position,
}
use Signed.{div_s64, rem_s64, int64_min, minus_one}

pub data Cmp : Type 0 where
  eq ne lt_u le_u lt_s le_s : Cmp

abbrev pub is_eq : Ordering → Bool
is_eq o = elim o [ Ordering.eq ↦ true | _ ↦ false ]

abbrev pub is_lt : Ordering → Bool
is_lt o = elim o [ Ordering.lt ↦ true | _ ↦ false ]

abbrev pub is_le : Ordering → Bool
is_le o = elim o [ Ordering.gt ↦ false | _ ↦ true ]

abbrev pub not_eq : Ordering → Bool
not_eq o = elim o [ Ordering.eq ↦ false | _ ↦ true ]

abbrev pub boolean : Bool → U128
boolean b = u128 (bool_word b) 0

-- `static_cast<unsigned>` of a shift amount.
abbrev pub to_unsigned : ℕ → ℕ
to_unsigned x = x % 2 ^ 32

-- The inner switch on the comparisons, with the operand width that they mask by.
unfoldable pub fold_compare : Cmp → ℕ → U128 → U128 → Option U128
fold_compare c width a b =
    let lhs = mask a width in
    let rhs = mask b width in
    if width == 0 || ltb 128 width
    then none
    else some (elim c [
      | Cmp.eq ↦ boolean (is_eq (cmp_u lhs rhs))
      | Cmp.ne ↦ boolean (not_eq (cmp_u lhs rhs))
      | Cmp.lt_u ↦ boolean (is_lt (cmp_u lhs rhs))
      | Cmp.le_u ↦ boolean (is_le (cmp_u lhs rhs))
      | Cmp.lt_s ↦ boolean (is_lt (cmp_s lhs rhs width))
      | Cmp.le_s ↦ boolean (is_le (cmp_s lhs rhs width))
    ])

-- The signed high half: the unsigned product with the sign corrections.
unfoldable pub fold_mul_hi_s : U128 → U128 → ℕ → U128
fold_mul_hi_s a b width =
    let hi_u = (mul64x64 a.lo b.lo).0 in
    let hi_a = if sign_bit a width then sub64 hi_u b.lo else hi_u in
    let hi = if sign_bit b width then sub64 hi_a a.lo else hi_a in mask (u128 hi 0) width

-- `DivS` and `RemS`: both operands are sign extended to 128 bits and read as 64.
unfoldable pub fold_div_s : U128 → U128 → ℕ → U128
fold_div_s a b width =
    let x = (U128.sext a width 128).lo in
    let y = (U128.sext b width 128).lo in
    if b.lo == 0
    then u128 0 0
    else mask (u128 (if x == int64_min && (y == minus_one) then x else div_s64 x y) 0) width

unfoldable pub fold_rem_s : U128 → U128 → ℕ → U128
fold_rem_s a b width =
    let x = (U128.sext a width 128).lo in
    let y = (U128.sext b width 128).lo in
    if b.lo == 0
    then u128 0 0
    else mask (u128 (if x == int64_min && (y == minus_one) then 0 else rem_s64 x y) 0) width

-- The switch of `evalRec`, once the operands have values and the width is 1 to 128.
unfoldable pub fold_op : Pool → Expr → List U128 → Option U128
fold_op pool e args =
    let a = arg args 0 in
    let b = arg args 1 in
    let width = bits e.type in
    let w0 = operand_bits pool e 0 in
    let w1 = operand_bits pool e 1 in
    elim e.op [
      | ExprOp.add ↦ some (U128.add a b width).0
      | ExprOp.sub ↦ some (U128.sub a b width)
      | ExprOp.mul ↦ some (U128.mul_low a b width)
      | ExprOp.mul_hi_u ↦
          if ltb 64 width then none else some (mask (u128 (mul64x64 a.lo b.lo).0 0) width)
      | ExprOp.mul_hi_s ↦ if ltb 64 width then none else some (fold_mul_hi_s a b width)
      | ExprOp.div_u ↦ some (if b.lo == 0 then u128 0 0 else mask (u128 (a.lo / b.lo) 0) width)
      | ExprOp.rem_u ↦ some (if b.lo == 0 then u128 0 0 else mask (u128 (a.lo % b.lo) 0) width)
      | ExprOp.div_s ↦ some (fold_div_s a b width)
      | ExprOp.rem_s ↦ some (fold_rem_s a b width)
      | ExprOp.neg ↦ some (U128.sub (u128 0 0) a width)
      | ExprOp.and ↦ some (mask (u128 (bit_and a.lo b.lo) (bit_and a.hi b.hi)) width)
      | ExprOp.or ↦ some (mask (u128 (bit_or a.lo b.lo) (bit_or a.hi b.hi)) width)
      | ExprOp.xor ↦ some (mask (u128 (bit_xor a.lo b.lo) (bit_xor a.hi b.hi)) width)
      | ExprOp.not ↦ some (u128 (bit_xor a.lo (mask_of width).lo) (bit_xor a.hi (mask_of width).hi))
      | ExprOp.shl ↦ some (U128.shl a width (to_unsigned b.lo))
      | ExprOp.shr_u ↦ some (U128.shr_u a width (to_unsigned b.lo))
      | ExprOp.shr_s ↦ some (U128.shr_s a width (to_unsigned b.lo))
      | ExprOp.rot_r ↦ some (U128.rot_r a width (to_unsigned b.lo))
      | ExprOp.rot_l ↦ some (U128.rot_l a width (to_unsigned b.lo))
      | ExprOp.cmp_eq ↦ fold_compare Cmp.eq w0 a b
      | ExprOp.cmp_ne ↦ fold_compare Cmp.ne w0 a b
      | ExprOp.cmp_lt_u ↦ fold_compare Cmp.lt_u w0 a b
      | ExprOp.cmp_le_u ↦ fold_compare Cmp.le_u w0 a b
      | ExprOp.cmp_lt_s ↦ fold_compare Cmp.lt_s w0 a b
      | ExprOp.cmp_le_s ↦ fold_compare Cmp.le_s w0 a b
      | ExprOp.z_ext ↦ if w0 == 0 then none else some (U128.zext a w0 width)
      | ExprOp.s_ext ↦ some (U128.sext a w0 width)
      | ExprOp.trunc ↦ some (mask a width)
      | ExprOp.bitcast ↦ some a
      | ExprOp.extract ↦ some (U128.extract a w0 (to_unsigned e.immediate) width)
      | ExprOp.concat ↦
          if width /= w1 + w0 then none else some (U128.insert (mask b w1) (mask a w0) w1 w0 width)
      | ExprOp.clz ↦ some (u128 (U128.clz_of a width) 0)
      | ExprOp.ctz ↦ some (u128 (U128.ctz_of a width) 0)
      | ExprOp.pop_count ↦
          some (u128 (popcount 64 (mask a width).lo + popcount 64 (mask a width).hi) 0)
      | ExprOp.byte_swap ↦ some (U128.bswap_of a width)
      | ExprOp.bit_reverse ↦ some (U128.brev_of a width)
      | ExprOp.select ↦ some (if bit_and a.lo 1 /= 0 then b else arg args 2)
      | ExprOp.flag_cond ↦ some (
          boolean (elim (condition_code e.immediate) [
            | none ↦ false
            | some c ↦ eval_condition c (bit_and a.lo 0xf)
          ]))
      | ExprOp.flag_bit ↦ some (boolean (bit_and (a.lo >> flag_position e.immediate) 1 /= 0))
      | _ ↦ none
    ]

-- The bundle of a `FlagDef`; an op byte past the enumerators leaves all four flags clear.
unfoldable pub flag_bundle : Expr → List U128 → U128
flag_bundle e args =
    u128
      (elim (flag_def_op e.immediate) [
        | none ↦ 0
        | some op ↦ eval_flag_def op (flag_def_width e.immediate) args
      ])
      0

abbrev pub is_flag_def : ExprOp → Bool
is_flag_def op = elim op [ ExprOp.flag_def ↦ true | _ ↦ false ]

abbrev pub is_const : ExprOp → Bool
is_const op = elim op [ ExprOp.const ↦ true | _ ↦ false ]

-- The guards between the operands and the switch.
unfoldable pub fold_args : Pool → Expr → List U128 → Option U128
fold_args pool e args =
    if is_flags e.type
    then (if is_flag_def e.op then some (flag_bundle e args) else none)
    else if bits e.type == 0 || ltb 128 (bits e.type)
    then none
    else fold_op pool e args

-- The loop over the operands: the first that has no value ends it.
unfoldable pub eval_all : (ℕ → Option U128) → List ℕ → Option (List U128)
eval_all ev [] = some []
eval_all ev (id ∷ ids) = elim (ev id) [
  | none ↦ none
  | some v ↦ elim (eval_all ev ids) [ none ↦ none | some vs ↦ some (v ∷ vs) ]
]

-- One level of `evalRec`, over the evaluation of the level below.
unfoldable pub fold_node : (ℕ → Option U128) → Pool → Expr → Option U128
fold_node below pool e =
    if is_const e.op then some (mask (u128 e.immediate 0) (bits e.type)) else elim e.operands [
      | [] ↦ none
      | id ∷ ids ↦ elim (eval_all below (id ∷ ids)) [
        | none ↦ none
        | some args ↦ fold_args pool e args
      ]
    ]

unfoldable pub eval_rec : ℕ → Pool → ℕ → Option U128
eval_rec zero pool id = none
eval_rec (suc levels) pool id = elim (pool id) [
  | none ↦ none
  | some e ↦ fold_node (eval_rec levels pool) pool e
]

unfoldable pub try_eval_const : Pool → ℕ → Option U128
try_eval_const pool id = eval_rec 257 pool id
