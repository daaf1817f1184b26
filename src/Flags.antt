-- ===== src/Flags.antt =====
-- src/il/ceval.cpp, `evalFlagDef` and `evalCondition`, with the flag types of
-- include/xdec/il/expr.h. A `ConcreteValue` is a `U128`: both are two words.
pub mod Sums
pub mod Compare
use xdec.Base.{
  ℕ, ◌+◌, ◌-◌, ◌%◌, ◌^◌, bit_and, bit_or, Bool, true, false, not, ◌&&◌, ◌||◌, List, [], ◌∷◌, ltb,
  ◌==◌, ◌/=◌, if◌then◌else◌, get_or,
}
use xdec.Bits.{wrap, ◌>>◌, complement, low_mask}
use xdec.U128.{U128, u128, bool_word}

pub data FlagOp : Type 0 where
  add sub add_carry sub_carry logical const : FlagOp

pub data ConditionCode : Type 0 where
  equal not_equal carry_set carry_clear negative non_negative overflow no_overflow : ConditionCode
  unsigned_greater unsigned_less_equal : ConditionCode
  signed_greater_equal signed_less signed_greater signed_less_equal : ConditionCode
  always never : ConditionCode

abbrev pub arg : List U128 → ℕ → U128
arg args i = get_or args i (u128 0 0)

unfoldable pub sign_at : ℕ → ℕ → Bool
sign_at width v = bit_and (v >> (width - 1)) 1 /= 0

-- The sum with its carry out, as the two branches on `width == 64` compute it.
pub record Sum : Type 0 where
  pub r : ℕ
  pub c : Bool

unfoldable pub add_sum : ℕ → ℕ → ℕ → ℕ → Sum
add_sum width a b carry_in =
    let r1 = wrap (a + b) in
    let r = wrap (r1 + carry_in) in
    let sum = wrap (wrap (a + b) + carry_in) in
    if width == 64
    then record { r = r; c = ltb r1 a || ltb r r1 }
    else record { r = bit_and sum (low_mask width); c = bit_and (sum >> width) 1 /= 0 }

unfoldable pub sub_sum : ℕ → ℕ → ℕ → ℕ → Sum
sub_sum width a b carry_in =
    let not_b = complement b in
    let r1 = wrap (a + not_b) in
    let r = wrap (r1 + carry_in) in
    let sum = wrap (wrap (a + bit_and not_b (low_mask width)) + carry_in) in
    if width == 64
    then record { r = r; c = ltb r1 a || ltb r r1 }
    else record { r = bit_and sum (low_mask width); c = bit_and (sum >> width) 1 /= 0 }

unfoldable pub pack_nzcv : Bool → Bool → Bool → Bool → ℕ
pack_nzcv n z c v =
    bit_or (bit_or (bit_or (if n then 8 else 0) (if z then 4 else 0)) (if c then 2 else 0))
      (if v then 1 else 0)

unfoldable pub bool_eq : Bool → Bool → Bool
bool_eq true b = b
bool_eq false b = not b

unfoldable pub add_flags : ℕ → ℕ → ℕ → ℕ → ℕ
add_flags width a b carry_in =
    let s = add_sum width a b carry_in in
    pack_nzcv (sign_at width s.r) (s.r == 0) s.c (
      bool_eq (sign_at width a) (sign_at width b)
      && not (bool_eq (sign_at width s.r) (sign_at width a)))

unfoldable pub sub_flags : ℕ → ℕ → ℕ → ℕ → ℕ
sub_flags width a b carry_in =
    let s = sub_sum width a b carry_in in
    pack_nzcv (sign_at width s.r) (s.r == 0) s.c (
      not (bool_eq (sign_at width a) (sign_at width b))
      && not (bool_eq (sign_at width s.r) (sign_at width a)))

unfoldable pub eval_flag_def : FlagOp → ℕ → List U128 → ℕ
eval_flag_def op width args =
    let m = low_mask width in
    let a = bit_and (arg args 0).lo m in
    let b = bit_and (arg args 1).lo m in
    let carry = bit_and (arg args 2).lo 1 in
    elim op [
      | FlagOp.add ↦ add_flags width a b 0
      | FlagOp.sub ↦ sub_flags width a b 1
      | FlagOp.add_carry ↦ add_flags width a b carry
      | FlagOp.sub_carry ↦ sub_flags width a b carry
      | FlagOp.logical ↦ pack_nzcv (sign_at width a) (a == 0) false false
      | FlagOp.const ↦ bit_and (arg args 0).lo 0xf
    ]

-- The switch of `evalCondition`, over the four flags.
unfoldable pub condition : ConditionCode → Bool → Bool → Bool → Bool → Bool
unfolding bool_eq
condition ConditionCode.equal n z c v = z
condition ConditionCode.not_equal n z c v = not z
condition ConditionCode.carry_set n z c v = c
condition ConditionCode.carry_clear n z c v = not c
condition ConditionCode.negative n z c v = n
condition ConditionCode.non_negative n z c v = not n
condition ConditionCode.overflow n z c v = v
condition ConditionCode.no_overflow n z c v = not v
condition ConditionCode.unsigned_greater n z c v = c && not z
condition ConditionCode.unsigned_less_equal n z c v = not c || z
condition ConditionCode.signed_greater_equal n z c v = bool_eq n v
condition ConditionCode.signed_less n z c v = not (bool_eq n v)
condition ConditionCode.signed_greater n z c v = not z && bool_eq n v
condition ConditionCode.signed_less_equal n z c v = z || not (bool_eq n v)
condition ConditionCode.always n z c v = true
condition ConditionCode.never n z c v = false

unfoldable pub eval_condition : ConditionCode → ℕ → Bool
eval_condition code nzcv =
    condition code (bit_and nzcv 8 /= 0) (bit_and nzcv 4 /= 0) (bit_and nzcv 2 /= 0)
      (bit_and nzcv 1 /= 0)

-- `invert` of src/il/expr.cpp.
unfoldable pub invert : ConditionCode → ConditionCode
invert ConditionCode.equal = ConditionCode.not_equal
invert ConditionCode.not_equal = ConditionCode.equal
invert ConditionCode.carry_set = ConditionCode.carry_clear
invert ConditionCode.carry_clear = ConditionCode.carry_set
invert ConditionCode.negative = ConditionCode.non_negative
invert ConditionCode.non_negative = ConditionCode.negative
invert ConditionCode.overflow = ConditionCode.no_overflow
invert ConditionCode.no_overflow = ConditionCode.overflow
invert ConditionCode.unsigned_greater = ConditionCode.unsigned_less_equal
invert ConditionCode.unsigned_less_equal = ConditionCode.unsigned_greater
invert ConditionCode.signed_greater_equal = ConditionCode.signed_less
invert ConditionCode.signed_less = ConditionCode.signed_greater_equal
invert ConditionCode.signed_greater = ConditionCode.signed_less_equal
invert ConditionCode.signed_less_equal = ConditionCode.signed_greater
invert ConditionCode.always = ConditionCode.never
invert ConditionCode.never = ConditionCode.always
