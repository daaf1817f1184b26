-- ===== src/Flags/Compare.antt =====
-- src/il/ceval.cpp: what the conditions say after a subtraction that sets the flags.
use native.Mathlib.Nat.{div-add-mod'}
use xdec.Base.{
  ℕ, ◌+◌, ◌-◌, ◌*◌, ◌/◌, ◌%◌, ◌^◌, ◌≤◌, ◌<◌, bit_and, ◌≡◌, ap, ◌∙◌, arith, ltb, leb, ◌==◌, ◌/=◌,
  Bool-cases, Bool, true, not, ◌&&◌, ◌⊎◌, inl, inr, ◌↔◌, [], ◌∷◌, signed, ℤ, pos, negsuc,
  if◌then◌else◌, ◌<ℤ◌,
}
use xdec.Bits.Digits.{bit_and-mask}
use xdec.Bits.Powers.{pow_split, mod_small, mod_unique, mod-lt_pow}
use xdec.U128.{u128}
use xdec.U128.Shift.{div_lt}
use xdec.Flags.{
  FlagOp, ConditionCode, sign_at, sub_sum, pack_nzcv, bool_eq, sub_flags, eval_flag_def, condition,
  eval_condition, invert,
}
use xdec.Flags.Sums.{sub_sum-IsSum, and-low_mask}

nibble : Bool → Bool → Bool → Bool → ℕ → Bool
nibble n z c v bit = bit_and (pack_nzcv n z c v) bit /= 0

nibble_flags :
    (n z c v : Bool)
    → (nibble n z c v 8 ≡ n)
      × (nibble n z c v 4 ≡ z)
      × (nibble n z c v 2 ≡ c)
      × (nibble n z c v 1 ≡ v)
unfolding nibble pack_nzcv
nibble_flags n z c v = (ground arith, ground arith, ground arith, ground arith)

-- A condition reads back the four flags that were packed.
pub eval_condition-pack_nzcv :
    (code : ConditionCode) (n z c v : Bool)
    → eval_condition code (pack_nzcv n z c v) ≡ condition code n z c v
unfolding eval_condition nibble
eval_condition-pack_nzcv code n z c v = let h = nibble_flags n z c v in cc (h.0, h.1, h.2, h.3)

-- For every condition and every flag word, the inverted condition holds exactly if the condition
-- does not.
pub eval_condition-invert :
    (code : ConditionCode) (nzcv : ℕ)
    → eval_condition (invert code) nzcv ≡ not (eval_condition code nzcv)
unfolding eval_condition condition invert
eval_condition-invert code nzcv = ground arith

pub half_width : (w : ℕ) → 1 ≤ w → 2 ^ w ≡ 2 * 2 ^ (w - 1)
half_width w h = pow_split 1 w h

-- The sign bit says whether the value reaches half the range.
pub sign_at-leb : (w v : ℕ) → 1 ≤ w → v < 2 ^ w → sign_at w v ≡ leb (2 ^ (w - 1)) v
unfolding sign_at
sign_at-leb w v lo h = ground (
  arith,
  bit_and-mask 1 (v / 2 ^ (w - 1)),
  half_width w lo,
  div_lt v 2 (2 ^ (w - 1)) (omega (arith, half_width w lo)),
  div-add-mod' v (2 ^ (w - 1)),
  mod-lt_pow v (w - 1),
)

-- The result of a subtraction in `2 * m` values, on both sides of the wrap.
difference_cases :
    (m a b r : ℕ)
    → a < 2 * m
    → b < 2 * m
    → r ≡ (a + (2 * m - 1 - b) + 1) % (2 * m)
    → ((b ≤ a) × (r + b ≡ a)) ⊎ ((a < b) × (r + b ≡ a + 2 * m))
difference_cases m a b r ha hb e = elim (Bool-cases (leb b a)) [
  | inl le ↦
      let split : a + (2 * m - 1 - b) + 1 ≡ 1 * (2 * m) + (a - b) = ground arith in
      inl (
        ground arith,
        ground (arith, ap (λ (t : ℕ). t % (2 * m)) split, mod_unique (2 * m) 1 (a - b)),
      )
  | inr gt ↦ inr (ground arith, ground (arith, mod_unique (2 * m) 0 (a + 2 * m - b)))
]

-- The condition `code` after `cmp a, b` at width `w`.
abbrev pub after_cmp : ℕ → ℕ → ℕ → ConditionCode → Bool
after_cmp w a b code = eval_condition code (eval_flag_def FlagOp.sub w (u128 a 0 ∷ u128 b 0 ∷ []))

-- The four flags of a comparison in `2 * m` values, with `r` the wrapped difference.
abbrev cmp_v : ℕ → ℕ → ℕ → ℕ → Bool
cmp_v m a b r = not (bool_eq (leb m a) (leb m b)) && not (bool_eq (leb m r) (leb m a))

abbrev cmp_holds : ℕ → ℕ → ℕ → ℕ → ConditionCode → Bool
cmp_holds m a b r code = condition code (leb m r) (r == 0) (leb b a) (cmp_v m a b r)

Bool_ext : (p q : Bool) → (p ≡ true) ↔ (q ≡ true) → p ≡ q
Bool_ext p q h = ground (arith, h)

abbrev halves_signed : ℕ → ℕ → ℤ
halves_signed m v = if ltb v m then pos v else negsuc (2 * m - v - 1)

module _ (m a b r : ℕ) (ha : a < 2 * m) (hb : b < 2 * m)
    (d : ((b ≤ a) × (r + b ≡ a)) ⊎ ((a < b) × (r + b ≡ a + 2 * m))) where
  holds_equal : (cmp_holds m a b r ConditionCode.equal ≡ true) ↔ (a ≡ b)
  unfolding condition
  holds_equal = ground arith

  holds_carry_set : (cmp_holds m a b r ConditionCode.carry_set ≡ true) ↔ (b ≤ a)
  unfolding condition
  holds_carry_set = ground arith

  holds_unsigned_greater : (cmp_holds m a b r ConditionCode.unsigned_greater ≡ true) ↔ (b < a)
  unfolding condition
  holds_unsigned_greater = ground arith

  holds_signed_less :
      (cmp_holds m a b r ConditionCode.signed_less ≡ true)
      ↔ (halves_signed m a <ℤ halves_signed m b)
  unfolding condition
  holds_signed_less = ground arith

  holds_signed_greater :
      (cmp_holds m a b r ConditionCode.signed_greater ≡ true)
      ↔ (halves_signed m b <ℤ halves_signed m a)
  unfolding condition
  holds_signed_greater = ground arith

module _ (w a b : ℕ) (lo : 1 ≤ w) (hi : w ≤ 64) (ha : a < 2 ^ w) (hb : b < 2 ^ w) where
  abbrev difference : ℕ
  difference = (sub_sum w a b 1).r

  difference_mod : difference ≡ (a + (2 ^ w - 1 - b) + 1) % 2 ^ w
  difference_mod = (sub_sum-IsSum w a b 1 hi ha hb (omega arith)).0

  no_borrow : (sub_sum w a b 1).c ≡ leb b a
  no_borrow =
      let h = (sub_sum-IsSum w a b 1 hi ha hb (omega arith)).1 in
      Bool_ext _ _ ((λ e. ground (arith, h.0 e)), (λ e. h.1 (ground arith)))

  flags-pack :
      eval_flag_def FlagOp.sub w (u128 a 0 ∷ u128 b 0 ∷ [])
      ≡ pack_nzcv
          (leb (2 ^ (w - 1)) difference)
          (difference == 0)
          (leb b a)
          (cmp_v (2 ^ (w - 1)) a b difference)
  unfolding eval_flag_def sub_flags
  flags-pack = rw (
    and-low_mask a w hi,
    and-low_mask b w hi,
    mod_small a w ha,
    mod_small b w hb,
    sign_at-leb w a lo ha,
    sign_at-leb w b lo hb,
    sign_at-leb w difference lo (rw difference_mod (mod-lt_pow _ w)),
    no_borrow,
  )

  cmp_reads :
      (code : ConditionCode) → after_cmp w a b code ≡ cmp_holds (2 ^ (w - 1)) a b difference code
  cmp_reads code = ap (eval_condition code) flags-pack ∙ eval_condition-pack_nzcv code _ _ _ _

  difference_shape :
      ((b ≤ a) × (difference + b ≡ a)) ⊎ ((a < b) × (difference + b ≡ a + 2 * 2 ^ (w - 1)))
  difference_shape =
      difference_cases (2 ^ (w - 1)) a b difference (rw (half_width w lo) at ha)
        (rw (half_width w lo) at hb) (rw (half_width w lo) at difference_mod)

-- After a flag-setting subtraction of two operands that fit a width from 1 to 64: `equal` holds
-- exactly if they are equal, `carry_set` exactly if the first is at least the second,
-- `unsigned_greater` exactly if it is above it, and `signed_less` and `signed_greater` exactly if
-- the two's complement values are so ordered.
pub cmp_conditions :
    (w a b : ℕ)
    → 1 ≤ w
    → w ≤ 64
    → a < 2 ^ w
    → b < 2 ^ w
    → ((after_cmp w a b ConditionCode.equal ≡ true) ↔ (a ≡ b))
      × ((after_cmp w a b ConditionCode.carry_set ≡ true) ↔ (b ≤ a))
      × ((after_cmp w a b ConditionCode.unsigned_greater ≡ true) ↔ (b < a))
      × ((after_cmp w a b ConditionCode.signed_less ≡ true) ↔ (signed w a <ℤ signed w b))
      × ((after_cmp w a b ConditionCode.signed_greater ≡ true) ↔ (signed w b <ℤ signed w a))
cmp_conditions w a b lo hi ha hb =
    rw
      (
        cmp_reads w a b lo hi ha hb ConditionCode.equal,
        cmp_reads w a b lo hi ha hb ConditionCode.carry_set,
        cmp_reads w a b lo hi ha hb ConditionCode.unsigned_greater,
        cmp_reads w a b lo hi ha hb ConditionCode.signed_less,
        cmp_reads w a b lo hi ha hb ConditionCode.signed_greater,
      )
      (
        holds_equal _ a b _ ha' hb' d,
        holds_carry_set _ a b _ ha' hb' d,
        holds_unsigned_greater _ a b _ ha' hb' d,
        rw (half_width w lo) (holds_signed_less _ a b _ ha' hb' d),
        rw (half_width w lo) (holds_signed_greater _ a b _ ha' hb' d),
      )
  where
    ha' : a < 2 * 2 ^ (w - 1)
    ha' = rw (half_width w lo) at ha

    hb' : b < 2 * 2 ^ (w - 1)
    hb' = rw (half_width w lo) at hb

    d :
        ((b ≤ a) × (difference w a b lo hi ha hb + b ≡ a))
        ⊎ ((a < b) × (difference w a b lo hi ha hb + b ≡ a + 2 * 2 ^ (w - 1)))
    d = difference_shape w a b lo hi ha hb
