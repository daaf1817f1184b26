-- ===== src/Interp/Agree/Division.antt =====
-- src/il/ceval.cpp and src/il/interp.cpp: the signed divisions and the signed high multiply.
use xdec.Base.{
  ℕ, ◌-◌, ◌/◌, ◌≤◌, ◌<◌, ◌^◌, ◌≡◌, ap, arith, ◌≢◌, inl, inr, Bool, false, Bool-cases, bit_or,
  bit_xor, ◌/=◌, if◌then◌else◌,
}
use xdec.Bits.Digits.{bit_and-mask, le-bit_or, bit_or-lt, bit_xor-lt}
use xdec.Bits.{sub64}
use xdec.U128.{U128, u128, mask, mask_of, sign_bit, sext}
use xdec.U128.Value.{IsWords, Fits, mask_of-IsWords, mask-wide_low, mask_self}
use native.Mathlib.Nat.{zero-div}
use xdec.U128.Product.{mul64x64-words}
use xdec.Eval.{fold_div_s, fold_rem_s, fold_mul_hi_s}
use xdec.Eval.Signed.{div_s64, rem_s64, int64_min, minus_one}
use xdec.Interp.{exec_div_s, exec_rem_s, exec_mul_hi_s}

-- Sign extension to 128 bits and to 64 have the same low word.
sext-lo : (v : U128) (w : ℕ) → (sext v w 128).lo ≡ (sext v w 64).lo
unfolding sext mask mask_of
sext-lo v w = elim (Bool-cases (sign_bit (mask v w) w)) [ inl e ↦ rw e | inr e ↦ rw e ]

-- The extension of a value is zero only for zero.
filled : ℕ → ℕ → ℕ
filled w lo = bit_or lo (bit_xor (mask_of w).lo (mask_of 64).lo)

filled_bounds : (w lo : ℕ) → lo < 2 ^ 64 → (lo ≤ filled w lo) × (filled w lo < 2 ^ 64)
unfolding filled
filled_bounds w lo h =
    let fill =
      bit_xor-lt 64 (mask_of w).lo (mask_of 64).lo (mask_of-IsWords w).0 (mask_of-IsWords 64).0 in
    (le-bit_or 64 lo _ h fill, bit_or-lt 64 lo _ h fill)

sext-ne_zero : (v : U128) (w : ℕ) → w ≤ 64 → Fits w v → v.lo ≢ 0 → (sext v w 64).lo ≢ 0
unfolding sext filled
sext-ne_zero v w h f n = elim (Bool-cases (sign_bit v w)) [
  | inl e ↦
      rw (mask_self v w f (omega arith), sext, e)
        (λ z. n (
          omega (
            arith,
            z,
            filled_bounds w v.lo f.0.0,
            mask-wide_low
                (u128 (filled w v.lo) (bit_or v.hi (bit_xor (mask_of w).hi (mask_of 64).hi))) 64
                (omega arith),
          )))
  | inr e ↦ rw (mask_self v w f (omega arith), sext, e) n
]

sext-lt : (v : U128) (w : ℕ) → w ≤ 64 → Fits w v → (sext v w 64).lo < 2 ^ 64
unfolding sext
sext-lt v w h f = elim (Bool-cases (sign_bit v w)) [
  | inl e ↦
      rw (mask_self v w f (omega arith), sext, e)
        (rw (mask-wide_low _ 64 (omega arith)) (omega arith))
  | inr e ↦ rw (mask_self v w f (omega arith), sext, e) f.0.0
]

sign_bit-zero : (v : U128) (w : ℕ) → w ≤ 64 → v.lo ≡ 0 → sign_bit v w ≡ false
unfolding sign_bit
sign_bit-zero v w h e = ground (
  arith,
  bit_and-mask 1 (v.lo / 2 ^ (w - 1)),
  zero-div (2 ^ (w - 1)),
  ap (λ (t : ℕ). t / 2 ^ (w - 1)) e,
)

sext-zero : (v : U128) (w : ℕ) → w ≤ 64 → Fits w v → v.lo ≡ 0 → (sext v w 64).lo ≡ 0
unfolding sext
sext-zero v w h f e = rw (mask_self v w f (omega arith), sext, sign_bit-zero v w h e) e

quotient_minus_one : (x : ℕ) → x < 2 ^ 64 → x ≢ int64_min → div_s64 x minus_one ≡ sub64 0 x
unfolding div_s64
quotient_minus_one x h n = ground arith

remainder_minus_one : (x : ℕ) → x < 2 ^ 64 → rem_s64 x minus_one ≡ 0
unfolding rem_s64
remainder_minus_one x h = ground arith

module _ (a b : U128) (w : ℕ) (h : w ≤ 64) (fa : Fits w a) (fb : Fits w b) where
  -- The folder tests the divisor before it is extended and guards the one overflow; the
  -- interpreter tests it after, and negates for every division by -1.
  pub fold_div_s-exec_div_s : fold_div_s a b w ≡ exec_div_s a b w
  unfolding fold_div_s exec_div_s
  fold_div_s-exec_div_s =
      rw (sext-lo a w, sext-lo b w)
        (ground (
          arith,
          sext-ne_zero b w h fb,
          sext-zero b w h fb,
          sext-lt a w h fa,
          quotient_minus_one (sext a w 64).lo,
        ))

  pub fold_rem_s-exec_rem_s : b.lo ≢ 0 → fold_rem_s a b w ≡ exec_rem_s a b w
  unfolding fold_rem_s exec_rem_s
  fold_rem_s-exec_rem_s n =
      rw (sext-lo a w, sext-lo b w)
        (ground
          (arith, sext-ne_zero b w h fb, sext-lt a w h fa, remainder_minus_one (sext a w 64).lo))

sign_bit-top : (v : U128) → v.lo < 2 ^ 64 → sign_bit v 64 ≡ (v.lo / 2 ^ 63 /= 0)
unfolding sign_bit
sign_bit-top v h = ground (arith, bit_and-mask 1 (v.lo / 2 ^ 63))

pub mask_low_word : (x : ℕ) → x < 2 ^ 64 → mask (u128 x 0) 64 ≡ u128 x 0
mask_low_word x h = mask_self (u128 x 0) 64 ((h, omega arith), omega arith) (omega arith)

corrected-lt : (x y : ℕ) (p : Bool) → x < 2 ^ 64 → (if p then sub64 x y else x) < 2 ^ 64
corrected-lt x y p h = ground arith

-- At width 64 the sign bit is the top bit of the low word.
pub fold_mul_hi_s-exec_mul_hi_s :
    (a b : U128) → IsWords a → IsWords b → fold_mul_hi_s a b 64 ≡ exec_mul_hi_s a b
unfolding fold_mul_hi_s exec_mul_hi_s
fold_mul_hi_s-exec_mul_hi_s a b ha hb =
    rw (sign_bit-top a ha.0, sign_bit-top b hb.0)
      (mask_low_word _ (
        corrected-lt _ a.lo (b.lo / 2 ^ 63 /= 0)
          (corrected-lt _ b.lo (a.lo / 2 ^ 63 /= 0) (mul64x64-words a.lo b.lo).0)))
