-- ===== src/U128/Product.antt =====
-- src/il/u128.h: the 64 x 64 multiply in 32-bit limbs is exact, and `mulLow` keeps the low half.
use native.Mathlib.Nat.{mul-le-mul}
use mathlib.Core.Path.{ap₂}
use xdec.Base.{ℕ, ◌+◌, ◌-◌, ◌*◌, ◌/◌, ◌%◌, ◌^◌, ◌≤◌, ◌<◌, ◌≡◌, refl, sym, ◌∙◌, arith, ltb}
use xdec.U128.{U128, u128, mul64x64, mul_low, bool_word}
use xdec.U128.Value.{value, IsWords}
use xdec.U128.Arith.{value-mask_of_mod}

-- The carries of the schoolbook sum, for any four partial products of 32-bit limbs.
limbs : ℕ → ℕ → ℕ → ℕ → ℕ × ℕ
limbs p0 p1 p2 p3 =
    let mid = (p1 + p2) % 2 ^ 64 in
    let mid_carry = bool_word (ltb mid p1) in
    let lo = (p0 + mid * 2 ^ 32 % 2 ^ 64) % 2 ^ 64 in
    let lo_carry = bool_word (ltb lo p0) in
    (
      ((((p3 + mid / 2 ^ 32) % 2 ^ 64) + mid_carry * 2 ^ 32 % 2 ^ 64) % 2 ^ 64 + lo_carry) % 2 ^ 64,
      lo,
    )

limbs_sum :
    (p0 p1 p2 p3 : ℕ)
    → p0 ≤ (2 ^ 32 - 1) * (2 ^ 32 - 1)
    → p1 ≤ (2 ^ 32 - 1) * (2 ^ 32 - 1)
    → p2 ≤ (2 ^ 32 - 1) * (2 ^ 32 - 1)
    → p3 ≤ (2 ^ 32 - 1) * (2 ^ 32 - 1)
    → (limbs p0 p1 p2 p3).0 * 2 ^ 64 + (limbs p0 p1 p2 p3).1 ≡ p0 + (p1 + p2) * 2 ^ 32 + p3 * 2 ^ 64
unfolding limbs
limbs_sum p0 p1 p2 p3 h0 h1 h2 h3 = ground arith

limb_le : (x y : ℕ) → x < 2 ^ 32 → y < 2 ^ 32 → x * y ≤ (2 ^ 32 - 1) * (2 ^ 32 - 1)
limb_le x y h l = mul-le-mul {n₂ = 2 ^ 32 - 1} {m₂ = 2 ^ 32 - 1} (omega arith) (omega arith)

mul64x64-limbs :
    (a b : ℕ)
    → a < 2 ^ 64
    → b < 2 ^ 64
    → mul64x64 a b
      ≡ limbs
          (a % 2 ^ 32 * (b % 2 ^ 32))
          (a % 2 ^ 32 * (b / 2 ^ 32))
          (a / 2 ^ 32 * (b % 2 ^ 32))
          (a / 2 ^ 32 * (b / 2 ^ 32))
unfolding mul64x64 limbs
mul64x64-limbs a b ha hb =
    rw
      (
        small (a % 2 ^ 32) (b % 2 ^ 32) (omega arith) (omega arith),
        small (a % 2 ^ 32) (b / 2 ^ 32) (omega arith) (omega arith),
        small (a / 2 ^ 32) (b % 2 ^ 32) (omega arith) (omega arith),
        small (a / 2 ^ 32) (b / 2 ^ 32) (omega arith) (omega arith),
      )
      refl
  where
    small : (x y : ℕ) → x < 2 ^ 32 → y < 2 ^ 32 → (x * y) % 2 ^ 64 ≡ x * y
    small x y h l = omega (arith, limb_le x y h l)

product_of_halves :
    (a0 a1 b0 b1 : ℕ)
    → (a1 * 2 ^ 32 + a0) * (b1 * 2 ^ 32 + b0)
      ≡ a0 * b0 + (a0 * b1 + a1 * b0) * 2 ^ 32 + a1 * b1 * 2 ^ 64
product_of_halves a0 a1 b0 b1 = omega arith

-- For two 64-bit words, the high word of `mul64x64` times `2 ^ 64` plus its low word is the exact
-- product.
pub mul64x64_exact :
    (a b : ℕ) → a < 2 ^ 64 → b < 2 ^ 64 → (mul64x64 a b).0 * 2 ^ 64 + (mul64x64 a b).1 ≡ a * b
mul64x64_exact a b ha hb = rw (mul64x64-limbs a b ha hb) (
    limbs_sum _ _ _ _ (limb_le _ _ (omega arith) (omega arith))
      (limb_le _ _ (omega arith) (omega arith)) (limb_le _ _ (omega arith) (omega arith))
      (limb_le _ _ (omega arith) (omega arith))
    ∙ sym (product_of_halves (a % 2 ^ 32) (a / 2 ^ 32) (b % 2 ^ 32) (b / 2 ^ 32))
    ∙ ap₂ ◌*◌ (omega arith) (omega arith))

pub mul64x64-words : (a b : ℕ) → ((mul64x64 a b).0 < 2 ^ 64) × ((mul64x64 a b).1 < 2 ^ 64)
unfolding mul64x64
mul64x64-words a b = (omega arith, omega arith)

mul_words : U128 → U128 → U128
mul_words a b =
    u128 (mul64x64 a.lo b.lo).1
      ((((mul64x64 a.lo b.lo).0 + a.lo * b.hi % 2 ^ 64) % 2 ^ 64 + a.hi * b.lo % 2 ^ 64) % 2 ^ 64)

product_of_words :
    (al ah bl bh : ℕ)
    → (al + ah * 2 ^ 64) * (bl + bh * 2 ^ 64)
      ≡ al * bl + (al * bh + ah * bl) * 2 ^ 64 + ah * bh * 2 ^ 128
product_of_words al ah bl bh = omega arith

mul_words-value :
    (a b : U128) → IsWords a → IsWords b → value (mul_words a b) ≡ value a * value b % 2 ^ 128
unfolding mul_words
mul_words-value a b ha hb =
    rw (product_of_words a.lo a.hi b.lo b.hi)
      (omega (arith, mul64x64_exact a.lo b.lo ha.0 hb.0, mul64x64-words a.lo b.lo))

-- For values of two 64-bit words and a width up to 128, `mul_low` is multiplication modulo `2 ^
-- width`.
pub value-mul_low :
    (a b : U128) (w : ℕ)
    → IsWords a
    → IsWords b
    → w ≤ 128
    → value (mul_low a b w) ≡ value a * value b % 2 ^ w
unfolding mul_low mul_words
value-mul_low a b w ha hb le =
    value-mask_of_mod (mul_words a b) (value a * value b) w
      ((mul64x64-words a.lo b.lo).1, omega arith) le (mul_words-value a b ha hb)
