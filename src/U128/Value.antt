-- ===== src/U128/Value.antt =====
-- src/il/u128.h: the number that a `U128` stands for, and masking as a remainder.
use native.Mathlib.Nat.{div-add-mod'}
use xdec.Base.{
  ℕ, ◌+◌, ◌-◌, ◌*◌, ◌/◌, ◌%◌, ◌^◌, ◌≤◌, ◌<◌, ◌≡◌, ap, ◌∙◌, arith, inl, inr, leb, Bool-cases,
}
use xdec.Bits.{low_mask}
use xdec.Bits.Digits.{bit_and-mask, bit_and-zero, bit_and-lt}
use xdec.Bits.Powers.{pow_add, mod-mod_pow, mod_unique, mod_small, mod-lt_pow, pow_mono}
use xdec.U128.{U128, mask, mask_of}

abbrev pub value : U128 → ℕ
value v = v.lo + v.hi * 2 ^ 64

-- Both words are 64-bit words, as their C++ type guarantees.
abbrev pub IsWords : U128 → Type 0
IsWords v = (v.lo < 2 ^ 64) × (v.hi < 2 ^ 64)

-- The value has no digit at `width` or above.
abbrev pub Fits : ℕ → U128 → Type 0
Fits width v = IsWords v × (value v < 2 ^ width)

two_words_mod :
    (lo hi k : ℕ) → lo < 2 ^ 64 → (lo + hi * 2 ^ 64) % 2 ^ (64 + k) ≡ lo + hi % 2 ^ k * 2 ^ 64
two_words_mod lo hi k h = rw (pow_add 64 k) (
    ap (λ x. x % (2 ^ 64 * 2 ^ k)) split
    ∙ mod_unique (2 ^ 64 * 2 ^ k) (hi / 2 ^ k) (lo + hi % 2 ^ k * 2 ^ 64) small)
  where
    split : lo + hi * 2 ^ 64 ≡ hi / 2 ^ k * (2 ^ 64 * 2 ^ k) + (lo + hi % 2 ^ k * 2 ^ 64)
    split = omega (arith, div-add-mod' hi (2 ^ k))

    small : lo + hi % 2 ^ k * 2 ^ 64 < 2 ^ 64 * 2 ^ k
    small = omega (arith, mod-lt_pow hi k)

pub mask-low : (v : U128) (w : ℕ) → w ≤ 64 → (mask v w).lo ≡ v.lo % 2 ^ w
unfolding mask low_mask
mask-low v w h = elim (Bool-cases (leb 64 w)) [
  | inl wide ↦ let e : w ≡ 64 = ground arith in rw e (bit_and-mask 64 v.lo)
  | inr narrow ↦ ground (arith, bit_and-mask w v.lo)
]

pub mask-narrow : (v : U128) (w : ℕ) → w ≤ 64 → (mask v w).hi ≡ 0
unfolding mask low_mask
mask-narrow v w h = ground (arith, bit_and-zero v.hi)

pub mask-wide_low : (v : U128) (w : ℕ) → 64 ≤ w → (mask v w).lo ≡ v.lo % 2 ^ 64
unfolding mask low_mask
mask-wide_low v w h = ground (arith, bit_and-mask 64 v.lo)

pub mask-wide : (v : U128) (w : ℕ) → 64 < w → w ≤ 128 → (mask v w).hi ≡ v.hi % 2 ^ (w - 64)
unfolding mask low_mask
mask-wide v w lo h = elim (Bool-cases (leb 64 (w - 64))) [
  | inl full ↦ let e : w ≡ 128 = ground arith in rw e (bit_and-mask 64 v.hi)
  | inr part ↦ ground (arith, bit_and-mask (w - 64) v.hi)
]

-- For a value of two 64-bit words and a width up to 128, `mask` takes the remainder by `2 ^ width`.
pub value-mask : (v : U128) (w : ℕ) → IsWords v → w ≤ 128 → value (mask v w) ≡ value v % 2 ^ w
value-mask v w h le = elim (Bool-cases (leb w 64)) [
  | inl narrow ↦
      let n : w ≤ 64 = ground arith in
      let low : value v % 2 ^ 64 ≡ v.lo = omega arith in
      rw (mask-low v w n, mask-narrow v w n)
        (omega (arith, mod-mod_pow (value v) w 64 n, ap (λ x. x % 2 ^ w) low))
  | inr wide ↦
      let n : 64 < w = ground arith in
      let e : w ≡ 64 + (w - 64) = omega arith in
      rw (mask-wide_low v w (omega arith), mask-wide v w n le)
        (omega (arith, two_words_mod v.lo v.hi (w - 64) h.0, ap (λ x. value v % 2 ^ x) e))
]

pub mask-IsWords : (v : U128) (w : ℕ) → IsWords v → IsWords (mask v w)
unfolding mask
mask-IsWords v w h = (bit_and-lt 64 v.lo _ h.0, bit_and-lt 64 v.hi _ h.1)

pub mask-Fits : (v : U128) (w : ℕ) → IsWords v → w ≤ 128 → Fits w (mask v w)
mask-Fits v w h le = (mask-IsWords v w h, rw (value-mask v w h le) (mod-lt_pow (value v) w))

-- A value that fits is its own mask; and words with one value are one.
pub value_inj : (a b : U128) → IsWords a → IsWords b → value a ≡ value b → a ≡ b
value_inj a b ha hb e = ground arith

pub mask_self : (v : U128) (w : ℕ) → Fits w v → w ≤ 128 → mask v w ≡ v
mask_self v w h le =
    value_inj _ _ (mask-IsWords v w h.0) h.0 (value-mask v w h.0 le ∙ mod_small (value v) w h.1)

pub mask_of-IsWords : (w : ℕ) → IsWords (mask_of w)
unfolding mask_of low_mask
mask_of-IsWords w = (ground (arith, pow_mono w 64), ground (arith, pow_mono (w - 64) 64))
