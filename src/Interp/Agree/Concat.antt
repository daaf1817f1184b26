-- ===== src/Interp/Agree/Concat.antt =====
-- src/il/ceval.cpp and src/il/interp.cpp: `Concat` by insertion, and by a shift with an or.
use xdec.Base.{
  ℕ, ◌+◌, ◌-◌, ◌*◌, ◌%◌, ◌≤◌, ◌<◌, ◌^◌, ◌≡◌, ap, ◌∙◌, arith, Bool-cases, bit_and, bit_or, inl, inr,
  leb,
}
use mathlib.Core.Path.{ap₂}
use xdec.Bits.{complement, low_mask}
use xdec.Bits.Digits.{bit_or_comm, bit_and-lt}
use xdec.Bits.Clear.{bit_and-complement}
use xdec.Bits.Powers.{pow_pos, pow_mono, pow_add, mod_small, pow_split}
use xdec.U128.{U128, u128, mask, mask_of, shl, insert}
use xdec.U128.Value.{value, IsWords, Fits, mask_self, mask-IsWords, mask_of-IsWords, value-mask}
use xdec.U128.Shift.{value-shl, shl-IsWords, shift_left_word}

zero_and : (x : ℕ) → bit_and 0 x ≡ 0
zero_and x = omega (arith, bit_and-lt 0 0 x (omega arith))

-- Clearing the multiples of `2 ^ k` in both words keeps a value below it.
abbrev cleared : U128 → U128 → U128
cleared b c = u128 (bit_and b.lo (complement c.lo)) (bit_and b.hi (complement c.hi))

clear-low :
    (b c : U128) (k q : ℕ) → k ≤ 64 → Fits k b → IsWords c → value c ≡ q * 2 ^ k → cleared b c ≡ b
clear-low b c k q hk fb hc e = ground (
  arith,
  low_word,
  zero_and (complement c.hi),
  high_word,
  bit_and-complement k (q % 2 ^ (64 - k)) b.lo hk,
)
  where
    low_word : c.lo ≡ q % 2 ^ (64 - k) * 2 ^ k
    low_word =
        let split : 2 ^ 64 ≡ 2 ^ (64 - k) * 2 ^ k = omega (arith, pow_split k 64 hk) in
        let word : c.lo ≡ value c % 2 ^ 64 = omega arith in
        word
        ∙ ap (λ (t : ℕ). t % 2 ^ 64) e
        ∙ ap (λ (t : ℕ). q * 2 ^ k % t) split
        ∙ shift_left_word q (2 ^ k) (2 ^ (64 - k)) (pow_pos k) (pow_pos (64 - k))

    high_word : b.hi ≡ 0
    high_word = omega (arith, pow_mono k 64 hk)

clear-high :
    (b c : U128) (k q : ℕ)
    → 64 ≤ k
    → k ≤ 128
    → Fits k b
    → IsWords c
    → value c ≡ q * 2 ^ k
    → cleared b c ≡ b
clear-high b c k q lo hk fb hc e =
    ground (arith, words, bit_and-complement 64 0 b.lo, bit_and-complement (k - 64) q b.hi)
  where
    whole : value c ≡ q * 2 ^ (k - 64) * 2 ^ 64
    whole = omega (arith, ap (λ (t : ℕ). q * t) (pow_split 64 k lo))

    words : (c.lo ≡ 0) × (c.hi ≡ q * 2 ^ (k - 64)) × (b.hi < 2 ^ (k - 64))
    words = (omega (arith, whole), omega (arith, whole), omega (arith, pow_split 64 k lo))

mask_of-value : (w : ℕ) → w ≤ 128 → value (mask_of w) ≡ 2 ^ w - 1
unfolding mask_of low_mask
mask_of-value w h = ground (arith, pow_split 64 w, pow_pos (w - 64), pow_pos w)

module _ (a b : U128) (w0 w1 : ℕ) (h : w1 + w0 ≤ 128) (fa : Fits w0 a) (fb : Fits w1 b) where
  field_mask : U128
  field_mask = mask (shl (mask_of w0) (w1 + w0) w1) (w1 + w0)

  field_mask-value : value field_mask ≡ (2 ^ w0 - 1) * 2 ^ w1
  unfolding field_mask
  field_mask-value =
      value-mask (shl (mask_of w0) (w1 + w0) w1) (w1 + w0)
        (shl-IsWords (mask_of w0) (w1 + w0) w1 (mask_of-IsWords w0)) h
      ∙ rw
          (
            value-shl (mask_of w0) (w1 + w0) w1 (mask_of-IsWords w0) h,
            mask_of-value w0 (omega arith),
          )
          (rw (mod_small _ (w1 + w0) fits) (mod_small _ (w1 + w0) fits))
    where
      top : 2 ^ w0 - 1 + 1 ≡ 2 ^ w0
      top = omega (arith, pow_pos w0)

      fits : (2 ^ w0 - 1) * 2 ^ w1 < 2 ^ (w1 + w0)
      fits = omega (arith, pow_add w1 w0, pow_pos w0, pow_pos w1, ap (λ (t : ℕ). t * 2 ^ w1) top)

  field_mask-IsWords : IsWords field_mask
  unfolding field_mask
  field_mask-IsWords = mask-IsWords _ _ (shl-IsWords _ _ _ (mask_of-IsWords w0))

  kept : cleared b field_mask ≡ b
  kept = elim (Bool-cases (leb w1 64)) [
    | inl low ↦
        clear-low b field_mask w1 (2 ^ w0 - 1) (ground arith) fb field_mask-IsWords field_mask-value
    | inr high ↦
        clear-high b field_mask w1 (2 ^ w0 - 1) (ground arith) (omega arith) fb field_mask-IsWords
          field_mask-value
  ]

  pub insert-or :
      insert (mask b w1) (mask a w0) w1 w0 (w1 + w0)
      ≡ mask
          (u128
            (bit_or (shl a (w1 + w0) w1).lo (mask b w1).lo)
            (bit_or (shl a (w1 + w0) w1).hi (mask b w1).hi))
          (w1 + w0)
  unfolding insert field_mask
  insert-or =
      rw (mask_self b w1 fb (omega arith), mask_self a w0 fa (omega arith))
        (ap
            (λ (t : U128).
              mask
                (u128 (bit_or t.lo (shl a (w1 + w0) w1).lo) (bit_or t.hi (shl a (w1 + w0) w1).hi))
                (w1 + w0))
            kept
          ∙ ap₂ (λ x y. mask (u128 x y) (w1 + w0)) (bit_or_comm _ _) (bit_or_comm _ _))
