-- ===== src/Flags/Sums.antt =====
-- src/il/ceval.cpp: the sums of the flag formulas, at every width from 1 to 64.
use xdec.Base.{
  ℕ, ◌+◌, ◌-◌, ◌*◌, ◌/◌, ◌%◌, ◌^◌, ◌≤◌, ◌<◌, bit_and, ◌≡◌, refl, ap, ◌∙◌, arith, inl, inr, leb,
  ◌==◌, ==→eq, ne→==, ◌/=◌, Bool-cases, true, ◌↔◌,
}
use xdec.Bits.{complement, low_mask}
use xdec.Bits.Digits.{bit_and-mask, bit_xor-ones}
use xdec.Bits.Powers.{pow_split, pow_pos, pow_mono, mod_unique, mod-lt_pow}
use xdec.U128.Shift.{div_lt}
use native.Mathlib.Nat.{div-add-mod'}
use xdec.Flags.{Sum, add_sum, sub_sum}

-- `v & lowMask(width)` at every width up to 64.
pub and-low_mask : (v w : ℕ) → w ≤ 64 → bit_and v (low_mask w) ≡ v % 2 ^ w
unfolding low_mask
and-low_mask v w h = elim (Bool-cases (leb 64 w)) [
  | inl wide ↦ let e : w ≡ 64 = ground arith in rw e (bit_and-mask 64 v)
  | inr narrow ↦ ground (arith, bit_and-mask w v)
]

bit_and-one : (v : ℕ) → bit_and v 1 ≡ v % 2
bit_and-one v = bit_and-mask 1 v

-- `~b & lowMask(width)` is `2 ^ width - 1 - b`.
not-low : (b w : ℕ) → b < 2 ^ w → w ≤ 64 → complement b % 2 ^ w ≡ 2 ^ w - 1 - b
not-low b w hb hw = rw (bit_xor-ones 64 b (omega (arith, pow_mono w 64 hw))) (
    ap (λ (t : ℕ). t % 2 ^ w) split
    ∙ mod_unique (2 ^ w) (2 ^ (64 - w) - 1) (2 ^ w - 1 - b) (omega arith))
  where
    up : 2 ^ (64 - w) - 1 + 1 ≡ 2 ^ (64 - w)
    up = omega (arith, pow_pos (64 - w))

    split : 2 ^ 64 - 1 - b ≡ (2 ^ (64 - w) - 1) * 2 ^ w + (2 ^ w - 1 - b)
    split = omega (arith, ap (λ (t : ℕ). t * 2 ^ w) up, pow_split w 64 hw)

-- What a sum with its carry out is, in `width` bits.
abbrev pub IsSum : ℕ → ℕ → Sum → Type 0
IsSum width n s = (s.r ≡ n % 2 ^ width) × ((s.c ≡ true) ↔ (2 ^ width ≤ n))

carry_iff : (n w : ℕ) → n < 2 * 2 ^ w → (bit_and (n / 2 ^ w) 1 /= 0 ≡ true) ↔ (2 ^ w ≤ n)
carry_iff n w h = ground (
  arith,
  bit_and-one (n / 2 ^ w),
  div_lt n 2 (2 ^ w) (omega arith),
  div-add-mod' n (2 ^ w),
  mod-lt_pow n w,
)

add_sum-wide :
    (a b k : ℕ) → a < 2 ^ 64 → b < 2 ^ 64 → k ≤ 1 → IsSum 64 (a + b + k) (add_sum 64 a b k)
unfolding add_sum
add_sum-wide a b k ha hb hk = (omega arith, ground arith)

add_sum-narrow :
    (w a b k : ℕ) → w < 64 → a < 2 ^ w → b < 2 ^ w → k ≤ 1 → IsSum w (a + b + k) (add_sum w a b k)
unfolding add_sum
add_sum-narrow w a b k hw ha hb hk =
    let room : 2 ^ w ≤ 2 ^ 63 = pow_mono w 63 (omega arith) in
    let whole : ((a + b) % 2 ^ 64 + k) % 2 ^ 64 ≡ a + b + k = omega arith in
    rw (ne→== w 64 (omega arith), whole)
      (and-low_mask (a + b + k) w (omega arith), carry_iff (a + b + k) w (omega arith))

-- For two operands that fit a width up to 64 and a carry in of at most 1, the sum of the add flags
-- is the exact sum modulo `2 ^ width`, and its carry is set exactly if the exact sum reaches `2 ^
-- width`.
pub add_sum-IsSum :
    (w a b k : ℕ) → w ≤ 64 → a < 2 ^ w → b < 2 ^ w → k ≤ 1 → IsSum w (a + b + k) (add_sum w a b k)
add_sum-IsSum w a b k hw ha hb hk = elim (Bool-cases (w == 64)) [
  | inl e ↦ widen (==→eq w 64 e)
  | inr e ↦ add_sum-narrow w a b k (ground arith) ha hb hk
]
  where
    widen : w ≡ 64 → IsSum w (a + b + k) (add_sum w a b k)
    widen e = rw e (add_sum-wide a b k (rw e at ha) (rw e at hb) hk)

-- The formulas of `sub` add the complement.
pub sub_sum-add_sum :
    (w a b k : ℕ) → w ≤ 64 → b < 2 ^ w → sub_sum w a b k ≡ add_sum w a (2 ^ w - 1 - b) k
unfolding sub_sum add_sum
sub_sum-add_sum w a b k hw hb = elim (Bool-cases (w == 64)) [
  | inl e ↦ let d : w ≡ 64 = ==→eq w 64 e in rw (d, bit_xor-ones 64 b (rw d at hb)) refl
  | inr e ↦ rw (e, and-low_mask (complement b) w hw, not-low b w hb hw)
]

-- For two operands that fit a width up to 64 and a carry in of at most 1, the sum of the subtract
-- flags is the first operand plus the complement of the second plus the carry, modulo `2 ^ width`,
-- and its carry is set exactly if that exact sum reaches `2 ^ width`.
pub sub_sum-IsSum :
    (w a b k : ℕ)
    → w ≤ 64
    → a < 2 ^ w
    → b < 2 ^ w
    → k ≤ 1
    → IsSum w (a + (2 ^ w - 1 - b) + k) (sub_sum w a b k)
sub_sum-IsSum w a b k hw ha hb hk =
    rw (sub_sum-add_sum w a b k hw hb)
      (add_sum-IsSum w a (2 ^ w - 1 - b) k hw ha (omega (arith, pow_pos w)) hk)
