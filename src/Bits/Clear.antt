-- ===== src/Bits/Clear.antt =====
-- `x & ~mask`, where the mask holds only digits above those of `x`.
use xdec.Base.{ℕ, ◌+◌, ◌-◌, ◌*◌, ◌^◌, ◌≤◌, ◌<◌, bit_and, bit_xor, ◌≡◌, ap, ◌∙◌, arith}
use native.Mathlib.Nat.{lt_of_mul-lt-mul_right}
use xdec.Bits.Digits.{bit_and-kept, bit_xor-ones}
use xdec.Bits.Powers.{pow_split, pow_pos}

-- Clearing the multiples of `2 ^ k` keeps a number below it.
pub bit_and-complement :
    (k q x : ℕ)
    → k ≤ 64
    → x < 2 ^ k
    → q * 2 ^ k < 2 ^ 64
    → bit_and x (bit_xor (q * 2 ^ k) (2 ^ 64 - 1)) ≡ x
bit_and-complement k q x hk hx hq =
    ap (bit_and x) (bit_xor-ones 64 (q * 2 ^ k) hq ∙ regroup)
    ∙ bit_and-kept k (2 ^ (64 - k) - 1 - q) x hx
  where
    fits : q < 2 ^ (64 - k)
    fits = lt_of_mul-lt-mul_right (2 ^ k) (omega (arith, pow_split k 64 hk))

    rest : 2 ^ (64 - k) - 1 - q + q + 1 ≡ 2 ^ (64 - k)
    rest = omega (arith, fits)

    regroup : 2 ^ 64 - 1 - q * 2 ^ k ≡ (2 ^ (64 - k) - 1 - q) * 2 ^ k + (2 ^ k - 1)
    regroup = omega (arith, ap (λ (t : ℕ). t * 2 ^ k) rest, pow_split k 64 hk, pow_pos k)
