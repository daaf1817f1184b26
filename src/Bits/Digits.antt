-- ===== src/Bits/Digits.antt =====
-- The binary operations of C++ (`&`, `|`, `^`, `~`) on native numbers, digit by digit.
use Prim.Native.Nat.{digits, differ, bitwise, bit_and-bitwise, bit_or-bitwise, bit_xor-bitwise}
use native.Mathlib.Nat.{pow-suc, one-le-pow, div-div-eq-div-mul, mul_comm, add_comm}
use xdec.Base.{
  ℕ, zero, suc, ◌+◌, ◌-◌, ◌*◌, ◌/◌, ◌%◌, ◌^◌, ◌≤◌, ◌<◌, min, max, bit_and, bit_or, bit_xor, ◌≡◌,
  refl, sym, ap, ◌∙◌, arith,
}

-- The fuel of `digits` may be any number that reaches the first operand.
module _ (z : ℕ → ℕ) (f : ℕ → ℕ → ℕ) where
  at_zero : (fuel y : ℕ) → digits z f fuel 0 y ≡ z y
  at_zero zero y = refl
  at_zero (suc fuel) y = refl

  settled : (few many x y : ℕ) → x ≤ few → few ≤ many → digits z f many x y ≡ digits z f few x y
  settled few many zero y reach more = at_zero many y ∙ sym (at_zero few y)
  settled zero many (suc x) y reach more = absurd (omega arith)
  settled (suc few) zero (suc x) y reach more = absurd (omega arith)
  settled (suc few) (suc many) (suc x) y reach more =
      ap (λ (t : ℕ). t * 2 + f (suc x % 2) (y % 2))
        (settled few many (suc x / 2) (y / 2) (omega arith) (omega arith))

  lowest_digit :
      (x y : ℕ)
      → bitwise z f (suc x) y ≡ bitwise z f (suc x / 2) (y / 2) * 2 + f (suc x % 2) (y % 2)
  lowest_digit x y =
      let half = suc x / 2 in omega (arith, settled half x half (y / 2) (omega arith) (omega arith))

pub xor_step : (x y : ℕ) → bit_xor x y ≡ bit_xor (x / 2) (y / 2) * 2 + differ (x % 2) (y % 2)
xor_step zero y = simp bit_xor-bitwise (omega arith)
xor_step (suc x) y = simp bit_xor-bitwise (lowest_digit (λ d. d) differ x y)

pub and_step : (x y : ℕ) → bit_and x y ≡ bit_and (x / 2) (y / 2) * 2 + min (x % 2) (y % 2)
and_step zero y = simp bit_and-bitwise (omega arith)
and_step (suc x) y = simp bit_and-bitwise (lowest_digit (λ d. 0) min x y)

pub or_step : (x y : ℕ) → bit_or x y ≡ bit_or (x / 2) (y / 2) * 2 + max (x % 2) (y % 2)
or_step zero y = simp bit_or-bitwise (omega arith)
or_step (suc x) y = simp bit_or-bitwise (lowest_digit (λ d. d) max x y)

-- Digit `i` of `x`, as 0 or 1.
abbrev pub digit : ℕ → ℕ → ℕ
digit zero x = x % 2
digit (suc i) x = digit i (x / 2)

pub digit-and : (i a b : ℕ) → digit i (bit_and a b) ≡ min (digit i a) (digit i b)
digit-and zero a b = omega (arith, and_step a b)
digit-and (suc i) a b = ap (digit i) (omega (arith, and_step a b)) ∙ digit-and i (a / 2) (b / 2)

pub digit-or : (i a b : ℕ) → digit i (bit_or a b) ≡ max (digit i a) (digit i b)
digit-or zero a b = omega (arith, or_step a b)
digit-or (suc i) a b = ap (digit i) (omega (arith, or_step a b)) ∙ digit-or i (a / 2) (b / 2)

-- Numbers below `2 ^ k` with the same first `k` digits are equal.
pub digit_ext :
    (k a b : ℕ) → a < 2 ^ k → b < 2 ^ k → ((i : ℕ) → i < k → digit i a ≡ digit i b) → a ≡ b
digit_ext zero a b p q h = omega arith
digit_ext (suc k) a b p q h = omega (
  arith,
  pow-suc 2 k,
  h 0 (omega arith),
  digit_ext k (a / 2) (b / 2) (omega (arith, pow-suc 2 k)) (omega (arith, pow-suc 2 k))
      (λ i l. h (suc i) (omega arith)),
)

and-zero : (k a : ℕ) → a < 2 ^ k → bit_and a 0 ≡ 0
and-zero zero a h = let e : a ≡ 0 = omega arith in rw e
and-zero (suc k) a h = omega (arith, and_step a 0, and-zero k (a / 2) (omega (arith, pow-suc 2 k)))

or-zero : (k a : ℕ) → a < 2 ^ k → bit_or a 0 ≡ a
or-zero zero a h = let e : a ≡ 0 = omega arith in rw e
or-zero (suc k) a h = omega (arith, or_step a 0, or-zero k (a / 2) (omega (arith, pow-suc 2 k)))

lt_two_pow : (a : ℕ) → a < 2 ^ a
lt_two_pow zero = omega arith
lt_two_pow (suc a) = omega (arith, pow-suc 2 a, lt_two_pow a)

pub bit_and-zero : (a : ℕ) → bit_and a 0 ≡ 0
bit_and-zero a = and-zero a a (lt_two_pow a)

pub bit_or-zero : (a : ℕ) → bit_or a 0 ≡ a
bit_or-zero a = or-zero a a (lt_two_pow a)

pub mul-pow-suc : (q k : ℕ) → q * 2 ^ suc k ≡ 2 * (q * 2 ^ k)
mul-pow-suc q k = omega (arith, ap (λ (t : ℕ). q * t) (pow-suc 2 k))

-- `a & ((1 << k) - 1)` keeps the remainder by `2 ^ k`.
and_fields : (k q r : ℕ) → r < 2 ^ k → bit_and (q * 2 ^ k + r) (2 ^ k - 1) ≡ r
and_fields zero q r h = rw bit_and-zero (omega arith)
and_fields (suc k) q r h = ground (
  arith,
  and_step (q * 2 ^ suc k + r) (2 ^ suc k - 1),
  mul-pow-suc q k,
  pow-suc 2 k,
  one-le-pow k 2,
  and_fields k q (r / 2) (omega (arith, pow-suc 2 k)),
)

pub bit_and-mask : (k a : ℕ) → bit_and a (2 ^ k - 1) ≡ a % 2 ^ k
bit_and-mask k a = ground (arith, one-le-pow k 2, and_fields k (a / 2 ^ k) (a % 2 ^ k))

-- `(q << k) | r` is a sum when `r` has `k` digits.
pub bit_or_fields : (k q r : ℕ) → r < 2 ^ k → bit_or (q * 2 ^ k) r ≡ q * 2 ^ k + r
bit_or_fields zero q r h = ground (arith, bit_or-zero q)
bit_or_fields (suc k) q r h = ground (
  arith,
  or_step (q * 2 ^ suc k) r,
  mul-pow-suc q k,
  bit_or_fields k q (r / 2) (omega (arith, pow-suc 2 k)),
)

-- `a & ~((1 << k) - 1)`, in a word of `k + m` digits, clears the low `k`.
pub bit_and-high : (k m a : ℕ) → bit_and a ((2 ^ m - 1) * 2 ^ k) ≡ a / 2 ^ k % 2 ^ m * 2 ^ k
bit_and-high zero m a = ground (arith, bit_and-mask m a)
bit_and-high (suc k) m a = ground (
  arith,
  and_step a ((2 ^ m - 1) * 2 ^ suc k),
  mul-pow-suc (2 ^ m - 1) k,
  mul-pow-suc (a / 2 ^ suc k % 2 ^ m) k,
  pow-suc 2 k,
  div-div-eq-div-mul a 2 (2 ^ k),
  mul_comm 2 (2 ^ k),
  bit_and-high k m (a / 2),
)

differ-one : (x : ℕ) → x < 2 → differ x 1 ≡ 1 - x
differ-one zero h = refl
differ-one (suc zero) h = refl
differ-one (suc (suc x)) h = absurd (omega arith)

-- `~a` in a word of `k` digits.
pub bit_xor-ones : (k a : ℕ) → a < 2 ^ k → bit_xor a (2 ^ k - 1) ≡ 2 ^ k - 1 - a
bit_xor-ones zero a h = let e : a ≡ 0 = omega arith in rw e
bit_xor-ones (suc k) a h = ground (
  arith,
  xor_step a (2 ^ suc k - 1),
  differ-one (a % 2) (omega arith),
  pow-suc 2 k,
  one-le-pow k 2,
  bit_xor-ones k (a / 2) (omega (arith, pow-suc 2 k)),
)

-- The operations stay inside a word.
pub bit_and-lt : (k a b : ℕ) → a < 2 ^ k → bit_and a b < 2 ^ k
bit_and-lt zero a b h = let e : a ≡ 0 = omega arith in rw (e, bit_and-bitwise) (omega arith)
bit_and-lt (suc k) a b h =
    omega
      (arith, and_step a b, pow-suc 2 k, bit_and-lt k (a / 2) (b / 2) (omega (arith, pow-suc 2 k)))

pub bit_or-lt : (k a b : ℕ) → a < 2 ^ k → b < 2 ^ k → bit_or a b < 2 ^ k
bit_or-lt zero a b h l =
    let e : a ≡ 0 = omega arith in let d : b ≡ 0 = omega arith in rw (e, d) (omega arith)
bit_or-lt (suc k) a b h l = omega (
  arith,
  or_step a b,
  pow-suc 2 k,
  bit_or-lt k (a / 2) (b / 2) (omega (arith, pow-suc 2 k)) (omega (arith, pow-suc 2 k)),
)

differ-lt : (x y : ℕ) → x < 2 → y < 2 → differ x y < 2
differ-lt zero y h l = l
differ-lt (suc zero) zero h l = h
differ-lt (suc zero) (suc zero) h l = omega arith
differ-lt (suc zero) (suc (suc y)) h l = absurd (omega arith)
differ-lt (suc (suc x)) y h l = absurd (omega arith)

pub bit_xor-lt : (k a b : ℕ) → a < 2 ^ k → b < 2 ^ k → bit_xor a b < 2 ^ k
bit_xor-lt zero a b h l =
    let e : a ≡ 0 = omega arith in let d : b ≡ 0 = omega arith in rw (e, d) (omega arith)
bit_xor-lt (suc k) a b h l = omega (
  arith,
  xor_step a b,
  pow-suc 2 k,
  differ-lt (a % 2) (b % 2) (omega arith) (omega arith),
  bit_xor-lt k (a / 2) (b / 2) (omega (arith, pow-suc 2 k)) (omega (arith, pow-suc 2 k)),
)

or_comm : (k a b : ℕ) → a < 2 ^ k → b < 2 ^ k → bit_or a b ≡ bit_or b a
or_comm zero a b h l = let e : a ≡ 0 = omega arith in let d : b ≡ 0 = omega arith in rw (e, d)
or_comm (suc k) a b h l = omega (
  arith,
  or_step a b,
  or_step b a,
  pow-suc 2 k,
  or_comm k (a / 2) (b / 2) (omega (arith, pow-suc 2 k)) (omega (arith, pow-suc 2 k)),
)

pub bit_or_comm : (a b : ℕ) → bit_or a b ≡ bit_or b a
bit_or_comm a b = or_comm (a + b) a b (below a b) (rw (add_comm a b) (below b a))
  where
    below : (x y : ℕ) → x < 2 ^ (x + y)
    below x y = omega (arith, lt_two_pow (x + y))

-- A number of `k` digits is not changed by a mask that has the low `k` digits.
pub bit_and-kept : (k p x : ℕ) → x < 2 ^ k → bit_and x (p * 2 ^ k + (2 ^ k - 1)) ≡ x
bit_and-kept zero p x h = let e : x ≡ 0 = omega arith in rw (e, bit_and-bitwise)
bit_and-kept (suc k) p x h = ground (
  arith,
  and_step x (p * 2 ^ suc k + (2 ^ suc k - 1)),
  mul-pow-suc p k,
  pow-suc 2 k,
  one-le-pow k 2,
  bit_and-kept k p (x / 2) (omega (arith, pow-suc 2 k)),
)

pub le-bit_or : (k a b : ℕ) → a < 2 ^ k → b < 2 ^ k → a ≤ bit_or a b
le-bit_or zero a b h l = omega arith
le-bit_or (suc k) a b h l = omega (
  arith,
  or_step a b,
  pow-suc 2 k,
  le-bit_or k (a / 2) (b / 2) (omega (arith, pow-suc 2 k)) (omega (arith, pow-suc 2 k)),
)
