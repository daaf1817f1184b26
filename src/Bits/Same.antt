-- ===== src/Bits/Same.antt =====
-- `&`, `|` and `^` of a word with itself and with 0, and in either order.
use Prim.Native.Nat.{differ}
use native.Mathlib.Nat.{pow-suc}
use xdec.Base.{ℕ, zero, suc, ◌/◌, ◌%◌, ◌^◌, ◌<◌, bit_and, bit_or, bit_xor, ◌≡◌, refl, arith}
use xdec.Bits.Digits.{and_step, or_step, xor_step}

differ_self : (d : ℕ) → d < 2 → differ d d ≡ 0
differ_self zero h = refl
differ_self (suc zero) h = refl
differ_self (suc (suc d)) h = absurd (omega arith)

differ_zero : (d : ℕ) → d < 2 → differ d 0 ≡ d
differ_zero zero h = refl
differ_zero (suc zero) h = refl
differ_zero (suc (suc d)) h = absurd (omega arith)

differ_comm : (c d : ℕ) → c < 2 → d < 2 → differ c d ≡ differ d c
differ_comm zero zero h l = refl
differ_comm zero (suc zero) h l = refl
differ_comm (suc zero) zero h l = refl
differ_comm (suc zero) (suc zero) h l = refl
differ_comm (suc (suc c)) d h l = absurd (omega arith)
differ_comm c (suc (suc d)) h l = absurd (omega arith)

pub bit_and_self : (k a : ℕ) → a < 2 ^ k → bit_and a a ≡ a
bit_and_self zero a h = let e : a ≡ 0 = omega arith in rw e
bit_and_self (suc k) a h =
    omega (arith, and_step a a, bit_and_self k (a / 2) (omega (arith, pow-suc 2 k)))

pub bit_or_self : (k a : ℕ) → a < 2 ^ k → bit_or a a ≡ a
bit_or_self zero a h = let e : a ≡ 0 = omega arith in rw e
bit_or_self (suc k) a h =
    omega (arith, or_step a a, bit_or_self k (a / 2) (omega (arith, pow-suc 2 k)))

pub bit_xor_self : (k a : ℕ) → a < 2 ^ k → bit_xor a a ≡ 0
bit_xor_self zero a h = let e : a ≡ 0 = omega arith in rw e
bit_xor_self (suc k) a h = omega (
  arith,
  xor_step a a,
  differ_self (a % 2) (omega arith),
  bit_xor_self k (a / 2) (omega (arith, pow-suc 2 k)),
)

pub bit_xor-zero : (k a : ℕ) → a < 2 ^ k → bit_xor a 0 ≡ a
bit_xor-zero zero a h = let e : a ≡ 0 = omega arith in rw e
bit_xor-zero (suc k) a h = omega (
  arith,
  xor_step a 0,
  differ_zero (a % 2) (omega arith),
  bit_xor-zero k (a / 2) (omega (arith, pow-suc 2 k)),
)

pub bit_and_comm : (k a b : ℕ) → a < 2 ^ k → b < 2 ^ k → bit_and a b ≡ bit_and b a
bit_and_comm zero a b h l = let e : a ≡ 0 = omega arith in let d : b ≡ 0 = omega arith in rw (e, d)
bit_and_comm (suc k) a b h l = omega (
  arith,
  and_step a b,
  and_step b a,
  bit_and_comm k (a / 2) (b / 2) (omega (arith, pow-suc 2 k)) (omega (arith, pow-suc 2 k)),
)

pub bit_xor_comm : (k a b : ℕ) → a < 2 ^ k → b < 2 ^ k → bit_xor a b ≡ bit_xor b a
bit_xor_comm zero a b h l = let e : a ≡ 0 = omega arith in let d : b ≡ 0 = omega arith in rw (e, d)
bit_xor_comm (suc k) a b h l = omega (
  arith,
  xor_step a b,
  xor_step b a,
  differ_comm (a % 2) (b % 2) (omega arith) (omega arith),
  bit_xor_comm k (a / 2) (b / 2) (omega (arith, pow-suc 2 k)) (omega (arith, pow-suc 2 k)),
)
