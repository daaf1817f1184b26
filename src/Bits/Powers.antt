-- ===== src/Bits/Powers.antt =====
-- Powers of two under `%` and `/`: what truncating a word to fewer bits does.
use Prim.Native.Nat.add
use native.Mathlib.Nat.{
  pow-suc, one-le-pow, mod-mod_of_dvd, mod-eq_of_lt, mul-add-mod_self_right, mod-lt, zero-add,
}
use xdec.Base.{ℕ, zero, suc, ◌+◌, ◌-◌, ◌*◌, ◌%◌, ◌^◌, ◌≤◌, ◌<◌, ◌≡◌, ap, ◌∙◌, arith}

pub pow_add : (m n : ℕ) → 2 ^ (m + n) ≡ 2 ^ m * 2 ^ n
pow_add zero n = rw zero-add (omega arith)
pow_add (suc m) n =
    rw (add.suc m n)
      (omega (arith, pow-suc 2 (m + n), pow_add m n, ap (λ (t : ℕ). t * 2 ^ n) (pow-suc 2 m)))

pub pow_pos : (n : ℕ) → 0 < 2 ^ n
pow_pos n = one-le-pow n 2 (omega arith)

pub pow_split : (w n : ℕ) → w ≤ n → 2 ^ n ≡ 2 ^ w * 2 ^ (n - w)
pow_split w n h = let e : n ≡ w + (n - w) = omega arith in ap (λ t. 2 ^ t) e ∙ pow_add w (n - w)

pub pow_mono : (w n : ℕ) → w ≤ n → 2 ^ w ≤ 2 ^ n
pow_mono w n h = grind (arith, pow_split w n h, pow_pos (n - w), pow_pos w)

-- Truncating to `n` bits first does not change the low `w ≤ n`.
pub mod-mod_pow : (x w n : ℕ) → w ≤ n → x % 2 ^ n % 2 ^ w ≡ x % 2 ^ w
mod-mod_pow x w n h = mod-mod_of_dvd (2 ^ w) x ∣ (2 ^ (n - w), pow_split w n h) ∣₁

pub mod_unique : (m q r : ℕ) → r < m → (q * m + r) % m ≡ r
mod_unique m q r h = mul-add-mod_self_right q m r ∙ mod-eq_of_lt h

pub mod_small : (x w : ℕ) → x < 2 ^ w → x % 2 ^ w ≡ x
mod_small x w h = mod-eq_of_lt h

pub mod-lt_pow : (x w : ℕ) → x % 2 ^ w < 2 ^ w
mod-lt_pow x w = mod-lt x (pow_pos w)
