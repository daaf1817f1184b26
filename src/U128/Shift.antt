-- ===== src/U128/Shift.antt =====
-- src/il/u128.h: a left shift multiplies and a right shift divides by `2 ^ amount`, across the two
-- words and for amounts at or beyond the width.
use native.Mathlib.Nat.{
  div-add-mod', div-div-eq-div-mul, mul_comm, mod-lt, lt_of_mul-lt-mul_right, add-mul-div_right,
  mul-mod_left, div-eq_of_lt,
}
use xdec.Base.{
  ℕ, ◌+◌, ◌-◌, ◌*◌, ◌/◌, ◌%◌, ◌^◌, ◌≤◌, ◌<◌, ◌≡◌, sym, ap, ◌∙◌, arith, leb, ◌==◌, Bool-cases, ==→eq,
  inl, inr, bit_or,
}
use xdec.Bits.Digits.{bit_or_fields, bit_or_comm, bit_or-lt}
use xdec.Bits.Powers.{pow_pos, mod_unique, pow_mono, pow_split}
use xdec.U128.{U128, u128, shl, shr_u}
use xdec.U128.Value.{value, IsWords, Fits, value-mask, mask-IsWords, mask_self}
use xdec.U128.Arith.{value-mask_of_mod}

-- A word shifted left inside a word: with `q * p` the word size, the top digits fall out.
shift_split : (x p q : ℕ) → x * p ≡ x / q * (q * p) + x % q * p
shift_split x p q = omega (arith, ap (λ (t : ℕ). t * p) (div-add-mod' x q))

shift_kept-le : (x p q : ℕ) → 0 < q → x % q * p + p ≤ q * p
shift_kept-le x p q hq = grind (arith, mod-lt x hq)

pub shift_left_word : (x p q : ℕ) → 0 < p → 0 < q → x * p % (q * p) ≡ x % q * p
shift_left_word x p q hp hq =
    ap (λ y. y % (q * p)) (shift_split x p q)
    ∙ mod_unique (q * p) (x / q) (x % q * p) (omega (arith, shift_kept-le x p q hq))

pub div_lt : (x p q : ℕ) → x < q * p → x / q < p
div_lt x p q h = lt_of_mul-lt-mul_right q (omega (arith, div-add-mod' x q, mul_comm q p))

-- The two words of a left shift by less than a word.
shl_words : ℕ → ℕ → ℕ → U128
shl_words lo hi n = u128 (lo * 2 ^ n % 2 ^ 64) (bit_or (hi * 2 ^ n % 2 ^ 64) (lo / 2 ^ (64 - n)))

module _ (lo hi n : ℕ) (hl : lo < 2 ^ 64) (hn : n < 64) where
  word_split : 2 ^ 64 ≡ 2 ^ (64 - n) * 2 ^ n
  word_split = pow_split n 64 (omega arith) ∙ mul_comm (2 ^ n) (2 ^ (64 - n))

  carried : lo / 2 ^ (64 - n) < 2 ^ n
  carried = div_lt lo (2 ^ n) (2 ^ (64 - n)) (omega (arith, word_split))

  shifted : (x : ℕ) → x * 2 ^ n % 2 ^ 64 ≡ x % 2 ^ (64 - n) * 2 ^ n
  shifted x =
      rw word_split (shift_left_word x (2 ^ n) (2 ^ (64 - n)) (pow_pos n) (pow_pos (64 - n)))

  shl_words-hi : (shl_words lo hi n).hi ≡ hi % 2 ^ (64 - n) * 2 ^ n + lo / 2 ^ (64 - n)
  unfolding shl_words
  shl_words-hi = rw (shifted hi) (bit_or_fields n (hi % 2 ^ (64 - n)) (lo / 2 ^ (64 - n)) carried)

  kept_le : (x : ℕ) → x % 2 ^ (64 - n) * 2 ^ n + 2 ^ n ≤ 2 ^ 64
  kept_le x = omega (arith, shift_kept-le x (2 ^ n) (2 ^ (64 - n)) (pow_pos (64 - n)), word_split)

  whole : (x : ℕ) → x * 2 ^ n ≡ x / 2 ^ (64 - n) * 2 ^ 64 + x % 2 ^ (64 - n) * 2 ^ n
  whole x =
      shift_split x (2 ^ n) (2 ^ (64 - n))
      ∙ ap (λ t. x / 2 ^ (64 - n) * t + x % 2 ^ (64 - n) * 2 ^ n) (sym word_split)

  shl_words-IsWords : IsWords (shl_words lo hi n)
  unfolding shl_words
  shl_words-IsWords = (omega arith, rw shl_words-hi (omega (arith, kept_le hi, carried)))

  shl_words-value : value (shl_words lo hi n) ≡ (lo + hi * 2 ^ 64) * 2 ^ n % 2 ^ 128
  unfolding shl_words
  shl_words-value =
      rw (shl_words-hi, shifted lo)
        (sym (ap (λ t. t % 2 ^ 128) split ∙ mod_unique (2 ^ 128) (hi / 2 ^ (64 - n)) _ small))
    where
      split :
          (lo + hi * 2 ^ 64) * 2 ^ n
          ≡ hi / 2 ^ (64 - n) * 2 ^ 128
            + (lo % 2 ^ (64 - n) * 2 ^ n + (hi % 2 ^ (64 - n) * 2 ^ n + lo / 2 ^ (64 - n)) * 2 ^ 64)
      split = omega (arith, whole lo, whole hi)

      small :
          lo % 2 ^ (64 - n) * 2 ^ n + (hi % 2 ^ (64 - n) * 2 ^ n + lo / 2 ^ (64 - n)) * 2 ^ 64
          < 2 ^ 128
      small = omega (arith, kept_le lo, kept_le hi, carried)

shr_words : ℕ → ℕ → ℕ → U128
shr_words lo hi n = u128 (bit_or (lo / 2 ^ n) (hi * 2 ^ (64 - n) % 2 ^ 64)) (hi / 2 ^ n)

module _ (lo hi n : ℕ) (hl : lo < 2 ^ 64) (hn : n ≤ 64) where
  shr_words-lo : (shr_words lo hi n).lo ≡ hi % 2 ^ n * 2 ^ (64 - n) + lo / 2 ^ n
  unfolding shr_words
  shr_words-lo =
      rw
        (
          pow_split n 64 hn,
          shift_left_word hi (2 ^ (64 - n)) (2 ^ n) (pow_pos (64 - n)) (pow_pos n),
        )
        (bit_or_comm _ _
          ∙ bit_or_fields (64 - n) (hi % 2 ^ n) (lo / 2 ^ n)
              (div_lt lo (2 ^ (64 - n)) (2 ^ n) (omega (arith, pow_split n 64 hn))))

  shr_words-value : value (shr_words lo hi n) ≡ (lo + hi * 2 ^ 64) / 2 ^ n
  unfolding shr_words
  shr_words-value = rw shr_words-lo (
      sym (
        ap (λ t. t / 2 ^ n) split
        ∙ add-mul-div_right lo (hi * 2 ^ (64 - n)) (pow_pos n)
        ∙ omega (
          arith,
          ap (λ (t : ℕ). t * 2 ^ (64 - n)) (div-add-mod' hi (2 ^ n)),
          ap (λ (t : ℕ). hi / 2 ^ n * t) (pow_split n 64 hn),
        )))
    where
      split : lo + hi * 2 ^ 64 ≡ lo + hi * 2 ^ (64 - n) * 2 ^ n
      split = omega (arith, ap (λ t. hi * t) (pow_split n 64 hn))

div_small : (x m : ℕ) → x < m → x / m ≡ 0
div_small x m h = div-eq_of_lt h

-- Once the amount reaches the width nothing is left.
shifted_out : (x w n : ℕ) → w ≤ n → x * 2 ^ n % 2 ^ w ≡ 0
shifted_out x w n h =
    rw (pow_split w n h)
      (ap (λ (t : ℕ). t % 2 ^ w) regroup ∙ mul-mod_left (x * 2 ^ (n - w)) (2 ^ w))
  where
    regroup : x * (2 ^ w * 2 ^ (n - w)) ≡ x * 2 ^ (n - w) * 2 ^ w
    regroup = omega arith

shl_high-value :
    (lo hi n : ℕ)
    → 64 ≤ n
    → value (u128 0 (lo * 2 ^ (n - 64) % 2 ^ 64)) ≡ (lo + hi * 2 ^ 64) * 2 ^ n % 2 ^ 128
shl_high-value lo hi n h =
    omega
      (arith, ap (λ (t : ℕ). lo * t) (pow_split 64 n h), ap (λ (t : ℕ). hi * t) (pow_split 64 n h))

-- For a value of two 64-bit words and a width up to 128, `shl` multiplies by `2 ^ amount` modulo `2
-- ^ width`, at every amount.
pub value-shl :
    (v : U128) (w n : ℕ) → IsWords v → w ≤ 128 → value (shl v w n) ≡ value v * 2 ^ n % 2 ^ w
unfolding shl shl_words
value-shl v w n h le = elim (Bool-cases (n == 0)) [
  | inl e ↦
      let z : n ≡ 0 = ==→eq n 0 e in
      rw z (value-mask v w h le ∙ ap (λ (t : ℕ). t % 2 ^ w) (omega arith))
  | inr e ↦ elim (Bool-cases (leb w n)) [
    | inl out ↦ rw (e, out) (sym (shifted_out (value v) w n (ground arith)))
    | inr kept ↦ elim (Bool-cases (leb 64 n)) [
      | inl high ↦
          rw (e, kept, high)
            (value-mask_of_mod (u128 0 (v.lo * 2 ^ (n - 64) % 2 ^ 64)) (value v * 2 ^ n) w
              (omega arith) le (shl_high-value v.lo v.hi n (ground arith)))
      | inr low ↦
          rw (e, kept, low)
            (value-mask_of_mod (shl_words v.lo v.hi n) (value v * 2 ^ n) w
              (shl_words-IsWords v.lo v.hi n h.0 (ground arith)) le
              (shl_words-value v.lo v.hi n h.0 (ground arith)))
    ]
  ]
]

shr_high-value :
    (lo hi n : ℕ) → lo < 2 ^ 64 → 64 ≤ n → hi / 2 ^ (n - 64) ≡ (lo + hi * 2 ^ 64) / 2 ^ n
shr_high-value lo hi n hl h = rw (pow_split 64 n h) (
    ap (λ (t : ℕ). t / 2 ^ (n - 64)) (omega arith)
    ∙ div-div-eq-div-mul (lo + hi * 2 ^ 64) (2 ^ 64) (2 ^ (n - 64)))

-- For a value that fits a width up to 128, `shr_u` divides by `2 ^ amount`, rounding down, at every
-- amount.
pub value-shr_u : (v : U128) (w n : ℕ) → Fits w v → w ≤ 128 → value (shr_u v w n) ≡ value v / 2 ^ n
unfolding shr_u shr_words
value-shr_u v w n h le = elim (Bool-cases (n == 0)) [
  | inl e ↦ let z : n ≡ 0 = ==→eq n 0 e in rw (z, mask_self v w h le) (omega arith)
  | inr e ↦ elim (Bool-cases (leb w n)) [
    | inl out ↦
        rw (e, out)
          (sym (div_small (value v) (2 ^ n) (omega (arith, h.1, pow_mono w n (ground arith)))))
    | inr kept ↦ elim (Bool-cases (leb 64 n)) [
      | inl high ↦
          rw (e, kept, high) (omega (arith, shr_high-value v.lo v.hi n h.0.0 (ground arith)))
      | inr low ↦ rw (e, kept, low) (shr_words-value v.lo v.hi n h.0.0 (ground arith))
    ]
  ]
]

pub shl-IsWords : (v : U128) (w n : ℕ) → IsWords v → IsWords (shl v w n)
unfolding shl
shl-IsWords v w n h = elim (Bool-cases (n == 0)) [
  | inl e ↦ rw e (mask-IsWords v w h)
  | inr e ↦ elim (Bool-cases (leb w n)) [
    | inl out ↦ rw (e, out) (omega arith)
    | inr kept ↦ elim (Bool-cases (leb 64 n)) [
      | inl high ↦ rw (e, kept, high) (mask-IsWords _ w (omega arith))
      | inr low ↦
          rw (e, kept, low)
            (mask-IsWords _ w (omega arith, bit_or-lt 64 _ _ (omega arith) (omega arith)))
    ]
  ]
]

pub shr_u-IsWords : (v : U128) (w n : ℕ) → IsWords v → IsWords (shr_u v w n)
unfolding shr_u
shr_u-IsWords v w n h = elim (Bool-cases (n == 0)) [
  | inl e ↦ rw e (mask-IsWords v w h)
  | inr e ↦ elim (Bool-cases (leb w n)) [
    | inl out ↦ rw (e, out) (omega arith)
    | inr kept ↦ elim (Bool-cases (leb 64 n)) [
      | inl high ↦ rw (e, kept, high) (omega arith)
      | inr low ↦ rw (e, kept, low) (bit_or-lt 64 _ _ (omega arith) (omega arith), omega arith)
    ]
  ]
]
