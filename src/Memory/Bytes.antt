-- ===== src/Memory/Bytes.antt =====
-- src/exec/memory.cpp: how `write` takes a value apart into bytes and `read` puts it together.
use native.Mathlib.Nat.{div-div-eq-div-mul, add-mul-div_left, div-add-mod', mod-lt}
use xdec.Base.{
  ℕ, zero, suc, ◌+◌, ◌-◌, ◌*◌, ◌/◌, ◌%◌, ◌^◌, ◌≤◌, ◌<◌, ◌≡◌, sym, ap, ◌∙◌, inl, inr, Bool-cases,
  ltb, ltb→lt, ltb→le, if◌then◌else◌, List, [], ◌∷◌, All, arith, length, bit_or,
}
use xdec.Bits.{◌<<◌}
use xdec.Bits.Digits.{bit_or_fields, bit_or_comm, bit_and-mask}
use xdec.Bits.Powers.{pow_add, pow_split, pow_pos, mod_unique, pow_mono, mod_small}
use xdec.U128.{U128, u128, mask}
use xdec.U128.Value.{value, IsWords, value_inj, value-mask, mask-IsWords}
use xdec.Memory.SafeAccess.{length-disassemble}
use xdec.Memory.Access.{assemble, value_byte, disassemble}

-- The bytes as the digits of a number in base 256, the lowest first.
abbrev pub little : List ℕ → ℕ
little [] = 0
little (b ∷ bs) = b + 256 * little bs

pow_eight : (i : ℕ) → 2 ^ ((i + 1) * 8) ≡ 256 * 2 ^ (i * 8)
pow_eight i = let e : (i + 1) * 8 ≡ 8 + i * 8 = omega arith in ap (λ n. 2 ^ n) e ∙ pow_add 8 (i * 8)

-- Setting byte `k` of a word above its digits.
or_byte :
    (v b k : ℕ) → k < 8 → b < 256 → v < 2 ^ (k * 8) → bit_or v (b << (k * 8)) ≡ v + b * 2 ^ (k * 8)
or_byte v b k k< b< v< =
    let room : 2 ^ (k * 8) ≤ 2 ^ 56 = pow_mono (k * 8) 56 (omega arith) in
    let top : b * 2 ^ (k * 8) < 2 ^ 64 = grind arith in
    let shifted : b << (k * 8) ≡ b * 2 ^ (k * 8) = mod_small (b * 2 ^ (k * 8)) 64 top in
    rw shifted (bit_or_comm v (b * 2 ^ (k * 8)) ∙ bit_or_fields (k * 8) b v v< ∙ omega arith)

abbrev set_byte_of : U128 → ℕ → ℕ → U128
set_byte_of v b i =
    if ltb i 8
    then u128 (bit_or v.lo (b << (i * 8))) v.hi
    else u128 v.lo (bit_or v.hi (b << ((i - 8) * 8)))

set_low :
    (v : U128) (b i : ℕ)
    → IsWords v
    → b < 256
    → i < 8
    → value v < 2 ^ (i * 8)
    → (value (u128 (bit_or v.lo (b << (i * 8))) v.hi) ≡ value v + b * 2 ^ (i * 8))
      × IsWords (u128 (bit_or v.lo (b << (i * 8))) v.hi)
set_low v b i words b< i< v< =
    let room : 2 ^ (i * 8) ≤ 2 ^ 56 = pow_mono (i * 8) 56 (omega arith) in
    let e = or_byte v.lo b i i< b< (omega arith) in rw e (omega arith, (grind arith, words.1))

set_high :
    (v : U128) (b i : ℕ)
    → IsWords v
    → b < 256
    → 8 ≤ i
    → i < 16
    → value v < 2 ^ (i * 8)
    → (value (u128 v.lo (bit_or v.hi (b << ((i - 8) * 8)))) ≡ value v + b * 2 ^ (i * 8))
      × IsWords (u128 v.lo (bit_or v.hi (b << ((i - 8) * 8))))
set_high v b i words b< i≥ i< v< =
    let j = i - 8 in
    let split : 2 ^ (i * 8) ≡ 2 ^ (j * 8) * 2 ^ 64 =
      (let e : i * 8 ≡ j * 8 + 64 = omega arith in ap (λ n. 2 ^ n) e ∙ pow_add (j * 8) 64) in
    let room : 2 ^ (j * 8) ≤ 2 ^ 56 = pow_mono (j * 8) 56 (omega arith) in
    let hi< : v.hi < 2 ^ (j * 8) = omega arith in
    let e = or_byte v.hi b j (omega arith) b< hi< in
    rw (e, split) (omega arith, (words.0, grind arith))

IsByte : ℕ → Type 0
IsByte b = b < 256

next_digit : (v b p l : ℕ) → v < p → b < 256 → v + b * p < 256 * p
next_digit v b p l v< b< = grind arith

assembled_digit : (v b p l : ℕ) → v + b * p + 256 * p * l ≡ v + p * (b + 256 * l)
assembled_digit v b p l = omega arith

-- `read` puts the bytes above the digits that it has.
assemble-little :
    (i : ℕ) (bytes : List ℕ) (v : U128)
    → IsWords v
    → value v < 2 ^ (i * 8)
    → i + length bytes ≤ 16
    → All IsByte bytes
    → (value (assemble i bytes v) ≡ value v + 2 ^ (i * 8) * little bytes)
      × IsWords (assemble i bytes v)
unfolding assemble IsByte
assemble-little i [] v words v< le h = (omega arith, words)
assemble-little i (b ∷ bs) v words v< le (b<, h) =
    let next = λ (v' : U128) (words' : IsWords v') (small : value v' < 2 ^ ((i + 1) * 8)).
      assemble-little (i + 1) bs v' words' small (omega arith) h in
    elim (Bool-cases (ltb i 8)) [
      | inl e ↦ rw (assemble, e) (add_digit next (set_low v b i words b< (ltb→lt i 8 e) v<))
      | inr e ↦
          rw (assemble, e)
            (add_digit next (set_high v b i words b< (ltb→le i 8 e) (omega arith) v<))
    ]
  where
    add_digit :
        {v' : U128}
        → ((u : U128)
            → IsWords u
            → value u < 2 ^ ((i + 1) * 8)
            → (value (assemble (i + 1) bs u) ≡ value u + 2 ^ ((i + 1) * 8) * little bs)
              × IsWords (assemble (i + 1) bs u))
        → (value v' ≡ value v + b * 2 ^ (i * 8)) × IsWords v'
        → (value (assemble (i + 1) bs v') ≡ value v + 2 ^ (i * 8) * (b + 256 * little bs))
          × IsWords (assemble (i + 1) bs v')
    add_digit {v'} next (e, words') =
        let small : value v' < 2 ^ ((i + 1) * 8) =
          rw (e, pow_eight i) (next_digit (value v) b (2 ^ (i * 8)) 0 v< b<) in
        let (all, words'') = next v' words' small in
        (
          all
              ∙ ap (λ (n : ℕ). value v' + n * little bs) (pow_eight i)
              ∙ ap (λ (n : ℕ). n + 256 * 2 ^ (i * 8) * little bs) e
              ∙ assembled_digit (value v) b (2 ^ (i * 8)) (little bs),
          words'',
        )

low_byte : (lo hi i : ℕ) → i < 8 → lo / 2 ^ (i * 8) % 256 ≡ (lo + hi * 2 ^ 64) / 2 ^ (i * 8) % 256
low_byte lo hi i i< =
    let p = 2 ^ (i * 8) in
    let r = 2 ^ (56 - i * 8) in
    let split : 2 ^ 64 ≡ p * (256 * r) =
      pow_split (i * 8) 64 (omega arith)
      ∙ (let e : 64 - i * 8 ≡ 8 + (56 - i * 8) = omega arith in
          ap (λ n. p * n) (ap (λ n. 2 ^ n) e ∙ pow_add 8 (56 - i * 8))) in
    let spread : lo + hi * 2 ^ 64 ≡ lo + p * (256 * r * hi) =
      ap (λ n. lo + hi * n) split ∙ omega arith in
    let divided : (lo + hi * 2 ^ 64) / p ≡ lo / p + 256 * r * hi =
      ap (λ n. n / p) spread ∙ add-mul-div_left lo (256 * r * hi) (pow_pos (i * 8)) in
    rw divided (omega arith)

high_byte :
    (lo hi i : ℕ) → lo < 2 ^ 64 → 8 ≤ i → hi / 2 ^ ((i - 8) * 8) ≡ (lo + hi * 2 ^ 64) / 2 ^ (i * 8)
high_byte lo hi i lo< i≥ =
    let split : 2 ^ (i * 8) ≡ 2 ^ 64 * 2 ^ ((i - 8) * 8) =
      (let e : i * 8 ≡ 64 + (i - 8) * 8 = omega arith in
        ap (λ n. 2 ^ n) e ∙ pow_add 64 ((i - 8) * 8)) in
    let whole : (lo + hi * 2 ^ 64) / 2 ^ 64 ≡ hi = omega arith in
    sym (
      ap (λ n. (lo + hi * 2 ^ 64) / n) split
      ∙ sym (div-div-eq-div-mul (lo + hi * 2 ^ 64) (2 ^ 64) (2 ^ ((i - 8) * 8)))
      ∙ ap (λ n. n / 2 ^ ((i - 8) * 8)) whole)

-- A byte of a value.
value_byte_lem :
    (v : U128) (i : ℕ) → IsWords v → i < 16 → value_byte v i ≡ value v / 2 ^ (i * 8) % 256
unfolding value_byte
value_byte_lem v i words i< = elim (Bool-cases (ltb i 8)) [
  | inl e ↦ rw e (bit_and-mask 8 (v.lo / 2 ^ (i * 8)) ∙ low_byte v.lo v.hi i (ltb→lt i 8 e))
  | inr e ↦ rw e (
      bit_and-mask 8 (v.hi / 2 ^ ((i - 8) * 8))
      ∙ ap (λ n. n % 256) (high_byte v.lo v.hi i words.0 (ltb→le i 8 e)))
]

more_digits : (x p : ℕ) → 0 < p → x % 256 + 256 * (x / 256 % p) ≡ x % (256 * p)
more_digits x p pos =
    let y = x / 256 in
    let r = 256 * (y % p) + x % 256 in
    let parts : x ≡ y / p * (256 * p) + r = omega (arith, div-add-mod' y p) in
    let small : r < 256 * p = omega (arith, mod-lt y pos) in
    sym (ap (λ n. n % (256 * p)) parts ∙ mod_unique (256 * p) (y / p) r small ∙ omega arith)

-- `write` takes the low bytes of the value, the lowest first.
disassemble-little :
    (v : U128) (i n : ℕ)
    → IsWords v
    → i + n ≤ 16
    → (little (disassemble v i n) ≡ value v / 2 ^ (i * 8) % 2 ^ (n * 8))
      × All IsByte (disassemble v i n)
unfolding disassemble IsByte
disassemble-little v i zero words le = (omega arith, tt)
disassemble-little v i (suc n) words le =
    let p = 2 ^ (i * 8) in
    let (rest, bytes) = disassemble-little v (i + 1) n words (omega arith) in
    let byte = value_byte_lem v i words (omega arith) in
    let shifted : value v / 2 ^ ((i + 1) * 8) ≡ value v / p / 256 =
      ap (λ k. value v / k) (pow_eight i ∙ omega arith)
      ∙ sym (div-div-eq-div-mul (value v) p 256) in
    let width : 256 * 2 ^ (n * 8) ≡ 2 ^ (suc n * 8) =
      sym (pow_eight n) ∙ (let e : (n + 1) * 8 ≡ suc n * 8 = omega arith in ap (λ k. 2 ^ k) e) in
    (
      ap (λ k. k + 256 * little (disassemble v (i + 1) n)) byte
          ∙ ap (λ k. value v / p % 256 + 256 * k) (rest ∙ ap (λ k. k % 2 ^ (n * 8)) shifted)
          ∙ more_digits (value v / p) (2 ^ (n * 8)) (pow_pos (n * 8))
          ∙ ap (λ k. value v / p % k) width,
      (omega (arith, byte), bytes),
    )

-- For a value of two 64-bit words and a size up to 16, putting together the bytes that `write`
-- takes from the value gives the value masked to eight bits for each byte.
pub assemble-disassemble :
    (v : U128) (n : ℕ)
    → IsWords v
    → n ≤ 16
    → assemble 0 (disassemble v 0 n) (u128 0 0) ≡ mask v (n * 8)
assemble-disassemble v n words le =
    let (digits, bytes) = disassemble-little v 0 n words (omega arith) in
    let (all, words') =
      assemble-little 0 (disassemble v 0 n) (u128 0 0) (omega arith, omega arith) (omega arith)
        (omega (arith, length-disassemble v 0 n)) bytes in
    value_inj (assemble 0 (disassemble v 0 n) (u128 0 0)) (mask v (n * 8)) words'
      (mask-IsWords v (n * 8) words)
      (all
        ∙ (let whole : value v / 1 ≡ value v = omega arith in
            omega arith ∙ digits ∙ ap (λ k. k % 2 ^ (n * 8)) whole)
        ∙ sym (value-mask v (n * 8) words (omega arith)))
