-- ===== src/Symbolic/Adequate.antt =====
-- `foldBinary` and the folding of `unary` in src/spec/symint.cpp against what the operations give.
use native.Mathlib.Nat.{div-add-mod', div-eq_of_lt-le, mod-lt, div-eq_of_lt, div-le_self}
use xdec.Base.{
  ℕ, ◌+◌, ◌-◌, ◌*◌, ◌/◌, ◌%◌, ◌^◌, ◌≤◌, ◌<◌, ◌≡◌, refl, ap, sym, ◌∙◌, inl, inr, true, Bool-cases,
  some, signed, arith, ltb, leb, ◌==◌,
}
use xdec.Bits.{all_ones}
use xdec.Bits.Digits.{bit_xor-ones}
use xdec.Bits.Powers.{pow_pos, pow_mono, mod_unique, pow_split}
use xdec.Symbolic.{SymOp, fold_binary, fold_unary, shift_signed, is_commutative}
use xdec.Symbolic.Folds.{fold_binary-lt, fold_unary-lt, fold_binary_comm}
use xdec.Symbolic.Result.{IsUnary, IsBinary, UnaryResult, BinaryResult}

fold_unary-UnaryResult :
    (op : SymOp) (x v : ℕ) → x < 2 ^ 64 → fold_unary op x ≡ some v → UnaryResult op x v
unfolding fold_unary
fold_unary-UnaryResult SymOp.invert x v hx h = ground (arith, bit_xor-ones 64 x hx)
fold_unary-UnaryResult SymOp.negate x v hx h = ground (arith, bit_xor-ones 64 x hx)
fold_unary-UnaryResult op x v hx h = absurd (ground arith)

pub fold_unary-IsUnary :
    (op : SymOp) (x v : ℕ) → x < 2 ^ 64 → fold_unary op x ≡ some v → IsUnary op x v
fold_unary-IsUnary op x v hx h = record {
  argument = hx;
  word = fold_unary-lt op x v hx h;
  result = fold_unary-UnaryResult op x v hx h;
}

pub IsUnary-fold_unary : (op : SymOp) (x v : ℕ) → IsUnary op x v → fold_unary op x ≡ some v
unfolding fold_unary
IsUnary-fold_unary SymOp.invert x v h = ground (arith, bit_xor-ones 64 x h.argument)
IsUnary-fold_unary SymOp.negate x v h = ground (arith, bit_xor-ones 64 x h.argument)
IsUnary-fold_unary op x v h = absurd h.result

div_result : (x y v : ℕ) → fold_binary SymOp.div_u x y ≡ some v → BinaryResult SymOp.div_u x y v
unfolding fold_binary
div_result x y v h = elim (Bool-cases (y == 0)) [
  | inl e ↦ absurd (ground arith)
  | inr e ↦
      let value : x / y ≡ v = ground arith in
      let positive : 0 < y = ground arith in
      let whole = div-add-mod' x y in (x % y, rw (← value) (sym whole), mod-lt x positive)
]

rem_result : (x y v : ℕ) → fold_binary SymOp.rem_u x y ≡ some v → BinaryResult SymOp.rem_u x y v
unfolding fold_binary
rem_result x y v h = elim (Bool-cases (y == 0)) [
  | inl e ↦ absurd (ground arith)
  | inr e ↦
      let value : x % y ≡ v = ground arith in
      let positive : 0 < y = ground arith in
      let whole = div-add-mod' x y in
      (x / y, rw (← value) (sym whole), rw (← value) (mod-lt x positive))
]

-- A shift by a word or more leaves nothing.
shift_out : (x y : ℕ) → 64 ≤ y → x * 2 ^ y % 2 ^ 64 ≡ 0
shift_out x y h =
    let split : x * 2 ^ y ≡ x * 2 ^ (y - 64) * 2 ^ 64 + 0 =
      ap (λ t. x * t) (pow_split 64 y h) ∙ omega arith in
    rw split (mod_unique (2 ^ 64) (x * 2 ^ (y - 64)) 0 (omega arith))

div_out : (x y : ℕ) → x < 2 ^ 64 → 64 ≤ y → x / 2 ^ y ≡ 0
div_out x y hx h = div-eq_of_lt (omega (arith, pow_mono 64 y h))

shl_result : (x y v : ℕ) → fold_binary SymOp.shl x y ≡ some v → BinaryResult SymOp.shl x y v
unfolding fold_binary
shl_result x y v h = elim (Bool-cases (leb 64 y)) [
  | inl e ↦ let value : 0 ≡ v = ground arith in rw (← value) (sym (shift_out x y (ground arith)))
  | inr e ↦ ground arith
]

shr_u_value : (x y v : ℕ) → x < 2 ^ 64 → fold_binary SymOp.shr_u x y ≡ some v → v ≡ x / 2 ^ y
unfolding fold_binary
shr_u_value x y v hx h = elim (Bool-cases (leb 64 y)) [
  | inl e ↦ ground (arith, div_out x y hx (ground arith))
  | inr e ↦ ground arith
]

shr_u_result :
    (x y v : ℕ) → x < 2 ^ 64 → fold_binary SymOp.shr_u x y ≡ some v → BinaryResult SymOp.shr_u x y v
shr_u_result x y v hx h =
    let value = shr_u_value x y v hx h in
    let whole = div-add-mod' x (2 ^ y) in
    let rest = mod-lt x (pow_pos y) in rw value (omega (arith, whole), omega (arith, whole, rest))

-- The shift that keeps the sign, in both its halves and for any amount.
shift_signed_pos : (x y : ℕ) → x < 2 ^ 63 → shift_signed x y ≡ x / 2 ^ y
shift_signed_pos x y hx = elim (Bool-cases (leb 64 y)) [
  | inl e ↦ ground (arith, div_out x y (omega arith) (ground arith))
  | inr e ↦ ground arith
]

shift_signed_neg :
    (x y : ℕ) → 2 ^ 63 ≤ x → x < 2 ^ 64 → shift_signed x y ≡ all_ones - (all_ones - x) / 2 ^ y
shift_signed_neg x y hx lt = elim (Bool-cases (leb 64 y)) [
  | inl e ↦ ground (arith, div_out (all_ones - x) y (omega arith) (ground arith))
  | inr e ↦ ground arith
]

shr_s_result :
    (x y v : ℕ) → x < 2 ^ 64 → fold_binary SymOp.shr_s x y ≡ some v → BinaryResult SymOp.shr_s x y v
unfolding fold_binary
shr_s_result x y v hx h =
    let value : shift_signed x y ≡ v = ground arith in
    elim (Bool-cases (ltb x (2 ^ 63))) [
      | inl e ↦
          let low : x / 2 ^ y ≤ x = div-le_self x (2 ^ y) in
          let exact = shift_signed_pos x y (ground arith) in ground arith
      | inr e ↦
          let n = all_ones - x in
          let low : n / 2 ^ y ≤ n = div-le_self n (2 ^ y) in
          let exact = shift_signed_neg x y (ground arith) hx in ground arith
    ]

fold_binary-BinaryResult :
    (op : SymOp) (x y v : ℕ)
    → x < 2 ^ 64
    → y < 2 ^ 64
    → fold_binary op x y ≡ some v
    → BinaryResult op x y v
unfolding fold_binary
fold_binary-BinaryResult SymOp.add x y v hx hy h = ground arith
fold_binary-BinaryResult SymOp.sub x y v hx hy h = ground arith
fold_binary-BinaryResult SymOp.mul x y v hx hy h = ground arith
fold_binary-BinaryResult SymOp.div_u x y v hx hy h = div_result x y v h
fold_binary-BinaryResult SymOp.rem_u x y v hx hy h = rem_result x y v h
fold_binary-BinaryResult SymOp.and x y v hx hy h = ground arith
fold_binary-BinaryResult SymOp.or x y v hx hy h = ground arith
fold_binary-BinaryResult SymOp.xor x y v hx hy h = ground arith
fold_binary-BinaryResult SymOp.shl x y v hx hy h = shl_result x y v h
fold_binary-BinaryResult SymOp.shr_u x y v hx hy h = shr_u_result x y v hx h
fold_binary-BinaryResult SymOp.shr_s x y v hx hy h = shr_s_result x y v hx h
fold_binary-BinaryResult SymOp.equal x y v hx hy h = ground arith
fold_binary-BinaryResult SymOp.not_equal x y v hx hy h = ground arith
fold_binary-BinaryResult SymOp.less_u x y v hx hy h = ground arith
fold_binary-BinaryResult SymOp.less_s x y v hx hy h = ground arith
fold_binary-BinaryResult op x y v hx hy h = absurd (ground arith)

pub fold_binary-IsBinary :
    (op : SymOp) (x y v : ℕ)
    → x < 2 ^ 64
    → y < 2 ^ 64
    → fold_binary op x y ≡ some v
    → IsBinary op x y v
fold_binary-IsBinary op x y v hx hy h = record {
  left = hx;
  right = hy;
  word = fold_binary-lt op x y v hx hy h;
  result = fold_binary-BinaryResult op x y v hx hy h;
}

signed_inj : (a b : ℕ) → a < 2 ^ 64 → b < 2 ^ 64 → signed 64 a ≡ signed 64 b → a ≡ b
signed_inj a b ha hb h = elim (Bool-cases (ltb a (2 ^ 63))) [
  | inl e ↦ elim (Bool-cases (ltb b (2 ^ 63))) [ inl e' ↦ ground arith | inr e' ↦ ground arith ]
  | inr e ↦ elim (Bool-cases (ltb b (2 ^ 63))) [ inl e' ↦ ground arith | inr e' ↦ ground arith ]
]

quotient_is : (x y v r : ℕ) → x ≡ v * y + r → r < y → x / y ≡ v
quotient_is x y v r h l = div-eq_of_lt-le y (omega arith) (omega arith)

shl_fold : (x y v : ℕ) → v ≡ x * 2 ^ y % 2 ^ 64 → fold_binary SymOp.shl x y ≡ some v
unfolding fold_binary
shl_fold x y v h = elim (Bool-cases (leb 64 y)) [
  | inl e ↦ ground (arith, shift_out x y (ground arith))
  | inr e ↦ ground arith
]

shr_u_fold :
    (x y v : ℕ)
    → x < 2 ^ 64
    → v * 2 ^ y ≤ x
    → x < (v + 1) * 2 ^ y
    → fold_binary SymOp.shr_u x y ≡ some v
unfolding fold_binary
shr_u_fold x y v hx low high =
    let value : x / 2 ^ y ≡ v = div-eq_of_lt-le (2 ^ y) low high in
    elim (Bool-cases (leb 64 y)) [
      | inl e ↦ ground (arith, div_out x y hx (ground arith))
      | inr e ↦ ground arith
    ]

shr_s_fold : (x y v : ℕ) → IsBinary SymOp.shr_s x y v → fold_binary SymOp.shr_s x y ≡ some v
unfolding fold_binary
shr_s_fold x y v h =
    let made : fold_binary SymOp.shr_s x y ≡ some (shift_signed x y) = refl in
    let same =
      signed_inj (shift_signed x y) v
        (fold_binary-lt SymOp.shr_s x y (shift_signed x y) h.left h.right made) h.word
        (shr_s_result x y (shift_signed x y) h.left made ∙ sym h.result) in
    rw same refl

pub IsBinary-fold_binary :
    (op : SymOp) (x y v : ℕ) → IsBinary op x y v → fold_binary op x y ≡ some v
unfolding fold_binary
IsBinary-fold_binary SymOp.div_u x y v h =
    let (r, whole, small) = h.result in ground (arith, quotient_is x y v r whole small)
IsBinary-fold_binary SymOp.rem_u x y v h =
    let (q, whole, small) = h.result in
    let value : x % y ≡ v = rw whole (mod_unique y q v small) in ground arith
IsBinary-fold_binary SymOp.shl x y v h = shl_fold x y v h.result
IsBinary-fold_binary SymOp.shr_u x y v h = shr_u_fold x y v h.left h.result.0 h.result.1
IsBinary-fold_binary SymOp.shr_s x y v h = shr_s_fold x y v h
IsBinary-fold_binary op x y v h =
    let left = h.left in
    let right = h.right in let word = h.word in let r = h.result in ground arith

some_inj : {a b : ℕ} → some a ≡ some b → a ≡ b
some_inj h = ground arith

pub unary_once : (op : SymOp) (x v w : ℕ) → IsUnary op x v → IsUnary op x w → v ≡ w
unary_once op x v w h l = some_inj (sym (IsUnary-fold_unary op x v h) ∙ IsUnary-fold_unary op x w l)

pub binary_once : (op : SymOp) (x y v w : ℕ) → IsBinary op x y v → IsBinary op x y w → v ≡ w
binary_once op x y v w h l =
    some_inj (sym (IsBinary-fold_binary op x y v h) ∙ IsBinary-fold_binary op x y w l)

pub IsBinary-comm :
    (op : SymOp) (x y v : ℕ) → is_commutative op ≡ true → IsBinary op x y v → IsBinary op y x v
IsBinary-comm op x y v comm h =
    fold_binary-IsBinary op y x v h.right h.left
      (fold_binary_comm op y x h.right h.left comm ∙ IsBinary-fold_binary op x y v h)
