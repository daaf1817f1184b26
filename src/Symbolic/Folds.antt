-- ===== src/Symbolic/Folds.antt =====
-- The folding rules on numbers: results are words, and each identity holds modulo 2 ^ 64.
use native.Mathlib.Nat.{div-le_self, mod-le}
use xdec.Base.{ℕ, ◌+◌, ◌^◌, ◌<◌, ◌≡◌, true, false, some, arith}
use xdec.Bits.{wrap, sub64, all_ones}
use xdec.Bits.Digits.{bit_and-lt, bit_or-lt, bit_xor-lt, bit_or_comm, bit_or-zero}
use xdec.Bits.Same.{bit_xor-zero, bit_and_comm, bit_xor_comm}
use xdec.Symbolic.{SymOp, fold_binary, fold_unary, fold_identity, is_commutative}

pub fold_binary-lt :
    (op : SymOp) (x y v : ℕ) → x < 2 ^ 64 → y < 2 ^ 64 → fold_binary op x y ≡ some v → v < 2 ^ 64
unfolding fold_binary
fold_binary-lt SymOp.and x y v hx hy h = ground (arith, bit_and-lt 64 x y hx)
fold_binary-lt SymOp.or x y v hx hy h = ground (arith, bit_or-lt 64 x y hx hy)
fold_binary-lt SymOp.xor x y v hx hy h = ground (arith, bit_xor-lt 64 x y hx hy)
fold_binary-lt SymOp.div_u x y v hx hy h = ground (arith, div-le_self x y)
fold_binary-lt SymOp.rem_u x y v hx hy h = ground (arith, mod-le x y)
fold_binary-lt SymOp.shr_u x y v hx hy h = ground (arith, div-le_self x (2 ^ y))
fold_binary-lt SymOp.shr_s x y v hx hy h = ground (arith, div-le_self x (2 ^ y))
fold_binary-lt op x y v hx hy h = ground arith

pub fold_unary-lt : (op : SymOp) (x v : ℕ) → x < 2 ^ 64 → fold_unary op x ≡ some v → v < 2 ^ 64
unfolding fold_unary
fold_unary-lt SymOp.invert x v hx h = ground (arith, bit_xor-lt 64 x all_ones hx)
fold_unary-lt op x v hx h = ground arith

-- A literal on the right that changes nothing.
pub fold_identity-right :
    (op : SymOp) (y other h x v : ℕ)
    → x < 2 ^ 64
    → fold_identity op y true other ≡ some h
    → fold_binary op x y ≡ some v
    → (h ≡ other) × (v ≡ x)
unfolding fold_binary fold_identity
fold_identity-right SymOp.or y other h x v hx e f = ground (arith, bit_or-zero x)
fold_identity-right SymOp.xor y other h x v hx e f = ground (arith, bit_xor-zero 64 x hx)
fold_identity-right op y other h x v hx e f = ground arith

-- And one on the left.
pub fold_identity-left :
    (op : SymOp) (y other h x v : ℕ)
    → x < 2 ^ 64
    → fold_identity op y false other ≡ some h
    → fold_binary op y x ≡ some v
    → (h ≡ other) × (v ≡ x)
unfolding fold_binary fold_identity
fold_identity-left SymOp.or y other h x v hx e f = ground (arith, bit_or-zero x, bit_or_comm y x)
fold_identity-left SymOp.xor y other h x v hx e f =
    ground (arith, bit_xor-zero 64 x hx, bit_xor_comm 64 0 x (omega arith) hx)
fold_identity-left op y other h x v hx e f = ground arith

pub fold_binary_comm :
    (op : SymOp) (x y : ℕ)
    → x < 2 ^ 64
    → y < 2 ^ 64
    → is_commutative op ≡ true
    → fold_binary op x y ≡ fold_binary op y x
unfolding fold_binary is_commutative
fold_binary_comm SymOp.and x y hx hy h = ground (arith, bit_and_comm 64 x y hx hy)
fold_binary_comm SymOp.or x y hx hy h = ground (arith, bit_or_comm x y)
fold_binary_comm SymOp.xor x y hx hy h = ground (arith, bit_xor_comm 64 x y hx hy)
fold_binary_comm op x y hx hy h = ground arith

-- `x + (y - x)` and `(y - x) + x` are `y`; `(x + y) - y` and `(y + x) - y` are `x`.
pub add-sub_cancel : (x y : ℕ) → x < 2 ^ 64 → y < 2 ^ 64 → wrap (x + sub64 y x) ≡ y
add-sub_cancel x y hx hy = omega arith

pub sub-add_cancel : (x y : ℕ) → x < 2 ^ 64 → y < 2 ^ 64 → sub64 (wrap (x + y)) y ≡ x
sub-add_cancel x y hx hy = omega arith

pub sub_self : (x : ℕ) → x < 2 ^ 64 → sub64 x x ≡ 0
sub_self x h = omega arith
