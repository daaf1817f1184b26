-- ===== src/Symbolic/Result.antt =====
-- What the operations of `SymOp` (include/xdec/spec/symint.h) give on 64-bit words, in exact and
-- signed arithmetic; the specification of `foldBinary` and of the folding in `unary`.
use xdec.Base.{
  ℕ, ◌+◌, ◌-◌, ◌*◌, ◌/◌, ◌%◌, ◌^◌, ◌≤◌, ◌<◌, ◌≡◌, ◌⊎◌, bit_and, bit_or, bit_xor, ℤ, pos, negsuc,
  signed, ◌<ℤ◌, ◌≤ℤ◌,
}
use xdec.Symbolic.{SymOp}

-- The integer divided by `2 ^ k`, rounded down.
abbrev pub shift_down : ℤ → ℕ → ℤ
shift_down (pos n) k = pos (n / 2 ^ k)
shift_down (negsuc n) k = negsuc (n / 2 ^ k)

-- A test gives 1 if it holds, and 0 if the other holds.
abbrev pub Tells : Type 0 → Type 0 → ℕ → Type 0
Tells holds fails v = (holds × (v ≡ 1)) ⊎ (fails × (v ≡ 0))

abbrev pub UnaryResult : SymOp → ℕ → ℕ → Type 0
UnaryResult op x v = elim op [
  | SymOp.invert ↦ x + v ≡ 2 ^ 64 - 1
  | SymOp.negate ↦ (x + v) % 2 ^ 64 ≡ 0
  | _ ↦ ⊥
]

abbrev pub BinaryResult : SymOp → ℕ → ℕ → ℕ → Type 0
BinaryResult op x y v = elim op [
  | SymOp.add ↦ v ≡ (x + y) % 2 ^ 64
  | SymOp.sub ↦ (v + y) % 2 ^ 64 ≡ x
  | SymOp.mul ↦ v ≡ (x * y) % 2 ^ 64
  | SymOp.div_u ↦ (r : ℕ) × (x ≡ v * y + r) × (r < y)
  | SymOp.rem_u ↦ (q : ℕ) × (x ≡ q * y + v) × (v < y)
  | SymOp.and ↦ v ≡ bit_and x y
  | SymOp.or ↦ v ≡ bit_or x y
  | SymOp.xor ↦ v ≡ bit_xor x y
  | SymOp.shl ↦ v ≡ (x * 2 ^ y) % 2 ^ 64
  | SymOp.shr_u ↦ (v * 2 ^ y ≤ x) × (x < (v + 1) * 2 ^ y)
  | SymOp.shr_s ↦ signed 64 v ≡ shift_down (signed 64 x) y
  | SymOp.equal ↦ Tells (x ≡ y) (¬ x ≡ y) v
  | SymOp.not_equal ↦ Tells (¬ x ≡ y) (x ≡ y) v
  | SymOp.less_u ↦ Tells (x < y) (y ≤ x) v
  | SymOp.less_s ↦ Tells (signed 64 x <ℤ signed 64 y) (signed 64 y ≤ℤ signed 64 x) v
  | _ ↦ ⊥
]

pub record IsUnary (op : SymOp) (x v : ℕ) : Type 0 where
  pub argument : x < 2 ^ 64
  pub word : v < 2 ^ 64
  pub result : UnaryResult op x v

pub record IsBinary (op : SymOp) (x y v : ℕ) : Type 0 where
  pub left : x < 2 ^ 64
  pub right : y < 2 ^ 64
  pub word : v < 2 ^ 64
  pub result : BinaryResult op x y v
