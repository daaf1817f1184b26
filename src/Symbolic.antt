-- ===== src/Symbolic.antt =====
-- include/xdec/spec/symint.h and src/spec/symint.cpp: symbolic 64-bit integers, hash-consed and folded
-- as they are built. The name of a symbol is its number in the pool's table; `none` is the abort of
-- the handle space, and an out parameter with its bool is an `Option`.
pub mod Result
pub mod Adequate
pub mod Means
pub mod Folds
pub mod Pool
pub mod Sound
pub mod Build
pub mod Built
pub mod Ordered
pub mod Clear
pub mod Adds
pub mod Substitute
pub mod Refined
pub mod Rebuilt
pub mod Replaced
use Prim.Native.String.{String}
use native.Mathlib.Decide.{ℕ_discrete}
use xdec.Base.{
  ℕ, zero, suc, ◌+◌, ◌-◌, ◌*◌, ◌/◌, ◌%◌, ◌^◌, bit_and, bit_or, bit_xor, Bool, true, false, not,
  ◌&&◌, ◌||◌, Option, none, some, List, [], ◌∷◌, length, get_elem?, ltb, leb, ◌==◌, if◌then◌else◌,
  assert, ◌>>=◌, ◌>>◌,
}
use xdec.Bits.{wrap, sub64, complement, all_ones, ◌<<◌}
use xdec.Table.{Table, empty, find, intern_key}
use xdec.Function.{handle_count, valid, contains, at}
use xdec.Function.Names.{String-discrete}

pub data SymOp : Type 0 where
  const symbol unknown : SymOp
  add sub mul div_u rem_u and or xor shl shr_u shr_s : SymOp
  invert negate equal not_equal less_u less_s select : SymOp

pub record SymNode : Type 0 where
  pub op : SymOp
  pub value : ℕ
  pub symbol : ℕ
  pub operands : List ℕ

unfoldable pub SymOp-discrete : Discrete SymOp
SymOp-discrete = hlevel

unfoldable pub SymNode-discrete : Discrete SymNode
SymNode-discrete = hlevel (ℕ_discrete, SymOp-discrete)

pub record SymPool : Type 0 where
  pub nodes : Table SymNode
  pub symbols : Table String
  pub unknown : ℕ

abbrev pub leaf : SymOp → ℕ → ℕ → SymNode
leaf op v name = record { op = op; value = v; symbol = name; operands = [] }

abbrev pub inner : SymOp → List ℕ → SymNode
inner op operands = record { op = op; value = 0; symbol = 0; operands = operands }

unfoldable pub intern_node : SymNode → SymPool → Option (ℕ × SymPool)
intern_node node p = do
  let (id, nodes) = intern_key SymNode-discrete handle_count node p.nodes
  elim (find SymNode-discrete node p.nodes.index) [
    | some old ↦ some (id, record p { nodes = nodes })
    | none ↦ do
      assert (valid (length p.nodes.items % handle_count))
      some (id, record p { nodes = nodes })
  ]

-- The constructor.
unfoldable pub new_pool : Option SymPool
unfolding intern_node
new_pool = do
  (id, p) ←
      intern_node (leaf SymOp.unknown 0 0) (record { nodes = empty; symbols = empty; unknown = 0 })
  some (record p { unknown = id })

unfoldable pub literal : ℕ → SymPool → Option (ℕ × SymPool)
unfolding intern_node
literal value p = intern_node (leaf SymOp.const value 0) p

unfoldable pub symbol_named : String → SymPool → Option (ℕ × SymPool)
unfolding intern_node
symbol_named name p =
    let (id, symbols) = intern_key String-discrete (2 ^ 32) name p.symbols in
    intern_node (leaf SymOp.symbol 0 id) (record p { symbols = symbols })

abbrev pub is_const_op : SymOp → Bool
is_const_op op = elim op [ SymOp.const ↦ true | _ ↦ false ]

abbrev pub is_unknown_op : SymOp → Bool
is_unknown_op op = elim op [ SymOp.unknown ↦ true | _ ↦ false ]

unfoldable pub as_literal : SymPool → ℕ → Option ℕ
as_literal p id = do node ← at p.nodes.items id; assert (is_const_op node.op); some node.value

unfoldable pub is_unknown : SymPool → ℕ → Bool
is_unknown p id = elim (at p.nodes.items id) [ none ↦ true | some node ↦ is_unknown_op node.op ]

unfoldable pub provably_equal : SymPool → ℕ → ℕ → Bool
unfolding is_unknown
provably_equal p lhs rhs = lhs == rhs && not (is_unknown p lhs)

abbrev pub bit : Bool → ℕ
bit b = if b then 1 else 0

-- Comparison of `int64_t`: with the sign bits flipped it is that of the words.
abbrev pub less_signed : ℕ → ℕ → Bool
less_signed a b = ltb (wrap (a + 2 ^ 63)) (wrap (b + 2 ^ 63))

-- `signedValue >> b`: ones come in where the sign is set.
abbrev pub shift_signed : ℕ → ℕ → ℕ
shift_signed a b =
    if leb 64 b
    then (if leb (2 ^ 63) a then all_ones else 0)
    else if leb (2 ^ 63) a
    then all_ones - ((all_ones - a) / 2 ^ b)
    else a / 2 ^ b

unfoldable pub fold_binary : SymOp → ℕ → ℕ → Option ℕ
fold_binary op a b = elim op [
  | SymOp.add ↦ some (wrap (a + b))
  | SymOp.sub ↦ some (sub64 a b)
  | SymOp.mul ↦ some (wrap (a * b))
  | SymOp.div_u ↦ if b == 0 then none else some (a / b)
  | SymOp.rem_u ↦ if b == 0 then none else some (a % b)
  | SymOp.and ↦ some (bit_and a b)
  | SymOp.or ↦ some (bit_or a b)
  | SymOp.xor ↦ some (bit_xor a b)
  | SymOp.shl ↦ some (if leb 64 b then 0 else a << b)
  | SymOp.shr_u ↦ some (if leb 64 b then 0 else a / 2 ^ b)
  | SymOp.shr_s ↦ some (shift_signed a b)
  | SymOp.equal ↦ some (bit (a == b))
  | SymOp.not_equal ↦ some (bit (not (a == b)))
  | SymOp.less_u ↦ some (bit (ltb a b))
  | SymOp.less_s ↦ some (bit (less_signed a b))
  | _ ↦ none
]

unfoldable pub fold_unary : SymOp → ℕ → Option ℕ
fold_unary op a = elim op [
  | SymOp.invert ↦ some (complement a)
  | SymOp.negate ↦ some (wrap (complement a + 1))
  | _ ↦ none
]

unfoldable pub fold_identity : SymOp → ℕ → Bool → ℕ → Option ℕ
fold_identity op value is_right other =
    let if_zero = if value == 0 then some other else none in
    let if_zero_right = if value == 0 && is_right then some other else none in
    elim op [
      | SymOp.add ↦ if_zero
      | SymOp.or ↦ if_zero
      | SymOp.xor ↦ if_zero
      | SymOp.sub ↦ if_zero_right
      | SymOp.mul ↦ if value == 1 then some other else none
      | SymOp.shl ↦ if_zero_right
      | SymOp.shr_u ↦ if_zero_right
      | SymOp.shr_s ↦ if_zero_right
      | SymOp.div_u ↦ if value == 1 && is_right then some other else none
      | _ ↦ none
    ]

unfoldable pub is_commutative : SymOp → Bool
is_commutative op = elim op [
  | SymOp.add ↦ true
  | SymOp.mul ↦ true
  | SymOp.and ↦ true
  | SymOp.or ↦ true
  | SymOp.xor ↦ true
  | SymOp.equal ↦ true
  | SymOp.not_equal ↦ true
  | _ ↦ false
]

-- What a simplification returns: a literal to intern, or a handle that is there.
pub data Folded : Type 0 where
  number : ℕ → Folded
  handle : ℕ → Folded

unfoldable pub fold_constants : SymOp → ℕ → ℕ → Option ℕ → Option ℕ → Option Folded
unfolding fold_binary fold_identity
fold_constants op lhs rhs (some left) (some right) =
    fold_binary op left right >>= λ v. some (Folded.number v)
fold_constants op lhs rhs (some left) none =
    fold_identity op left false rhs >>= λ h. some (Folded.handle h)
fold_constants op lhs rhs none (some right) =
    fold_identity op right true lhs >>= λ h. some (Folded.handle h)
fold_constants op lhs rhs none none = none

abbrev pub twice_folded : SymOp → ℕ → Option Folded
twice_folded op h = elim op [
  | SymOp.sub ↦ some (Folded.number 0)
  | SymOp.xor ↦ some (Folded.number 0)
  | SymOp.and ↦ some (Folded.handle h)
  | SymOp.or ↦ some (Folded.handle h)
  | SymOp.equal ↦ some (Folded.number 1)
  | SymOp.not_equal ↦ some (Folded.number 0)
  | SymOp.less_u ↦ some (Folded.number 0)
  | SymOp.less_s ↦ some (Folded.number 0)
  | _ ↦ none
]

unfoldable pub fold_same : SymOp → ℕ → ℕ → Option Folded
fold_same op lhs rhs = if lhs == rhs then twice_folded op lhs else none

-- The operands of a node with two of them and the given op.
abbrev pub pair_of : Bool → List ℕ → Option (ℕ × ℕ)
pair_of true (a ∷ b ∷ []) = some (a, b)
pair_of _ _ = none

abbrev pub is_sub : SymOp → Bool
is_sub op = elim op [ SymOp.sub ↦ true | _ ↦ false ]

abbrev pub is_add : SymOp → Bool
is_add op = elim op [ SymOp.add ↦ true | _ ↦ false ]

unfoldable pub subtrahend_of : SymPool → ℕ → ℕ → Option ℕ
subtrahend_of p candidate term = do
  node ← at p.nodes.items candidate
  (a, b) ← pair_of (is_sub node.op) node.operands
  if b == term then some a else none

unfoldable pub addend_besides : SymPool → ℕ → ℕ → Option ℕ
addend_besides p sum term = do
  node ← at p.nodes.items sum
  (a, b) ← pair_of (is_add node.op) node.operands
  if a == term then some b else if b == term then some a else none

abbrev pub or_else {ℓ} : {A : Type ℓ} → Option A → Option A → Option A
or_else none o = o
or_else (some a) o = some a

unfoldable pub fold_cancel : SymOp → ℕ → ℕ → SymPool → Option ℕ
unfolding subtrahend_of addend_besides
fold_cancel op lhs rhs p = elim op [
  | SymOp.add ↦ or_else (subtrahend_of p rhs lhs) (subtrahend_of p lhs rhs)
  | SymOp.sub ↦ addend_besides p lhs rhs
  | _ ↦ none
]

-- The rules of `binary` in their order.
unfoldable pub simplify : SymOp → ℕ → ℕ → SymPool → Option Folded
unfolding fold_constants fold_same fold_cancel as_literal
simplify op lhs rhs p =
    or_else (fold_constants op lhs rhs (as_literal p lhs) (as_literal p rhs))
      (or_else (fold_same op lhs rhs) (fold_cancel op lhs rhs p >>= λ h. some (Folded.handle h)))

abbrev pub ordered : SymOp → ℕ → ℕ → List ℕ
ordered op lhs rhs = if is_commutative op && ltb rhs lhs then rhs ∷ lhs ∷ [] else lhs ∷ rhs ∷ []

unfoldable pub sym_binary : SymOp → ℕ → ℕ → SymPool → Option (ℕ × SymPool)
unfolding is_unknown simplify intern_node literal is_commutative
sym_binary op lhs rhs p =
    if is_unknown p lhs || is_unknown p rhs
    then some (p.unknown, p)
    else (elim (simplify op lhs rhs p) [
      | some (Folded.number v) ↦ literal v p
      | some (Folded.handle h) ↦ some (h, p)
      | none ↦ intern_node (inner op (ordered op lhs rhs)) p
    ])

unfoldable pub sym_unary : SymOp → ℕ → SymPool → Option (ℕ × SymPool)
unfolding is_unknown as_literal fold_unary literal intern_node
sym_unary op operand p =
    if is_unknown p operand
    then some (p.unknown, p)
    else (elim (as_literal p operand >>= fold_unary op) [
      | some v ↦ literal v p
      | none ↦ intern_node (inner op (operand ∷ [])) p
    ])

unfoldable pub sym_select : ℕ → ℕ → ℕ → SymPool → Option (ℕ × SymPool)
unfolding is_unknown as_literal intern_node
sym_select condition if_true if_false p = elim (as_literal p condition) [
  | some value ↦ some (if value == 0 then if_false else if_true, p)
  | none ↦
      if if_true == if_false
      then some (if_true, p)
      else if is_unknown p condition || is_unknown p if_true || is_unknown p if_false
      then some (p.unknown, p)
      else intern_node (inner SymOp.select (condition ∷ if_true ∷ if_false ∷ [])) p
]
