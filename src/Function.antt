-- ===== src/Function.antt =====
-- include/xdec/il/function.h, op.h and src/il/function.cpp: a function of the IL, blocks of ops over
-- a hash-consed pool of expressions. Handles are the places of vectors; the invalid handle is the
-- largest 32-bit number. `none` is the abort of a failed assertion, handle range checks included.
-- The register file is taken as the list of its registers' types.
pub mod Rules
pub mod Build
pub mod Names
pub mod Append
pub mod Edit
pub mod Edges
pub mod Order
pub mod Interning
pub mod WellFormed
pub mod Slices
pub mod Session
pub mod Constants
use Prim.Native.String.{String}
use xdec.Base.{
  ℕ, ◌%◌, ◌^◌, ◌≡◌, Bool, true, false, ◌&&◌, Option, none, some, List, [], ◌∷◌, length, get_elem?,
  push_back, set, assert, ◌>>=◌, ◌>>◌, ltb, ◌/=◌, take, drop, ◌+◌, ◌++◌,
}
use xdec.Expr.{IlType, TypeKind, Expr}
use xdec.Table.{Table, empty}

abbrev pub handle_count : ℕ
handle_count = 2 ^ 32

abbrev pub invalid : ℕ
invalid = 0xffff_ffff

-- `Handle::valid` and `HandleVector::contains`.
abbrev pub valid : ℕ → Bool
valid h = h /= invalid

module _ {ℓ} {A : Type ℓ} where
  abbrev pub contains : ℕ → List A → Bool
  contains h xs = valid h && ltb h (length xs)

  -- `HandleVector::operator[]`.
  unfoldable pub at : List A → ℕ → Option A
  at xs h = do assert (contains h xs); get_elem? xs h

  -- `HandleVector::emplace`.
  unfoldable pub emplace : List A → A → Option (ℕ × List A)
  emplace xs x = do
    let index = length xs % handle_count
    assert (valid index)
    some (index, push_back xs x)

pub data OpCode : Type 0 where
  read_reg write_reg load store branch cond_branch indirect_branch call : OpCode
  return intrinsic nop unreachable unimplemented phi : OpCode

-- `isTerminator`: the flag `OpFlagTerminator` of the table of ops.
unfoldable pub ends_block : OpCode → Bool
ends_block code = elim code [
  | OpCode.branch ↦ true
  | OpCode.cond_branch ↦ true
  | OpCode.indirect_branch ↦ true
  | OpCode.return ↦ true
  | OpCode.unreachable ↦ true
  | OpCode.unimplemented ↦ true
  | _ ↦ false
]

unfoldable pub is_phi : OpCode → Bool
is_phi code = elim code [ OpCode.phi ↦ true | _ ↦ false ]

pub record Op : Type 0 where
  pub code : OpCode
  pub type : IlType
  pub va : ℕ
  pub origin : ℕ
  pub result : ℕ
  pub payload : ℕ
  pub operand_start : ℕ
  pub operand_count : ℕ
  pub target_start : ℕ
  pub target_count : ℕ

pub record ValueInfo : Type 0 where
  pub type : IlType
  pub definition : ℕ
  pub block : ℕ

pub record Block : Type 0 where
  pub va : ℕ
  pub end_va : ℕ
  pub ops : List ℕ
  pub successors : List ℕ
  pub predecessors : List ℕ
  pub is_external : Bool

pub record Function : Type 0 where
  pub registers : List IlType
  pub entry_va : ℕ
  pub entry_block : ℕ
  pub current_pass : ℕ
  pub exprs : Table Expr
  pub ops : List Op
  pub blocks : List Block
  pub values : List ValueInfo
  pub operand_pool : List ℕ
  pub target_pool : List ℕ
  pub names : Table String
  pub passes : Table String
  pub blocks_by_address : ℕ → Option ℕ
  pub notes : ℕ → Option String

abbrev pub void_type : IlType
void_type = record { kind = TypeKind.void; element_bits = 0; lanes = 1 }

abbrev pub boolean_type : IlType
boolean_type = record { kind = TypeKind.int; element_bits = 1; lanes = 1 }

abbrev pub flags_type : IlType
flags_type = record { kind = TypeKind.flags; element_bits = 0; lanes = 1 }

abbrev pub is_void : IlType → Bool
is_void t = elim t.kind [ TypeKind.void ↦ true | _ ↦ false ]

-- `Op{}` with its code and address.
abbrev pub blank_op : OpCode → ℕ → Op
blank_op code va = record {
  code = code;
  type = void_type;
  va = va;
  origin = 0;
  result = invalid;
  payload = 0;
  operand_start = 0;
  operand_count = 0;
  target_start = 0;
  target_count = 0;
}

-- `std::span::subspan`.
abbrev pub subspan {ℓ} : {A : Type ℓ} → List A → ℕ → ℕ → List A
subspan xs start count = take count (drop start xs)

unfoldable pub operands : Function → Op → List ℕ
operands f op = subspan f.operand_pool op.operand_start op.operand_count

unfoldable pub targets : Function → Op → List ℕ
targets f op = subspan f.target_pool op.target_start op.target_count

-- The constructor: pass zero is the lifter.
unfoldable pub new_function : List IlType → ℕ → Function
new_function registers entry_va = record {
  registers = registers;
  entry_va = entry_va;
  entry_block = invalid;
  current_pass = 0;
  exprs = empty;
  ops = [];
  blocks = [];
  values = [];
  operand_pool = [];
  target_pool = [];
  names = empty;
  passes = record { items = "lift" ∷ []; index = ("lift", 0) ∷ [] };
  blocks_by_address = λ va. none;
  notes = λ op. none;
}
