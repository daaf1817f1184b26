-- ===== src/Symbolic/Substitute.antt =====
-- `SymPool::substitute` of src/spec/symint.cpp. A run that ends by the assertion of the handle space
-- is `aborted`; `spent` is no outcome of the code.
use Prim.Native.String.{String}
use mathlib.Core.Logic.{ite}
use xdec.Base.{
  ℕ, zero, suc, Bool, true, false, ◌&&◌, Option, none, some, List, [], ◌∷◌, get_elem?, ◌==◌, length,
  if◌then◌else◌,
}
use xdec.Function.{at, invalid}
use xdec.Function.Names.{String-discrete}
use xdec.Symbolic.{SymOp, SymNode, SymPool, literal, sym_binary, sym_unary, sym_select}

pub data Run {ℓ} (A : Type ℓ) : Type ℓ where
  spent aborted : Run A
  done : A → Run A

abbrev pub and_then {ℓ} : {A : Type ℓ} {B : Type ℓ} → Run A → (A → Run B) → Run B
and_then spent k = Run.spent
and_then aborted k = Run.aborted
and_then (done a) k = k a

abbrev pub run_of {ℓ} : {A : Type ℓ} → Option A → Run A
run_of none = Run.aborted
run_of (some a) = Run.done a

-- An operand of the array of three, which starts out with invalid handles.
abbrev pub operand_at : List ℕ → ℕ → ℕ
operand_at xs i = elim (get_elem? xs i) [ none ↦ invalid | some x ↦ x ]

abbrev pub same_operands : List ℕ → List ℕ → Bool
same_operands [] [] = true
same_operands (x ∷ xs) (y ∷ ys) = x == y && same_operands xs ys
same_operands _ _ = false

unfoldable pub rebuild : ℕ → SymNode → List ℕ × SymPool → Run (ℕ × SymPool)
unfolding sym_binary sym_unary sym_select
rebuild id node (xs, p) =
    if same_operands node.operands xs
    then Run.done (id, p)
    else run_of (elim node.op [
      | SymOp.select ↦ sym_select (operand_at xs 0) (operand_at xs 1) (operand_at xs 2) p
      | op ↦
          if length node.operands == 1
          then sym_unary op (operand_at xs 0) p
          else sym_binary op (operand_at xs 0) (operand_at xs 1) p
    ])

unfoldable pub replace_all :
    (ℕ → SymPool → Run (ℕ × SymPool)) → List ℕ → SymPool → Run (List ℕ × SymPool)
replace_all go [] p = Run.done ([], p)
replace_all go (x ∷ xs) p =
    and_then (go x p) λ (y, q). and_then (replace_all go xs q) λ (ys, r). Run.done (y ∷ ys, r)

-- `symbolName`: a number out of the table has a name as well.
unfoldable pub symbol_name : List String → ℕ → String
symbol_name names s = elim (get_elem? names s) [ none ↦ "?" | some name ↦ name ]

unfoldable pub replace_symbol : String → ℕ → ℕ → SymNode → SymPool → Run (ℕ × SymPool)
unfolding literal symbol_name
replace_symbol name value id node p =
    ite (String-discrete (symbol_name p.symbols.items node.symbol) name) (run_of (literal value p))
      (Run.done (id, p))

unfoldable pub substitute : ℕ → String → ℕ → ℕ → SymPool → Run (ℕ × SymPool)
unfolding replace_symbol replace_all rebuild
substitute zero name value id p = Run.spent
substitute (suc fuel) name value id p = elim (at p.nodes.items id) [
  | none ↦ Run.done (id, p)
  | some node ↦ elim node.op [
    | SymOp.const ↦ Run.done (id, p)
    | SymOp.unknown ↦ Run.done (id, p)
    | SymOp.symbol ↦ replace_symbol name value id node p
    | _ ↦ and_then (replace_all (substitute fuel name value) node.operands p) (rebuild id node)
  ]
]
