-- ===== src/SymbolicTests.antt =====
-- Concrete runs of symbolic integers: the width `n` of a slice joined to the rest `8 - n`.
use native.Mathlib.Decide.{ℕ_discrete}
use xdec.Base.{ℕ, ◌^◌, ◌-◌, ◌<◌, ◌≡◌, refl, Option, none, some, length, arith}
use xdec.Table.{empty, find, intern_key}
use xdec.Function.Names.{String-discrete}
use xdec.Function.{at, emplace, valid}
use xdec.Symbolic.{
  SymOp, SymPool, SymOp-discrete, SymNode-discrete, new_pool, literal, symbol_named, sym_binary,
  sym_unary, sym_select, is_unknown, as_literal, simplify, intern_node, fold_constants, fold_same,
  fold_cancel, subtrahend_of, addend_besides, is_commutative,
}
use xdec.Symbolic.Result.{IsUnary, IsBinary}
use xdec.Symbolic.Means.{Means}
use xdec.Symbolic.Adds.{Adds}
use xdec.Symbolic.Pool.{IsPool, Means-old, is_unknown-false}
use xdec.Symbolic.Build.{
  new_pool-IsPool, symbol_named-Builds, literal-Builds, sym_binary-Builds_if, Builds,
}
use xdec.Symbolic.Built.{BuildsIn, sym_binary-Builds, sym_unary-Builds, sym_select-Builds}

or_pool {ℓ} : {A : Type ℓ} → Option A → A → A
or_pool none d = d
or_pool (some a) d = a

abbrev blank : SymPool
blank = record { nodes = empty; symbols = empty; unknown = 0 }

pool_0 : SymPool
unfolding new_pool or_pool
pool_0 = or_pool new_pool blank

pool_1 : SymPool
unfolding symbol_named or_pool
pool_1 = (or_pool (symbol_named "n" pool_0) (0, blank)).1

pool_2 : SymPool
unfolding literal or_pool
pool_2 = (or_pool (literal 8 pool_1) (0, blank)).1

pool_3 : SymPool
unfolding sym_binary or_pool
pool_3 = (or_pool (sym_binary SymOp.sub 2 1 pool_2) (0, blank)).1

abbrev widths : ℕ → ℕ
widths s = 3

widths_small : (s : ℕ) → widths s < 2 ^ 64
widths_small s = omega arith

pool_0_made : new_pool ≡ some pool_0
unfolding pool_0 or_pool new_pool symbol_named literal sym_binary intern_node find intern_key
    SymNode-discrete SymOp-discrete ℕ_discrete String-discrete at emplace valid is_unknown simplify
    as_literal fold_constants fold_same fold_cancel subtrahend_of addend_besides is_commutative
pool_0_made = refl

pool_1_made : symbol_named "n" pool_0 ≡ some (1, pool_1)
unfolding pool_0 pool_1 or_pool new_pool symbol_named literal sym_binary intern_node find intern_key
    SymNode-discrete SymOp-discrete ℕ_discrete String-discrete at emplace valid is_unknown simplify
    as_literal fold_constants fold_same fold_cancel subtrahend_of addend_besides is_commutative
pool_1_made = refl

pool_2_made : literal 8 pool_1 ≡ some (2, pool_2)
unfolding pool_0 pool_1 pool_2 or_pool new_pool symbol_named literal sym_binary intern_node find
    intern_key SymNode-discrete SymOp-discrete ℕ_discrete String-discrete at emplace valid
    is_unknown simplify as_literal fold_constants fold_same fold_cancel subtrahend_of addend_besides
    is_commutative
pool_2_made = refl

pool_3_made : sym_binary SymOp.sub 2 1 pool_2 ≡ some (3, pool_3)
unfolding pool_0 pool_1 pool_2 pool_3 or_pool new_pool symbol_named literal sym_binary intern_node
    find intern_key SymNode-discrete SymOp-discrete ℕ_discrete String-discrete at emplace valid
    is_unknown simplify as_literal fold_constants fold_same fold_cancel subtrahend_of addend_besides
    is_commutative
pool_3_made = refl

pool_0-IsPool : IsPool pool_0
pool_0-IsPool = new_pool-IsPool pool_0 pool_0_made

built_1 : Builds pool_0 widths 3 1 pool_1
built_1 = symbol_named-Builds pool_0 widths pool_0-IsPool widths_small "n" 1 pool_1 pool_1_made

built_2 : Builds pool_1 widths 8 2 pool_2
built_2 =
    literal-Builds pool_1 widths built_1.pool widths_small 8 2 pool_2 (omega arith) pool_2_made

symbol_2 : Means pool_2.nodes.items widths 1 3
symbol_2 = Means-old pool_1 pool_2 widths built_2.pool built_2.old built_1.means

rest_width : IsBinary SymOp.sub 8 3 5
rest_width = record { left = omega arith; right = omega arith; word = omega arith; result = refl }

whole_width : IsBinary SymOp.add 3 5 8
whole_width = record { left = omega arith; right = omega arith; word = omega arith; result = refl }

inverted : IsUnary SymOp.invert 3 (2 ^ 64 - 4)
inverted = record { argument = omega arith; word = omega arith; result = refl }

built_3 : Builds pool_2 widths 5 3 pool_3
built_3 =
    sym_binary-Builds_if pool_2 widths built_2.pool widths_small SymOp.sub 2 1 8 3 5 3 pool_3
      built_2.means symbol_2 rest_width pool_3_made

symbol_3 : Means pool_3.nodes.items widths 1 3
symbol_3 = Means-old pool_2 pool_3 widths built_3.pool built_3.old symbol_2

room_3 : length pool_3.nodes.items < 2 ^ 32 - 1
unfolding pool_0 pool_1 pool_2 pool_3 or_pool new_pool symbol_named literal sym_binary intern_node
    find intern_key SymNode-discrete SymOp-discrete ℕ_discrete String-discrete at emplace valid
    is_unknown simplify as_literal fold_constants fold_same fold_cancel subtrahend_of addend_besides
    is_commutative
room_3 = omega arith

-- The slice and the rest together are as wide as the whole: the literal there was.
joined : sym_binary SymOp.add 1 3 pool_3 ≡ some (2, pool_3)
unfolding pool_0 pool_1 pool_2 pool_3 or_pool new_pool symbol_named literal sym_binary intern_node
    find intern_key SymNode-discrete SymOp-discrete ℕ_discrete String-discrete at emplace valid
    is_unknown simplify as_literal fold_constants fold_same fold_cancel subtrahend_of addend_besides
    is_commutative
joined = refl

sym_binary-Builds_example :
    BuildsIn pool_3 widths built_3.pool widths_small room_3 (sym_binary SymOp.add 1 3 pool_3) 8
sym_binary-Builds_example =
    sym_binary-Builds pool_3 widths built_3.pool widths_small room_3 SymOp.add 1 3 3 5 8 symbol_3
      built_3.means whole_width

sym_unary-Builds_example :
    BuildsIn pool_3 widths built_3.pool widths_small room_3
      (sym_unary SymOp.invert 1 pool_3)
      (2 ^ 64 - 4)
sym_unary-Builds_example =
    sym_unary-Builds pool_3 widths built_3.pool widths_small room_3 SymOp.invert 1 3 (2 ^ 64 - 4)
      symbol_3 inverted

sym_select-Builds_example :
    BuildsIn pool_3 widths built_3.pool widths_small room_3 (sym_select 1 3 2 pool_3) 5
sym_select-Builds_example =
    sym_select-Builds pool_3 widths built_3.pool widths_small room_3 1 3 2 3 5 symbol_3
      built_3.means (is_unknown-false pool_3 widths built_3.pool widths_small 3 5 built_3.means)
      (is_unknown-false pool_3 widths built_3.pool widths_small 2 8
        (Means-old pool_2 pool_3 widths built_3.pool built_3.old built_2.means))

abbrev zeros : ℕ → ℕ
zeros s = 0
