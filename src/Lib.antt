-- ===== src/Lib.antt =====
-- A model of the core of xdec, a decompiler that lifts machine code to an intermediate language
-- (IL), folds and rewrites it, and can execute it over a guest address space.
--
-- The parts and how they meet. The IL's expressions (include/xdec/il/expr.h,
-- include/xdec/il/type.h) are evaluated twice: by the constant folder `tryEvalConst`
-- (src/il/ceval.cpp), which the passes call, and by the interpreter `Interpreter::eval`
-- (src/il/interp.cpp), which execution calls. Both compute on two-word values (src/il/u128.h) over
-- the word functions of include/xdec/support/bits.h, and both read condition flags through
-- `evalFlagDef` and `evalCondition`. Execution reads and writes memory through `GuestAddressSpace`
-- (src/exec/memory.cpp), a map of permissioned pages behind a one-page cache of pointers.
--
-- Which file models which part.
--   Base      numbers, tests, lists, and the diagnostics of include/xdec/support/diag.h
--   Bits      include/xdec/support/bits.h, one function each: low_mask is lowMask, and so on
--   U128      src/il/u128.h, one function each; `add` returns the pair of its sum and its carry out
--   Flags     evalFlagDef is eval_flag_def with add_flags and sub_flags for its two formulas;
--             evalCondition is eval_condition; invert is `invert` of src/il/expr.cpp
--   Expr      the IL's expressions; a function's pool is a map from ids
--   Table     interning: the vector and the hash map of `Function::intern`, `internName`, `internPass`
--             and SymPool; Handles is such a table with 32-bit handles
--   Graph     walks in a graph of successor lists, the specification of the searches
--   Function  include/xdec/il/function.h, op.h and src/il/function.cpp: Build is the builders of
--             expressions, Append and Edit the appenders and edits of ops, Names the names and notes,
--             Edges rebuildEdges, Order reversePostOrder, each under its own name; Session is any
--             sequence of these calls; WellFormed is what they all keep
--   Symbolic  SymPool of include/xdec/spec/symint.h and src/spec/symint.cpp: sym_binary, sym_unary,
--             sym_select are `binary`, `unary`, `select`; simplify is the rules of `binary` in order;
--             literal is `constant`, symbol_named is `symbol` with internSymbol; Means is what a
--             handle stands for when its symbols are given, by Result; Substitute is `substitute`
--   Eval      evalRec is eval_rec, with fold_node and fold_args for its guards and fold_op for its
--             switch; tryEvalConst is try_eval_const
--   Interp    Interpreter::eval is exec_rec, with exec_node for its guards and exec_op for its switch
--   Memory    GuestAddressSpace: State is its data, Paging, Access, Dirty, Patch and Setters its member
--             functions under their own names, Op and Session its public operations in any order, but
--             for seedImage, whose image is a parameter, and the pure `mapped`
--   Tests, FunctionTests, SymbolicTests, MemoryTests  concrete runs
--
-- Numbers. A word is a natural number; each operation writes its wrap out (`wrap` is the remainder
-- by 2 ^ 64), and a hypothesis such as `IsWords` says what the C++ type guarantees. The negation of
-- INT64_MIN in src/il/interp.cpp, undefined in C++, wraps as its comment intends.
--
-- Bounds and fuel. `eval_rec` has 257 levels for depths 0 to 256, as kMaxEvalDepth sets, and
-- `exec_rec` 513 for the interpreter's 512: running out is the code's own answer. The page walk has
-- a round more than there are pages from the first to the last, and ends by its test. The byte
-- loops have one round for each byte, and each round moves at least one byte. `search_loop` has one
-- round for each block and one for each of its successors, which is what the depth-first search
-- takes. `substitute` goes from a node to its operands, which are older: the handle plus one is
-- fuel enough.
--
-- Functions. A handle is a place in a vector, and a failed assertion, as well as a handle out of
-- range, is `none`. Nothing is claimed of writes that a pass makes through a reference to a block
-- or an op. A hash map is an association list or a function of its key.
--
-- Symbolic integers. An unknown means nothing, and so does what divides by zero; what an operation
-- gives is said in exact and signed arithmetic by Symbolic/Result, apart from the code's folding. A
-- name's number is its place in the pool's table; the hash of a node is not modelled, a lookup in
-- the hash map is.
--
-- Memory. A `Page*` is the key of its node in the hash map, whose nodes do not move; following a
-- key that is gone, or a null pointer, is the outcome `fault`, apart from the code's own errors.
-- The canonicalizer, the page provider and the binary image come from the embedder and are
-- parameters: a canonicalizer is relied on to yield 64-bit addresses and to be idempotent, since
-- the operations canonicalize an address twice. The access observer is a log of what it is told.
--
-- Not modelled. C++ float arithmetic is a function that the interpreter takes. The register file,
-- blocks and sessions of the interpreter, the text and the verifier of IL functions, the analyses,
-- passes, instruction specifications other than their symbolic integers, image loaders and the
-- emitter are later work. Logging, the trace database, plugins and the command line are input and
-- output.
pub mod Base
pub mod Bits
pub mod U128
pub mod Flags
pub mod Expr
pub mod Table
pub mod Graph
pub mod Function
pub mod FunctionTests
pub mod Eval
pub mod Symbolic
pub mod SymbolicTests
pub mod Interp
pub mod Memory
pub mod Tests
pub mod MemoryTests
