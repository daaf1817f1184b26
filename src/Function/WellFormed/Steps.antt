-- ===== src/Function/WellFormed/Steps.antt =====
-- Each operation of `Function` that changes it keeps it well formed.
use xdec.Base.{
  ℕ, ◌≤◌, ◌<◌, ◌≡◌, refl, inl, inr, true, false, some, List, ◌++◌, length, get_elem?, push_back,
  set, arith, get_elem?-push_back, length-push_back, length-set, length-append, Option-cases,
  lt_of_get_elem?,
}
use xdec.Expr.{IlType}
use xdec.Function.{Function, Op, Block, ValueInfo, invalid, valid, at, emplace}
use xdec.Function.Append.{back, is_ended, placed, append_op, define_value, set_result}
use xdec.Function.WellFormed.{IsWellFormed, Listed, ends_at}
use xdec.Function.WellFormed.Blocks.{
  at-get_elem?, emplace-place, push_back-SameEnds, set-SameEnds, Listed-SameEnds, Listed-push_back,
  BlocksOk-set,
}
use xdec.Function.WellFormed.Values.{
  Slices, SlicesOk-push_back, SlicesOk-set, slice_within, ValuesOk-push_back, ValuesOk-define,
  ValuesOk-set,
}

-- A new op that is in no block yet.
pub add_op-IsWellFormed :
    (f : Function) (op : Op) (operands targets : List ℕ)
    → op.result ≡ invalid
    → length f.ops < invalid
    → IsWellFormed f
    → IsWellFormed (record f {
      ops = push_back f.ops (placed op operands targets f);
      operand_pool = f.operand_pool ++ operands;
      target_pool = f.target_pool ++ targets;
    })
unfolding placed
add_op-IsWellFormed f op operands targets free room w = record {
  pool = w.pool;
  op_count = omega (arith, length-push_back f.ops (placed op operands targets f));
  block_count = w.block_count;
  value_count = w.value_count;
  slices =
      SlicesOk-push_back f.ops (placed op operands targets f) f.operand_pool f.target_pool
        (f.operand_pool ++ operands) (f.target_pool ++ targets)
        (omega (arith, length-append f.operand_pool operands))
        (omega (arith, length-append f.target_pool targets))
        (slice_within f.operand_pool operands, slice_within f.target_pool targets) w.slices;
  blocks = λ b x e.
      Listed-SameEnds f.ops (push_back f.ops (placed op operands targets f)) x.ops
        (push_back-SameEnds f.ops (placed op operands targets f)) (w.blocks b x e);
  values = ValuesOk-push_back f.ops (placed op operands targets f) f.values free w.values;
}

-- A block whose list of ops is replaced by a good one.
pub set_block-IsWellFormed :
    (f : Function) (b : ℕ) (block : Block)
    → b < length f.blocks
    → Listed f.ops block.ops
    → IsWellFormed f
    → IsWellFormed (record f { blocks = set f.blocks b block })
set_block-IsWellFormed f b block h l w = record {
  pool = w.pool;
  op_count = w.op_count;
  block_count = omega (arith, length-set f.blocks b block, w.block_count);
  value_count = w.value_count;
  slices = w.slices;
  blocks = BlocksOk-set f.ops f.ops f.blocks b block h (omega arith, λ id p. refl) w.blocks l;
  values = w.values;
}

not_ended :
    (f : Function) (block : Block) (last : ℕ)
    → is_ended f block ≡ some false
    → back block.ops ≡ some last
    → ends_at f.ops last ≡ false
unfolding is_ended
not_ended f block last h e = elim (Option-cases (at f.ops last)) [
  | inl gone ↦ absurd (ground arith)
  | inr (op, e') ↦ ground (arith, at-get_elem? f.ops last op e')
]

ended_inside :
    (f : Function) (block : Block) (last : ℕ)
    → is_ended f block ≡ some false
    → back block.ops ≡ some last
    → last < length f.ops
unfolding is_ended
ended_inside f block last h e = elim (Option-cases (at f.ops last)) [
  | inl gone ↦ absurd (ground arith)
  | inr (op, e') ↦ lt_of_get_elem? f.ops last op (at-get_elem? f.ops last op e')
]

-- What `appendOp` did, if it did not abort.
pub record Appends (f : Function) (op : Op) (id : ℕ) (f' : Function) : Type 0 where
  pub place : id ≡ length f.ops
  pub found : get_elem? f'.ops id ≡ some op
  pub same_values : f'.values ≡ f.values
  pub well_formed : IsWellFormed f'

append_op_shape :
    (b : ℕ) (op : Op) (operands targets : List ℕ) (f f' : Function) (id : ℕ)
    → IsWellFormed f
    → append_op b op operands targets f ≡ some (id, f')
    → (block : Block) × (get_elem? f.blocks b ≡ some block)
      × (is_ended f block ≡ some false)
      × (length f.ops < invalid)
      × (id ≡ length f.ops)
      × (f' ≡ record f {
        ops = push_back f.ops (placed op operands targets f);
        operand_pool = f.operand_pool ++ operands;
        target_pool = f.target_pool ++ targets;
        blocks = set f.blocks b (record block { ops = push_back block.ops id });
      })
unfolding append_op
append_op_shape b op operands targets f f' id w h = elim (Option-cases (at f.blocks b)) [
  | inl gone ↦ absurd (ground arith)
  | inr (block, e) ↦ elim (Option-cases (is_ended f block)) [
    | inl gone ↦ absurd (ground arith)
    | inr (true, e') ↦ absurd (ground arith)
    | inr (false, e') ↦ elim (Option-cases (emplace f.ops (placed op operands targets f))) [
      | inl gone ↦ absurd (ground arith)
      | inr ((i, ops), r) ↦
          let (place, grown, room) =
            emplace-place f.ops ops (placed op operands targets f) i w.op_count r in
          (block, at-get_elem? f.blocks b block e, e', room, ground arith, ground arith)
    ]
  ]
]

ended_before :
    (f : Function) (block : Block) (new : Op) (last : ℕ)
    → is_ended f block ≡ some false
    → back block.ops ≡ some last
    → ends_at (push_back f.ops new) last ≡ false
ended_before f block new last h e = ground (
  arith,
  ended_inside f block last h e,
  not_ended f block last h e,
  (push_back-SameEnds f.ops new).1 last,
)

-- A new op at the back of a block.
pub append_op-Appends :
    (b : ℕ) (op : Op) (operands targets : List ℕ) (f f' : Function) (id : ℕ)
    → op.result ≡ invalid
    → IsWellFormed f
    → append_op b op operands targets f ≡ some (id, f')
    → Appends f (placed op operands targets f) id f'
append_op-Appends b op operands targets f f' id free w h =
    let (block, at_b, goes_on, room, place, shape) =
      append_op_shape b op operands targets f f' id w h in
    let new = placed op operands targets f in
    let grown = add_op-IsWellFormed f op operands targets free room w in
    let listed : Listed (push_back f.ops new) (push_back block.ops id) =
      Listed-push_back (push_back f.ops new) block.ops id
        (omega (arith, length-push_back f.ops new))
        (λ last e. ended_before f block new last goes_on e)
        (Listed-SameEnds f.ops (push_back f.ops new) block.ops (push_back-SameEnds f.ops new)
          (w.blocks b block at_b)) in
    rw shape (record {
      place = place;
      found = ground (arith, get_elem?-push_back f.ops new id);
      same_values = refl;
      well_formed =
          set_block-IsWellFormed
            (record f {
              ops = push_back f.ops new;
              operand_pool = f.operand_pool ++ operands;
              target_pool = f.target_pool ++ targets;
            })
            b (record block { ops = push_back block.ops id })
            (lt_of_get_elem? f.blocks b block at_b) listed grown;
    })

define_value_shape :
    (type : IlType) (definition block : ℕ) (f f' : Function) (id : ℕ)
    → IsWellFormed f
    → define_value type definition block f ≡ some (id, f')
    → (length f.values < invalid)
      × (id ≡ length f.values)
      × (f' ≡ record f {
        values =
            push_back f.values (record { type = type; definition = definition; block = block });
      })
unfolding define_value
define_value_shape type definition block f f' id w h =
    let info : ValueInfo = record { type = type; definition = definition; block = block } in
    elim (Option-cases (emplace f.values info)) [
      | inl gone ↦ absurd (ground arith)
      | inr ((i, values), r) ↦
          let (place, grown, room) = emplace-place f.values values info i w.value_count r in
          (room, ground arith, ground arith)
    ]

define-IsWellFormed :
    (f : Function) (info : ValueInfo)
    → length f.values < invalid
    → IsWellFormed f
    → IsWellFormed (record f { values = push_back f.values info })
define-IsWellFormed f info room w = record {
  pool = w.pool;
  op_count = w.op_count;
  block_count = w.block_count;
  value_count = omega (arith, length-push_back f.values info);
  slices = w.slices;
  blocks = w.blocks;
  values = ValuesOk-define f.ops f.values info w.values;
}

-- An op replaced by one with the same code, a slice that fits, and a result that is right.
pub set_op-IsWellFormed :
    (f : Function) (i : ℕ) (old new : Op) (p q : List ℕ)
    → get_elem? f.ops i ≡ some old
    → new.code ≡ old.code
    → length f.operand_pool ≤ length p
    → length f.target_pool ≤ length q
    → Slices new p q
    → (valid new.result ≡ true
        → (info : ValueInfo) × (get_elem? f.values new.result ≡ some info) × (info.definition ≡ i))
    → IsWellFormed f
    → IsWellFormed (record f { ops = set f.ops i new; operand_pool = p; target_pool = q })
set_op-IsWellFormed f i old new p q at_i same hp hq slices result w =
    let bound = lt_of_get_elem? f.ops i old at_i in
    record {
      pool = w.pool;
      op_count = omega (arith, length-set f.ops i new, w.op_count);
      block_count = w.block_count;
      value_count = w.value_count;
      slices =
          SlicesOk-set f.ops i new f.operand_pool f.target_pool p q bound hp hq slices w.slices;
      blocks = λ b x e.
          Listed-SameEnds f.ops (set f.ops i new) x.ops (set-SameEnds f.ops i old new at_i same)
            (w.blocks b x e);
      values = ValuesOk-set f.ops i new f.values bound result w.values;
    }

-- The value of a new op: defined, and then set as the op's result.
pub give_value-IsWellFormed :
    (type : IlType) (id b value : ℕ) (f defined f' : Function) (op : Op)
    → get_elem? f.ops id ≡ some op
    → IsWellFormed f
    → define_value type id b f ≡ some (value, defined)
    → set_result id value defined ≡ some f'
    → IsWellFormed f'
unfolding set_result
give_value-IsWellFormed type id b value f defined f' op at_id w h r =
    let (room, place, shape) = define_value_shape type id b f defined value w h in
    let info : ValueInfo = record { type = type; definition = id; block = b } in
    let grown = define-IsWellFormed f info room w in
    elim (Option-cases (at defined.ops id)) [
      | inl gone ↦ absurd (ground arith)
      | inr (x, e) ↦
          let same : x ≡ op = ground (arith, at-get_elem? defined.ops id x e) in
          let new : Op = record op { result = value } in
          let result : record f { values = push_back f.values info; ops = set f.ops id new } ≡ f' =
            ground arith in
          rw (← result) (
            set_op-IsWellFormed (record f { values = push_back f.values info }) id op new
              f.operand_pool f.target_pool at_id refl (omega arith) (omega arith)
              (w.slices id op at_id)
              (λ v. (info, ground (arith, get_elem?-push_back f.values info value), refl)) grown)
    ]
