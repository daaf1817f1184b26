-- ===== src/Function/WellFormed/Edits.antt =====
-- The operations that are made of several steps, and the edits of ops in place.
use xdec.Base.{
  ℕ, ◌%◌, ◌^◌, ◌<◌, ◌≡◌, refl, inl, inr, false, some, List, [], ◌++◌, length, get_elem?, push_back,
  set, if◌then◌else◌, arith, get_elem?-push_back, length-push_back, length-append, Option-cases,
  Bool-cases, lt_of_get_elem?, ap,
}
use mathlib.Core.List.{append-nil}
use native.Mathlib.Decide.{ℕ_discrete}
use xdec.Expr.{IlType, Expr}
use xdec.Function.{
  Function, Op, OpCode, Block, invalid, valid, at, emplace, ends_block, is_void, blank_op,
}
use xdec.Function.Append.{
  emplace_address, new_block, placed, append_op, define_value, set_result, create_block,
  append_definition, append_maybe_definition,
}
use xdec.Function.Edit.{set_targets, set_operands, insert_after_phis, prepend_phi}
use xdec.Function.Interning.{intern-Interns}
use xdec.Function.Build.{intern}
use xdec.Function.WellFormed.{IsWellFormed, BlocksOk, ends_at}
use xdec.Function.WellFormed.Blocks.{at-get_elem?, emplace-place, Listed-insert}
use xdec.Function.WellFormed.Values.{slice_within}
use xdec.Function.WellFormed.Steps.{
  append_op-Appends, give_value-IsWellFormed, set_op-IsWellFormed, set_block-IsWellFormed,
  add_op-IsWellFormed,
}

pub intern-IsWellFormed :
    (expr : Expr) (f f' : Function) (id : ℕ)
    → IsWellFormed f
    → intern expr f ≡ some (id, f')
    → IsWellFormed f'
intern-IsWellFormed expr f f' id w h =
    let done = intern-Interns expr f f' id w.pool h in
    rw done.kept (record {
      pool = done.pool;
      op_count = w.op_count;
      block_count = w.block_count;
      value_count = w.value_count;
      slices = w.slices;
      blocks = w.blocks;
      values = w.values;
    })

pub append_definition-IsWellFormed :
    (b : ℕ) (op : Op) (operands : List ℕ) (f f' : Function) (r : ℕ × ℕ)
    → op.result ≡ invalid
    → IsWellFormed f
    → append_definition b op operands f ≡ some (r, f')
    → IsWellFormed f'
unfolding append_definition
append_definition-IsWellFormed b op operands f f' r free w h =
    elim (Option-cases (append_op b op operands [] f)) [
      | inl gone ↦ absurd (ground arith)
      | inr ((id, appended), e) ↦
          let a = append_op-Appends b op operands [] f appended id free w e in
          elim (Option-cases (define_value op.type id b appended)) [
            | inl gone ↦ absurd (ground arith)
            | inr ((value, defined), e') ↦ elim (Option-cases (set_result id value defined)) [
              | inl gone ↦ absurd (ground arith)
              | inr (g, e'') ↦
                  let same : g ≡ f' = ground arith in
                  rw (← same) (
                    give_value-IsWellFormed op.type id b value appended defined g
                      (placed op operands [] f) a.found a.well_formed e' e'')
            ]
          ]
    ]

pub append_op-IsWellFormed :
    (b : ℕ) (op : Op) (operands targets : List ℕ) (f f' : Function) (id : ℕ)
    → op.result ≡ invalid
    → IsWellFormed f
    → append_op b op operands targets f ≡ some (id, f')
    → IsWellFormed f'
append_op-IsWellFormed b op operands targets f f' id free w h =
    (append_op-Appends b op operands targets f f' id free w h).well_formed

pub append_maybe_definition-IsWellFormed :
    (b : ℕ) (op : Op) (operands : List ℕ) (f f' : Function) (id : ℕ)
    → op.result ≡ invalid
    → IsWellFormed f
    → append_maybe_definition b op operands f ≡ some (id, f')
    → IsWellFormed f'
unfolding append_maybe_definition
append_maybe_definition-IsWellFormed b op operands f f' id free w h =
    elim (Bool-cases (is_void op.type)) [
      | inl void ↦ append_op-IsWellFormed b op operands [] f f' id free w (ground arith)
      | inr typed ↦ elim (Option-cases (append_definition b op operands f)) [
        | inl gone ↦ absurd (ground arith)
        | inr ((r, g), e) ↦
            let same : g ≡ f' = ground arith in
            rw (← same) (append_definition-IsWellFormed b op operands f g r free w e)
      ]
    ]

new_block-BlocksOk :
    (va : ℕ) (ops : List Op) (blocks : List Block)
    → BlocksOk ops blocks
    → BlocksOk ops (push_back blocks (new_block va))
new_block-BlocksOk va ops blocks old b x e = elim (ℕ_discrete b (length blocks)) [
  | yes last ↦
      let same : new_block va ≡ x = ground (arith, get_elem?-push_back blocks (new_block va) b) in
      rw (← same) tt
  | no other ↦ old b x (ground (arith, get_elem?-push_back blocks (new_block va) b))
]

pub create_block-IsWellFormed :
    (va : ℕ) (f f' : Function) (id : ℕ)
    → IsWellFormed f
    → create_block va f ≡ some (id, f')
    → IsWellFormed f'
unfolding create_block
create_block-IsWellFormed va f f' id w h = elim (Option-cases (emplace f.blocks (new_block va))) [
  | inl gone ↦ absurd (ground arith)
  | inr ((i, blocks), e) ↦
      let (place, grown, room) = emplace-place f.blocks blocks (new_block va) i w.block_count e in
      let result : record f {
        blocks = blocks;
        blocks_by_address = emplace_address va i f.blocks_by_address;
        entry_block = if valid f.entry_block then f.entry_block else i;
      }
          ≡ f' =
        ground arith in
      rw (← result) (record {
        pool = w.pool;
        op_count = w.op_count;
        block_count = omega (arith, ap length grown, length-push_back f.blocks (new_block va));
        value_count = w.value_count;
        slices = w.slices;
        blocks = rw grown (new_block-BlocksOk va f.ops f.blocks w.blocks);
        values = w.values;
      })
]

pub set_targets-IsWellFormed :
    (id : ℕ) (targets : List ℕ) (f f' : Function)
    → IsWellFormed f
    → set_targets id targets f ≡ some f'
    → IsWellFormed f'
unfolding set_targets
set_targets-IsWellFormed id targets f f' w h = elim (Option-cases (at f.ops id)) [
  | inl gone ↦ absurd (ground arith)
  | inr (op, e) ↦
      let at_id = at-get_elem? f.ops id op e in
      let new : Op = record op {
        target_start = length f.target_pool % 2 ^ 32;
        target_count = length targets % 2 ^ 32;
      } in
      let result : record f { ops = set f.ops id new; target_pool = f.target_pool ++ targets }
          ≡ f' =
        ground arith in
      rw (← result) (
        set_op-IsWellFormed f id op new f.operand_pool (f.target_pool ++ targets) at_id refl
          (omega arith) (omega (arith, length-append f.target_pool targets))
          ((w.slices id op at_id).0, slice_within f.target_pool targets) (w.values id op at_id) w)
]

pub set_operands-IsWellFormed :
    (id : ℕ) (operands : List ℕ) (f f' : Function)
    → IsWellFormed f
    → set_operands id operands f ≡ some f'
    → IsWellFormed f'
unfolding set_operands
set_operands-IsWellFormed id operands f f' w h = elim (Option-cases (at f.ops id)) [
  | inl gone ↦ absurd (ground arith)
  | inr (op, e) ↦
      let at_id = at-get_elem? f.ops id op e in
      let new : Op = record op {
        operand_start = length f.operand_pool % 2 ^ 32;
        operand_count = length operands % 2 ^ 32;
      } in
      let result : record f { ops = set f.ops id new; operand_pool = f.operand_pool ++ operands }
          ≡ f' =
        ground arith in
      rw (← result) (
        set_op-IsWellFormed f id op new (f.operand_pool ++ operands) f.target_pool at_id refl
          (omega (arith, length-append f.operand_pool operands)) (omega arith)
          (slice_within f.operand_pool operands, (w.slices id op at_id).1) (w.values id op at_id) w)
]

phi_placed :
    (va : ℕ) (type : IlType) (f : Function)
    → ends_at
        (push_back f.ops (placed (record (blank_op OpCode.phi va) { type = type }) [] [] f))
        (length f.ops)
      ≡ false
unfolding placed ends_block
phi_placed va type f = ground (
  arith,
  get_elem?-push_back f.ops (placed (record (blank_op OpCode.phi va) { type = type }) [] [] f)
      (length f.ops),
)

-- A phi that leads its block, before it has its value.
unnamed_phi-IsWellFormed :
    (b va : ℕ) (type : IlType) (f : Function) (block : Block) (listed : List ℕ)
    → get_elem? f.blocks b ≡ some block
    → length f.ops < invalid
    → insert_after_phis
        (push_back f.ops (placed (record (blank_op OpCode.phi va) { type = type }) [] [] f))
        (length f.ops)
        block.ops
      ≡ some listed
    → IsWellFormed f
    → IsWellFormed (record f {
      ops = push_back f.ops (placed (record (blank_op OpCode.phi va) { type = type }) [] [] f);
      blocks = set f.blocks b (record block { ops = listed });
    })
unfolding placed
unnamed_phi-IsWellFormed b va type f block listed at_b room inserted w =
    let phi = placed (record (blank_op OpCode.phi va) { type = type }) [] [] f in
    let ops = push_back f.ops phi in
    let grown =
      add_op-IsWellFormed f (record (blank_op OpCode.phi va) { type = type }) [] [] refl room w in
    let wg : IsWellFormed (record f { ops = ops }) =
      rw (append-nil f.operand_pool, append-nil f.target_pool) at grown in
    set_block-IsWellFormed (record f { ops = ops }) b (record block { ops = listed })
      (lt_of_get_elem? f.blocks b block at_b)
      (Listed-insert ops (length f.ops) block.ops listed (omega (arith, length-push_back f.ops phi))
        (phi_placed va type f) inserted (wg.blocks b block at_b))
      wg

pub prepend_phi-IsWellFormed :
    (b va : ℕ) (type : IlType) (f f' : Function) (value : ℕ)
    → IsWellFormed f
    → prepend_phi b va type f ≡ some (value, f')
    → IsWellFormed f'
unfolding prepend_phi
prepend_phi-IsWellFormed b va type f f' value w h = elim (Option-cases (at f.blocks b)) [
  | inl gone ↦ absurd (ground arith)
  | inr (block, e) ↦
      let phi = placed (record (blank_op OpCode.phi va) { type = type }) [] [] f in
      elim (Option-cases (emplace f.ops phi)) [
        | inl gone ↦ absurd (ground arith)
        | inr ((id, ops), e1) ↦
            let (place, grown, room) = emplace-place f.ops ops phi id w.op_count e1 in
            elim (Option-cases (insert_after_phis ops id block.ops)) [
              | inl gone ↦ absurd (ground arith)
              | inr (listed, e2) ↦
                  let g : Function = record f {
                    ops = ops;
                    blocks = set f.blocks b (record block { ops = listed });
                  } in
                  elim (Option-cases (define_value type id b g)) [
                    | inl gone ↦ absurd (ground arith)
                    | inr ((v, defined), e3) ↦ elim (Option-cases (set_result id v defined)) [
                      | inl gone ↦ absurd (ground arith)
                      | inr (h', e4) ↦
                          let same : h' ≡ f' = ground arith in
                          let wg : IsWellFormed g = rw (grown) (
                            unnamed_phi-IsWellFormed b va type f block listed
                              (at-get_elem? f.blocks b block e) room (rw (grown, place) at e2) w) in
                          rw (← same) (
                            give_value-IsWellFormed type id b v g defined h' phi
                              (ground (arith, get_elem?-push_back f.ops phi id)) wg e3 e4)
                    ]
                  ]
            ]
      ]
]
