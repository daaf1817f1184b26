-- ===== src/Function/WellFormed/Removal.antt =====
-- `removeOp` and `dropTerminator` keep a function well formed.
use Prim.Native.String.{String}
use xdec.Base.{
  ℕ, ◌≡◌, refl, inl, inr, Option, none, some, get_elem?, set, arith, length-set, Option-cases,
  Bool-cases, lt_of_get_elem?,
}
use xdec.Function.{Function, Op, Block, ValueInfo, invalid, valid, at}
use xdec.Function.Append.{back}
use xdec.Function.Names.{put_note}
use xdec.Function.Edit.{tombstone, erase_op, remove_op, pop_back, drop_terminator}
use xdec.Function.WellFormed.{IsWellFormed}
use xdec.Function.WellFormed.Blocks.{
  at-get_elem?, set-SameEnds, Listed-SameEnds, Listed-erase, Listed-pop_back,
}
use xdec.Function.WellFormed.Values.{ValuesOk-tombstone, SlicesOk-set}
use xdec.Function.WellFormed.Steps.{set_op-IsWellFormed, set_block-IsWellFormed}

pub put_note-IsWellFormed :
    (id : ℕ) (note : Option String) (f : Function)
    → IsWellFormed f
    → IsWellFormed (put_note id note f)
put_note-IsWellFormed id text f w = record {
  pool = w.pool;
  op_count = w.op_count;
  block_count = w.block_count;
  value_count = w.value_count;
  slices = w.slices;
  blocks = w.blocks;
  values = w.values;
}

-- What clearing an op's result leaves: the blocks, and a function in order.
tombstone-IsWellFormed :
    (id : ℕ) (f f' : Function)
    → IsWellFormed f
    → tombstone id f ≡ some f'
    → IsWellFormed f' × (f'.blocks ≡ f.blocks)
unfolding tombstone
tombstone-IsWellFormed id f f' w h = elim (Option-cases (at f.ops id)) [
  | inl gone ↦ absurd (ground arith)
  | inr (op, e) ↦ elim (Bool-cases (valid op.result)) [
    | inr free ↦ let same : f ≡ f' = ground arith in rw (← same) (w, refl)
    | inl live ↦ elim (Option-cases (at f.values op.result)) [
      | inl gone ↦ absurd (ground arith)
      | inr (info, e') ↦
          let at_id = at-get_elem? f.ops id op e in
          let bound = lt_of_get_elem? f.ops id op at_id in
          let new : Op = record op { result = invalid } in
          let dead : ValueInfo = record info { definition = invalid } in
          let result : record f { values = set f.values op.result dead; ops = set f.ops id new }
              ≡ f' =
            ground arith in
          rw (← result) (
            (record {
              pool = w.pool;
              op_count = omega (arith, length-set f.ops id new, w.op_count);
              block_count = w.block_count;
              value_count = omega (arith, length-set f.values op.result dead, w.value_count);
              slices =
                  SlicesOk-set f.ops id new f.operand_pool f.target_pool f.operand_pool
                    f.target_pool bound (omega arith) (omega arith) (w.slices id op at_id) w.slices;
              blocks = λ b x e.
                  Listed-SameEnds f.ops (set f.ops id new) x.ops
                    (set-SameEnds f.ops id op new at_id refl) (w.blocks b x e);
              values = ValuesOk-tombstone f.ops id op new f.values dead at_id live refl w.values;
            }),
            refl,
          )
    ]
  ]
]

pub remove_op-IsWellFormed :
    (b id : ℕ) (f f' : Function) → IsWellFormed f → remove_op b id f ≡ some f' → IsWellFormed f'
unfolding remove_op
remove_op-IsWellFormed b id f f' w h = elim (Option-cases (at f.blocks b)) [
  | inl gone ↦ absurd (ground arith)
  | inr (block, e) ↦ elim (Option-cases (at f.ops id)) [
    | inl gone ↦ absurd (ground arith)
    | inr (op, e2) ↦ elim (Option-cases (erase_op id block.ops)) [
      | inl gone ↦ absurd (ground arith)
      | inr (rest, e3) ↦ elim (Option-cases (tombstone id f)) [
        | inl gone ↦ absurd (ground arith)
        | inr (g, e4) ↦
            let (wg, same_blocks) = tombstone-IsWellFormed id f g w e4 in
            let at_b : get_elem? g.blocks b ≡ some block =
              rw same_blocks (at-get_elem? f.blocks b block e) in
            let result : put_note id none
                  (record g { blocks = set g.blocks b (record block { ops = rest }) })
                ≡ f' =
              ground arith in
            rw (← result) (
              put_note-IsWellFormed id none
                (record g { blocks = set g.blocks b (record block { ops = rest }) })
                (set_block-IsWellFormed g b (record block { ops = rest })
                  (lt_of_get_elem? g.blocks b block at_b)
                  (Listed-erase g.ops id block.ops rest e3 (wg.blocks b block at_b)) wg))
      ]
    ]
  ]
]

-- Dropping the last op of a block, which keeps its place without targets.
dropped-IsWellFormed :
    (b id : ℕ) (g : Function) (block : Block) (last : Op)
    → get_elem? g.blocks b ≡ some block
    → get_elem? g.ops id ≡ some last
    → IsWellFormed g
    → IsWellFormed (
        put_note id none (record g {
          ops = set g.ops id (record last { target_count = 0 });
          blocks = set g.blocks b (record block { ops = pop_back block.ops });
        }))
dropped-IsWellFormed b id g block last at_b at_id wg =
    let new : Op = record last { target_count = 0 } in
    let cut : Function = record g { ops = set g.ops id new } in
    let slices = wg.slices id last at_id in
    let wc : IsWellFormed cut =
      set_op-IsWellFormed g id last new g.operand_pool g.target_pool at_id refl (omega arith)
        (omega arith) (slices.0, omega arith) (wg.values id last at_id) wg in
    let shorter : Block = record block { ops = pop_back block.ops } in
    put_note-IsWellFormed id none (record cut { blocks = set cut.blocks b shorter })
      (set_block-IsWellFormed cut b shorter (lt_of_get_elem? g.blocks b block at_b)
        (Listed-pop_back cut.ops block.ops (wc.blocks b block at_b)) wc)

pub drop_terminator-IsWellFormed :
    (b : ℕ) (f f' : Function) → IsWellFormed f → drop_terminator b f ≡ some f' → IsWellFormed f'
unfolding drop_terminator
drop_terminator-IsWellFormed b f f' w h = elim (Option-cases (at f.blocks b)) [
  | inl gone ↦ absurd (ground arith)
  | inr (block, e) ↦ elim (Option-cases (back block.ops)) [
    | inl gone ↦ absurd (ground arith)
    | inr (id, e1) ↦ elim (Option-cases (at f.ops id)) [
      | inl gone ↦ absurd (ground arith)
      | inr (op, e2) ↦ elim (Option-cases (tombstone id f)) [
        | inl gone ↦ absurd (ground arith)
        | inr (g, e3) ↦ elim (Option-cases (at g.ops id)) [
          | inl gone ↦ absurd (ground arith)
          | inr (last, e4) ↦
              let (wg, same_blocks) = tombstone-IsWellFormed id f g w e3 in
              let at_b : get_elem? f.blocks b ≡ some block = at-get_elem? f.blocks b block e in
              let result : put_note id none (record g {
                ops = set g.ops id (record last { target_count = 0 });
                blocks = set g.blocks b (record block { ops = pop_back block.ops });
              })
                  ≡ f' =
                ground arith in
              rw (← result) (
                dropped-IsWellFormed b id g block last (rw same_blocks at_b)
                  (at-get_elem? g.ops id last e4) wg)
        ]
      ]
    ]
  ]
]
