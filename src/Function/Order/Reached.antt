-- ===== src/Function/Order/Reached.antt =====
-- `reversePostOrder` ends, and lists exactly the blocks that the entry reaches, in reverse post-order.
use xdec.Base.{
  ℕ, zero, suc, ◌+◌, ◌≤◌, ◌<◌, ◌≡◌, refl, ap, ◌∙◌, ◌⊎◌, inl, inr, true, false, some, List, [], ◌∷◌,
  length, get_elem?, arith, lt_of_get_elem?, Option-cases, Bool-cases,
}
use native.Mathlib.Decide.{ℕ_discrete}
use xdec.Graph.{Edge, Reach, here, next, mem_of_get_elem?, IsReversePostOrder}
use xdec.Function.{Function, contains}
use xdec.Function.Edges.{successors}
use xdec.Function.Order.{
  Mark, seen, rounds, Search, start, visit_top, search_loop, reverse_post_order,
}
use xdec.Function.Order.Invariant.{Inv, marks-cases, skip-Inv, push-Inv, finish-Inv, Bottom}
use xdec.Function.Order.Work.{pending, stacked, pending-open, pending-done, pending_all}

unvisited_of : (m : Mark) → seen m ≡ false → m ≡ Mark.unvisited
unvisited_of Mark.unvisited h = refl
unvisited_of Mark.opened h = cc
unvisited_of Mark.done h = cc

starts_of :
    (entry : ℕ) (order : List ℕ) → Bottom entry [] order → (rest : List ℕ) × (order ≡ entry ∷ rest)
starts_of entry (x ∷ xs) h = (xs, ground arith)
starts_of entry [] h = elim h [ ]

Stack-cases :
    (st : List (ℕ × ℕ))
    → (st ≡ []) ⊎ ((b : ℕ) × (c : ℕ) × (rest : List (ℕ × ℕ)) × (st ≡ (b, c) ∷ rest))
Stack-cases [] = inl refl
Stack-cases ((b, c) ∷ rest) = inr (b, c, rest, refl)

module _ (succ : ℕ → List ℕ) (n : ℕ) (bounded : (u v : ℕ) → Edge succ u v → v < n) (entry : ℕ) where
  abbrev HoldsAt : Search → Type 0
  HoldsAt s = Inv succ entry s.marks s.stack s.order

  abbrev work : Search → ℕ
  work s = pending succ n s.marks + stacked succ s.stack

  -- One round keeps the invariant and has less left to do.
  round :
      (b c : ℕ) (rest : List (ℕ × ℕ)) (s : Search)
      → s.stack ≡ (b, c) ∷ rest
      → HoldsAt s
      → HoldsAt (visit_top succ b c rest s) × (work (visit_top succ b c rest s) < work s)
  unfolding visit_top
  round b c rest s e inv =
      let top : Inv succ entry s.marks ((b, c) ∷ rest) s.order = rw (← e) inv in
      rw e (elim (Option-cases (get_elem? (succ b) c)) [
        | inl at_end ↦
            rw (at_end, visit_top)
              (
                finish-Inv succ entry s.marks b c rest s.order top at_end,
                omega (arith, pending-done succ n b s.marks (top.on_stack b (inl refl))),
              )
        | inr (v, at_c) ↦ elim (Bool-cases (seen (s.marks v))) [
          | inl marked ↦
              rw (at_c, marked, visit_top)
                (
                  skip-Inv succ entry s.marks b c rest s.order top v at_c marked,
                  omega (arith, lt_of_get_elem? (succ b) c v at_c),
                )
          | inr new ↦
              let fresh = unvisited_of (s.marks v) new in
              rw (at_c, new, visit_top)
                (
                  push-Inv succ entry s.marks b c rest s.order top v at_c fresh,
                  omega (
                    arith,
                    lt_of_get_elem? (succ b) c v at_c,
                    pending-open succ n v s.marks (bounded b v (mem_of_get_elem? (succ b) c v at_c))
                        fresh,
                  ),
                )
        ]
      ])

  stops : (fuel : ℕ) (s : Search) → s.stack ≡ [] → search_loop succ fuel s ≡ some s.order
  unfolding search_loop
  stops zero s e = ground arith
  stops (suc fuel) s e = ground arith

  turns :
      (fuel b c : ℕ) (rest : List (ℕ × ℕ)) (s : Search)
      → s.stack ≡ (b, c) ∷ rest
      → search_loop succ (suc fuel) s ≡ search_loop succ fuel (visit_top succ b c rest s)
  unfolding search_loop
  turns fuel b c rest s e = rw (e, search_loop) refl

  -- With a round for each piece of work the loop ends with an empty stack.
  loop_ends :
      (fuel : ℕ) (s : Search)
      → HoldsAt s
      → work s ≤ fuel
      → (t : Search) × (search_loop succ fuel s ≡ some t.order) × HoldsAt t × (t.stack ≡ [])
  loop_ends zero s inv h = elim (Stack-cases s.stack) [
    | inl empty ↦ (s, stops zero s empty, inv, empty)
    | inr (b, c, rest, e) ↦ let (kept, less) = round b c rest s e inv in absurd (omega arith)
  ]
  loop_ends (suc fuel) s inv h = elim (Stack-cases s.stack) [
    | inl empty ↦ (s, stops (suc fuel) s empty, inv, empty)
    | inr (b, c, rest, e) ↦
        let (kept, less) = round b c rest s e inv in
        let (t, ends, holds, empty) =
          loop_ends fuel (visit_top succ b c rest s) kept (omega arith) in
        (t, turns fuel b c rest s e ∙ ends, holds, empty)
  ]

  start_sound : (b : ℕ) → seen ((start succ entry).marks b) ≡ true → Reach succ entry b
  start_sound b e = elim (ℕ_discrete b entry) [ yes p ↦ rw p here | no p ↦ absurd (ground arith) ]

  start-Inv : Inv succ entry (start succ entry).marks (start succ entry).stack []
  start-Inv = record {
    source = ground arith;
    on_stack = λ b m. ground arith;
    opened = λ b e. ground arith;
    listed = λ b m. elim m [ ];
    finished = λ b e. ground arith;
    sound = λ b e. start_sound b e;
    closed = λ u v e d. ground arith;
    ordered = λ u v e d. ground arith;
    scanned = (λ i v h. absurd (omega arith), tt);
    chained = tt;
    distinct_stack = (λ m. m, tt);
    distinct = tt;
    bottom = refl;
  }

  module _ (t : Search) (inv : HoldsAt t) (empty : t.stack ≡ []) where
    all_done : (b : ℕ) → seen (t.marks b) ≡ true → t.marks b ≡ Mark.done
    all_done b h = elim (marks-cases (t.marks b) h) [
      | inl waiting ↦ absurd (rw empty at (inv.opened b waiting))
      | inr over ↦ over
    ]

    complete : {b : ℕ} → Reach succ entry b → t.marks b ≡ Mark.done
    complete here = all_done entry inv.source
    complete (next {u} {v} p e) = all_done v (inv.closed u v (complete p) e)

  pub search_result :
      entry < n
      → (order : List ℕ) × (search_loop succ (rounds succ n) (start succ entry) ≡ some order)
        × IsReversePostOrder succ entry order
  search_result h =
      let enough : work (start succ entry) ≤ rounds succ n =
        omega (arith, pending-open succ n entry (λ b. Mark.unvisited) h refl, pending_all succ n) in
      let (t, ends, inv, empty) = loop_ends (rounds succ n) (start succ entry) start-Inv enough in
      (
        t.order,
        ends,
        record {
          starts = starts_of entry t.order (rw (← empty) inv.bottom);
          distinct = inv.distinct;
          listed = λ b. (
            λ m. inv.sound b (ap seen (inv.listed b m)),
            λ r. inv.finished b (complete t inv empty r),
          );
          ordered = λ u v m. inv.ordered u v (inv.listed u m);
        },
      )

entry_lt : (f : Function) → contains f.entry_block f.blocks ≡ true → f.entry_block < length f.blocks
entry_lt f h = ground arith

-- x
pub reverse_post_order-IsReversePostOrder :
    (f : Function)
    → contains f.entry_block f.blocks ≡ true
    → ((u v : ℕ) → Edge (successors f.blocks) u v → v < length f.blocks)
    → (order : List ℕ) × (reverse_post_order f ≡ some order)
      × IsReversePostOrder (successors f.blocks) f.entry_block order
unfolding reverse_post_order
reverse_post_order-IsReversePostOrder f h bounded =
    let (order, e, spec) =
      search_result (successors f.blocks) (length f.blocks) bounded f.entry_block (entry_lt f h) in
    (order, rw h e, spec)
