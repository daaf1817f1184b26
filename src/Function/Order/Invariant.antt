-- ===== src/Function/Order/Invariant.antt =====
-- The invariant of the depth-first search, kept by each kind of round.
use native.Mathlib.Decide.{dec_lt, ℕ_discrete}
use xdec.Base.{
  ℕ, zero, suc, ◌≤◌, ◌<◌, ◌≡◌, refl, ◌⊎◌, inl, inr, true, none, some, List, [], ◌∷◌, get_elem?, In,
  arith,
}
use xdec.Graph.{
  Edge, Reach, here, next, Reach-trans, Distinct, Before, mem_of_get_elem?, get_elem?_of_mem,
}
use xdec.Function.Order.{Mark, seen, put}

abbrev pub OnStack : ℕ → List (ℕ × ℕ) → Type 0
OnStack b [] = ⊥
OnStack b ((x, c) ∷ st) = (b ≡ x) ⊎ OnStack b st

abbrev pub DistinctStack : List (ℕ × ℕ) → Type 0
DistinctStack [] = Unit
DistinctStack ((x, c) ∷ st) = ¬ OnStack x st × DistinctStack st

-- The bottom of the stack is the entry, and once it has left, it is listed first.
abbrev pub Bottom : ℕ → List (ℕ × ℕ) → List ℕ → Type 0
Bottom entry [] [] = ⊥
Bottom entry [] (x ∷ xs) = x ≡ entry
Bottom entry ((x, c) ∷ []) order = x ≡ entry
Bottom entry ((x, c) ∷ (y, d) ∷ st) order = Bottom entry ((y, d) ∷ st) order

Bottom-skip :
    (entry b c d : ℕ) (st : List (ℕ × ℕ)) (order : List ℕ)
    → Bottom entry ((b, c) ∷ st) order
    → Bottom entry ((b, d) ∷ st) order
Bottom-skip entry b c d [] order h = h
Bottom-skip entry b c d ((x, e) ∷ st) order h = h

Bottom-pop :
    (entry b c : ℕ) (st : List (ℕ × ℕ)) (order : List ℕ)
    → Bottom entry ((b, c) ∷ st) order
    → Bottom entry st (b ∷ order)
Bottom-pop entry b c [] order h = h
Bottom-pop entry b c ((x, d) ∷ []) order h = h
Bottom-pop entry b c ((x, d) ∷ (y, e) ∷ st) order h = Bottom-pop entry b c ((y, e) ∷ st) order h

pub marks-cases : (m : Mark) → seen m ≡ true → (m ≡ Mark.opened) ⊎ (m ≡ Mark.done)
marks-cases Mark.unvisited h = cc
marks-cases Mark.opened h = inl refl
marks-cases Mark.done h = inr refl

past_end : (xs : List ℕ) (c i v : ℕ) → c ≤ i → get_elem? xs c ≡ none → get_elem? xs i ≡ some v → ⊥
past_end [] c i v h e f = cc
past_end (x ∷ xs) zero i v h e f = cc
past_end (x ∷ xs) (suc c) zero v h e f = omega arith
past_end (x ∷ xs) (suc c) (suc i) v h e f = past_end xs c i v (omega arith) e f

module _ (succ : ℕ → List ℕ) where
  -- Every block on the stack leads to the block above it.
  abbrev pub Chain : ℕ → List (ℕ × ℕ) → Type 0
  Chain top [] = Unit
  Chain top ((x, c) ∷ st) = Reach succ x top × Chain x st

  abbrev pub Chained : List (ℕ × ℕ) → Type 0
  Chained [] = Unit
  Chained ((x, c) ∷ st) = Chain x st

  -- The successors already looked at are marked.
  abbrev pub Scanned : (ℕ → Mark) → List (ℕ × ℕ) → Type 0
  Scanned marks [] = Unit
  Scanned marks ((x, c) ∷ st) =
      ((i v : ℕ) → i < c → get_elem? (succ x) i ≡ some v → seen (marks v) ≡ true) × Scanned marks st

  -- What a finished block's edge shows of the order.
  abbrev pub Ordered : List ℕ → ℕ → ℕ → Type 0
  Ordered order u v = Before u v order ⊎ Reach succ v u

  module _ (entry : ℕ) where
    pub record Inv (marks : ℕ → Mark) (stack : List (ℕ × ℕ)) (order : List ℕ) : Type 0 where
      pub source : seen (marks entry) ≡ true
      pub on_stack : (b : ℕ) → OnStack b stack → marks b ≡ Mark.opened
      pub opened : (b : ℕ) → marks b ≡ Mark.opened → OnStack b stack
      pub listed : (b : ℕ) → In b order → marks b ≡ Mark.done
      pub finished : (b : ℕ) → marks b ≡ Mark.done → In b order
      pub sound : (b : ℕ) → seen (marks b) ≡ true → Reach succ entry b
      pub closed : (u v : ℕ) → marks u ≡ Mark.done → Edge succ u v → seen (marks v) ≡ true
      pub ordered : (u v : ℕ) → marks u ≡ Mark.done → Edge succ u v → Ordered order u v
      pub scanned : Scanned marks stack
      pub chained : Chained stack
      pub distinct_stack : DistinctStack stack
      pub distinct : Distinct order
      pub bottom : Bottom entry stack order

  Scanned-put :
      (marks : ℕ → Mark) (b : ℕ) (m : Mark) (stack : List (ℕ × ℕ))
      → seen m ≡ true
      → Scanned marks stack
      → Scanned (put b m marks) stack
  Scanned-put marks b m [] h s = tt
  Scanned-put marks b m ((x, c) ∷ st) h s =
      (λ i v p e. ground (arith, s.0 i v p e), Scanned-put marks b m st h s.1)

  -- The block below the top reaches the top; so does every block of the stack.
  pub top_reached :
      (v top c : ℕ) (st : List (ℕ × ℕ))
      → OnStack v ((top, c) ∷ st)
      → Chain top st
      → Reach succ v top
  top_reached v top c st (inl e) h = rw e here
  top_reached v top c ((x, d) ∷ st) (inr m) h = Reach-trans (top_reached v x d st m h.1) h.0
  top_reached v top c [] (inr m) h = elim m [ ]

  scanned_next :
      (marks : ℕ → Mark) (b c v i w : ℕ)
      → ((i v : ℕ) → i < c → get_elem? (succ b) i ≡ some v → seen (marks v) ≡ true)
      → get_elem? (succ b) c ≡ some v
      → seen (marks v) ≡ true
      → i < suc c
      → get_elem? (succ b) i ≡ some w
      → seen (marks w) ≡ true
  scanned_next marks b c v i w old at_c marked h at_i = elim (dec_lt i c) [
    | yes p ↦ old i w p at_i
    | no p ↦ let e : i ≡ c = omega arith in ground arith
  ]

  before_end : (xs : List ℕ) (c i v : ℕ) → get_elem? xs c ≡ none → get_elem? xs i ≡ some v → i < c
  before_end xs c i v at_end at_i = elim (dec_lt i c) [
    | yes p ↦ p
    | no p ↦ absurd (past_end xs c i v (omega arith) at_end at_i)
  ]

  Chained-tail : (b : ℕ) (st : List (ℕ × ℕ)) → Chain b st → Chained st
  Chained-tail b [] h = tt
  Chained-tail b ((x, c) ∷ st) h = h.1

  module _ (entry : ℕ) (marks : ℕ → Mark) (b c : ℕ) (rest : List (ℕ × ℕ)) (order : List ℕ)
      (inv : Inv entry marks ((b, c) ∷ rest) order) where
    open inv use {
      source, on_stack, opened, listed, finished, sound, closed, ordered, scanned, chained,
      distinct_stack, distinct, bottom,
    }

    -- The next successor is marked already.
    pub skip-Inv :
        (v : ℕ)
        → get_elem? (succ b) c ≡ some v
        → seen (marks v) ≡ true
        → Inv entry marks ((b, suc c) ∷ rest) order
    skip-Inv v at_c marked = record {
      source = source;
      on_stack = on_stack;
      opened = opened;
      listed = listed;
      finished = finished;
      sound = sound;
      closed = closed;
      ordered = ordered;
      scanned = (λ i w. scanned_next marks b c v i w scanned.0 at_c marked, scanned.1);
      chained = chained;
      distinct_stack = distinct_stack;
      distinct = distinct;
      bottom = Bottom-skip entry b c (suc c) rest order bottom;
    }

    scanned_pushed :
        (v i w : ℕ)
        → get_elem? (succ b) c ≡ some v
        → i < suc c
        → get_elem? (succ b) i ≡ some w
        → seen (put v Mark.opened marks w) ≡ true
    scanned_pushed v i w at_c h at_i = elim (dec_lt i c) [
      | yes p ↦ ground (arith, scanned.0 i w)
      | no p ↦ let e : i ≡ c = omega arith in ground arith
    ]

    -- The next successor is new: it is opened and pushed.
    pub push-Inv :
        (v : ℕ)
        → get_elem? (succ b) c ≡ some v
        → marks v ≡ Mark.unvisited
        → Inv entry (put v Mark.opened marks) ((v, 0) ∷ (b, suc c) ∷ rest) order
    push-Inv v at_c new =
        let edge : Edge succ b v = mem_of_get_elem? (succ b) c v at_c in
        let b_open = on_stack b (inl refl) in
        let to_v : Reach succ entry v = next (sound b (ground arith)) edge in
        record {
          source = ground arith;
          on_stack = λ x m. ground (arith, on_stack x);
          opened = λ x e. ground (arith, opened x);
          listed = λ x m. ground (arith, listed x m);
          finished = λ x e. ground (arith, finished x);
          sound =
              λ x e. elim (ℕ_discrete x v) [ yes p ↦ rw p to_v | no p ↦ sound x (ground arith) ];
          closed = λ x w e d. ground (arith, closed x w);
          ordered = λ x w e d. ordered x w (ground arith) d;
          scanned = (
            λ i w h. absurd (omega arith),
            (
              λ i w h e. scanned_pushed v i w at_c h e,
              Scanned-put marks v Mark.opened rest refl scanned.1,
            ),
          );
          chained = (next here edge, chained);
          distinct_stack = (λ m. ground (arith, on_stack v), distinct_stack);
          distinct = distinct;
          bottom = Bottom-skip entry b c (suc c) rest order bottom;
        }

    all_scanned : get_elem? (succ b) c ≡ none → (v : ℕ) → Edge succ b v → seen (marks v) ≡ true
    all_scanned at_end v e =
        let (i, at_i) = get_elem?_of_mem (succ b) v e in
        scanned.0 i v (before_end (succ b) c i v at_end at_i) at_i

    finished_order :
        get_elem? (succ b) c ≡ none
        → (x w : ℕ) → put b Mark.done marks x ≡ Mark.done
        → Edge succ x w
        → Ordered (b ∷ order) x w
    finished_order at_end x w e d = elim (ℕ_discrete x b) [
      | yes p ↦ elim (marks-cases (marks w) (all_scanned at_end w (rw (← p) d))) [
        | inl waiting ↦ inr (rw p (top_reached w b c rest (opened w waiting) chained))
        | inr over ↦ inl (inl (p, finished w over))
      ]
      | no p ↦ elim (ordered x w (ground arith) d) [
        | inl before ↦ inl (inr before)
        | inr back ↦ inr back
      ]
    ]

    -- The block is done: it leaves the stack and is listed first.
    pub finish-Inv :
        get_elem? (succ b) c ≡ none → Inv entry (put b Mark.done marks) rest (b ∷ order)
    finish-Inv at_end =
        let b_open = on_stack b (inl refl) in
        record {
          source = ground arith;
          on_stack = λ x m. ground (arith, on_stack x);
          opened = λ x e. ground (arith, opened x);
          listed = λ x m. ground (arith, listed x);
          finished = λ x e. ground (arith, finished x);
          sound = λ x e. ground (arith, sound x);
          closed = λ x w e d. ground (arith, closed x w, all_scanned at_end w);
          ordered = λ x w e d. finished_order at_end x w e d;
          scanned = Scanned-put marks b Mark.done rest refl scanned.1;
          chained = Chained-tail b rest chained;
          distinct_stack = distinct_stack.1;
          distinct = (λ m. ground (arith, listed b m), distinct);
          bottom = Bottom-pop entry b c rest order bottom;
        }
