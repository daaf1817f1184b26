-- ===== src/Memory/Dirty.antt =====
-- src/exec/memory.cpp: `markDirty`, `dirtyRanges`, `clearDirty`. The loops that the code bounds by
-- the page take fuel of one round for each byte.
use xdec.Base.{
  ℕ, zero, suc, ◌+◌, ◌-◌, ◌*◌, ◌/◌, ◌%◌, min, bit_or, true, false, none, some, List, [], ◌∷◌, ◌++◌,
  ltb, ◌==◌, if◌then◌else◌,
}
use xdec.Base.{reverse}
use xdec.Bits.{wrap, all_ones, ◌<<◌, complement, countr_zero}
use xdec.Bits.{◌>>◌ as shift_right}
use xdec.Memory.State.{
  MemoryRange, M, done, pure, ◌>>=◌, ◌>>◌, page_size, dirty_word_bits, deref, change_page,
}
use xdec.Memory.Paging.{lookup}

-- `page.dirty[word] |= ones << bit` for each word that the range meets.
unfoldable pub mark_words : ℕ → (ℕ → ℕ) → ℕ → ℕ → ℕ → ℕ
mark_words zero dirty offset size = dirty
mark_words (suc rounds) dirty offset size =
    let word = offset / dirty_word_bits in
    let bit = offset % dirty_word_bits in
    let take = min (dirty_word_bits - bit) size in
    let ones = if take == dirty_word_bits then all_ones else (1 << take) - 1 in
    let marked = λ (i : ℕ). if i == word then bit_or (dirty i) (ones << bit) else dirty i in
    let rest = mark_words rounds marked (offset + take) (size - take) in
    if size == 0 then dirty else rest

-- The page goes on the list the first time.
unfoldable pub list_dirty : ℕ → ℕ → M (Unit {0})
list_dirty key base = do
  p ← deref key
  if p.dirty_listed
      then pure tt
      else (change_page key (λ q. record q { dirty_listed = true }) >> λ s.
          (done tt, record s { dirty_pages = s.dirty_pages ++ base ∷ [] }))

unfoldable pub mark_dirty : ℕ → ℕ → ℕ → ℕ → M (Unit {0})
mark_dirty key base offset size = do
  list_dirty key base
  change_page key (λ p. record p { dirty = mark_words size p.dirty offset size })

-- `std::sort` with `std::unique` and `erase`, on the list of pages.
unfoldable pub insert_unique : ℕ → List ℕ → List ℕ
insert_unique x [] = x ∷ []
insert_unique x (y ∷ ys) =
    if x == y then y ∷ ys else if ltb x y then x ∷ y ∷ ys else y ∷ insert_unique x ys

unfoldable pub sort_unique : List ℕ → List ℕ
sort_unique [] = []
sort_unique (x ∷ xs) = insert_unique x (sort_unique xs)

-- `emit`, on the ranges so far with the last one first.
unfoldable pub emit : ℕ → ℕ → List MemoryRange → List MemoryRange
emit address size [] = record { address = address; size = size } ∷ []
emit address size (back ∷ rest) =
    if wrap (back.address + back.size) == address
    then record back { size = back.size + size } ∷ rest
    else record { address = address; size = size } ∷ back ∷ rest

-- `std::countr_one` of a word.
unfoldable pub countr_one : ℕ → ℕ
countr_one v = countr_zero 64 (complement v)

-- The inner loop: how far the run of dirty bytes goes.
unfoldable pub run_end : ℕ → (ℕ → ℕ) → ℕ → ℕ
run_end zero dirty index = index
run_end (suc rounds) dirty index =
    let bit = index % dirty_word_bits in
    let run = countr_one (shift_right (dirty (index / dirty_word_bits)) bit) in
    let rest = run_end rounds dirty (index + run) in
    if ltb index page_size
    then (if ltb (bit + run) dirty_word_bits then index + run else rest)
    else index

unfoldable pub page_ranges : ℕ → (ℕ → ℕ) → ℕ → ℕ → List MemoryRange → List MemoryRange
page_ranges zero dirty base index ranges = ranges
page_ranges (suc rounds) dirty base index ranges =
    let word = index / dirty_word_bits in
    let pending = shift_right (dirty word) (index % dirty_word_bits) in
    let start = index + countr_zero 64 pending in
    let stop = run_end page_size dirty start in
    let skip = page_ranges rounds dirty base ((word + 1) * dirty_word_bits) ranges in
    let found = page_ranges rounds dirty base stop (emit (base + start) (stop - start) ranges) in
    if ltb index page_size then (if pending == 0 then skip else found) else ranges

unfoldable pub collect_ranges : List ℕ → List MemoryRange → M (List MemoryRange)
collect_ranges [] ranges = pure (reverse ranges)
collect_ranges (base ∷ rest) ranges = do
  page ← lookup base
  elim page [
    | none ↦ collect_ranges rest ranges
    | some key ↦
        (deref key >>= λ p. collect_ranges rest (page_ranges page_size p.dirty base 0 ranges))
  ]

unfoldable pub dirty_ranges : M (List MemoryRange)
dirty_ranges s = collect_ranges (sort_unique s.dirty_pages) [] s

unfoldable pub clear_pages : List ℕ → M (Unit {0})
clear_pages [] = pure tt
clear_pages (base ∷ rest) = do
  page ← lookup base
  elim page [
    | none ↦ pure tt
    | some key ↦ change_page key (λ p. record p { dirty = λ i. 0; dirty_listed = false })
  ]
  clear_pages rest

unfoldable pub clear_dirty : M (Unit {0})
clear_dirty s = (clear_pages s.dirty_pages >> λ t. (done tt, record t { dirty_pages = [] })) s
