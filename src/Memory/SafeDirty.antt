-- ===== src/Memory/SafeDirty.antt =====
-- src/exec/memory.cpp: `dirtyRanges`, `clearDirty`, `refresh`, `readResidentBytes` and
-- `generationAt` follow no page pointer that a lookup did not just give them.
use mathlib.Core.Path.{subst}
use xdec.Base.{
  ℕ, ◌≡◌, refl, sym, ap, ◌∙◌, inl, inr, true, false, Bool-cases, Option, none, some, Option-cases,
  ◌==◌, ==→eq, if◌then◌else◌, List, [], ◌∷◌, Result, ok, err, arith, reverse, DiagCode, diag,
}
use xdec.Memory.State.{
  Space, PageSeed, MemoryRange, Outcome, done, failed, M, ◌>>=◌, pure, lift, page_size, deref,
  change_page, fresh_generation, for_pages, canonicalize, wraps, pages_of, page_base,
}
use xdec.Memory.Paging.{lookup, page_at, generation_at}
use xdec.Memory.Dirty.{
  page_ranges, collect_ranges, sort_unique, dirty_ranges, clear_pages, clear_dirty,
}
use xdec.Memory.Access.{refresh_page, refresh}
use xdec.Memory.Valid.{
  is_resident, CacheIsValid, Keeps, Safe, Safe-weaken, Safe-pure, Safe-fail, Safe-bind,
  for_pages-Safe,
}
use xdec.Memory.Safe.{
  lookup-hit, lookup-absent, lookup-present, cache-Keeps, some-resident, deref-Safe,
  change_page-Safe, fresh_generation-Safe,
}
use xdec.Memory.SafeRanges.{range-Safe}
use xdec.Memory.SafePaging.{Supplied}

-- Whatever the page asked for, a page that a lookup answers is there.
pub lookup-Supplied :
    (s : Space) (page : ℕ)
    → CacheIsValid s
    → Safe s (λ found t. Supplied page found t) (lookup page s)
unfolding CacheIsValid
lookup-Supplied s page valid = elim (Bool-cases (s.cache_base == page)) [
  | inl hit ↦ rw (lookup-hit s page hit) (elim valid [
    | inl (base, null) ↦ Safe-pure s.cache_page (inl (base, null)) (inl null)
    | inr (cached, there) ↦
        let same = ==→eq s.cache_base page hit in
        Safe-pure s.cache_page (inr (cached, there)) (
          inr
            (cached ∙ ap (λ (j : ℕ). some j) same, subst (λ j. is_resident s j ≡ true) same there))
  ])
  | inr miss ↦ elim (Option-cases (s.pages page)) [
    | inl e ↦ rw (lookup-absent s page miss e) (Safe-pure none valid (inl refl))
    | inr (p, e) ↦
        let here = some-resident s page p e in
        rw (lookup-present s page p miss e) (record {
          holds = (cache-Keeps s page here, inr (refl, (cache-Keeps s page here).keeps page here));
        })
  ]
]

-- What follows a lookup: one step if there is no page, another on the page.
abbrev pub on_found : {A : Type 0} → M A → (ℕ → M A) → Option ℕ → M A
on_found null use_page none = null
on_found null use_page (some key) = use_page key

pub on_found-Safe :
    {A : Type 0} {Q : A → Space → Type 0} (s : Space) (page : ℕ) (null : M A) (use_page : ℕ → M A)
    (found : Option ℕ)
    → CacheIsValid s
    → Supplied page found s
    → Safe s Q (null s)
    → ((key : ℕ) → key ≡ page → is_resident s key ≡ true → Safe s Q (use_page key s))
    → Safe s Q (on_found null use_page found s)
on_found-Safe s page null use_page none valid q h_null h_page = h_null
on_found-Safe s page null use_page (some key) valid (inl e) h_null h_page = absurd (ground arith)
on_found-Safe s page null use_page (some key) valid (inr (e, here)) h_null h_page =
    let same : key ≡ page = ground arith in
    h_page key same (subst (λ j. is_resident s j ≡ true) (sym same) here)

collect_ranges-Safe :
    (s : Space) (bases : List ℕ) (ranges : List MemoryRange)
    → CacheIsValid s
    → Safe s (λ _ _. Unit {0}) (collect_ranges bases ranges s)
unfolding collect_ranges
collect_ranges-Safe s [] ranges valid = Safe-pure (reverse ranges) valid tt
collect_ranges-Safe s (base ∷ rest) ranges valid =
    Safe-bind _ (lookup-Supplied s base valid) (λ found t st q.
      on_found-Safe t base (collect_ranges rest ranges)
        (λ key.
          deref key >>= λ p. collect_ranges rest (page_ranges page_size p.dirty base 0 ranges))
        found st.valid q (collect_ranges-Safe t rest ranges st.valid)
        (λ key same here. Safe-bind _ (deref-Safe t key st.valid here) (λ p u tu _.
          collect_ranges-Safe u rest (page_ranges page_size p.dirty base 0 ranges) tu.valid)))

pub dirty_ranges-Safe : (s : Space) → CacheIsValid s → Safe s (λ _ _. Unit {0}) (dirty_ranges s)
unfolding dirty_ranges
dirty_ranges-Safe s valid = collect_ranges-Safe s (sort_unique s.dirty_pages) [] valid

clear_pages-Safe :
    (s : Space) (bases : List ℕ) → CacheIsValid s → Safe s (λ _ _. Unit {0}) (clear_pages bases s)
unfolding clear_pages
clear_pages-Safe s [] valid = Safe-pure tt valid tt
clear_pages-Safe s (base ∷ rest) valid =
    let clean : ℕ → M (Unit {0}) =
      λ key. change_page key (λ p. record p { dirty = λ i. 0; dirty_listed = false }) in
    Safe-bind _ (lookup-Supplied s base valid) (λ found t st q.
      Safe-bind _
        (on_found-Safe {Q = λ _ _. Unit {0}} t base (pure tt) clean found st.valid q
          (Safe-pure tt st.valid tt)
          (λ key same here. Safe-weaken (change_page-Safe t key _ st.valid here) (λ _ _ _ _. tt)))
        (λ _ u tu _. clear_pages-Safe u rest tu.valid))

cleared-Keeps : (s : Space) → CacheIsValid s → Keeps s (record s { dirty_pages = [] })
unfolding CacheIsValid is_resident
cleared-Keeps s valid = record { valid = valid; keeps = λ j h. h; same = refl }

pub clear_dirty-Safe : (s : Space) → CacheIsValid s → Safe s (λ _ _. Unit {0}) (clear_dirty s)
unfolding clear_dirty
clear_dirty-Safe s valid =
    Safe-bind _ (clear_pages-Safe s s.dirty_pages valid)
      (λ _ t st _. record { holds = (cleared-Keeps t st.valid, tt) })

pub generation_at-Safe :
    (s : Space) (address : ℕ) → CacheIsValid s → Safe s (λ _ _. Unit {0}) (generation_at address s)
unfolding generation_at page_at
generation_at-Safe s address valid =
    let page = page_base (canonicalize s address) in
    Safe-bind _ (lookup-Supplied s page valid) (λ found t st q.
      on_found-Safe t page (pure 0) (λ key. deref key >>= λ p. pure p.generation) found st.valid q
        (Safe-pure 0 st.valid tt)
        (λ key same here.
          Safe-bind _ (deref-Safe t key st.valid here) (λ p u tu _. Safe-pure _ tu.valid tt)))

abbrev renewed : ℕ → Option PageSeed → M (Unit {0})
renewed key supplied = elim supplied [
  | none ↦ pure tt
  | some seed ↦
      (fresh_generation >>= λ generation. change_page key (λ p. record p {
        bytes = seed.bytes;
        permissions = seed.permissions;
        generation = generation;
      }))
]

renewed-Safe :
    (s : Space) (key : ℕ) (supplied : Option PageSeed)
    → CacheIsValid s
    → is_resident s key ≡ true
    → Safe s (λ _ _. Unit {0}) (renewed key supplied s)
renewed-Safe s key none valid here = Safe-pure tt valid tt
renewed-Safe s key (some seed) valid here = Safe-bind _ (fresh_generation-Safe s valid) (λ g t st _.
    Safe-weaken (change_page-Safe t key _ st.valid (st.keeps key here)) (λ _ _ _ _. tt))

lift-Safe :
    {A : Type 0} (s : Space) (r : Result A) → CacheIsValid s → Safe s (λ _ _. Unit {0}) (lift r s)
lift-Safe s (ok a) valid = Safe-pure a valid tt
lift-Safe s (err d) valid = Safe-fail d valid

refresh_page-Safe :
    (s : Space) (provide : ℕ → Result (Option PageSeed)) (page : ℕ)
    → CacheIsValid s
    → Safe s (λ _ _. Unit {0}) (refresh_page provide page s)
unfolding refresh_page
refresh_page-Safe s provide page valid = Safe-bind _ (lookup-Supplied s page valid) (λ found t st q.
    on_found-Safe t page (pure tt) (λ key. lift (provide page) >>= renewed key) found st.valid q
      (Safe-pure tt st.valid tt)
      (λ key same here.
        Safe-bind _ (lift-Safe t (provide page) st.valid)
          (λ supplied u tu _. renewed-Safe u key supplied tu.valid (tu.keeps key here))))

abbrev refresh_with : (ℕ → Result (Option PageSeed)) → ℕ → ℕ → M (Unit {0})
refresh_with provide a size s =
    if size == 0
    then (done tt, s)
    else if wraps a size
    then (failed (diag DiagCode.out_of_range), s)
    else for_pages (pages_of a size) (refresh_page provide) s

refresh-none :
    (s : Space) (address size : ℕ) → s.provider ≡ none → refresh address size s ≡ (done tt, s)
unfolding refresh
refresh-none s address size e = ground arith

refresh-some :
    (s : Space) (address size : ℕ) (provide : ℕ → Result (Option PageSeed))
    → s.provider ≡ some provide
    → refresh address size s ≡ refresh_with provide (canonicalize s address) size s
unfolding refresh
refresh-some s address size provide e =
    ap
      (λ o. elim o as (λ _. Outcome (Unit {0}) × Space) [
        | none ↦ (done tt, s)
        | some provide ↦ refresh_with provide (canonicalize s address) size s
      ])
      e

pub refresh-Safe :
    (s : Space) (address size : ℕ)
    → CacheIsValid s
    → Safe s (λ _ _. Unit {0}) (refresh address size s)
refresh-Safe s address size valid = elim (Option-cases s.provider) [
  | inl e ↦ rw (refresh-none s address size e) (Safe-pure tt valid tt)
  | inr (provide, e) ↦
      let a = canonicalize s address in
      rw (refresh-some s address size provide e) (
        range-Safe s a size _ tt (for_pages (pages_of a size) (refresh_page provide)) valid
          (λ _. tt)
          (λ pos nowrap.
            Safe-weaken
              (for_pages-Safe (λ _ _. Unit {0}) (λ _ _ _ _ _. tt) s (pages_of a size)
                (refresh_page provide) valid
                (λ page i t st. refresh_page-Safe t provide page st.valid))
              (λ _ _ _ _. tt)))
]
