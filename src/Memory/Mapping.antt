-- ===== src/Memory/Mapping.antt =====
-- src/exec/memory.cpp: what `map` does on each of its outcomes.
use xdec.Base.{
  ℕ, ◌+◌, ◌<◌, ◌≡◌, refl, sym, ap, ◌∙◌, ◌≢◌, ◌⊎◌, inl, inr, false, Bool-cases, Option, none, some,
  Option-cases, ◌==◌, ==→eq, ==→ne, ==_refl, ne→==, List, [], ◌∷◌, In, DiagCode, diag_at, arith,
}
use mathlib.Core.Path.{subst}
use xdec.Bits.{wrap}
use xdec.Memory.State.{
  Space, Page, Outcome, done, failed, M, continue, fresh_page, put_page, for_pages, canonicalize,
  wraps, pages_of,
}
use xdec.Memory.Paging.{map, map_page, refuse_mapped, try_emplace, stamp}
use xdec.Memory.State.{change_page, fresh_generation}

-- No page of a list is there.
abbrev pub NoneMapped : Space → List ℕ → Type 0
NoneMapped s pages = (page : ℕ) → In page pages → s.pages page ≡ none

-- A page that `map` has just made: its permissions are the ones asked for and its bytes are zero.
abbrev pub Blank : Space → ℕ → ℕ → Type 0
Blank s permissions page =
    (p : Page) × (s.pages page ≡ some p) × (p.permissions ≡ permissions) × ((i : ℕ) → p.bytes i ≡ 0)

refuse_present :
    (s : Space) (page : ℕ) (p : Page) (rest : List ℕ)
    → s.pages page ≡ some p
    → for_pages (page ∷ rest) refuse_mapped s ≡ (failed (diag_at DiagCode.bad_format page), s)
unfolding for_pages refuse_mapped
refuse_present s page p rest e = ground arith

refuse_absent :
    (s : Space) (page : ℕ) (rest : List ℕ)
    → s.pages page ≡ none
    → for_pages (page ∷ rest) refuse_mapped s ≡ for_pages rest refuse_mapped s
unfolding for_pages refuse_mapped
refuse_absent s page rest e = ground arith

refuse_end : (s : Space) → for_pages [] refuse_mapped s ≡ (done tt, s)
unfolding for_pages
refuse_end s = refl

-- The first loop changes nothing: it refuses a page that is there, or finds none.
refuse_cases :
    (s : Space) (pages : List ℕ)
    → ((page : ℕ) × In page pages
        × (s.pages page ≢ none)
        × (for_pages pages refuse_mapped s ≡ (failed (diag_at DiagCode.bad_format page), s)))
      ⊎ (NoneMapped s pages × (for_pages pages refuse_mapped s ≡ (done tt, s)))
refuse_cases s [] = inr ((λ page i. absurd i), refuse_end s)
refuse_cases s (page ∷ rest) = elim (Option-cases (s.pages page)) [
  | inr (p, e) ↦ inl (page, inl refl, (λ n. ground arith), refuse_present s page p rest e)
  | inl e ↦ elim (refuse_cases s rest) [
    | inl (j, i, there, q) ↦ inl (j, inr i, there, refuse_absent s page rest e ∙ q)
    | inr (absent, q) ↦ inr (
      (λ j i. elim i [ inl at ↦ subst (λ k. s.pages k ≡ none) (sym at) e | inr i' ↦ absent j i' ]),
      refuse_absent s page rest e ∙ q,
    )
  ]
]

map_page-absent :
    (s : Space) (permissions page : ℕ)
    → s.pages page ≡ none
    → map_page permissions page s ≡ (
      done tt,
      record s {
        pages =
            put_page
              (put_page s.pages page fresh_page)
              page
              (record fresh_page { permissions = permissions; generation = s.next_generation });
        next_generation = wrap (s.next_generation + 1);
      },
    )
unfolding map_page try_emplace stamp change_page fresh_generation
map_page-absent s permissions page e = ground (arith, ==_refl page)

map_page-present :
    (s : Space) (permissions page : ℕ) (p : Page)
    → s.pages page ≡ some p
    → map_page permissions page s ≡ (
      done tt,
      record s {
        pages =
            put_page s.pages page
              (record p { permissions = permissions; generation = s.next_generation });
        next_generation = wrap (s.next_generation + 1);
      },
    )
unfolding map_page try_emplace stamp change_page fresh_generation
map_page-present s permissions page p e = ground arith

-- A page that is missing, or still all zeros.
abbrev Free : Space → ℕ → Type 0
Free s page =
    (s.pages page ≡ none) ⊎ ((p : Page) × (s.pages page ≡ some p) × ((i : ℕ) → p.bytes i ≡ 0))

put_page-here : (pages : ℕ → Option Page) (key : ℕ) (p : Page) → put_page pages key p key ≡ some p
put_page-here pages key p = rw (==_refl key) refl

put_page-other :
    (pages : ℕ → Option Page) (key : ℕ) (p : Page) (j : ℕ)
    → j ≢ key
    → put_page pages key p j ≡ pages j
put_page-other pages key p j h = rw (ne→== j key h) refl

map_step :
    (s : Space) (permissions page : ℕ)
    → Free s page
    → (t : Space) × (map_page permissions page s ≡ (done tt, t))
      × Blank t permissions page
      × ((j : ℕ) → j ≢ page → t.pages j ≡ s.pages j)
map_step s permissions page (inl e) =
    let p = record fresh_page { permissions = permissions; generation = s.next_generation } in
    let pages = put_page s.pages page fresh_page in
    (
      record s { pages = put_page pages page p; next_generation = wrap (s.next_generation + 1) },
      map_page-absent s permissions page e,
      (p, put_page-here pages page p, refl, (λ i. refl)),
      λ j h. put_page-other pages page p j h ∙ put_page-other s.pages page fresh_page j h,
    )
map_step s permissions page (inr (q, e, zeros)) =
    let p = record q { permissions = permissions; generation = s.next_generation } in
    (
      record s { pages = put_page s.pages page p; next_generation = wrap (s.next_generation + 1) },
      map_page-present s permissions page q e,
      (p, put_page-here s.pages page p, refl, zeros),
      λ j h. put_page-other s.pages page p j h,
    )

Blank-frame :
    (s t : Space) (permissions j : ℕ)
    → t.pages j ≡ s.pages j
    → Blank s permissions j
    → Blank t permissions j
Blank-frame s t permissions j same (p, e, granted, zeros) = (p, same ∙ e, granted, zeros)

Blank-Free : (s : Space) (permissions j : ℕ) → Blank s permissions j → Free s j
Blank-Free s permissions j (p, e, granted, zeros) = inr (p, e, zeros)

Free-frame : (s t : Space) (j : ℕ) → t.pages j ≡ s.pages j → Free s j → Free t j
Free-frame s t j same (inl e) = inl (same ∙ e)
Free-frame s t j same (inr (p, e, zeros)) = inr (p, same ∙ e, zeros)

-- The page of a step or another one.
step_either : (P : ℕ → Type 0) (page j : ℕ) → P page → (j ≢ page → P j) → P j
step_either P page j here other = elim (Bool-cases (j == page)) [
  | inl e ↦ subst (λ k. P k) (sym (==→eq j page e)) here
  | inr e ↦ other (==→ne j page e)
]

abbrev Mapped : Space → Space → List ℕ → ℕ → Type 0
Mapped s t pages permissions =
    ((page : ℕ) → In page pages → Blank t permissions page)
    × ((page : ℕ) → Blank s permissions page → Blank t permissions page)
    × ((page : ℕ) → (In page pages → ⊥) → t.pages page ≡ s.pages page)

map_next :
    (s t : Space) (page : ℕ) (rest : List ℕ) (permissions : ℕ)
    → map_page permissions page s ≡ (done tt, t)
    → for_pages (page ∷ rest) (map_page permissions) s ≡ for_pages rest (map_page permissions) t
unfolding for_pages
map_next s t page rest permissions e = ap (continue (λ _. for_pages rest (map_page permissions))) e

map_end : (s : Space) (body : ℕ → M (Unit {0})) → for_pages [] body s ≡ (done tt, s)
unfolding for_pages
map_end s body = refl

-- The second loop does not fail.
map_loop :
    (s : Space) (pages : List ℕ) (permissions : ℕ)
    → ((page : ℕ) → In page pages → Free s page)
    → (t : Space) × (for_pages pages (map_page permissions) s ≡ (done tt, t))
      × Mapped s t pages permissions
map_loop s [] permissions free =
    (s, map_end s (map_page permissions), ((λ page i. absurd i), (λ page h. h), (λ page h. refl)))
map_loop s (page ∷ rest) permissions free =
    let (t, e, blank, frame) = map_step s permissions page (free page (inl refl)) in
    let free' : (j : ℕ) → In j rest → Free t j = λ j i.
      step_either (λ k. Free t k) page j (Blank-Free t permissions page blank)
        (λ h. Free-frame s t j (frame j h) (free j (inr i))) in
    let (u, e', (all, kept, frame')) = map_loop t rest permissions free' in
    (
      u,
      map_next s t page rest permissions e ∙ e',
      (
        (λ j i. elim i [
          | inl at ↦ subst (λ k. Blank u permissions k) (sym at) (kept page blank)
          | inr i' ↦ all j i'
        ]),
        (λ j h. kept j (
            step_either (λ k. Blank t permissions k) page j blank
              (λ other. Blank-frame s t permissions j (frame j other) h))),
        λ j out. frame' j (λ i. out (inr i)) ∙ frame j (λ at. out (inl at)),
      ),
    )

map_body :
    (s : Space) (address size permissions : ℕ)
    → 0 < size
    → wraps (canonicalize s address) size ≡ false
    → map address size permissions s
      ≡ continue
          (λ _. for_pages (pages_of (canonicalize s address) size) (map_page permissions))
          (for_pages (pages_of (canonicalize s address) size) refuse_mapped s)
unfolding map
map_body s address size permissions pos nowrap =
    let some_bytes : (size == 0) ≡ false = ne→== size 0 (λ e. absurd (omega (arith, e))) in
    rw (some_bytes, nowrap) refl

-- For a positive size that the code's test does not refuse, one of two outcomes: some page of the
-- range is already there, and `map` reports a page of the range that is there and changes nothing;
-- or none is, and `map` succeeds, every page of the range then has the permissions asked for and
-- only zero bytes, and every other page is unchanged.
pub map-cases :
    (s : Space) (address size permissions : ℕ)
    → 0 < size
    → wraps (canonicalize s address) size ≡ false
    → ((page : ℕ) × In page (pages_of (canonicalize s address) size)
        × (s.pages page ≢ none)
        × (map address size permissions s ≡ (failed (diag_at DiagCode.bad_format page), s)))
      ⊎ (NoneMapped s (pages_of (canonicalize s address) size)
          × ((t : Space) × (map address size permissions s ≡ (done tt, t))
              × ((page : ℕ)
                  → In page (pages_of (canonicalize s address) size)
                  → Blank t permissions page)
              × ((page : ℕ)
                  → (In page (pages_of (canonicalize s address) size) → ⊥)
                  → t.pages page ≡ s.pages page)))
map-cases s address size permissions pos nowrap =
    let pages = pages_of (canonicalize s address) size in
    let second : Outcome (Unit {0}) × Space → Outcome (Unit {0}) × Space =
      continue (λ _. for_pages pages (map_page permissions)) in
    let body = map_body s address size permissions pos nowrap in
    elim (refuse_cases s pages) [
      | inl (page, i, there, e) ↦ inl (page, i, there, body ∙ ap second e)
      | inr (absent, e) ↦
          let (t, e', (all, kept, frame)) =
            map_loop s pages permissions (λ page i. inl (absent page i)) in
          inr (absent, (t, body ∙ ap second e ∙ e', all, frame))
    ]
