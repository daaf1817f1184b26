-- ===== src/Memory/Content.antt =====
-- src/exec/memory.cpp: the bytes that a state holds, and that the paging operations keep them.
use mathlib.Core.Path.{subst}
use xdec.Base.{
  ℕ, ◌≡◌, refl, sym, ap, ◌∙◌, ◌≢◌, inl, inr, Bool, true, false, Bool-cases, Option, none, some,
  Option-cases, ◌==◌, ==→eq, ==→ne, ne→==, if◌then◌else◌, Diag, DiagCode, diag_at, arith,
}
use xdec.Memory.State.{
  Space, Page, PageSeed, ◌>>=◌, pure, fail, no_page, put_page, page_base, fresh_generation,
}
use xdec.Memory.Paging.{supply, materialize, check_permission, resident_page}
use xdec.Memory.Access.{page_offset}
use xdec.Memory.Valid.{
  is_resident, CacheIsValid, Safe, Safe-weaken, Safe-pure, Safe-fail, Safe-bind,
}
use xdec.Memory.Safe.{lookup-Safe, found_page, deref-Safe}
use xdec.Memory.SafePaging.{
  Supplied, found_page-Supplied, supply-none, supply-err, supply-ok, Result-cases, provided,
  materialize-Safe, fill,
}

-- The byte at an address, if its page is there.
unfoldable pub byte_at : Space → ℕ → Option ℕ
byte_at s a = elim (s.pages (page_base a)) [ none ↦ none | some p ↦ some (p.bytes (page_offset a)) ]

-- Every byte that is there keeps its value.
pub record KeepsBytes (s t : Space) : Type 0 where
  pub keep : (x b : ℕ) → byte_at s x ≡ some b → byte_at t x ≡ some b

pub KeepsBytes-refl : {s : Space} → KeepsBytes s s
KeepsBytes-refl = record { keep = λ x b e. e }

pub KeepsBytes-trans : {s t u : Space} → KeepsBytes s t → KeepsBytes t u → KeepsBytes s u
KeepsBytes-trans st tu = record { keep = λ x b e. tu.keep x b (st.keep x b e) }

-- A byte is decided by its page.
pub byte_at-page :
    (s t : Space) (x : ℕ)
    → t.pages (page_base x) ≡ s.pages (page_base x)
    → byte_at t x ≡ byte_at s x
unfolding byte_at
byte_at-page s t x e =
    ap
      (λ (page : Option Page). elim page as (λ _. Option ℕ) [
        | none ↦ none
        | some p ↦ some (p.bytes (page_offset x))
      ])
      e

pub same_pages : (s t : Space) → t.pages ≡ s.pages → (x : ℕ) → byte_at t x ≡ byte_at s x
same_pages s t e x = byte_at-page s t x (ap (λ (pages : ℕ → Option Page). pages (page_base x)) e)

pub same_pages-KeepsBytes : (s t : Space) → t.pages ≡ s.pages → KeepsBytes s t
same_pages-KeepsBytes s t e = record { keep = λ x b at. same_pages s t e x ∙ at }

byte_at-put_other :
    (s t : Space) (page : ℕ) (p : Page) (x : ℕ)
    → t.pages ≡ put_page s.pages page p
    → page_base x ≢ page
    → byte_at t x ≡ byte_at s x
byte_at-put_other s t page p x e h =
    let other : put_page s.pages page p (page_base x) ≡ s.pages (page_base x) =
      rw (ne→== (page_base x) page h) refl in
    byte_at-page s t x (ap (λ (pages : ℕ → Option Page). pages (page_base x)) e ∙ other)

no_byte : (s : Space) (x b : ℕ) → s.pages (page_base x) ≡ none → byte_at s x ≡ some b → ⊥
unfolding byte_at
no_byte s x b e at = ground arith

new_page-KeepsBytes :
    (s t : Space) (page : ℕ) (p : Page)
    → s.pages page ≡ none
    → t.pages ≡ put_page s.pages page p
    → KeepsBytes s t
new_page-KeepsBytes s t page p e new = record {
  keep = λ x b at. elim (Bool-cases (page_base x == page)) [
    | inl h ↦
        absurd
          (no_byte s x b (subst (λ j. s.pages j ≡ none) (sym (==→eq (page_base x) page h)) e) at)
    | inr h ↦ byte_at-put_other s t page p x new (==→ne (page_base x) page h) ∙ at
  ];
}

materialize-KeepsBytes :
    (s : Space) (page : ℕ) (seed : PageSeed)
    → CacheIsValid s
    → s.pages page ≡ none
    → Safe s (λ found t. Supplied page found t × KeepsBytes s t) (materialize page seed s)
unfolding materialize fresh_generation
materialize-KeepsBytes s page seed valid e =
    let made = (materialize-Safe s page seed valid).holds in
    record { holds = (made.0, (made.1, new_page-KeepsBytes s _ page _ e refl)) }

provided-KeepsBytes :
    (s : Space) (page : ℕ) (supplied : Option PageSeed)
    → CacheIsValid s
    → s.pages page ≡ none
    → Safe s (λ found t. Supplied page found t × KeepsBytes s t) (provided page supplied s)
provided-KeepsBytes s page none valid e = Safe-pure none valid (inl refl, KeepsBytes-refl)
provided-KeepsBytes s page (some seed) valid e = materialize-KeepsBytes s page seed valid e

supply-KeepsBytes :
    (s : Space) (page : ℕ)
    → CacheIsValid s
    → s.pages page ≡ none
    → Safe s (λ found t. Supplied page found t × KeepsBytes s t) (supply page s)
supply-KeepsBytes s page valid absent = elim (Option-cases s.provider) [
  | inl e ↦ rw (supply-none s page e) (Safe-pure none valid (inl refl, KeepsBytes-refl))
  | inr (provide, e) ↦ elim (Result-cases (provide page)) [
    | inl (supplied, f) ↦
        rw (supply-ok s page provide supplied e f)
          (provided-KeepsBytes s page supplied valid absent)
    | inr (d, f) ↦ rw (supply-err s page provide d e f) (Safe-fail d valid)
  ]
]

absent_of : (s : Space) (page : ℕ) → none ≡ found_page s page → s.pages page ≡ none
unfolding is_resident
absent_of s page e = elim (Option-cases (s.pages page)) [
  | inl h ↦ h
  | inr (p, h) ↦ absurd (ground arith)
]

fill-KeepsBytes :
    (s : Space) (page : ℕ) (found : Option ℕ)
    → CacheIsValid s
    → found ≡ found_page s page
    → Safe s (λ found t. Supplied page found t × KeepsBytes s t) (fill page found s)
fill-KeepsBytes s page none valid e = supply-KeepsBytes s page valid (absent_of s page e)
fill-KeepsBytes s page (some key) valid e =
    Safe-pure (some key) valid (found_page-Supplied s page (some key) e, KeepsBytes-refl)

if_same :
    (t : Space) (b : Bool) (d : Diag) (page key : ℕ)
    → CacheIsValid t
    → key ≡ page
    → is_resident t page ≡ true
    → Safe t
        (λ key u. (key ≡ page) × (is_resident u page ≡ true) × (u ≡ t))
        ((if b then fail {A = ℕ} d else pure key) t)
if_same t true d page key valid same here = Safe-fail d valid
if_same t false d page key valid same here = Safe-pure key valid (same, here, refl)

check_permission-same :
    (s : Space) (page permission : ℕ) (found : Option ℕ)
    → CacheIsValid s
    → Supplied page found s
    → Safe s
        (λ key t. (key ≡ page) × (is_resident t page ≡ true) × KeepsBytes s t)
        (check_permission page permission found s)
unfolding check_permission
check_permission-same s page permission none valid h =
    Safe-fail (diag_at DiagCode.unmapped_address page) valid
check_permission-same s page permission (some key) valid (inl e) = absurd (ground arith)
check_permission-same s page permission (some key) valid (inr (e, here)) =
    let same : key ≡ page = ground arith in
    Safe-bind _ (deref-Safe s key valid (subst (λ j. is_resident s j ≡ true) (sym same) here))
      (λ p t st q.
        Safe-weaken (if_same t _ _ page key st.valid same (st.keeps page here)) (λ k u tu h.
          (h.0, h.1, same_pages-KeepsBytes s u (ap (λ (v : Space). v.pages) (h.2 ∙ q.0)))))

found_same : (s t : Space) (page : ℕ) → t.pages ≡ s.pages → found_page s page ≡ found_page t page
unfolding is_resident
found_same s t page e =
    ap
      (λ (pages : ℕ → Option Page).
        if elim (pages page) as (λ _. Bool) [ none ↦ false | some p ↦ true ]
        then some page
        else none)
      (sym e)

pub resident_page-KeepsBytes :
    (s : Space) (page permission : ℕ)
    → CacheIsValid s
    → page ≢ no_page
    → Safe s
        (λ key t. (key ≡ page) × (is_resident t page ≡ true) × KeepsBytes s t)
        (resident_page page permission s)
unfolding resident_page
resident_page-KeepsBytes s page permission valid page≢ =
    Safe-bind (λ found. fill page found >>= check_permission page permission)
      (lookup-Safe s page valid page≢)
      (λ found t st q.
        Safe-bind (check_permission page permission)
          (fill-KeepsBytes t page found st.valid (q.1 ∙ found_same s t page q.0))
          (λ found' u tu h.
            Safe-weaken (check_permission-same u page permission found' tu.valid h.0) (λ key v uv k.
              (
                k.0,
                k.1,
                KeepsBytes-trans (same_pages-KeepsBytes s t q.0) (KeepsBytes-trans h.1 k.2),
              ))))
