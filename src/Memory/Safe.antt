-- ===== src/Memory/Safe.antt =====
-- src/exec/memory.cpp: no operation reads through a null or dangling page pointer, and each keeps
-- the cache valid. This file has the paging operations.
use mathlib.Core.Path.{subst}
use xdec.Base.{
  ℕ, ◌≡◌, refl, sym, ap, ◌∙◌, ◌≢◌, inl, inr, true, false, Bool-cases, Option, none, some,
  Option-cases, ◌==◌, ==→eq, ==_refl, if◌then◌else◌, arith,
}
use xdec.Memory.State.{Space, Page, done, put_page, no_page, deref, change_page, fresh_generation}
use xdec.Memory.Paging.{lookup}
use xdec.Memory.Valid.{is_resident, CacheIsValid, Keeps, Safe, Safe-pure}

pub resident-some :
    (s : Space) (page : ℕ) → is_resident s page ≡ true → (p : Page) × (s.pages page ≡ some p)
unfolding is_resident
resident-some s page there = elim (Option-cases (s.pages page)) [
  | inl e ↦ absurd (ground arith)
  | inr found ↦ found
]

pub some-resident :
    (s : Space) (page : ℕ) (p : Page) → s.pages page ≡ some p → is_resident s page ≡ true
unfolding is_resident
some-resident s page p e = ground arith

pub none-resident : (s : Space) (page : ℕ) → s.pages page ≡ none → is_resident s page ≡ false
unfolding is_resident
none-resident s page e = ground arith

pub put_page-resident :
    (s : Space) (key : ℕ) (q : Page) (page : ℕ)
    → is_resident s page ≡ true
    → is_resident (record s { pages = put_page s.pages key q }) page ≡ true
unfolding is_resident
put_page-resident s key q page there = ground arith

pub put_page-here :
    (s : Space) (key : ℕ) (q : Page)
    → is_resident (record s { pages = put_page s.pages key q }) key ≡ true
unfolding is_resident
put_page-here s key q = ground (arith, ==_refl key)

pub deref-some : (s : Space) (key : ℕ) (p : Page) → s.pages key ≡ some p → deref key s ≡ (done p, s)
unfolding deref
deref-some s key p e = ground arith

pub change_page-some :
    (s : Space) (key : ℕ) (f : Page → Page) (p : Page)
    → s.pages key ≡ some p
    → change_page key f s ≡ (done tt, record s { pages = put_page s.pages key (f p) })
unfolding change_page
change_page-some s key f p e = ground arith

-- Adding or replacing a page keeps everything, and so does a cache on it.
pub put_page-Keeps :
    (s : Space) (key : ℕ) (q : Page)
    → CacheIsValid s
    → Keeps s (record s { pages = put_page s.pages key q })
unfolding CacheIsValid
put_page-Keeps s key q valid = record {
  valid = elim valid [
    | inl empty ↦ inl empty
    | inr (e, there) ↦ inr (e, put_page-resident s key q s.cache_base there)
  ];
  keeps = λ page there. put_page-resident s key q page there;
  same = refl;
}

pub deref-Safe :
    (s : Space) (key : ℕ)
    → CacheIsValid s
    → is_resident s key ≡ true
    → Safe s (λ p t. (t ≡ s) × (s.pages key ≡ some p)) (deref key s)
deref-Safe s key valid there =
    let (p, e) = resident-some s key there in
    rw (deref-some s key p e) (Safe-pure p valid (refl, e))

pub change_page-Safe :
    (s : Space) (key : ℕ) (f : Page → Page)
    → CacheIsValid s
    → is_resident s key ≡ true
    → Safe s (λ _ t. is_resident t key ≡ true) (change_page key f s)
change_page-Safe s key f valid there =
    let (p, e) = resident-some s key there in
    rw (change_page-some s key f p e)
      (record { holds = (put_page-Keeps s key (f p) valid, put_page-here s key (f p)) })

pub fresh_generation-Safe :
    (s : Space) → CacheIsValid s → Safe s (λ _ t. t.pages ≡ s.pages) (fresh_generation s)
unfolding fresh_generation CacheIsValid is_resident
fresh_generation-Safe s valid = record {
  holds = (record { valid = valid; keeps = λ page h. h; same = refl }, refl);
}

pub lookup-hit :
    (s : Space) (page : ℕ) → (s.cache_base == page) ≡ true → lookup page s ≡ (done s.cache_page, s)
unfolding lookup
lookup-hit s page hit = rw hit refl

pub lookup-absent :
    (s : Space) (page : ℕ)
    → (s.cache_base == page) ≡ false
    → s.pages page ≡ none
    → lookup page s ≡ (done none, s)
unfolding lookup
lookup-absent s page miss e = ground arith

pub lookup-present :
    (s : Space) (page : ℕ) (p : Page)
    → (s.cache_base == page) ≡ false
    → s.pages page ≡ some p
    → lookup page s ≡ (done (some page), record s { cache_base = page; cache_page = some page })
unfolding lookup
lookup-present s page p miss e = ground arith

abbrev pub found_page : Space → ℕ → Option ℕ
found_page s page = if is_resident s page then some page else none

found-resident : (s : Space) (page : ℕ) → is_resident s page ≡ true → some page ≡ found_page s page
found-resident s page h = rw h refl

found-absent : (s : Space) (page : ℕ) → is_resident s page ≡ false → none ≡ found_page s page
found-absent s page h = rw h refl

pub cache-Keeps :
    (s : Space) (page : ℕ)
    → is_resident s page ≡ true
    → Keeps s (record s { cache_base = page; cache_page = some page })
unfolding CacheIsValid is_resident
cache-Keeps s page here = record { valid = inr (refl, here); keeps = λ j h. h; same = refl }

-- From a state with a valid cache, for any page but the cache's empty mark, the cached lookup
-- changes no page, answers exactly the page that a search of the page map finds, and leaves the
-- cache valid.
pub lookup-Safe :
    (s : Space) (page : ℕ)
    → CacheIsValid s
    → page ≢ no_page
    → Safe s (λ found t. (t.pages ≡ s.pages) × (found ≡ found_page s page)) (lookup page s)
unfolding CacheIsValid
lookup-Safe s page valid page≢ = elim (Bool-cases (s.cache_base == page)) [
  | inl hit ↦ rw (lookup-hit s page hit) (elim valid [
    | inl (base, null) ↦ absurd (page≢ (sym (==→eq s.cache_base page hit) ∙ base))
    | inr (cached, there) ↦
        let same = ==→eq s.cache_base page hit in
        let here : is_resident s page ≡ true = subst (λ j. is_resident s j ≡ true) same there in
        Safe-pure s.cache_page (inr (cached, there))
          (refl, cached ∙ ap (λ (j : ℕ). some j) same ∙ found-resident s page here)
  ])
  | inr miss ↦ elim (Option-cases (s.pages page)) [
    | inl e ↦
        rw (lookup-absent s page miss e)
          (Safe-pure none valid (refl, found-absent s page (none-resident s page e)))
    | inr (p, e) ↦
        let here = some-resident s page p e in
        rw (lookup-present s page p miss e)
          (record { holds = (cache-Keeps s page here, (refl, found-resident s page here)) })
  ]
]
