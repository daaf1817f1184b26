-- ===== src/Memory/SafePaging.antt =====
-- src/exec/memory.cpp: the operations on whole pages never follow a null or dangling page pointer.
use mathlib.Core.Path.{subst}
use xdec.Base.{
  ℕ, ◌<◌, ◌≡◌, refl, sym, ◌∙◌, ◌≢◌, ◌⊎◌, inl, inr, Bool, true, false, Bool-cases, Option, none,
  some, Option-cases, ==_refl, if◌then◌else◌, List, In, Diag, DiagCode, diag_at, Result, ok, err,
  arith,
}
use xdec.Bits.{word}
use xdec.Memory.State.{
  Space, Page, PageSeed, done, failed, M, ◌>>=◌, pure, fail, put_page, no_page, fresh_page,
  fresh_generation, page_base,
}
use xdec.Memory.Paging.{
  materialize, supply, check_permission, resident_page, try_emplace, stamp, seed,
}
use xdec.Memory.Walk.{page_base-floor}
use xdec.Memory.Valid.{is_resident, CacheIsValid, Keeps, Safe, Safe-pure, Safe-fail, Safe-bind}
use xdec.Memory.Safe.{
  lookup-Safe, found_page, deref-Safe, change_page-Safe, fresh_generation-Safe, put_page-Keeps,
  put_page-here, some-resident,
}

abbrev pub provided : ℕ → Option PageSeed → M (Option ℕ)
provided page supplied = elim supplied [ none ↦ pure none | some seed ↦ materialize page seed ]

pub supply-none : (s : Space) (page : ℕ) → s.provider ≡ none → supply page s ≡ (done none, s)
unfolding supply
supply-none s page e = ground arith

pub supply-err :
    (s : Space) (page : ℕ) (provide : ℕ → Result (Option PageSeed)) (d : Diag)
    → s.provider ≡ some provide
    → provide page ≡ err d
    → supply page s ≡ (failed d, s)
unfolding supply
supply-err s page provide d e f = ground arith

pub supply-ok :
    (s : Space) (page : ℕ) (provide : ℕ → Result (Option PageSeed)) (supplied : Option PageSeed)
    → s.provider ≡ some provide
    → provide page ≡ ok supplied
    → supply page s ≡ provided page supplied s
unfolding supply
supply-ok s page provide supplied e f = ground arith

pub Result-cases : {A : Type 0} (r : Result A) → ((a : A) × (r ≡ ok a)) ⊎ ((d : Diag) × (r ≡ err d))
Result-cases (ok a) = inl (a, refl)
Result-cases (err d) = inr (d, refl)

abbrev pub Supplied : ℕ → Option ℕ → Space → Type 0
Supplied page found t = (found ≡ none) ⊎ ((found ≡ some page) × (is_resident t page ≡ true))

pub materialize-Safe :
    (s : Space) (page : ℕ) (seed : PageSeed)
    → CacheIsValid s
    → Safe s (λ found t. Supplied page found t) (materialize page seed s)
unfolding materialize CacheIsValid is_resident fresh_generation
materialize-Safe s page seed valid = record {
  holds = (
    record {
      valid = inr (refl, ground (arith, ==_refl page));
      keeps = λ j there. ground (arith, ==_refl page);
      same = refl;
    },
    inr (refl, ground (arith, ==_refl page)),
  );
}

provided-Safe :
    (s : Space) (page : ℕ) (supplied : Option PageSeed)
    → CacheIsValid s
    → Safe s (λ found t. Supplied page found t) (provided page supplied s)
provided-Safe s page none valid = Safe-pure none valid (inl refl)
provided-Safe s page (some seed) valid = materialize-Safe s page seed valid

supply-Safe :
    (s : Space) (page : ℕ)
    → CacheIsValid s
    → Safe s (λ found t. Supplied page found t) (supply page s)
supply-Safe s page valid = elim (Option-cases s.provider) [
  | inl e ↦ rw (supply-none s page e) (Safe-pure none valid (inl refl))
  | inr (provide, e) ↦ elim (Result-cases (provide page)) [
    | inl (supplied, f) ↦
        rw (supply-ok s page provide supplied e f) (provided-Safe s page supplied valid)
    | inr (d, f) ↦ rw (supply-err s page provide d e f) (Safe-fail d valid)
  ]
]

pub if_Safe :
    {A : Type 0} {Q : A → Space → Type 0} (t : Space) (b : Bool) (d : Diag) (a : A)
    → CacheIsValid t
    → Q a t
    → Safe t Q ((if b then fail {A = A} d else pure a) t)
if_Safe t true d a valid q = Safe-fail d valid
if_Safe t false d a valid q = Safe-pure a valid q

check_permission-Safe :
    (s : Space) (page permission : ℕ) (found : Option ℕ)
    → CacheIsValid s
    → Supplied page found s
    → Safe s
        (λ key t. (key ≡ page) × (is_resident t page ≡ true))
        (check_permission page permission found s)
unfolding check_permission
check_permission-Safe s page permission none valid h =
    Safe-fail (diag_at DiagCode.unmapped_address page) valid
check_permission-Safe s page permission (some key) valid (inl e) = absurd (ground arith)
check_permission-Safe s page permission (some key) valid (inr (e, here)) =
    let same : key ≡ page = ground arith in
    Safe-bind _ (deref-Safe s key valid (subst (λ j. is_resident s j ≡ true) (sym same) here))
      (λ p t st q. if_Safe t _ _ key st.valid (same, st.keeps page here))

abbrev pub fill : ℕ → Option ℕ → M (Option ℕ)
fill page found = elim found [ none ↦ supply page | some key ↦ pure (some key) ]

pub found_page-Supplied :
    (s : Space) (page : ℕ) (found : Option ℕ) → found ≡ found_page s page → Supplied page found s
found_page-Supplied s page found e = elim (Bool-cases (is_resident s page)) [
  | inl h ↦ inr (e ∙ rw h refl, h)
  | inr h ↦ inl (e ∙ rw h refl)
]

fill-Safe :
    (s : Space) (page : ℕ) (found : Option ℕ)
    → CacheIsValid s
    → Supplied page found s
    → Safe s (λ found t. Supplied page found t) (fill page found s)
fill-Safe s page none valid h = supply-Safe s page valid
fill-Safe s page (some key) valid h = Safe-pure (some key) valid h

pub resident_page-Safe :
    (s : Space) (page permission : ℕ)
    → CacheIsValid s
    → page ≢ no_page
    → Safe s (λ key t. (key ≡ page) × (is_resident t page ≡ true)) (resident_page page permission s)
unfolding resident_page
resident_page-Safe s page permission valid page≢ =
    Safe-bind (λ found. fill page found >>= check_permission page permission)
      (lookup-Safe s page valid page≢)
      (λ found t st q.
        Safe-bind (check_permission page permission)
          (fill-Safe t page found st.valid (elim (found_page-Supplied s page found q.1) [
            | inl e ↦ inl e
            | inr (e, here) ↦ inr (e, st.keeps page here)
          ]))
          (λ found' u tu h. check_permission-Safe u page permission found' tu.valid h))

pub resident-stable :
    (s t : Space) (page : ℕ) → Keeps s t → is_resident s page ≡ true → is_resident t page ≡ true
resident-stable s t page st h = st.keeps page h

abbrev pub Pages : List ℕ → Space → Type 0
Pages pages t = (page : ℕ) → In page pages → is_resident t page ≡ true

-- `map` and `seed` make their pages; `protect` changes pages that are there.
emplaced :
    (s : Space) (page : ℕ)
    → s.pages page ≡ none
    → try_emplace page s ≡ (done true, record s { pages = put_page s.pages page fresh_page })
unfolding try_emplace
emplaced s page e = ground arith

not_emplaced :
    (s : Space) (page : ℕ) (p : Page) → s.pages page ≡ some p → try_emplace page s ≡ (done false, s)
unfolding try_emplace
not_emplaced s page p e = ground arith

pub try_emplace-Safe :
    (s : Space) (page : ℕ)
    → CacheIsValid s
    → Safe s (λ inserted t. is_resident t page ≡ true) (try_emplace page s)
try_emplace-Safe s page valid = elim (Option-cases (s.pages page)) [
  | inl e ↦
      rw (emplaced s page e) (record {
        holds = (put_page-Keeps s page fresh_page valid, put_page-here s page fresh_page);
      })
  | inr (p, e) ↦ rw (not_emplaced s page p e) (Safe-pure false valid (some-resident s page p e))
]

pub stamp-Safe :
    (s : Space) (page : ℕ) (permissions : Page → ℕ)
    → CacheIsValid s
    → is_resident s page ≡ true
    → Safe s (λ _ t. is_resident t page ≡ true) (stamp page permissions s)
unfolding stamp
stamp-Safe s page permissions valid here =
    Safe-bind _ (fresh_generation-Safe s valid)
      (λ g t st q. change_page-Safe t page _ st.valid (st.keeps page here))

pub not_no_page : (a : ℕ) → a < word → page_base a ≢ no_page
not_no_page a a< e = omega (arith, page_base-floor a a<, e)
