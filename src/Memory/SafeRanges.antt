-- ===== src/Memory/SafeRanges.antt =====
-- src/exec/memory.cpp: the operations on ranges of pages never follow a null or dangling page
-- pointer, given a canonicalizer that yields addresses and is idempotent.
use mathlib.Core.Path.{subst}
use xdec.Base.{
  ℕ, ◌+◌, ◌<◌, ◌≡◌, ◌∙◌, ◌≢◌, inl, inr, true, false, Bool-cases, none, some, Option-cases, ◌==◌,
  ==→eq, ==→ne, if◌then◌else◌, List, In, Diag, DiagCode, diag_at, arith, bit_or,
}
use xdec.Bits.{word}
use xdec.Memory.Permission
use xdec.Memory.State.{
  Space, Page, done, failed, M, ◌>>=◌, ◌>>◌, pure, no_page, for_pages, canonicalize, wraps,
  pages_of,
}
use xdec.Memory.Paging.{
  resident_page, ensure, stamp, refuse_mapped, map_page, map, seed_page, protect,
}
use xdec.Memory.Walk.{pages_of-covers, not-wraps}
use xdec.Memory.Valid.{
  is_resident, CacheIsValid, Safe, Safe-weaken, Safe-pure, Safe-fail, Safe-bind, for_pages-Safe,
}
use xdec.Memory.SafePaging.{
  resident_page-Safe, resident-stable, Pages, try_emplace-Safe, stamp-Safe, not_no_page,
}

-- What the embedder's canonicalizer is relied on for.
pub record IsCanonical (s : Space) : Type 0 where
  pub bounded : (a : ℕ) → a < word → canonicalize s a < word
  pub idempotent : (a : ℕ) → canonicalize s (canonicalize s a) ≡ canonicalize s a

-- The two early returns that the range operations share.
pub range-Safe :
    {A : Type 0} {Q : A → Space → Type 0} (s : Space) (a size : ℕ) (d : Diag) (x : A) (m : M A)
    → CacheIsValid s
    → (size ≡ 0 → Q x s)
    → (0 < size → wraps a size ≡ false → Safe s Q (m s))
    → Safe s Q (if size == 0 then (done x, s) else if wraps a size then (failed d, s) else m s)
range-Safe s a size d x m valid empty go = elim (Bool-cases (size == 0)) [
  | inl e ↦ rw e (Safe-pure x valid (empty (==→eq size 0 e)))
  | inr e ↦ elim (Bool-cases (wraps a size)) [
    | inl w ↦ rw (e, w) (Safe-fail d valid)
    | inr w ↦ rw (e, w) (go (omega (arith, ==→ne size 0 e)) w)
  ]
]

pub pages-not_no_page :
    (a size : ℕ)
    → a < word
    → 0 < size
    → size < word
    → wraps a size ≡ false
    → (page : ℕ) → In page (pages_of a size)
    → page ≢ no_page
pages-not_no_page a size a< pos size< nowrap page i e =
    let fits = not-wraps a size a< pos size< nowrap in
    let (k, k<, at) = (pages_of-covers a size a< pos size< nowrap).1 page i in
    not_no_page (a + k) (omega arith) (at ∙ e)

-- From a state with a valid cache and a canonicalizer that yields addresses and is idempotent, for
-- a 64-bit address and size, `ensure` does not fault and keeps the cache valid, every page resident
-- and the canonicalizer; if it succeeds on a positive size, the range does not wrap and all its
-- pages are resident.
pub ensure-Safe :
    (s : Space) (address size permission : ℕ)
    → CacheIsValid s
    → IsCanonical s
    → address < word
    → size < word
    → Safe s
        (λ _ t.
          0 < size
          → (wraps (canonicalize s address) size ≡ false)
            × Pages (pages_of (canonicalize s address) size) t)
        (ensure address size permission s)
unfolding ensure
ensure-Safe s address size permission valid canon a< size< =
    let a = canonicalize s address in
    let touch : ℕ → M (Unit {0}) = λ page. resident_page page permission >>= λ key. pure tt in
    range-Safe s a size _ tt (for_pages (pages_of a size) touch) valid
      (λ e pos. absurd (omega (arith, e)))
      (λ pos nowrap.
        Safe-weaken
          (for_pages-Safe (λ t page. is_resident t page ≡ true) resident-stable s (pages_of a size)
            _ valid
            (λ page i t st.
              Safe-bind _
                (resident_page-Safe t page permission st.valid
                  (pages-not_no_page a size (canon.bounded address a<) pos size< nowrap page i))
                (λ key u tu q. Safe-pure tt tu.valid q.1)))
          (λ _ t st all _. (nowrap, all)))

refused :
    (s : Space) (page : ℕ) (p : Page)
    → s.pages page ≡ some p
    → refuse_mapped page s ≡ (failed (diag_at DiagCode.bad_format page), s)
unfolding refuse_mapped
refused s page p e = ground arith

not_refused : (s : Space) (page : ℕ) → s.pages page ≡ none → refuse_mapped page s ≡ (done tt, s)
unfolding refuse_mapped
not_refused s page e = ground arith

refuse_mapped-Safe :
    (s : Space) (page : ℕ) → CacheIsValid s → Safe s (λ _ _. Unit {0}) (refuse_mapped page s)
refuse_mapped-Safe s page valid = elim (Option-cases (s.pages page)) [
  | inl e ↦ rw (not_refused s page e) (Safe-pure tt valid tt)
  | inr (p, e) ↦ rw (refused s page p e) (Safe-fail (diag_at DiagCode.bad_format page) valid)
]

map_page-Safe :
    (s : Space) (permissions page : ℕ)
    → CacheIsValid s
    → Safe s (λ _ t. is_resident t page ≡ true) (map_page permissions page s)
unfolding map_page
map_page-Safe s permissions page valid =
    Safe-bind (λ _. stamp page (λ p. permissions)) (try_emplace-Safe s page valid)
      (λ _ t st here. stamp-Safe t page (λ p. permissions) st.valid here)

pub seed_page-Safe :
    (s : Space) (permissions page : ℕ)
    → CacheIsValid s
    → Safe s (λ _ t. is_resident t page ≡ true) (seed_page permissions page s)
unfolding seed_page
seed_page-Safe s permissions page valid =
    Safe-bind _ (try_emplace-Safe s page valid) (λ inserted t st here.
      stamp-Safe t page (λ p. if inserted then permissions else bit_or p.permissions permissions)
        st.valid here)

-- The loops that leave every page of a list there.
pub make-Safe :
    (s : Space) (pages : List ℕ) (body : ℕ → M (Unit {0}))
    → CacheIsValid s
    → ((page : ℕ) (t : Space)
        → CacheIsValid t
        → Safe t (λ _ u. is_resident u page ≡ true) (body page t))
    → Safe s (λ _ t. Pages pages t) (for_pages pages body s)
make-Safe s pages body valid h =
    for_pages-Safe (λ t page. is_resident t page ≡ true) resident-stable s pages body valid
      (λ page i t st. h page t st.valid)

pub map-Safe :
    (s : Space) (address size permissions : ℕ)
    → CacheIsValid s
    → Safe s
        (λ _ t.
          0 < size
          → (wraps (canonicalize s address) size ≡ false)
            × Pages (pages_of (canonicalize s address) size) t)
        (map address size permissions s)
unfolding map
map-Safe s address size permissions valid =
    let a = canonicalize s address in
    range-Safe s a size _ tt
      (for_pages (pages_of a size) refuse_mapped
        >> for_pages (pages_of a size) (map_page permissions))
      valid (λ e pos. absurd (omega (arith, e)))
      (λ pos nowrap.
        Safe-bind (λ _. for_pages (pages_of a size) (map_page permissions))
          (for_pages-Safe (λ _ _. Unit {0}) (λ _ _ _ _ _. tt) s (pages_of a size) refuse_mapped
            valid (λ page i t st. refuse_mapped-Safe t page st.valid))
          (λ _ t st _.
            Safe-weaken
              (make-Safe t (pages_of a size) (map_page permissions) st.valid
                (λ page u valid. map_page-Safe u permissions page valid))
              (λ _ u tu all _. (nowrap, all))))

pub protect-Safe :
    (s : Space) (address size permissions : ℕ)
    → CacheIsValid s
    → IsCanonical s
    → address < word
    → size < word
    → Safe s (λ _ _. Unit {0}) (protect address size permissions s)
unfolding protect
protect-Safe s address size permissions valid canon a< size< =
    let a = canonicalize s address in
    Safe-bind _ (ensure-Safe s a size Permission.none valid canon (canon.bounded address a<) size<)
      (λ _ t st here. elim (Bool-cases (size == 0)) [
        | inl e ↦ rw e (Safe-pure tt st.valid tt)
        | inr e ↦
            let there : Pages (pages_of a size) t =
              subst (λ b. Pages (pages_of b size) t) (canon.idempotent address)
                (here (omega (arith, ==→ne size 0 e))).1 in
            rw e (
              Safe-weaken
                (for_pages-Safe (λ _ _. Unit {0}) (λ _ _ _ _ _. tt) t (pages_of a size)
                  (λ page. stamp page (λ p. permissions)) st.valid
                  (λ page i u tu.
                    Safe-weaken
                      (stamp-Safe u page (λ p. permissions) tu.valid (tu.keeps page (there page i)))
                      (λ _ _ _ _. tt)))
                (λ _ _ _ _. tt))
      ])
