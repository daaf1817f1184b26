-- ===== src/Memory/Edits.antt =====
-- src/exec/memory.cpp: the stores of `writeBytes` on one page.
use xdec.Base.{
  ℕ, zero, suc, ◌+◌, ◌≤◌, ◌<◌, ◌≡◌, refl, sym, ap, ◌∙◌, ◌≢◌, ◌⊎◌, inl, inr, true, false, Bool-cases,
  Option, none, some, ◌==◌, ==_refl, ne→==, List, [], ◌∷◌, arith, length, get_or,
}
use xdec.Memory.State.{Space, Page, page_base, change_page}
use xdec.Memory.Dirty.{list_dirty, mark_dirty, mark_words}
use xdec.Memory.Access.{page_offset, splice, store_page}
use xdec.Memory.Valid.{is_resident, CacheIsValid, Safe, Safe-weaken, Safe-pure, Safe-bind}
use xdec.Memory.Safe.{
  deref-Safe, change_page-some, resident-some, put_page-Keeps, fresh_generation-Safe,
}
use xdec.Memory.SafeBytes.{listed-Keeps}
use xdec.Memory.Content.{byte_at, byte_at-page}
use xdec.Memory.Stores.{byte_at-some}

-- One page has its bytes changed by `f`, and no other page changes.
pub record Edits (key : ℕ) (f : (ℕ → ℕ) → ℕ → ℕ) (s t : Space) : Type 0 where
  pub old : Page
  pub new : Page
  pub had : s.pages key ≡ some old
  pub has : t.pages key ≡ some new
  pub edit : new.bytes ≡ f old.bytes
  pub frame : (j : ℕ) → j ≢ key → t.pages j ≡ s.pages j

some_inj : {p q : Page} → some p ≡ some q → p ≡ q
some_inj {p} e = ap (λ (o : Option Page). elim o as (λ _. Page) [ none ↦ p | some q ↦ q ]) e

pub Edits-trans :
    {key : ℕ} {f g : (ℕ → ℕ) → ℕ → ℕ} {s t u : Space}
    → Edits key f s t
    → Edits key g t u
    → Edits key (λ b. g (f b)) s u
Edits-trans {g} st tu = record {
  old = st.old;
  new = tu.new;
  had = st.had;
  has = tu.has;
  edit = tu.edit ∙ ap g (ap (λ (p : Page). p.bytes) (some_inj (sym tu.had ∙ st.has)) ∙ st.edit);
  frame = λ j h. tu.frame j h ∙ st.frame j h;
}

change_page-Edits :
    (s : Space) (key : ℕ) (g : Page → Page) (f : (ℕ → ℕ) → ℕ → ℕ)
    → CacheIsValid s
    → is_resident s key ≡ true
    → ((p : Page) → (g p).bytes ≡ f p.bytes)
    → Safe s (λ _ t. Edits key f s t) (change_page key g s)
change_page-Edits s key g f valid there acts =
    let (p, e) = resident-some s key there in
    rw (change_page-some s key g p e) (record {
      holds = (
        put_page-Keeps s key (g p) valid,
        record {
          old = p;
          new = g p;
          had = e;
          has = rw (==_refl key) refl;
          edit = acts p;
          frame = λ j h. rw (ne→== j key h) refl;
        },
      );
    })

abbrev unedited : (ℕ → ℕ) → ℕ → ℕ
unedited b = b

no_edit :
    (s t : Space) (key : ℕ) (p : Page)
    → s.pages key ≡ some p
    → t.pages ≡ s.pages
    → Edits key unedited s t
no_edit s t key p e same =
    let at : (j : ℕ) → t.pages j ≡ s.pages j = λ j. ap (λ (f : ℕ → Option Page). f j) same in
    record { old = p; new = p; had = e; has = at key ∙ e; edit = refl; frame = λ j h. at j }

list_dirty-Edits :
    (s : Space) (key base : ℕ)
    → CacheIsValid s
    → is_resident s key ≡ true
    → Safe s (λ _ t. Edits key unedited s t) (list_dirty key base s)
unfolding list_dirty
list_dirty-Edits s key base valid here = Safe-bind _ (deref-Safe s key valid here) (λ p t st q.
    elim (Bool-cases p.dirty_listed) [
      | inl e ↦
          rw e (Safe-pure tt st.valid (no_edit s t key p q.1 (ap (λ (x : Space). x.pages) q.0)))
      | inr e ↦ rw e (
          Safe-bind _
            (change_page-Edits t key (λ q. record q { dirty_listed = true }) unedited st.valid
              (st.keeps key here) (λ p. refl))
            (λ _ u tu edits. record {
              holds = (
                listed-Keeps u base tu.valid,
                Edits-trans (no_edit s t key p q.1 (ap (λ (x : Space). x.pages) q.0))
                    (Edits-trans edits (no_edit u _ key edits.new edits.has refl)),
              );
            }))
    ])

pub store_page-Edits :
    (s : Space) (key base offset : ℕ) (bytes : List ℕ)
    → CacheIsValid s
    → is_resident s key ≡ true
    → Safe s
        (λ _ t. Edits key (λ b. splice b offset bytes) s t)
        (store_page key base offset bytes s)
unfolding store_page mark_dirty
store_page-Edits s key base offset bytes valid here =
    let put : (ℕ → ℕ) → ℕ → ℕ = λ b. splice b offset bytes in
    Safe-bind _
      (change_page-Edits s key (λ p. record p { bytes = splice p.bytes offset bytes }) put valid
        here (λ p. refl))
      (λ _ t st e1.
        Safe-bind {Q = λ _ u. Edits key unedited t u} _
          (Safe-bind _ (list_dirty-Edits t key base st.valid (st.keeps key here)) (λ _ u tu e2.
            Safe-weaken
              (change_page-Edits u key
                (λ p. record p { dirty = mark_words (length bytes) p.dirty offset (length bytes) })
                unedited tu.valid (tu.keeps key (st.keeps key here)) (λ p. refl))
              (λ _ v uv e3. Edits-trans e2 e3)))
          (λ _ u tu e4. Safe-bind _ (fresh_generation-Safe u tu.valid) (λ g v uv q.
            Safe-weaken
              (change_page-Edits v key (λ p. record p { generation = g }) unedited uv.valid
                (uv.keeps key (tu.keeps key (st.keeps key here))) (λ p. refl))
              (λ _ w vw e5.
                Edits-trans e1
                  (Edits-trans e4 (Edits-trans (no_edit u v key e4.new e4.has q) e5))))))

-- The bytes after an edit.
pub edited_byte :
    {key : ℕ} {f : (ℕ → ℕ) → ℕ → ℕ} (s t : Space) (x : ℕ) (edits : Edits key f s t)
    → page_base x ≡ key
    → byte_at t x ≡ some (f edits.old.bytes (page_offset x))
edited_byte s t x edits at =
    byte_at-some t x edits.new (ap t.pages at ∙ edits.has)
    ∙ ap (λ (b : ℕ → ℕ). some (b (page_offset x))) edits.edit

pub other_byte :
    {key : ℕ} {f : (ℕ → ℕ) → ℕ → ℕ} (s t : Space) (x : ℕ)
    → Edits key f s t
    → page_base x ≢ key
    → byte_at t x ≡ byte_at s x
other_byte s t x edits off = byte_at-page s t x (edits.frame (page_base x) off)

pub splice-inside :
    (b : ℕ → ℕ) (offset : ℕ) (bytes : List ℕ) (k : ℕ)
    → k < length bytes
    → splice b offset bytes (offset + k) ≡ get_or bytes k 0
unfolding splice
splice-inside b offset [] k lt = absurd (omega arith)
splice-inside b offset (x ∷ xs) zero lt = ground arith
splice-inside b offset (x ∷ xs) (suc k) lt =
    let e : offset + suc k ≡ offset + 1 + k = omega arith in
    let other : (offset + suc k == offset) ≡ false =
      ne→== (offset + suc k) offset (λ e. absurd (omega (arith, e))) in
    rw other (ap (splice b (offset + 1) xs) e ∙ splice-inside b (offset + 1) xs k (omega arith))

pub splice-outside :
    (b : ℕ → ℕ) (offset : ℕ) (bytes : List ℕ) (i : ℕ)
    → (i < offset) ⊎ (offset + length bytes ≤ i)
    → splice b offset bytes i ≡ b i
unfolding splice
splice-outside b offset [] i h = refl
splice-outside b offset (x ∷ xs) i h =
    let other : (i == offset) ≡ false = ne→== i offset (λ e. absurd (omega (arith, e, h))) in
    rw other (splice-outside b (offset + 1) xs i (outside h))
  where
    outside :
        (i < offset) ⊎ (offset + length (x ∷ xs) ≤ i)
        → (i < offset + 1) ⊎ (offset + 1 + length xs ≤ i)
    outside (inl lt) = inl (omega arith)
    outside (inr ge) = inr (omega arith)
