-- ===== src/Memory/SafeBytes.antt =====
-- src/exec/memory.cpp: the operations on bytes never follow a null or dangling page pointer: the
-- loops over a range find each page that `ensure` left there.
use mathlib.Core.Path.{subst}
use xdec.Base.{
  ℕ, zero, suc, ◌+◌, ◌-◌, ◌≤◌, ◌<◌, ◌≡◌, refl, sym, ◌∙◌, inl, inr, true, false, Bool-cases, Option,
  none, some, ◌==◌, ==→eq, ==→ne, if◌then◌else◌, List, [], ◌∷◌, ◌++◌, arith, length, take, drop,
  length-drop, min,
}
use xdec.Bits.{word, wrap}
use xdec.Bits.Digits.{bit_and-mask}
use xdec.Bits.Powers.{mod_small}
use xdec.Memory.State.{Space, fault, M, pure, page_size, wraps, pages_of, page_base}
use xdec.Memory.Paging.{page_at}
use xdec.Memory.Dirty.{list_dirty, mark_dirty, mark_words}
use xdec.Memory.Access.{page_offset, splice, page_key, copy_out, store_page, copy_in}
use xdec.Memory.Walk.{pages_of-covers, not-wraps}
use xdec.Memory.Valid.{
  is_resident, CacheIsValid, Keeps, Keeps-trans, Safe, Safe-weaken, Safe-pure, Safe-bind,
}
use xdec.Memory.Safe.{lookup-Safe, deref-Safe, change_page-Safe, fresh_generation-Safe}
use xdec.Memory.SafePaging.{Pages, not_no_page}

-- Every byte of a range is on a page that is there.
pub record Covered (s : Space) (a size : ℕ) : Type 0 where
  pub fits : a + size ≤ word
  pub there : (i : ℕ) → i < size → is_resident s (page_base (a + i)) ≡ true

pub Covered-Keeps : {s t : Space} (a size : ℕ) → Keeps s t → Covered s a size → Covered t a size
Covered-Keeps a size st h = record {
  fits = h.fits;
  there = λ i i<. st.keeps (page_base (a + i)) (h.there i i<);
}

pub Covered-Pages :
    (s : Space) (a size : ℕ)
    → a < word
    → size < word
    → (0 < size → wraps a size ≡ false)
    → (0 < size → Pages (pages_of a size) s)
    → Covered s a size
Covered-Pages s a size a< size< nowrap pages = elim (Bool-cases (size == 0)) [
  | inl e ↦ record {
    fits = omega (arith, ==→eq size 0 e);
    there = λ i i<. absurd (omega (arith, ==→eq size 0 e));
  }
  | inr e ↦
      let pos : 0 < size = omega (arith, ==→ne size 0 e) in
      record {
        fits = not-wraps a size a< pos size< (nowrap pos);
        there = λ i i<.
            pages pos (page_base (a + i))
              ((pages_of-covers a size a< pos size< (nowrap pos)).0 i i<);
      }
]

-- The rest of a range after a chunk that does not reach its end.
pub Covered-drop :
    (s : Space) (a size chunk : ℕ)
    → 0 < chunk
    → chunk ≤ size
    → Covered s a size
    → Covered s (wrap (a + chunk)) (size - chunk)
Covered-drop s a size chunk pos le h = record {
  fits = omega (arith, h.fits);
  there = λ i i<.
      let same : a + (chunk + i) ≡ wrap (a + chunk) + i =
        omega (arith, h.fits, mod_small (a + chunk) 64) in
      subst (λ b. is_resident s (page_base b) ≡ true) same (h.there (chunk + i) (omega arith));
}

pub page_offset-lt : (a : ℕ) → page_offset a < page_size
page_offset-lt a = omega (arith, bit_and-mask 12 a)

-- The size of the chunk that a round copies.
pub chunk_pos : (a size : ℕ) → 0 < size → 0 < min size (page_size - page_offset a)
chunk_pos a size pos = omega (arith, page_offset-lt a)

abbrev pub key_of : Option ℕ → M ℕ
key_of page = elim page [ none ↦ λ s. (fault, s) | some key ↦ pure key ]

key_of-Safe :
    (s : Space) (page : ℕ) (found : Option ℕ)
    → CacheIsValid s
    → is_resident s page ≡ true
    → found ≡ some page
    → Safe s (λ key t. (key ≡ page) × (is_resident t key ≡ true)) (key_of found s)
key_of-Safe s page none valid here e = absurd (ground arith)
key_of-Safe s page (some key) valid here e =
    let same : key ≡ page = ground arith in
    Safe-pure key valid (same, subst (λ j. is_resident s j ≡ true) (sym same) here)

pub page_key-Safe :
    (s : Space) (a : ℕ)
    → CacheIsValid s
    → a < word
    → is_resident s (page_base a) ≡ true
    → Safe s (λ key t. (key ≡ page_base a) × (is_resident t key ≡ true)) (page_key a s)
unfolding page_key page_at
page_key-Safe s a valid a< here =
    Safe-bind key_of (lookup-Safe s (page_base a) valid (not_no_page a a<)) (λ found t st q.
      key_of-Safe t (page_base a) found st.valid (st.keeps (page_base a) here) (q.1 ∙ rw here refl))

pub listed-Keeps :
    (s : Space) (base : ℕ)
    → CacheIsValid s
    → Keeps s (record s { dirty_pages = s.dirty_pages ++ base ∷ [] })
unfolding CacheIsValid is_resident
listed-Keeps s base valid = record { valid = valid; keeps = λ j h. h; same = refl }

pub list_dirty-Safe :
    (s : Space) (key base : ℕ)
    → CacheIsValid s
    → is_resident s key ≡ true
    → Safe s (λ _ t. is_resident t key ≡ true) (list_dirty key base s)
unfolding list_dirty
list_dirty-Safe s key base valid here = Safe-bind _ (deref-Safe s key valid here) (λ p t st q.
    elim (Bool-cases p.dirty_listed) [
      | inl e ↦ rw e (Safe-pure tt st.valid (st.keeps key here))
      | inr e ↦ rw e (
          Safe-bind _
            (change_page-Safe t key (λ q. record q { dirty_listed = true }) st.valid
              (st.keeps key here))
            (λ _ u tu there. record {
              holds =
                  (listed-Keeps u base tu.valid, (listed-Keeps u base tu.valid).keeps key there);
            }))
    ])

pub store_page-Safe :
    (s : Space) (key base offset : ℕ) (bytes : List ℕ)
    → CacheIsValid s
    → is_resident s key ≡ true
    → Safe s (λ _ _. Unit {0}) (store_page key base offset bytes s)
unfolding store_page mark_dirty
store_page-Safe s key base offset bytes valid here =
    Safe-bind _
      (change_page-Safe s key (λ p. record p { bytes = splice p.bytes offset bytes }) valid here)
      (λ _ t st at.
        Safe-bind _
          (Safe-bind _ (list_dirty-Safe t key base st.valid at) (λ _ u tu at_u.
            change_page-Safe u key
              (λ p. record p { dirty = mark_words (length bytes) p.dirty offset (length bytes) })
              tu.valid at_u))
          (λ _ u tu at_u. Safe-bind _ (fresh_generation-Safe u tu.valid) (λ g v uv q.
            Safe-weaken
              (change_page-Safe v key (λ p. record p { generation = g }) uv.valid
                (uv.keeps key at_u))
              (λ _ _ _ _. tt))))

-- A loop that ends when nothing is left.
pub rounds_Safe :
    {A : Type 0} {Q : A → Space → Type 0} (s : Space) (left : ℕ) (x : A) (m : M A)
    → CacheIsValid s
    → Q x s
    → (0 < left → Safe s Q (m s))
    → Safe s Q ((if left == 0 then pure x else m) s)
rounds_Safe s left x m valid q go = elim (Bool-cases (left == 0)) [
  | inl e ↦ rw e (Safe-pure x valid q)
  | inr e ↦ rw e (go (omega (arith, ==→ne left 0 e)))
]

pub first_page :
    (s : Space) (a size : ℕ) → 0 < size → Covered s a size → is_resident s (page_base a) ≡ true
first_page s a size pos h =
    let same : a + 0 ≡ a = omega arith in
    subst (λ b. is_resident s (page_base b) ≡ true) same (h.there 0 pos)

pub copy_out-Safe :
    (s : Space) (rounds a size : ℕ)
    → CacheIsValid s
    → Covered s a size
    → Safe s (λ _ _. Unit {0}) (copy_out rounds a size s)
unfolding copy_out
copy_out-Safe s zero a size valid h = Safe-pure [] valid tt
copy_out-Safe s (suc rounds) a size valid h = rounds_Safe s size [] _ valid tt (λ pos.
    let chunk = min size (page_size - page_offset a) in
    Safe-bind _ (page_key-Safe s a valid (omega (arith, h.fits)) (first_page s a size pos h))
      (λ key t st q. Safe-bind _ (deref-Safe t key st.valid q.1) (λ p u tu _.
        Safe-bind _
          (copy_out-Safe u rounds (wrap (a + chunk)) (size - chunk) tu.valid (
            Covered-drop u a size chunk (chunk_pos a size pos) (omega arith)
              (Covered-Keeps a size (Keeps-trans st tu) h)))
          (λ bytes v uv _. Safe-pure _ uv.valid tt))))

pub copy_in-Safe :
    (s : Space) (rounds a : ℕ) (bytes : List ℕ)
    → CacheIsValid s
    → Covered s a (length bytes)
    → Safe s (λ _ _. Unit {0}) (copy_in rounds a bytes s)
unfolding copy_in
copy_in-Safe s zero a bytes valid h = Safe-pure tt valid tt
copy_in-Safe s (suc rounds) a bytes valid h = rounds_Safe s (length bytes) tt _ valid tt (λ pos.
    let size = length bytes in
    let chunk = min size (page_size - page_offset a) in
    Safe-bind _ (page_key-Safe s a valid (omega (arith, h.fits)) (first_page s a size pos h))
      (λ key t st q.
        Safe-bind _
          (store_page-Safe t key (page_base a) (page_offset a) (take chunk bytes) st.valid q.1)
          (λ _ u tu _. copy_in-Safe u rounds (wrap (a + chunk)) (drop chunk bytes) tu.valid (
            subst (λ n. Covered u (wrap (a + chunk)) n) (sym (length-drop chunk bytes))
              (Covered-drop u a size chunk (chunk_pos a size pos) (omega arith)
                (Covered-Keeps a size (Keeps-trans st tu) h))))))
