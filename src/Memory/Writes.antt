-- ===== src/Memory/Writes.antt =====
-- src/exec/memory.cpp: `writeBytes` against `readBytes`: what is stored, what is left alone, and
-- that it is read back.
use xdec.Base.{
  ℕ, zero, suc, ◌+◌, ◌-◌, ◌≤◌, ◌<◌, ◌≡◌, refl, sym, ap, ◌∙◌, ◌⊎◌, inl, inr, Bool-cases, some, ltb,
  ltb→lt, ltb→le, ◌==◌, ==→eq, ==→ne, List, [], ◌∷◌, arith, length, get_or, take, drop, length-take,
  length-drop,
}
use xdec.Bits.{word, wrap}
use xdec.Bits.Digits.{bit_and-mask}
use xdec.Bits.Powers.{mod_small}
use xdec.Memory.State.{Space, page_base}
use xdec.Memory.Access.{page_offset, splice}
use xdec.Memory.Walk.{page_base-floor}
use xdec.Memory.Content.{byte_at}
use xdec.Memory.Stores.{near_base, near_offset, byte_at-some}
use xdec.Memory.Edits.{Edits, edited_byte, other_byte, splice-inside, splice-outside}

-- The bytes of a list stand at an address, and the bytes outside are those of `s`.
pub record Stored (s t : Space) (a : ℕ) (bytes : List ℕ) : Type 0 where
  pub inside : (i : ℕ) → i < length bytes → byte_at t (a + i) ≡ some (get_or bytes i 0)
  pub outside : (x : ℕ) → x < word → (x < a) ⊎ (a + length bytes ≤ x) → byte_at t x ≡ byte_at s x

get-take : (n : ℕ) (xs : List ℕ) (i : ℕ) → i < n → get_or (take n xs) i 0 ≡ get_or xs i 0
get-take zero xs i lt = absurd (omega arith)
get-take (suc n) [] i lt = refl
get-take (suc n) (x ∷ xs) zero lt = refl
get-take (suc n) (x ∷ xs) (suc i) lt = get-take n xs i (omega arith)

get-drop : (n : ℕ) (xs : List ℕ) (i : ℕ) → get_or (drop n xs) i 0 ≡ get_or xs (n + i) 0
get-drop zero xs i = ap (λ k. get_or xs k 0) (omega arith)
get-drop (suc n) [] i = refl
get-drop (suc n) (x ∷ xs) i =
    let e : suc (n + i) ≡ suc n + i = omega arith in
    get-drop n xs i ∙ ap (λ k. get_or (x ∷ xs) k 0) e

-- One chunk on one page.
pub chunk-Stored :
    (s t : Space) (a : ℕ) (bytes : List ℕ)
    → a + length bytes ≤ word
    → a < word
    → page_offset a + length bytes ≤ 4096
    → Edits (page_base a) (λ b. splice b (page_offset a) bytes) s t
    → Stored s t a bytes
chunk-Stored s t a bytes fits a< near edits = record {
  inside = λ i i<.
      edited_byte s t (a + i) edits (near_base a i (omega arith) (omega arith))
      ∙ ap (λ k. some (splice edits.old.bytes (page_offset a) bytes k))
          (near_offset a i (omega arith))
      ∙ ap (λ (b : ℕ). some b) (splice-inside edits.old.bytes (page_offset a) bytes i i<);
  outside = λ x x< out. elim (Bool-cases (page_base x == page_base a)) [
    | inr e ↦ other_byte s t x edits (==→ne (page_base x) (page_base a) e)
    | inl e ↦
        let same = ==→eq (page_base x) (page_base a) e in
        edited_byte s t x edits same
        ∙ ap (λ (b : ℕ). some b)
            (splice-outside edits.old.bytes (page_offset a) bytes (page_offset x)
              (away x x< same out))
        ∙ sym (byte_at-some s x edits.old (ap s.pages same ∙ edits.had))
  ];
}
  where
    away :
        (x : ℕ)
        → x < word
        → page_base x ≡ page_base a
        → (x < a) ⊎ (a + length bytes ≤ x)
        → (page_offset x < page_offset a) ⊎ (page_offset a + length bytes ≤ page_offset x)
    away x x< same (inl lt) = inl (
        omega (
          arith,
          page_base-floor x x<,
          page_base-floor a a<,
          same,
          bit_and-mask 12 a,
          bit_and-mask 12 x,
        ))
    away x x< same (inr ge) = inr (
        omega (
          arith,
          page_base-floor x x<,
          page_base-floor a a<,
          same,
          bit_and-mask 12 a,
          bit_and-mask 12 x,
        ))

-- A chunk and then the rest of the range.
pub Stored-append :
    (s t u : Space) (a chunk : ℕ) (bytes : List ℕ)
    → a + length bytes ≤ word
    → 0 < chunk
    → chunk ≤ length bytes
    → Stored s t a (take chunk bytes)
    → Stored t u (wrap (a + chunk)) (drop chunk bytes)
    → Stored s u a bytes
Stored-append s t u a chunk bytes fits pos le first rest = record {
  inside = λ i i<. elim (Bool-cases (ltb i chunk)) [
    | inl e ↦
        let lt = ltb→lt i chunk e in
        rest.outside (a + i) (omega arith) (before (a + i) (omega arith) (omega arith))
        ∙ first.inside i (omega (arith, length-take chunk bytes))
        ∙ ap (λ (b : ℕ). some b) (get-take chunk bytes i lt)
    | inr e ↦
        let ge = ltb→le i chunk e in
        let at : wrap (a + chunk) + (i - chunk) ≡ a + i = omega (arith, mod_small (a + chunk) 64) in
        let from : chunk + (i - chunk) ≡ i = omega arith in
        ap (byte_at u) (sym at)
        ∙ rest.inside (i - chunk) (omega (arith, length-drop chunk bytes))
        ∙ ap (λ (b : ℕ). some b)
            (get-drop chunk bytes (i - chunk) ∙ ap (λ k. get_or bytes k 0) from)
  ];
  outside = λ x x< out. rest.outside x x< (past x x< out) ∙ first.outside x x< (away x out);
}
  where
    before :
        (x : ℕ)
        → x < word
        → x < a + chunk
        → (x < wrap (a + chunk)) ⊎ (wrap (a + chunk) + length (drop chunk bytes) ≤ x)
    before x x< lt = elim (Bool-cases (ltb (a + chunk) word)) [
      | inl e ↦ inl (omega (arith, mod_small (a + chunk) 64, ltb→lt (a + chunk) word e))
      | inr e ↦ inr (omega (arith, ltb→le (a + chunk) word e, length-drop chunk bytes))
    ]

    past :
        (x : ℕ)
        → x < word
        → (x < a) ⊎ (a + length bytes ≤ x)
        → (x < wrap (a + chunk)) ⊎ (wrap (a + chunk) + length (drop chunk bytes) ≤ x)
    past x x< (inl lt) = before x x< (omega arith)
    past x x< (inr ge) = inr (omega (arith, mod_small (a + chunk) 64, length-drop chunk bytes))

    away :
        (x : ℕ) → (x < a) ⊎ (a + length bytes ≤ x) → (x < a) ⊎ (a + length (take chunk bytes) ≤ x)
    away x (inl lt) = inl lt
    away x (inr ge) = inr (omega (arith, length-take chunk bytes))
