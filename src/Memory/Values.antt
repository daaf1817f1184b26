-- ===== src/Memory/Values.antt =====
-- src/exec/memory.cpp: `read` gives back what `write` stored.
use mathlib.Core.Path.{subst}
use xdec.Base.{
  ℕ, ◌+◌, ◌*◌, ◌≤◌, ◌<◌, ◌≡◌, refl, sym, ap, ◌∙◌, inl, inr, Bool, true, false, ◌||◌, Bool-cases,
  ltb, ◌==◌, if◌then◌else◌, List, ◌∷◌, length, get_or, DiagCode, diag, arith,
}
use xdec.Bits.{word}
use xdec.U128.{U128, u128, mask}
use xdec.U128.Value.{IsWords}
use xdec.Memory.Permission
use xdec.Memory.State.{Space, MemoryAccess, done, canonicalize}
use xdec.Memory.Access.{read, write, observe, assemble, disassemble}
use xdec.Memory.Valid.{CacheIsValid, Safe, Safe-bind, Safe-weaken, Safe-fail, Safe-pure}
use xdec.Memory.SafeRanges.{IsCanonical}
use xdec.Memory.SafeAccess.{length-disassemble, accepted-small, observed-Keeps}
use xdec.Memory.Sound.{canonicalize_same, IsCanonical-same}
use xdec.Memory.Content.{byte_at, KeepsBytes, KeepsBytes-trans, same_pages, same_pages-KeepsBytes}
use xdec.Memory.Stores.{ReadsAs, ReadsAs-same}
use xdec.Memory.Bytes.{assemble-disassemble}
use xdec.Memory.Roundtrip.{
  Written, write_bytes-Written, read_bytes-ReadsAs, ended, list_ext, some_nat,
}

observed-pages :
    (s : Space) (observing : Bool) (access : MemoryAccess)
    → (if observing then record s { accesses = access ∷ s.accesses } else s).pages ≡ s.pages
observed-pages s true access = refl
observed-pages s false access = refl

observe-pages :
    (s : Space) (address size : ℕ) (is_write : Bool) (value : U128)
    → CacheIsValid s
    → Safe s (λ _ t. t.pages ≡ s.pages) (observe address size is_write value s)
unfolding observe
observe-pages s address size is_write value valid = record {
  holds = (observed-Keeps s s.observing _ valid, observed-pages s s.observing _);
}

Written-same :
    (s t u : Space) (a : ℕ) (bytes : List ℕ)
    → u.pages ≡ t.pages
    → Written s t a bytes
    → Written s u a bytes
Written-same s t u a bytes e h = record {
  inside = λ i i<. same_pages t u e (a + i) ∙ h.inside i i<;
  outside = λ x b x< out at. same_pages t u e x ∙ h.outside x b x< out at;
}

accepted-le : (size : ℕ) → ((size == 0) || ltb 16 size) ≡ false → size ≤ 16
accepted-le size e = ground arith

write-Written :
    (s : Space) (address size : ℕ) (value : U128)
    → CacheIsValid s
    → IsCanonical s
    → address < word
    → Safe s
        (λ _ t. (size ≤ 16) × Written s t (canonicalize s address) (disassemble value 0 size))
        (write address size value s)
unfolding write
write-Written s address size value valid canon a< = elim (Bool-cases ((size == 0) || ltb 16 size)) [
  | inl e ↦ rw e (Safe-fail (diag DiagCode.internal) valid)
  | inr e ↦
      let a = canonicalize s address in
      let bytes = disassemble value 0 size in
      rw e (
        Safe-bind _
          (write_bytes-Written s address bytes valid canon a<
            (rw (length-disassemble value 0 size) (accepted-small size e)))
          (λ _ t st h.
            Safe-weaken (observe-pages t address size true value st.valid)
              (λ _ u tu same. (accepted-le size e, Written-same s t u a bytes same h))))
]

-- The bytes that a value was put together from.
record ReadValue (s t : Space) (a size : ℕ) (value : U128) : Type 0 where
  bytes : List ℕ
  kept : KeepsBytes s t
  reads : ReadsAs t a size bytes
  made : value ≡ assemble 0 bytes (u128 0 0)

read-ReadValue :
    (s : Space) (address size : ℕ)
    → CacheIsValid s
    → IsCanonical s
    → address < word
    → Safe s (λ value t. ReadValue s t (canonicalize s address) size value) (read address size s)
unfolding read
read-ReadValue s address size valid canon a< = elim (Bool-cases ((size == 0) || ltb 16 size)) [
  | inl e ↦ rw e (Safe-fail (diag DiagCode.internal) valid)
  | inr e ↦
      let a = canonicalize s address in
      rw e (
        Safe-bind _
          (read_bytes-ReadsAs s address size Permission.read valid canon a< (accepted-small size e))
          (λ bytes t st h.
            Safe-bind _ (observe-pages t address size false _ st.valid) (λ _ u tu same.
              Safe-pure _ tu.valid (record {
                bytes = bytes;
                kept = KeepsBytes-trans h.0 (same_pages-KeepsBytes t u same);
                reads = ReadsAs-same u t a size bytes (sym same) h.1;
                made = refl;
              }))))
]

-- From a state with a valid cache and a canonicalizer that yields addresses and is idempotent, for
-- a 64-bit address and a value of two words: if `write` of a size succeeds and then `read` of the
-- same address and size succeeds, it returns the value masked to eight bits for each byte of the
-- size.
pub read-write :
    (s t u : Space) (address size : ℕ) (value found : U128)
    → CacheIsValid s
    → IsCanonical s
    → address < word
    → IsWords value
    → write address size value s ≡ (done tt, t)
    → read address size t ≡ (done found, u)
    → found ≡ mask value (size * 8)
read-write s t u address size value found valid canon a< words wrote got =
    let stored = disassemble value 0 size in
    let (st, (le, written)) =
      ended tt t (write-Written s address size value valid canon a<) wrote in
    let canon' = IsCanonical-same s t st.same canon in
    let (tu, r) = ended found u (read-ReadValue t address size st.valid canon' a<) got in
    let at : canonicalize t address ≡ canonicalize s address =
      canonicalize_same s t address st.same in
    let len : length stored ≡ size = length-disassemble value 0 size in
    let same : r.bytes ≡ stored = list_ext r.bytes stored (r.reads.0 ∙ sym len) (λ i i<.
      some_nat _ _ (
        sym (r.reads.1 i (subst (λ n. i < n) len i<))
        ∙ ap (λ a. byte_at u (a + i)) at
        ∙ r.kept.keep (canonicalize s address + i) (get_or stored i 0) (written.inside i i<))) in
    r.made
    ∙ ap (λ bytes. assemble 0 bytes (u128 0 0)) same
    ∙ assemble-disassemble value size words le
