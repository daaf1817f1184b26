-- ===== src/Memory/Access.antt =====
-- src/exec/memory.cpp: `readBytes`, `readResidentBytes`, `writeBytes`, `read`, `write`, `refresh`,
-- `seedImage`. A read returns the bytes that the code writes to `out`.
use xdec.Base.{
  ℕ, zero, suc, ◌+◌, ◌-◌, ◌*◌, min, bit_and, bit_or, Bool, true, false, ◌&&◌, ◌||◌, Option, none,
  some, List, [], ◌∷◌, ◌++◌, ltb, leb, ◌==◌, ◌/=◌, if◌then◌else◌, length, take, drop, DiagCode,
  diag, Result,
}
use xdec.Bits.{wrap, ◌<<◌}
use xdec.Bits.{◌>>◌ as shift_right}
use xdec.U128.{U128, u128}
use xdec.Memory.Permission
use xdec.Memory.Permission.{has_permission}
use xdec.Memory.State.{
  PageSeed, MemoryAccess, M, done, failed, fault, pure, fail, ◌>>=◌, ◌>>◌, lift, page_size,
  page_base, canonicalize, wraps, pages_of, for_pages, deref, change_page, fresh_generation,
}
use xdec.Memory.Paging.{lookup, page_at, resident_page, ensure, seed}
use xdec.Memory.Dirty.{mark_dirty, clear_dirty}

abbrev pub page_offset : ℕ → ℕ
page_offset address = bit_and address (page_size - 1)

-- `std::copy_n` out of a page.
unfoldable pub slice : (ℕ → ℕ) → ℕ → ℕ → List ℕ
slice bytes offset zero = []
slice bytes offset (suc n) = bytes offset ∷ slice bytes (offset + 1) n

-- `std::copy_n` into a page.
unfoldable pub splice : (ℕ → ℕ) → ℕ → List ℕ → ℕ → ℕ
splice bytes offset [] i = bytes i
splice bytes offset (b ∷ bs) i = if i == offset then b else splice bytes (offset + 1) bs i

-- The page of `pageAt`, where the code dereferences it without a test.
unfoldable pub page_key : ℕ → M ℕ
page_key address = do
  page ← page_at address
  elim page [ none ↦ λ s. (fault, s) | some key ↦ pure key ]

-- The copy loop: one page's worth a round.
unfoldable pub copy_out : ℕ → ℕ → ℕ → M (List ℕ)
copy_out zero cursor left = pure []
copy_out (suc rounds) cursor left =
    let offset = page_offset cursor in
    let chunk = min left (page_size - offset) in
    let rest = copy_out rounds (wrap (cursor + chunk)) (left - chunk) in
    if left == 0
    then pure []
    else (page_key cursor >>= λ key.
        deref key >>= λ p. rest >>= λ bytes. pure (slice p.bytes offset chunk ++ bytes))

unfoldable pub read_bytes : ℕ → ℕ → ℕ → M (List ℕ)
read_bytes address size permission s =
    let a = canonicalize s address in
    let offset = page_offset a in
    if (size /= 0) && leb (offset + size) page_size
    then (resident_page (page_base a) permission >>= λ key.
          deref key >>= λ p. pure (slice p.bytes offset size))
        s
    else (ensure a size permission >> copy_out size a size) s

unfoldable pub all_resident : List ℕ → M Bool
all_resident [] = pure true
all_resident (page ∷ rest) = do
  found ← lookup page
  elim found [ none ↦ pure false | some key ↦ all_resident rest ]

-- `none` is the failure that the code reports as false.
unfoldable pub read_resident_bytes : ℕ → ℕ → M (Option (List ℕ))
read_resident_bytes address size s =
    let a = canonicalize s address in
    if size == 0
    then (done (some []), s)
    else if wraps a size
    then (done none, s)
    else (all_resident (pages_of a size) >>= λ resident.
          if resident then (copy_out size a size >>= λ bytes. pure (some bytes)) else pure none)
        s

-- The stores of one page: the bytes, their dirty bits and a new generation.
unfoldable pub store_page : ℕ → ℕ → ℕ → List ℕ → M (Unit {0})
store_page key base offset bytes = do
  change_page key (λ p. record p { bytes = splice p.bytes offset bytes })
  mark_dirty key base offset (length bytes)
  generation ← fresh_generation
  change_page key (λ p. record p { generation = generation })

unfoldable pub copy_in : ℕ → ℕ → List ℕ → M (Unit {0})
copy_in zero cursor bytes = pure tt
copy_in (suc rounds) cursor bytes =
    let offset = page_offset cursor in
    let chunk = min (length bytes) (page_size - offset) in
    let rest = copy_in rounds (wrap (cursor + chunk)) (drop chunk bytes) in
    if length bytes == 0
    then pure tt
    else (page_key cursor >>= λ key.
        store_page key (page_base cursor) offset (take chunk bytes) >> rest)

unfoldable pub write_bytes : ℕ → List ℕ → M (Unit {0})
write_bytes address bytes s =
    let a = canonicalize s address in
    let offset = page_offset a in
    if length bytes == 0
    then (done tt, s)
    else if leb (offset + length bytes) page_size
    then (resident_page (page_base a) Permission.write >>= λ key.
          store_page key (page_base a) offset bytes)
        s
    else (ensure a (length bytes) Permission.write >> copy_in (length bytes) a bytes) s

-- `value.lo |= byte << (index * 8)` and the like for the high word.
unfoldable pub assemble : ℕ → List ℕ → U128 → U128
assemble index [] value = value
assemble index (b ∷ bs) value = assemble (index + 1) bs (
    if ltb index 8
    then u128 (bit_or value.lo (b << (index * 8))) value.hi
    else u128 value.lo (bit_or value.hi (b << ((index - 8) * 8))))

unfoldable pub value_byte : U128 → ℕ → ℕ
value_byte value index =
    bit_and
      (if ltb index 8
        then shift_right value.lo (index * 8)
        else shift_right value.hi ((index - 8) * 8))
      0xff

unfoldable pub disassemble : U128 → ℕ → ℕ → List ℕ
disassemble value index zero = []
disassemble value index (suc n) = value_byte value index ∷ disassemble value (index + 1) n

unfoldable pub observe : ℕ → ℕ → Bool → U128 → M (Unit {0})
observe address size is_write value s =
    let access : MemoryAccess = record {
      instruction = s.instruction;
      address = address;
      size = size;
      is_write = is_write;
      value = value;
    } in
    (done tt, if s.observing then record s { accesses = access ∷ s.accesses } else s)

unfoldable pub read : ℕ → ℕ → M U128
read address bytes =
    if bytes == 0 || ltb 16 bytes
    then fail (diag DiagCode.internal)
    else (read_bytes address bytes Permission.read >>= λ storage.
        let value = assemble 0 storage (u128 0 0) in
        (observe address bytes false value >> pure value))

unfoldable pub write : ℕ → ℕ → U128 → M (Unit {0})
write address bytes value =
    if bytes == 0 || ltb 16 bytes
    then fail (diag DiagCode.internal)
    else (write_bytes address (disassemble value 0 bytes) >> observe address bytes true value)

unfoldable pub refresh_page : (ℕ → Result (Option PageSeed)) → ℕ → M (Unit {0})
refresh_page provide page = do
  found ← lookup page
  elim found [
    | none ↦ pure tt
    | some key ↦
        (lift (provide page) >>= λ supplied. elim supplied [
          | none ↦ pure tt
          | some seed ↦
              (fresh_generation >>= λ generation. change_page key (λ p. record p {
                bytes = seed.bytes;
                permissions = seed.permissions;
                generation = generation;
              }))
        ])
  ]

unfoldable pub refresh : ℕ → ℕ → M (Unit {0})
refresh address size s =
    let a = canonicalize s address in
    elim s.provider [
      | none ↦ (done tt, s)
      | some provide ↦
          if size == 0
          then (done tt, s)
          else if wraps a size
          then (failed (diag DiagCode.out_of_range), s)
          else for_pages (pages_of a size) (refresh_page provide) s
    ]

-- A region of the image's memory map, with its bytes or the error of `image.read` at an offset.
pub record ImageRegion : Type 0 where
  pub va : ℕ
  pub size : ℕ
  pub permissions : ℕ
  pub content : ℕ → ℕ → Result (List ℕ)

-- `convert`, from the permissions of the image; its bits are named alike.
unfoldable pub convert : ℕ → ℕ
convert permissions =
    let kept = λ (p result : ℕ). if has_permission permissions p then bit_or result p else result in
    kept Permission.execute (kept Permission.write (kept Permission.read Permission.none))

-- The chunks of a region from `offset` on.
unfoldable pub seed_chunks : ℕ → ImageRegion → ℕ → M (Unit {0})
seed_chunks zero region offset = pure tt
seed_chunks (suc rounds) region offset =
    let chunk = min page_size (region.size - offset) in
    let rest = seed_chunks rounds region (offset + chunk) in
    if ltb offset region.size
    then (lift (region.content offset chunk) >>= λ bytes.
        seed (wrap (region.va + offset)) bytes (convert region.permissions) >> rest)
    else pure tt

unfoldable pub seed_regions : List ImageRegion → M (Unit {0})
seed_regions [] = clear_dirty
seed_regions (region ∷ rest) = seed_chunks region.size region 0 >> seed_regions rest
