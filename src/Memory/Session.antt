-- ===== src/Memory/Session.antt =====
-- src/exec/memory.cpp: the public operations of `GuestAddressSpace` as the steps of a session, and
-- the states that a session reaches.
use xdec.Base.{refl, inl, List, [], ◌∷◌, All}
use xdec.Memory.State.{Space, M, ◌>>=◌, pure}
use xdec.Memory.Paging.{seed, map, protect, unmap, generation_at}
use xdec.Memory.Access.{read_bytes, write_bytes, read, write}
use xdec.Memory.Valid.{is_resident, Safe-pure, Safe-bind, CacheIsValid, Safe}
use xdec.Memory.SafeRanges.{IsCanonical, map-Safe, protect-Safe}
use xdec.Memory.Sound.{SoundAt, Safe-SoundAt, unmap-SoundAt, after, IsCanonical-same}
use xdec.Memory.Patch.{validate, apply}
use xdec.Memory.SafeApply.{validate-Safe, apply-SoundAt}
use xdec.Memory.Setters.{set_page_provider, set_access_observer, set_instruction_context, copy}
use xdec.Memory.Op.{Op, IsRequest}
use xdec.Memory.Access.{refresh, read_resident_bytes}
use xdec.Memory.Dirty.{dirty_ranges, clear_dirty}
use xdec.Memory.SafeDirty.{dirty_ranges-Safe, clear_dirty-Safe, generation_at-Safe, refresh-Safe}
use xdec.Memory.SafeResident.{read_resident_bytes-Safe}
use xdec.Memory.SafeAccess.{read_bytes-Safe, write_bytes-Safe, seed-Safe, read-Safe, write-Safe}

-- What a session does with an operation; the caller gets the result, which is dropped here.
abbrev dropped : {A : Type 0} → M A → M (Unit {0})
dropped m = m >>= λ _. pure tt

unfoldable pub step : Op → M (Unit {0})
step (Op.map address size permissions) = map address size permissions
step (Op.seed address bytes permissions) = seed address bytes permissions
step (Op.protect address size permissions) = protect address size permissions
step (Op.unmap address size) = unmap address size
step (Op.read address size) = dropped (read address size)
step (Op.write address size value) = write address size value
step (Op.read_bytes address size permission) = dropped (read_bytes address size permission)
step (Op.read_resident_bytes address size) = dropped (read_resident_bytes address size)
step (Op.write_bytes address bytes) = write_bytes address bytes
step (Op.refresh address size) = refresh address size
step Op.dirty_ranges = dropped dirty_ranges
step Op.clear_dirty = clear_dirty
step (Op.generation_at address) = dropped (generation_at address)
step (Op.validate patches) = validate patches
step (Op.apply patches) = apply patches
step (Op.set_page_provider provider) = set_page_provider provider
step (Op.set_access_observer observing) = set_access_observer observing
step (Op.set_instruction_context pc) = set_instruction_context pc
step Op.copy = copy

dropped-SoundAt :
    {A : Type 0} (s : Space) (Q : A → Space → Type 0) (m : M A)
    → Safe s Q (m s)
    → SoundAt s (dropped m s)
dropped-SoundAt s Q m h =
    Safe-SoundAt
      (Safe-bind {R = λ _ _. Unit {0}} (λ _. pure tt) h (λ a t st q. Safe-pure tt st.valid tt))

step-SoundAt :
    (s : Space) (op : Op) → CacheIsValid s → IsCanonical s → IsRequest op → SoundAt s (step op s)
unfolding step IsRequest SoundAt CacheIsValid is_resident copy set_page_provider set_access_observer
    set_instruction_context
step-SoundAt s (Op.map address size permissions) valid canon h =
    Safe-SoundAt (map-Safe s address size permissions valid)
step-SoundAt s (Op.seed address bytes permissions) valid canon (a<, n<) =
    Safe-SoundAt (seed-Safe s address bytes permissions valid canon a< n<)
step-SoundAt s (Op.protect address size permissions) valid canon (a<, n<) =
    Safe-SoundAt (protect-Safe s address size permissions valid canon a< n<)
step-SoundAt s (Op.unmap address size) valid canon (a<, n<) =
    unmap-SoundAt s address size valid canon a< n<
step-SoundAt s (Op.read address size) valid canon a< =
    dropped-SoundAt s _ (read address size) (read-Safe s address size valid canon a<)
step-SoundAt s (Op.write address size value) valid canon a< =
    Safe-SoundAt (write-Safe s address size value valid canon a<)
step-SoundAt s (Op.read_bytes address size permission) valid canon (a<, n<) =
    dropped-SoundAt s _ (read_bytes address size permission)
      (read_bytes-Safe s address size permission valid canon a< n<)
step-SoundAt s (Op.read_resident_bytes address size) valid canon (a<, n<) =
    dropped-SoundAt s _ (read_resident_bytes address size)
      (read_resident_bytes-Safe s address size valid canon a< n<)
step-SoundAt s (Op.write_bytes address bytes) valid canon (a<, n<) =
    Safe-SoundAt (write_bytes-Safe s address bytes valid canon a< n<)
step-SoundAt s (Op.refresh address size) valid canon h =
    Safe-SoundAt (refresh-Safe s address size valid)
step-SoundAt s Op.dirty_ranges valid canon h =
    dropped-SoundAt s _ dirty_ranges (dirty_ranges-Safe s valid)
step-SoundAt s Op.clear_dirty valid canon h = Safe-SoundAt (clear_dirty-Safe s valid)
step-SoundAt s (Op.generation_at address) valid canon h =
    dropped-SoundAt s _ (generation_at address) (generation_at-Safe s address valid)
step-SoundAt s (Op.validate patches) valid canon h =
    Safe-SoundAt (validate-Safe s patches valid canon h)
step-SoundAt s (Op.apply patches) valid canon h = apply-SoundAt s patches valid canon h
step-SoundAt s (Op.set_page_provider provider) valid canon h = (valid, refl)
step-SoundAt s (Op.set_access_observer observing) valid canon h = (valid, refl)
step-SoundAt s (Op.set_instruction_context pc) valid canon h = (valid, refl)
step-SoundAt s Op.copy valid canon h = (inl (refl, refl), refl)

-- A session: any operations in any order, the failing ones included.
unfoldable pub run : List Op → Space → Space
run [] s = s
run (op ∷ ops) s = run ops ((step op s).1)

-- From any state with a valid page cache and a canonicalizer that yields addresses and is
-- idempotent, after any sequence of the operations of `Op` with 64-bit arguments, failing ones
-- included, the next one reads through no null or dangling page pointer, and leaves the cache valid
-- and the canonicalizer unchanged.
pub session-SoundAt :
    (s : Space) (ops : List Op) (op : Op)
    → CacheIsValid s
    → IsCanonical s
    → All IsRequest ops
    → IsRequest op
    → SoundAt (run ops s) (step op (run ops s))
unfolding run
session-SoundAt s [] op valid canon requests request = step-SoundAt s op valid canon request
session-SoundAt s (first ∷ ops) op valid canon (now, later) request =
    let t = (step first s).1 in
    let (valid', same) = after s (step first s) (step-SoundAt s first valid canon now) in
    session-SoundAt t ops op valid' (IsCanonical-same s t same canon) later request
