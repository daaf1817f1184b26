-- ===== src/Memory.antt =====
-- src/exec/memory.cpp and include/xdec/exec/memory.h: the guest address space. `State` is its data,
-- `Paging`, `Dirty`, `Access` and `Patch` are its operations, and the other children prove.
pub mod Permission
pub mod State
pub mod Paging
pub mod Dirty
pub mod Access
pub mod Kind
pub mod Patch
pub mod Walk
pub mod Mapping
pub mod Valid
pub mod Safe
pub mod SafePaging
pub mod SafeRanges
pub mod SafeBytes
pub mod SafeAccess
pub mod Content
pub mod Stores
pub mod Edits
pub mod Writes
pub mod Roundtrip
pub mod SafeDirty
pub mod SafeResident
pub mod Sound
pub mod Bytes
pub mod Values
pub mod SafePatch
pub mod SafeApply
pub mod Setters
pub mod Op
pub mod Session
