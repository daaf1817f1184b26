-- ===== src/Memory/Setters.antt =====
-- include/xdec/exec/memory.h: the setters of `GuestAddressSpace`, and what a copy of a space is.
use xdec.Base.{ℕ, Bool, Option, none, Result}
use xdec.Memory.State.{PageSeed, M, Outcome, no_page}

unfoldable pub set_page_provider : Option (ℕ → Result (Option PageSeed)) → M (Unit {0})
set_page_provider provider s = (Outcome.done tt, record s { provider = provider })

-- The observer is the log; setting it turns the log on, an empty one turns it off.
unfoldable pub set_access_observer : Bool → M (Unit {0})
set_access_observer observing s = (Outcome.done tt, record s { observing = observing })

unfoldable pub set_instruction_context : ℕ → M (Unit {0})
set_instruction_context pc s = (Outcome.done tt, record s { instruction = pc })

-- The copy of a `PageCache` is empty; all else is copied.
unfoldable pub copy : M (Unit {0})
copy s = (Outcome.done tt, record s { cache_base = no_page; cache_page = none })
