-- ===== src/Base/Errors.antt =====
-- include/xdec/support/result.h and diag.h: a value or a diagnostic. A diagnostic keeps its code
-- and its address; message texts are left out.
use Prim.Native.Nat.{ℕ}
use mathlib.Core.Option.{Option, none, some}

pub data DiagCode : Type 0 where
  internal not_implemented io_error bad_format unsupported_format unsupported_arch : DiagCode
  out_of_range unmapped_address decode_failure lift_failure parse_error verify_failure : DiagCode
  analysis_limit plugin_error cancelled timeout : DiagCode

pub record Diag : Type 0 where
  pub code : DiagCode
  pub address : Option ℕ

pub data Result {ℓ} (A : Type ℓ) : Type ℓ where
  ok : A → Result A
  err : Diag → Result A

abbrev pub diag : DiagCode → Diag
diag c = record { code = c; address = none }

abbrev pub diag_at : DiagCode → ℕ → Diag
diag_at c a = record { code = c; address = some a }
