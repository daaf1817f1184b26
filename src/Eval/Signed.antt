-- ===== src/Eval/Signed.antt =====
-- Division of `int64_t` in C++, on bit patterns: the quotient is truncated towards zero and the
-- remainder has the sign of the dividend.
use xdec.Base.{ℕ, ◌-◌, ◌/◌, ◌%◌, ◌^◌, Bool, ltb, if◌then◌else◌}
use xdec.Bits.{sub64}

abbrev pub int64_min : ℕ
int64_min = 2 ^ 63

abbrev pub minus_one : ℕ
minus_one = 2 ^ 64 - 1

unfoldable pub is_negative : ℕ → Bool
is_negative x = if ltb x int64_min then Bool.false else Bool.true

unfoldable pub magnitude : ℕ → ℕ
unfolding is_negative
magnitude x = if is_negative x then 2 ^ 64 - x else x

unfoldable pub div_s64 : ℕ → ℕ → ℕ
unfolding magnitude
div_s64 x y =
    let q = magnitude x / magnitude y in
    if is_negative x
    then (if is_negative y then q else sub64 0 q)
    else if is_negative y
    then sub64 0 q
    else q

unfoldable pub rem_s64 : ℕ → ℕ → ℕ
unfolding magnitude
rem_s64 x y = let r = magnitude x % magnitude y in if is_negative x then sub64 0 r else r
