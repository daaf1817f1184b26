-- ===== src/U128/Arith.antt =====
-- src/il/u128.h: `add`, `sub` and the multiplications are arithmetic modulo `2 ^ width`.
use Prim.Native.Nat.{Ordering}
use xdec.Base.{ℕ, ◌+◌, ◌-◌, ◌%◌, ◌^◌, ◌≤◌, ◌<◌, ◌≡◌, ap, ◌∙◌, arith, ltb, true, ◌↔◌}
use xdec.Bits.{sub64}
use xdec.Bits.Powers.{mod-mod_pow}
use xdec.U128.{U128, u128, mask, add, sub, cmp_u, bool_word}
use xdec.U128.Value.{value, IsWords, value-mask}

-- Masking a sum that is kept modulo `2 ^ 128`.
pub value-mask_of_mod :
    (r : U128) (n w : ℕ)
    → IsWords r
    → w ≤ 128
    → value r ≡ n % 2 ^ 128
    → value (mask r w) ≡ n % 2 ^ w
value-mask_of_mod r n w h le e =
    value-mask r w h le ∙ ap (λ x. x % 2 ^ w) e ∙ mod-mod_pow n w 128 le

add_words : U128 → U128 → U128
add_words a b =
    u128 ((a.lo + b.lo) % 2 ^ 64)
      (((a.hi + b.hi) % 2 ^ 64 + bool_word (ltb ((a.lo + b.lo) % 2 ^ 64) a.lo)) % 2 ^ 64)

add_words-value :
    (a b : U128) → IsWords a → IsWords b → value (add_words a b) ≡ (value a + value b) % 2 ^ 128
unfolding add_words
add_words-value a b ha hb = ground arith

-- For values of two 64-bit words and a width up to 128, `add` is addition modulo `2 ^ width`.
pub value-add :
    (a b : U128) (w : ℕ)
    → IsWords a
    → IsWords b
    → w ≤ 128
    → value (add a b w).0 ≡ (value a + value b) % 2 ^ w
unfolding add add_words
value-add a b w ha hb le =
    value-mask_of_mod (add_words a b) (value a + value b) w (omega arith) le
      (add_words-value a b ha hb)

-- For values of two 64-bit words, the carry out of `add` is set exactly if the sum reaches `2 ^
-- 128`, at every width.
pub add-carry_iff :
    (a b : U128) (w : ℕ)
    → IsWords a
    → IsWords b
    → ((add a b w).1 ≡ true) ↔ (2 ^ 128 ≤ value a + value b)
unfolding add
add-carry_iff a b w ha hb = ground arith

sub_words : U128 → U128 → U128
sub_words a b = u128 (sub64 a.lo b.lo) (sub64 (sub64 a.hi b.hi) (bool_word (ltb a.lo b.lo)))

sub_words-value :
    (a b : U128)
    → IsWords a
    → IsWords b
    → value (sub_words a b) ≡ (value a + 2 ^ 128 - value b) % 2 ^ 128
unfolding sub_words
sub_words-value a b ha hb = ground arith

-- For values of two 64-bit words and a width up to 128, `sub` is subtraction modulo `2 ^ width`.
pub value-sub :
    (a b : U128) (w : ℕ)
    → IsWords a
    → IsWords b
    → w ≤ 128
    → value (sub a b w) ≡ (value a + 2 ^ 128 - value b) % 2 ^ w
unfolding sub sub_words
value-sub a b w ha hb le =
    value-mask_of_mod (sub_words a b) (value a + 2 ^ 128 - value b) w (omega arith) le
      (sub_words-value a b ha hb)

-- For values of two 64-bit words, `cmp_u` answers less exactly if the first value is below the
-- second.
pub cmp_u-lt_iff :
    (a b : U128) → IsWords a → IsWords b → (cmp_u a b ≡ Ordering.lt) ↔ (value a < value b)
unfolding cmp_u
cmp_u-lt_iff a b ha hb = ground arith

pub cmp_u-eq_iff :
    (a b : U128) → IsWords a → IsWords b → (cmp_u a b ≡ Ordering.eq) ↔ (value a ≡ value b)
unfolding cmp_u
cmp_u-eq_iff a b ha hb = ground arith
