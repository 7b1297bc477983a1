-- ===== src/Uint32/Decimal.antt =====
-- uint32.c, uint32.h: decimal text of an integer. The text is the list of bytes written to `buf`;
-- `none` stands for a write in front of the local array `b[12]`.
pub mod Digits
use mcdb.Base.{ℕ, zero, suc, ◌+◌, ◌-◌, ◌/◌, ◌%◌, ◌^◌, Option, none, some, List, [], ◌∷◌}
use mcdb.Base.{ltb, ◌==◌, not, if◌then◌else◌}
use mathlib.Core.Option

-- do { b[--i] = (x % 10) + '0'; } while ((x /= 10)), where `i` places are free in front of `out`
unfoldable pub base10_digits : ℕ → ℕ → List ℕ → Option (List ℕ)
base10_digits zero x out = none
base10_digits (suc i) x out =
    let out' = (x % 10 + b'0') ∷ out in
    let rest = base10_digits i (x / 10) out' in if x / 10 == 0 then some out' else rest

unfoldable pub uint32_to_ascii_base10_loop : ℕ → Option (List ℕ)
unfolding base10_digits
uint32_to_ascii_base10_loop x = base10_digits 12 x []

unfoldable pub uint32_to_ascii_base10 : ℕ → Option (List ℕ)
unfolding uint32_to_ascii_base10_loop
uint32_to_ascii_base10 x =
    if ltb x 10
    then some ((x + b'0') ∷ [])
    else if ltb x 100
    then some ((x / 10 + b'0') ∷ (x % 10 + b'0') ∷ [])
    else uint32_to_ascii_base10_loop x

abbrev int_min_text : List ℕ
int_min_text = b'-' ∷ b'2' ∷ b'1' ∷ b'4' ∷ b'7' ∷ b'4' ∷ b'8' ∷ b'3' ∷ b'6' ∷ b'4' ∷ b'8' ∷ []

-- The argument is the bit pattern of an `int32_t`; `-x` of a pattern is 2 ^ 32 - x.
unfoldable pub int32_to_ascii_base10 : ℕ → Option (List ℕ)
unfolding uint32_to_ascii_base10
int32_to_ascii_base10 x =
    if ltb x (2 ^ 31)
    then uint32_to_ascii_base10 x
    else if not (x == 0x8000_0000)
    then Option.map (λ s. b'-' ∷ s) (uint32_to_ascii_base10 (2 ^ 32 - x))
    else some int_min_text
