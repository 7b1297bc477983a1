-- ===== src/Uint32/Hex.antt =====
-- uint32.h and uint32.c: the branchless conversions between integers and hexadecimal text. The
-- intermediate values are `uint32_t`; a text is the list of its bytes.
pub mod Nibble
pub mod RoundTrip
use mcdb.Base.{
  ℕ, ◌+◌, ◌-◌, ◌*◌, ◌/◌, ◌%◌, ◌^◌, bit_and, bit_or, bit_xor, List, [], ◌∷◌, get_or, u32,
}

-- -(int32_t)((uint32_t)(x - y) >> 31)
unfoldable pub int32_x_lt_y_returns_all_ones : ℕ → ℕ → ℕ
int32_x_lt_y_returns_all_ones x y = u32 (2 ^ 32 - u32 (x + 2 ^ 32 - y) / 2 ^ 31)

unfoldable pub int32_x_lt_y_select_a_else_b : ℕ → ℕ → ℕ → ℕ → ℕ
unfolding int32_x_lt_y_returns_all_ones
int32_x_lt_y_select_a_else_b x y a b =
    bit_xor (bit_and (int32_x_lt_y_returns_all_ones x y) (bit_xor a b)) b

-- (char)(n + …)
unfoldable pub ntoux : ℕ → ℕ
unfolding int32_x_lt_y_select_a_else_b
ntoux n = u32 (n + int32_x_lt_y_select_a_else_b n 10 b'0' (b'A' - 10)) % 256

unfoldable pub uxton : ℕ → ℕ
unfolding int32_x_lt_y_select_a_else_b
uxton x = u32 (x + 2 ^ 32 - int32_x_lt_y_select_a_else_b x b'A' b'0' (b'A' - 10))

-- `~m` on 32 bits is 2 ^ 32 - 1 - m.
unfoldable pub int32_intermediate_select_a_else_b : ℕ → ℕ → ℕ → ℕ
int32_intermediate_select_a_else_b all_ones_or_all_zeros a b =
    bit_or (bit_and all_ones_or_all_zeros a) (bit_and (2 ^ 32 - 1 - all_ones_or_all_zeros) b)

unfoldable pub xton_select_lt_A : ℕ → ℕ → ℕ
unfolding int32_intermediate_select_a_else_b
xton_select_lt_A x x_lt_A_all_ones =
    int32_intermediate_select_a_else_b x_lt_A_all_ones (u32 (x + 2 ^ 32 - b'0')) (bit_and x 7 + 9)

unfoldable pub uint32_to_ascii8uphex : ℕ → List ℕ
uint32_to_ascii8uphex n =
    ntoux (bit_and n 0xf000_0000 / 2 ^ 28)
    ∷ ntoux (bit_and n 0x0f00_0000 / 2 ^ 24)
    ∷ ntoux (bit_and n 0x00f0_0000 / 2 ^ 20)
    ∷ ntoux (bit_and n 0x000f_0000 / 2 ^ 16)
    ∷ ntoux (bit_and n 0x0000_f000 / 2 ^ 12)
    ∷ ntoux (bit_and n 0x0000_0f00 / 2 ^ 8)
    ∷ ntoux (bit_and n 0x0000_00f0 / 2 ^ 4)
    ∷ ntoux (bit_and n 0x0000_000f)
    ∷ []

unfoldable pub uint16_to_ascii4uphex : ℕ → List ℕ
uint16_to_ascii4uphex n =
    ntoux (bit_and n 0x0000_f000 / 2 ^ 12)
    ∷ ntoux (bit_and n 0x0000_0f00 / 2 ^ 8)
    ∷ ntoux (bit_and n 0x0000_00f0 / 2 ^ 4)
    ∷ ntoux (bit_and n 0x0000_000f)
    ∷ []

-- (n0 | n1 | … | n7) of eight nibbles, shifted into place
unfoldable pub join8 : (ℕ → ℕ) → List ℕ → ℕ
join8 nibble b =
    let n = λ (i k : ℕ). u32 (nibble (get_or b i 0) * 2 ^ k) in
    bit_or
      (bit_or
        (bit_or (bit_or (bit_or (bit_or (bit_or (n 0 28) (n 1 24)) (n 2 20)) (n 3 16)) (n 4 12))
          (n 5 8))
        (n 6 4))
      (n 7 0)

-- `(uint16_t)` of four
unfoldable pub join4 : (ℕ → ℕ) → List ℕ → ℕ
join4 nibble b =
    let n = λ (i k : ℕ). u32 (nibble (get_or b i 0) * 2 ^ k) in
    bit_or (bit_or (bit_or (n 0 12) (n 1 8)) (n 2 4)) (n 3 0) % 2 ^ 16

unfoldable pub uint32_from_ascii8uphex : List ℕ → ℕ
unfolding join8
uint32_from_ascii8uphex buf = join8 uxton buf

unfoldable pub uint16_from_ascii4uphex : List ℕ → ℕ
unfolding join4
uint16_from_ascii4uphex buf = join4 uxton buf

-- The nibble of a digit in either case.
unfoldable pub xton : ℕ → ℕ
unfolding xton_select_lt_A
xton x = xton_select_lt_A x (int32_x_lt_y_returns_all_ones x b'A')

unfoldable pub uint32_from_ascii8hex : List ℕ → ℕ
unfolding join8
uint32_from_ascii8hex buf = join8 xton buf

unfoldable pub uint16_from_ascii4hex : List ℕ → ℕ
unfolding join4
uint16_from_ascii4hex buf = join4 xton buf
