-- ===== src/Uint32/Hex/Nibble.antt =====
-- One hexadecimal digit: the branchless arithmetic agrees with the table of digits.
use mcdb.Base.{ℕ, ◌-◌, ◌<◌, ◌≡◌, refl, ◌∙◌, Bool, true, ◌&&◌, ◌||◌, ◌==◌, leb, if◌then◌else◌, arith}
use mcdb.Base.Bits.{every_below, every_below_sound}
use mcdb.Uint32.Hex.{int32_x_lt_y_returns_all_ones, ntoux, uxton, xton}

-- The digit's value, by its three ranges.
abbrev pub hex_value : ℕ → ℕ
hex_value c =
    if leb c b'9' then c - b'0' else if leb c b'F' then c - (b'A' - 10) else c - (b'a' - 10)

abbrev is_upper_hex : ℕ → Bool
is_upper_hex c = (leb b'0' c && leb c b'9') || (leb b'A' c && leb c b'F')

abbrev is_hex : ℕ → Bool
is_hex c = is_upper_hex c || (leb b'a' c && leb c b'f')

abbrev pub IsUpperHex : ℕ → Type 0
IsUpperHex c = is_upper_hex c ≡ true

abbrev pub IsHex : ℕ → Type 0
IsHex c = is_hex c ≡ true

pub hex_value-lt : (c : ℕ) → IsHex c → hex_value c < 16
hex_value-lt c h = ground arith

ntoux_table : every_below 16 (λ n. is_upper_hex (ntoux n) && hex_value (ntoux n) == n) ≡ true
unfolding every_below ntoux
ntoux_table = refl

uxton_table : every_below 256 (λ c. if is_upper_hex c then uxton c == hex_value c else true) ≡ true
unfolding every_below uxton
uxton_table = refl

xton_table : every_below 256 (λ c. if is_hex c then xton c == hex_value c else true) ≡ true
unfolding every_below xton int32_x_lt_y_returns_all_ones
xton_table = refl

pub ntoux_digit : (n : ℕ) → n < 16 → IsUpperHex (ntoux n) × (hex_value (ntoux n) ≡ n)
ntoux_digit n h = ground (arith, every_below_sound 16 _ n ntoux_table h)

pub uxton-hex_value : (c : ℕ) → IsUpperHex c → uxton c ≡ hex_value c
uxton-hex_value c h = ground (arith, every_below_sound 256 _ c uxton_table (ground arith))

pub xton-hex_value : (c : ℕ) → IsHex c → xton c ≡ hex_value c
xton-hex_value c h = ground (arith, every_below_sound 256 _ c xton_table (ground arith))

pub uxton-ntoux : (n : ℕ) → n < 16 → uxton (ntoux n) ≡ n
uxton-ntoux n h = let (upper, value) = ntoux_digit n h in uxton-hex_value (ntoux n) upper ∙ value

pub xton-ntoux : (n : ℕ) → n < 16 → xton (ntoux n) ≡ n
xton-ntoux n h = let (upper, value) = ntoux_digit n h in xton-hex_value (ntoux n) (rw upper) ∙ value

pub xton_digit : (c : ℕ) → IsHex c → (xton c ≡ hex_value c) × (xton c < 16)
xton_digit c h = let e = xton-hex_value c h in (e, omega (arith, e, hex_value-lt c h))
