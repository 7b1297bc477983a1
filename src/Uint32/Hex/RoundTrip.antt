-- ===== src/Uint32/Hex/RoundTrip.antt =====
-- Printing a number in hexadecimal and reading it back, and what the readers accept.
use mcdb.Base.{ℕ, ◌+◌, ◌*◌, ◌/◌, ◌%◌, ◌^◌, ◌<◌, bit_and, ◌≡◌, ap, ◌∙◌, List, [], ◌∷◌, All, arith}
use mcdb.Base.Bits.{bit_or-add, bit_and_shift, bit_and_mask}
use mcdb.Uint32.Hex.{ntoux, uxton, xton, join8, join4, uint32_to_ascii8uphex, uint16_to_ascii4uphex}
use mcdb.Uint32.Hex.{
  uint32_from_ascii8uphex, uint16_from_ascii4uphex, uint32_from_ascii8hex, uint16_from_ascii4hex,
}
use mcdb.Uint32.Hex.Nibble.{hex_value, IsHex, xton_digit, uxton-ntoux, xton-ntoux}

-- The number that digits spell behind `n`.
abbrev pub hex_number : ℕ → List ℕ → ℕ
hex_number n [] = n
hex_number n (c ∷ s) = hex_number (n * 16 + hex_value c) s

module _ (f : ℕ → ℕ) (a b c d : ℕ) where
  join4-add :
      f a < 16
      → f b < 16
      → f c < 16
      → f d < 16
      → join4 f (a ∷ b ∷ c ∷ d ∷ []) ≡ f a * 4096 + f b * 256 + f c * 16 + f d
  unfolding join4
  join4-add ha hb hc hd = ground (
    arith,
    bit_or-add 12 (f a) (f b * 2 ^ 8),
    bit_or-add 8 (f a * 16 + f b) (f c * 2 ^ 4),
    bit_or-add 4 (f a * 256 + f b * 16 + f c) (f d),
  )

  join8-add :
      (a' b' c' d' : ℕ)
      → f a < 16 × f b < 16 × f c < 16 × f d < 16
      → f a' < 16 × f b' < 16 × f c' < 16 × f d' < 16
      → join8 f (a ∷ b ∷ c ∷ d ∷ a' ∷ b' ∷ c' ∷ d' ∷ [])
        ≡ (f a * 4096 + f b * 256 + f c * 16 + f d) * 65536
          + (f a' * 4096 + f b' * 256 + f c' * 16 + f d')
  unfolding join8
  join8-add a' b' c' d' hi lo =
      let high = f a * 4096 + f b * 256 + f c * 16 + f d in
      ground (
        arith,
        bit_or-add 28 (f a) (f b * 2 ^ 24),
        bit_or-add 24 (f a * 16 + f b) (f c * 2 ^ 20),
        bit_or-add 20 (f a * 256 + f b * 16 + f c) (f d * 2 ^ 16),
        bit_or-add 16 high (f a' * 2 ^ 12),
        bit_or-add 12 (high * 16 + f a') (f b' * 2 ^ 8),
        bit_or-add 8 (high * 256 + f a' * 16 + f b') (f c' * 2 ^ 4),
        bit_or-add 4 (high * 4096 + f a' * 256 + f b' * 16 + f c') (f d'),
      )

-- Field `k` of a number, as the printers cut it out.
nibble_field : (k n : ℕ) → bit_and n (15 * 2 ^ k) / 2 ^ k ≡ n / 2 ^ k % 16
nibble_field k n = bit_and_shift k n 15 ∙ bit_and_mask 4 (n / 2 ^ k)

-- A reader `f` that inverts `ntoux` on nibbles inverts the printers.
module _ (f : ℕ → ℕ) (inverts : (v : ℕ) → v < 16 → f (ntoux v) ≡ v) where
  digit : (k n : ℕ) → f (ntoux (bit_and n (15 * 2 ^ k) / 2 ^ k)) ≡ n / 2 ^ k % 16
  digit k n =
      ap (λ (v : ℕ). f (ntoux v)) (nibble_field k n) ∙ inverts (n / 2 ^ k % 16) (omega arith)

  last_digit : (n : ℕ) → f (ntoux (bit_and n 15)) ≡ n % 16
  last_digit n = ap (λ (v : ℕ). f (ntoux v)) (bit_and_mask 4 n) ∙ inverts (n % 16) (omega arith)

  join8-to_ascii8uphex : (n : ℕ) → n < 2 ^ 32 → join8 f (uint32_to_ascii8uphex n) ≡ n
  unfolding uint32_to_ascii8uphex
  join8-to_ascii8uphex n h =
      join8-add f _ _ _ _ _ _ _ _ (omega (arith, digit 28 n, digit 24 n, digit 20 n, digit 16 n))
        (omega (arith, digit 12 n, digit 8 n, digit 4 n, last_digit n))
      ∙ omega (
        arith,
        digit 28 n,
        digit 24 n,
        digit 20 n,
        digit 16 n,
        digit 12 n,
        digit 8 n,
        digit 4 n,
        last_digit n,
      )

  join4-to_ascii4uphex : (n : ℕ) → n < 2 ^ 16 → join4 f (uint16_to_ascii4uphex n) ≡ n
  unfolding uint16_to_ascii4uphex
  join4-to_ascii4uphex n h =
      join4-add f _ _ _ _ (omega (arith, digit 12 n)) (omega (arith, digit 8 n))
        (omega (arith, digit 4 n)) (omega (arith, last_digit n))
      ∙ omega (arith, digit 12 n, digit 8 n, digit 4 n, last_digit n)

-- Every uint32_t, printed as eight upper-case digits, is read back by both readers.
pub from_ascii8hex-to_ascii8uphex :
    (n : ℕ)
    → n < 2 ^ 32
    → (uint32_from_ascii8uphex (uint32_to_ascii8uphex n) ≡ n)
      × (uint32_from_ascii8hex (uint32_to_ascii8uphex n) ≡ n)
unfolding uint32_from_ascii8uphex uint32_from_ascii8hex
from_ascii8hex-to_ascii8uphex n h =
    (join8-to_ascii8uphex uxton uxton-ntoux n h, join8-to_ascii8uphex xton xton-ntoux n h)

-- Every uint16_t, printed as four upper-case digits, is read back by both readers.
pub from_ascii4hex-to_ascii4uphex :
    (n : ℕ)
    → n < 2 ^ 16
    → (uint16_from_ascii4uphex (uint16_to_ascii4uphex n) ≡ n)
      × (uint16_from_ascii4hex (uint16_to_ascii4uphex n) ≡ n)
unfolding uint16_from_ascii4uphex uint16_from_ascii4hex
from_ascii4hex-to_ascii4uphex n h =
    (join4-to_ascii4uphex uxton uxton-ntoux n h, join4-to_ascii4uphex xton xton-ntoux n h)

-- The reader for upper or lower case gives, on any eight hexadecimal digits, the number they
-- spell.
pub from_ascii8hex-hex_number :
    (a b c d a' b' c' d' : ℕ)
    → All IsHex (a ∷ b ∷ c ∷ d ∷ a' ∷ b' ∷ c' ∷ d' ∷ [])
    → uint32_from_ascii8hex (a ∷ b ∷ c ∷ d ∷ a' ∷ b' ∷ c' ∷ d' ∷ [])
      ≡ hex_number 0 (a ∷ b ∷ c ∷ d ∷ a' ∷ b' ∷ c' ∷ d' ∷ [])
unfolding uint32_from_ascii8hex
from_ascii8hex-hex_number a b c d a' b' c' d'
      (ha, (hb, (hc, (hd, (ha', (hb', (hc', (hd', t)))))))) =
    let (ea, la) = xton_digit a ha in
    let (eb, lb) = xton_digit b hb in
    let (ec, lc) = xton_digit c hc in
    let (ed, ld) = xton_digit d hd in
    let (ea', la') = xton_digit a' ha' in
    let (eb', lb') = xton_digit b' hb' in
    let (ec', lc') = xton_digit c' hc' in
    let (ed', ld') = xton_digit d' hd' in
    join8-add xton a b c d a' b' c' d' (la, lb, lc, ld) (la', lb', lc', ld') ∙ omega arith
