-- ===== src/Uint32/Decimal/Digits.antt =====
-- What the decimal printers write.
use mcdb.Base.{
  ℕ, zero, suc, ◌+◌, ◌-◌, ◌*◌, ◌/◌, ◌%◌, ◌^◌, ◌≤◌, ◌<◌, ◌≡◌, ap, subst, ◌∙◌, inl, inr, some,
}
use mcdb.Base.{
  List, [], ◌∷◌, ◌++◌, length, All, Bool-cases, true, ltb, ◌==◌, if◌then◌else◌, drop, arith,
}
use mcdb.Uint32.Decimal.{base10_digits, uint32_to_ascii_base10, int32_to_ascii_base10, int_min_text}
use native.Mathlib.Nat.{pow-suc}

abbrev pub IsDigit : ℕ → Type 0
IsDigit c = (b'0' ≤ c) × (c ≤ b'9')

-- The number that decimal digits spell behind `n`.
abbrev pub decimal : ℕ → List ℕ → ℕ
decimal n [] = n
decimal n (c ∷ s) = decimal (n * 10 + (c - b'0')) s

-- `s` is a decimal text of `x` of 1 to `most` digits; `f` is the run that wrote it.
pub record Prints (x most : ℕ) (s : List ℕ) : Type 0 where
  pub digits : All IsDigit s
  pub value : decimal 0 s ≡ x
  pub some_digit : 1 ≤ length s
  pub few : length s ≤ most

==-zero : (a : ℕ) → a ≡ 0 → (a == 0) ≡ true
==-zero a h = ground arith

base10_digits-decimal :
    (n i x : ℕ) (out : List ℕ)
    → x < 10 ^ suc n
    → n < i
    → All IsDigit out
    → (s : List ℕ) × (base10_digits i x out ≡ some s)
      × All IsDigit s
      × (decimal 0 s ≡ decimal x out)
      × (length out < length s)
      × (length s ≤ suc n + length out)
unfolding base10_digits
base10_digits-decimal n zero x out h lt d = absurd (omega arith)
base10_digits-decimal zero (suc i) x out h lt d = (
  (x % 10 + b'0') ∷ out,
  rw (==-zero (x / 10) (omega arith)),
  (omega arith, d),
  ap (λ (t : ℕ). decimal t out) (omega arith),
  omega arith,
  omega arith,
)
base10_digits-decimal (suc n) (suc i) x out h lt d = elim (Bool-cases (x / 10 == 0)) [
  | inl done ↦ (
    (x % 10 + b'0') ∷ out,
    rw done,
    (omega arith, d),
    ap (λ (t : ℕ). decimal t out) (ground arith),
    omega arith,
    omega arith,
  )
  | inr more ↦
      let (s, run, digits, value, longer, few) =
        base10_digits-decimal n i (x / 10) ((x % 10 + b'0') ∷ out)
          (omega (arith, h, pow-suc 10 (suc n))) (omega arith) (omega arith, d) in
      (
        s,
        rw more run,
        digits,
        value ∙ ap (λ (t : ℕ). decimal t out) (omega arith),
        omega arith,
        omega arith,
      )
]

-- Every uint32_t is printed as one to ten decimal digits that spell it, and the loop ends.
pub uint32_to_ascii_base10-Prints :
    (x : ℕ) → x < 2 ^ 32 → (s : List ℕ) × (uint32_to_ascii_base10 x ≡ some s) × Prints x 10 s
unfolding uint32_to_ascii_base10
uint32_to_ascii_base10-Prints x h = elim (Bool-cases (ltb x 10)) [
  | inl one ↦ (
    (x + b'0') ∷ [],
    rw one,
    record {
      digits = ground arith;
      value = omega arith;
      some_digit = omega arith;
      few = omega arith;
    },
  )
  | inr more ↦ elim (Bool-cases (ltb x 100)) [
    | inl two ↦ (
      (x / 10 + b'0') ∷ (x % 10 + b'0') ∷ [],
      rw (more, two),
      record {
        digits = ground arith;
        value = omega arith;
        some_digit = omega arith;
        few = omega arith;
      },
    )
    | inr many ↦
        let (s, run, digits, value, longer, few) =
          base10_digits-decimal 9 12 x [] (omega arith) (omega arith) tt in
        (
          s,
          rw (more, many) run,
          record { digits = digits; value = value; some_digit = longer; few = omega arith },
        )
  ]
]

-- The sign and the absolute value of the `int32_t` with bit pattern `x`.
abbrev pub sign : ℕ → List ℕ
sign x = if ltb x (2 ^ 31) then [] else b'-' ∷ []

abbrev pub magnitude : ℕ → ℕ
magnitude x = if ltb x (2 ^ 31) then x else 2 ^ 32 - x

int_min-Prints : Prints (2 ^ 31) 10 (drop 1 int_min_text)
int_min-Prints = record {
  digits = omega arith;
  value = omega arith;
  some_digit = omega arith;
  few = omega arith;
}

-- An int32_t is printed as its absolute value, behind a minus sign if it is negative; the one
-- value whose negation overflows included.
pub int32_to_ascii_base10-Prints :
    (x : ℕ)
    → x < 2 ^ 32
    → (s : List ℕ) × (int32_to_ascii_base10 x ≡ some (sign x ++ s)) × Prints (magnitude x) 10 s
unfolding int32_to_ascii_base10
int32_to_ascii_base10-Prints x h = elim (Bool-cases (ltb x (2 ^ 31))) [
  | inl plus ↦ rw plus (uint32_to_ascii_base10-Prints x h)
  | inr minus ↦ elim (Bool-cases (x == 0x8000_0000)) [
    | inl least ↦ (
      drop 1 int_min_text,
      rw (minus, least),
      rw minus (subst (λ (m : ℕ). Prints m 10 (drop 1 int_min_text)) (ground arith) int_min-Prints),
    )
    | inr other ↦
        let (s, run, prints) = uint32_to_ascii_base10-Prints (2 ^ 32 - x) (ground arith) in
        (s, rw (minus, other, run), rw minus prints)
  ]
]
