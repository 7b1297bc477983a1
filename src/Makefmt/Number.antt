-- ===== src/Makefmt/Number.antt =====
-- Numbers in the text are read as they are printed.
use mcdb.Base.{
  ℕ, zero, suc, ◌+◌, ◌-◌, ◌*◌, ◌≤◌, ◌≡◌, refl, sym, ◌∙◌, ap, subst, inl, inr, List, [], ◌∷◌, Bool,
  true, false,
}
use mcdb.Base.{not, ◌||◌, ◌==◌, length, leb, Bool-cases, arith, All}
use mcdb.Base.Memory.{Memory, At}
use mathlib.Core.Bool.{false≢true}
use mcdb.Uint32.Decimal.Digits.{IsDigit, decimal}
use mcdb.Makefmt.{Input, is_digit, number_loop, mcdb_bufread_number}

is_digit_digit : (c : ℕ) → IsDigit c → is_digit c ≡ true
unfolding is_digit
is_digit_digit c d = ground arith

decimal-le : (s : List ℕ) (n : ℕ) → n ≤ decimal n s
decimal-le [] n = omega arith
decimal-le (c ∷ s) n = omega (arith, decimal-le s (n * 10 + (c - b'0')))

module _ (buf : Memory) (datasz pos num : ℕ) where
  number_loop_stop :
      (fuel : ℕ)
      → ((datasz == pos) || not (is_digit (buf pos))) ≡ true
      → number_loop fuel buf datasz pos num ≡ (num, pos)
  unfolding number_loop
  number_loop_stop zero ends = refl
  number_loop_stop (suc fuel) ends = elim (Bool-cases (datasz == pos)) [
    | inl e ↦ rw e refl
    | inr e ↦ elim (Bool-cases (is_digit (buf pos))) [
      | inl d ↦ absurd (
          false≢true (
            subst (λ (b : Bool). (b || false) ≡ true) e
              (subst (λ (b : Bool). ((datasz == pos) || not b) ≡ true) d ends)))
      | inr d ↦ rw (e, d) refl
    ]
  ]

  number_loop_go :
      (fuel : ℕ)
      → (datasz == pos) ≡ false
      → is_digit (buf pos) ≡ true
      → leb num 214748363 ≡ true
      → number_loop (suc fuel) buf datasz pos num
        ≡ number_loop fuel buf datasz (pos + 1) (num * 10 + (buf pos - b'0'))
  unfolding number_loop
  number_loop_go fuel more digit fits = rw (more, digit, fits)

-- The loop goes over the digits and stops behind them.
number_loop-decimal :
    (s : List ℕ) (fuel : ℕ) (buf : Memory) (datasz pos num : ℕ)
    → At buf pos s
    → All IsDigit s
    → pos + length s ≤ datasz
    → datasz ≤ pos + fuel
    → decimal num s ≤ 2147483639
    → ((datasz == pos + length s) || not (is_digit (buf (pos + length s)))) ≡ true
    → number_loop fuel buf datasz pos num ≡ (decimal num s, pos + length s)
number_loop-decimal [] fuel buf datasz pos num at ds inside enough small ends =
    let here : pos + 0 ≡ pos = omega arith in
    number_loop_stop buf datasz pos num fuel
      (subst (λ (p : ℕ). ((datasz == p) || not (is_digit (buf p))) ≡ true) here ends)
    ∙ ap (λ (p : ℕ). (num, p)) (sym here)
number_loop-decimal (c ∷ s) zero buf datasz pos num at ds inside enough small ends =
    absurd (omega arith)
number_loop-decimal (c ∷ s) (suc fuel) buf datasz pos num (here, at) (d, ds) inside enough small
      ends =
    let behind : pos + length (c ∷ s) ≡ pos + 1 + length s = omega arith in
    let next = num * 10 + (c - b'0') in
    let le = decimal-le s next in
    number_loop_go buf datasz pos num fuel (ground arith) (ap is_digit here ∙ is_digit_digit c d)
      (ground (arith, le))
    ∙ ap (λ (v : ℕ). number_loop fuel buf datasz (pos + 1) (num * 10 + (v - b'0'))) here
    ∙ number_loop-decimal s fuel buf datasz (pos + 1) next at ds (omega arith) (omega arith) small
        (subst (λ (p : ℕ). ((datasz == p) || not (is_digit (buf p))) ≡ true) behind ends)
    ∙ ap (λ (p : ℕ). (decimal next s, p)) (sym behind)

-- Decimal digits in the buffer that spell at most INT_MAX - 8, followed by another character or
-- the end of what is buffered, are read by mcdb_bufread_number as the number they spell, and the
-- input stands behind them.
pub bufread_number-decimal :
    (b : Input) (s : List ℕ)
    → At b.buf b.pos s
    → All IsDigit s
    → 1 ≤ length s
    → b.pos + length s ≤ b.datasz
    → decimal 0 s ≤ 2147483639
    → ((b.datasz == b.pos + length s) || not (is_digit (b.buf (b.pos + length s)))) ≡ true
    → mcdb_bufread_number b ≡ (true, decimal 0 s, record b { pos = b.pos + length s })
unfolding mcdb_bufread_number
bufread_number-decimal b s at ds some_digit inside small ends =
    let run =
      number_loop-decimal s (b.datasz - b.pos) b.buf b.datasz b.pos 0 at ds inside (omega arith)
        small ends in
    let moved : (b.pos == b.pos + length s) ≡ false = ground arith in rw (run, moved, ends) refl
