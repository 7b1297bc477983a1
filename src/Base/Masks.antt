-- ===== src/Base/Masks.antt =====
-- Rounding to a multiple of a power of two by a mask of high bits.
use mcdb.Base.{ℕ, zero, suc, ◌+◌, ◌-◌, ◌*◌, ◌/◌, ◌%◌, ◌^◌, ◌<◌, ◌≡◌, bit_and, ap, arith, subst}
use mcdb.Base.Bits.{bit_and_mask, bit_and_step, mod_double}
use native.Mathlib.Nat.{pow-suc, mod-eq_of_lt}

high_even : (j k : ℕ) → 2 ^ (j + suc k) - 2 ^ suc k ≡ (2 ^ (j + k) - 2 ^ k) * 2
high_even j k =
    let e : 2 ^ (j + suc k) ≡ 2 ^ suc (j + k) = ap (λ (t : ℕ). 2 ^ t) (omega arith) in
    omega (arith, e, pow-suc 2 (j + k), pow-suc 2 k)

-- The mask clears the low `k` bits.
pub bit_and_high : (j k a : ℕ) → a < 2 ^ (j + k) → bit_and a (2 ^ (j + k) - 2 ^ k) + a % 2 ^ k ≡ a
bit_and_high j zero a lt =
    let e : 2 ^ (j + 0) ≡ 2 ^ j = ap (λ (t : ℕ). 2 ^ t) (omega arith) in
    omega (arith, ap (λ (t : ℕ). bit_and a (t - 1)) e, bit_and_mask j a, e, small)
  where
    small : a % 2 ^ j ≡ a
    small = mod-eq_of_lt (subst (λ (t : ℕ). a < t) (ap (λ (t : ℕ). 2 ^ t) (omega arith)) lt)
bit_and_high j (suc k) a lt =
    let e : 2 ^ (j + suc k) ≡ 2 ^ suc (j + k) = ap (λ (t : ℕ). 2 ^ t) (omega arith) in
    let rest = bit_and_high j k (a / 2) (omega (arith, e, pow-suc 2 (j + k))) in
    let m = 2 ^ (j + k) - 2 ^ k in
    let half : m * 2 / 2 ≡ m = omega arith in
    omega (
      arith,
      rest,
      ap (λ (t : ℕ). bit_and a t) (high_even j k),
      bit_and_step a (m * 2),
      ap (λ (t : ℕ). bit_and (a / 2) t) half,
      mod_double k a,
    )
