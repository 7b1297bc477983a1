-- ===== src/Base/Bits.antt =====
-- The bit operations as arithmetic: one equation for the lowest digit, masks, and disjoint fields.
use Prim.Native.Nat.{
  ℕ, zero, suc, ◌+◌, ◌-◌, ◌*◌, ◌/◌, ◌%◌, ◌^◌, ◌≤◌, ◌<◌, min, max, digits, bitwise, differ,
}
use Prim.Native.Nat.{bit_and, bit_or, bit_xor, bit_and-bitwise, bit_or-bitwise, bit_xor-bitwise}
use mathlib.Core.Path.{◌≡◌, refl, ap, sym, ◌∙◌}
use mathlib.Core.Bool.{Bool, true, false}
use mathlib.Core.Logic.{inl, inr}
use mcdb.Base.Tests.{if◌then◌else◌, ◌==◌, ==_iff, leb, Bool-cases}
use native.Mathlib.Nat.{div-div-eq-div-mul, mul-le-mul_right, div-add-mod, pow-suc, one-le-pow}
use native.Mathlib.Omega.{arith}

-- A test of every number below a bound, run from the top down.
unfoldable pub every_below : ℕ → (ℕ → Bool) → Bool
every_below zero ok = true
every_below (suc k) ok = if ok k then every_below k ok else false

pub every_below_sound :
    (k : ℕ) (ok : ℕ → Bool) (u : ℕ) → every_below k ok ≡ true → u < k → ok u ≡ true
unfolding every_below
every_below_sound zero ok u run below = absurd (omega arith)
every_below_sound (suc k) ok u run below = elim (Bool-cases (u == k)) [
  | inl top ↦ ap ok ((==_iff u k).0 top) ∙ ground arith
  | inr lower ↦ every_below_sound k ok u (ground arith) (ground arith)
]

-- `digits` recurs on fuel; fuel beyond the first operand changes nothing.
module _ (rest : ℕ → ℕ) (op : ℕ → ℕ → ℕ) where
  one_more : (k u v : ℕ) → u ≤ k → digits rest op (suc k) u v ≡ digits rest op k u v
  one_more zero zero v le = refl
  one_more (suc k) zero v le = refl
  one_more zero (suc u) v le = absurd (omega arith)
  one_more (suc k) (suc u) v le =
      ap (λ (t : ℕ). t * 2 + op (suc u % 2) (v % 2)) (one_more k (suc u / 2) (v / 2) (omega arith))

  least_fuel : (k u v : ℕ) → u ≤ k → digits rest op k u v ≡ digits rest op u u v
  least_fuel zero u v le =
      let same : 0 ≡ u = omega arith in ap (λ (n : ℕ). digits rest op n u v) same
  least_fuel (suc k) u v le = elim (Bool-cases (leb u k)) [
    | inl small ↦ one_more k u v (ground arith) ∙ least_fuel k u v (ground arith)
    | inr large ↦ let same : suc k ≡ u = ground arith in ap (λ (n : ℕ). digits rest op n u v) same
  ]

  lowest_digit :
      (u v : ℕ)
      → 0 < u
      → bitwise rest op u v ≡ op (u % 2) (v % 2) + 2 * bitwise rest op (u / 2) (v / 2)
  lowest_digit zero v pos = absurd (omega arith)
  lowest_digit (suc u) v pos = omega (arith, least_fuel u (suc u / 2) (v / 2) (omega arith))

pub bit_and_step : (a b : ℕ) → bit_and a b ≡ bit_and (a / 2) (b / 2) * 2 + min (a % 2) (b % 2)
bit_and_step a b = elim (Bool-cases (a == 0)) [
  | inl e ↦ simp (bit_and-bitwise, (==_iff a 0).0 e) (omega arith)
  | inr e ↦ simp bit_and-bitwise (omega (arith, lowest_digit (λ y. 0) min a b (ground arith)))
]

pub bit_or_step : (a b : ℕ) → bit_or a b ≡ bit_or (a / 2) (b / 2) * 2 + max (a % 2) (b % 2)
bit_or_step a b = elim (Bool-cases (a == 0)) [
  | inl e ↦ simp (bit_or-bitwise, (==_iff a 0).0 e) (omega arith)
  | inr e ↦ simp bit_or-bitwise (omega (arith, lowest_digit (λ y. y) max a b (ground arith)))
]

pub bit_xor_step : (a b : ℕ) → bit_xor a b ≡ bit_xor (a / 2) (b / 2) * 2 + differ (a % 2) (b % 2)
bit_xor_step a b = elim (Bool-cases (a == 0)) [
  | inl e ↦ simp (bit_xor-bitwise, (==_iff a 0).0 e) (omega arith)
  | inr e ↦ simp bit_xor-bitwise (omega (arith, lowest_digit (λ y. y) differ a b (ground arith)))
]

zero_right : (k u : ℕ) → u ≤ k → (bit_or u 0 ≡ u) × (bit_and u 0 ≡ 0)
zero_right k zero le = (refl, refl)
zero_right zero (suc u) le = absurd (omega arith)
zero_right (suc k) (suc u) le =
    let (or, and) = zero_right k (suc u / 2) (omega arith) in
    (omega (arith, bit_or_step (suc u) 0, or), omega (arith, bit_and_step (suc u) 0, and))

pub bit_or-zero : (a : ℕ) → bit_or a 0 ≡ a
bit_or-zero a = (zero_right a a (omega arith)).0

pub bit_and-zero : (a : ℕ) → bit_and a 0 ≡ 0
bit_and-zero a = (zero_right a a (omega arith)).1

double_shift : (q k : ℕ) → q * 2 ^ suc k ≡ 2 * (q * 2 ^ k)
double_shift q k = omega (arith, ap (λ (t : ℕ). q * t) (pow-suc 2 k))

-- A field of `k` low bits, joined by `|` to what stands above it, adds up.
pub bit_or-add : (k q r : ℕ) → r < 2 ^ k → bit_or (q * 2 ^ k) r ≡ q * 2 ^ k + r
bit_or-add zero q r h = ground (arith, bit_or-zero q)
bit_or-add (suc k) q r h =
    ground
      (arith, bit_or_step (q * 2 ^ suc k) r, double_shift q k, bit_or-add k q (r / 2) (omega arith))

mask_half : (k : ℕ) → (2 ^ suc k - 1) / 2 ≡ 2 ^ k - 1
mask_half k = omega (arith, pow-suc 2 k, one-le-pow k 2)

mask_odd : (k : ℕ) → (2 ^ suc k - 1) % 2 ≡ 1
mask_odd k = omega (arith, pow-suc 2 k, one-le-pow k 2)

mod_fields : (n q a r : ℕ) → r < n → a ≡ q * n + r → a % n ≡ r
mod_fields n q a r h e = grind arith

pub mod-lt-two-pow : (a k : ℕ) → a % 2 ^ k < 2 ^ k
mod-lt-two-pow a k = omega (arith, one-le-pow k 2)

pub mod_double : (k a : ℕ) → a % 2 ^ suc k ≡ a / 2 % 2 ^ k * 2 + a % 2
mod_double k a =
    let n = 2 ^ k in
    let split = div-add-mod (a / 2) n in
    mod_fields (2 ^ suc k) (a / 2 / n) a (a / 2 % n * 2 + a % 2)
      (omega (arith, pow-suc 2 k, one-le-pow k 2, mod-lt-two-pow (a / 2) k))
      (omega (arith, split, ap (λ (t : ℕ). a / 2 / n * t) (pow-suc 2 k)))

-- A mask of `k` low bits is the remainder by `2 ^ k`.
pub bit_and_mask : (k a : ℕ) → bit_and a (2 ^ k - 1) ≡ a % 2 ^ k
bit_and_mask zero a = ground (arith, bit_and-zero a)
bit_and_mask (suc k) a =
    let half = bit_and_mask k (a / 2) in
    omega (
      arith,
      bit_and_step a (2 ^ suc k - 1),
      pow-suc 2 k,
      one-le-pow k 2,
      mask_half k,
      mask_odd k,
      ap (λ (t : ℕ). bit_and (a / 2) t) (mask_half k),
      half,
      mod_double k a,
    )

differ-lt : (a b : ℕ) → a < 2 → b < 2 → differ a b < 2
differ-lt zero b p q = omega arith
differ-lt (suc zero) zero p q = omega arith
differ-lt (suc zero) (suc zero) p q = omega arith
differ-lt (suc zero) (suc (suc b)) p q = absurd (omega arith)
differ-lt (suc (suc a)) b p q = absurd (omega arith)

-- `xor` of two numbers of `k` bits has `k` bits.
pub bit_xor-lt : (k a b : ℕ) → a < 2 ^ k → b < 2 ^ k → bit_xor a b < 2 ^ k
bit_xor-lt zero zero b p q = ground (arith, bit_xor_step 0 b, bit_xor-bitwise 0 b)
bit_xor-lt zero (suc a) b p q = absurd (omega arith)
bit_xor-lt (suc k) a b p q =
    ground (
      arith,
      bit_xor_step a b,
      bit_xor-lt k (a / 2) (b / 2),
      pow-suc 2 k,
      differ-lt (a % 2) (b % 2),
    )

-- The lowest `n + 1` digits of `u` in base 256 are digit `n` and the lowest `n`.
pub mod_digit : (n u : ℕ) → u % 256 ^ suc n ≡ u / 256 ^ n % 256 * 256 ^ n + u % 256 ^ n
mod_digit n u =
    let p = 256 ^ n in
    let q = u / p in
    let low : u % p < p = omega (arith, one-le-pow n 256) in
    let d-le : q % 256 * p ≤ 255 * p = mul-le-mul_right p (omega arith) in
    mod_fields (256 ^ suc n) (q / 256) u (q % 256 * p + u % p) (omega (arith, pow-suc 256 n)) (
      omega (
        arith,
        div-add-mod u p,
        ap (λ (t : ℕ). p * t) (div-add-mod q 256),
        ap (λ (t : ℕ). q / 256 * t) (pow-suc 256 n),
      ))

bit_xor_half : (a c : ℕ) → bit_xor a c / 2 ≡ bit_xor (a / 2) (c / 2)
bit_xor_half a c =
    omega (arith, bit_xor_step a c, differ-lt (a % 2) (c % 2) (omega arith) (omega arith))

bit_xor_odd : (a c : ℕ) → bit_xor a c % 2 ≡ differ (a % 2) (c % 2)
bit_xor_odd a c =
    omega (arith, bit_xor_step a c, differ-lt (a % 2) (c % 2) (omega arith) (omega arith))

differ_cancel : (a c : ℕ) → a < 2 → c < 2 → differ (differ a c) c ≡ a
differ_cancel zero zero p q = refl
differ_cancel zero (suc zero) p q = refl
differ_cancel zero (suc (suc c)) p q = absurd (omega arith)
differ_cancel (suc zero) zero p q = refl
differ_cancel (suc zero) (suc zero) p q = refl
differ_cancel (suc zero) (suc (suc c)) p q = absurd (omega arith)
differ_cancel (suc (suc a)) c p q = absurd (omega arith)

bit_xor_cancel_fuel : (n a c : ℕ) → a ≤ n → c ≤ n → bit_xor (bit_xor a c) c ≡ a
bit_xor_cancel_fuel zero zero zero p q = refl
bit_xor_cancel_fuel zero zero (suc c) p q = absurd (omega arith)
bit_xor_cancel_fuel zero (suc a) c p q = absurd (omega arith)
bit_xor_cancel_fuel (suc n) a c p q =
    let step = bit_xor_step (bit_xor a c) c in
    let half = ap (λ (t : ℕ). bit_xor t (c / 2)) (bit_xor_half a c) in
    let odd = ap (λ (t : ℕ). differ t (c % 2)) (bit_xor_odd a c) in
    omega (
      arith,
      step,
      half,
      odd,
      differ_cancel (a % 2) (c % 2) (omega arith) (omega arith),
      bit_xor_cancel_fuel n (a / 2) (c / 2) (omega arith) (omega arith),
    )

pub bit_xor_cancel : (a c : ℕ) → bit_xor (bit_xor a c) c ≡ a
bit_xor_cancel a c = bit_xor_cancel_fuel (a + c) a c (omega arith) (omega arith)

div_two_pow_suc : (k n : ℕ) → n / 2 ^ suc k ≡ n / 2 / 2 ^ k
div_two_pow_suc k n =
    ap (λ (t : ℕ). n / t) (omega (arith, pow-suc 2 k)) ∙ sym (div-div-eq-div-mul n 2 (2 ^ k))

half_double_shift : (m k : ℕ) → m * 2 ^ suc k / 2 ≡ m * 2 ^ k
half_double_shift m k = omega (arith, double_shift m k)

-- A mask that starts at bit `k`, shifted down.
pub bit_and_shift : (k n m : ℕ) → bit_and n (m * 2 ^ k) / 2 ^ k ≡ bit_and (n / 2 ^ k) m
bit_and_shift zero n m = ground arith
bit_and_shift (suc k) n m =
    let low = m * 2 ^ k in
    let even : bit_and n (m * 2 ^ suc k) ≡ bit_and (n / 2) low * 2 = omega (
      arith,
      bit_and_step n (m * 2 ^ suc k),
      double_shift m k,
      ap (λ (t : ℕ). bit_and (n / 2) t) (half_double_shift m k),
    ) in
    div_two_pow_suc k _
    ∙ ap (λ (t : ℕ). t / 2 ^ k) (omega (arith, even))
    ∙ bit_and_shift k (n / 2) m
    ∙ ap (λ (t : ℕ). bit_and t m) (sym (div_two_pow_suc k n))
