-- ===== src/Make/Finish/Fill/Apart.antt =====
-- Slots of a table that do not overlap, and the test for an empty one.
use mcdb.Base.{
  ℕ, zero, suc, ◌+◌, ◌*◌, ◌/◌, ◌%◌, ◌^◌, ◌≤◌, ◌<◌, ◌≡◌, ◌≢◌, refl, sym, ◌∙◌, ap, subst, inl, inr,
  ◌⊎◌,
}
use mcdb.Base.{Bool, true, false, ◌==◌, ==_iff, if◌then◌else◌}
use mcdb.Base.{ltb, Bool-cases, replicate, arith}
use mcdb.Base.Memory.{Memory, At}
use mcdb.Base.Bits.{mod_digit}
use mcdb.Plasma.{be_bytes}
use native.Mathlib.Nat.{mul-le-mul_right}
use mcdb.Make.{Hp}
use mcdb.Make.Finish.{is_zero}

-- The 8-byte and the 16-byte entries.
abbrev pub IsStride : ℕ → Type 0
IsStride b = (b ≡ 3) ⊎ (b ≡ 4)

-- A record that has an entry in a table with offsets of `2 ^ b / 2` bytes.
pub record IsEntry (b : ℕ) (hp : Hp) : Type 0 where
  pub hash : hp.h < 2 ^ 32
  pub len : hp.l < 2 ^ 32
  pub present : 0 < hp.p
  pub near : hp.p < (if b == 3 then 2 ^ 32 else 2 ^ 64)

pub Stride-elim {κ} : (P : ℕ → Type κ) → P 3 → P 4 → (b : ℕ) → IsStride b → P b
Stride-elim P p q b (inl e) = subst P (sym e) p
Stride-elim P p q b (inr e) = subst P (sym e) q

pub not_true→false : {b : Bool} → b ≢ true → b ≡ false
not_true→false {b} h = elim (Bool-cases b) [ inl e ↦ absurd (h e) | inr e ↦ e ]

pub field_twice :
    (b : ℕ) → IsStride b → (if b == 3 then 4 else 8) + (if b == 3 then 4 else 8) ≡ 2 ^ b
field_twice b s =
    Stride-elim (λ b. (if b == 3 then 4 else 8) + (if b == 3 then 4 else 8) ≡ 2 ^ b) refl refl b s

-- Different slots do not overlap.
pub apart :
    (u q w base i : ℕ)
    → u ≢ q
    → base + u * w ≤ i
    → i < base + u * w + w
    → (i < base + q * w) ⊎ (base + q * w + w ≤ i)
apart u q w base i ne lo hi = elim (Bool-cases (ltb u q)) [
  | inl e ↦
      let le : (u + 1) * w ≤ q * w = mul-le-mul_right w (ground arith) in inl (omega (arith, le))
  | inr e ↦
      let le : (q + 1) * w ≤ u * w = mul-le-mul_right w (ground arith) in inr (omega (arith, le))
]

-- What lies outside a range lies outside its parts.
pub shrink : (i q n a k : ℕ) → (i < q) ⊎ (q + n ≤ i) → q ≤ a → a + k ≤ q + n → (i < a) ⊎ (a + k ≤ i)
shrink i q n a k (inl h) lo hi = inl (omega arith)
shrink i q n a k (inr h) lo hi = inr (omega arith)

pub is_zero-be_bytes :
    (n : ℕ) (mem : Memory) (a u : ℕ)
    → At mem a (be_bytes n u)
    → is_zero mem a n ≡ true
    → u % 256 ^ n ≡ 0
unfolding is_zero
is_zero-be_bytes zero mem a u at z = omega arith
is_zero-be_bytes (suc n) mem a u at z = omega (
  arith,
  mod_digit n u,
  head_zero,
  ap (λ (t : ℕ). t * 256 ^ n) head_zero,
  is_zero-be_bytes n mem (a + 1) u at.1 (ground arith),
)
  where
    head_zero : u / 256 ^ n % 256 ≡ 0
    head_zero = ground arith

pub is_zero_all :
    (n : ℕ) (mem : Memory) (a : ℕ)
    → ((i : ℕ) → a ≤ i → i < a + n → mem i ≡ 0)
    → is_zero mem a n ≡ true
unfolding is_zero
is_zero_all zero mem a zeroes = refl
is_zero_all (suc n) mem a zeroes =
    ground
      (arith, zeroes a, is_zero_all n mem (a + 1) (λ i p q. zeroes i (omega arith) (omega arith)))

pub At-replicate :
    (n : ℕ) (mem : Memory) (a v i : ℕ) → At mem a (replicate n v) → a ≤ i → i < a + n → mem i ≡ v
At-replicate zero mem a v i at lo hi = absurd (omega arith)
At-replicate (suc n) mem a v i at lo hi = elim (Bool-cases (i == a)) [
  | inl e ↦ ap mem ((==_iff i a).0 e) ∙ at.0
  | inr e ↦ At-replicate n mem (a + 1) v i at.1 (ground arith) (omega arith)
]

pub is_zero_congr :
    (n : ℕ) (mem mem' : Memory) (a : ℕ)
    → ((i : ℕ) → a ≤ i → i < a + n → mem i ≡ mem' i)
    → is_zero mem a n ≡ is_zero mem' a n
unfolding is_zero
is_zero_congr zero mem mem' a same = refl
is_zero_congr (suc n) mem mem' a same =
    ground (
      arith,
      same a,
      is_zero_congr n mem mem' (a + 1) (λ i p q. same i (omega arith) (omega arith)),
    )
