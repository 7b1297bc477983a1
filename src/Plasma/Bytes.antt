-- ===== src/Plasma/Bytes.antt =====
-- A number as bytes, the most significant first.
use mcdb.Base.{
  ℕ, zero, suc, ◌+◌, ◌*◌, ◌/◌, ◌%◌, ◌^◌, ◌<◌, ◌≡◌, refl, ap, List, [], ◌∷◌, length, All, arith,
}
use native.Mathlib.Nat.{pow-suc}
use mcdb.Base.Bits.{mod_digit}

abbrev pub be_bytes : ℕ → ℕ → List ℕ
be_bytes zero u = []
be_bytes (suc n) u = (u / 256 ^ n % 256) ∷ be_bytes n u

-- The number that `s` spells behind the digits of `acc`.
abbrev pub be_value : ℕ → List ℕ → ℕ
be_value acc [] = acc
be_value acc (b ∷ s) = be_value (acc * 256 + b) s

pub be_bytes-length : (n u : ℕ) → length (be_bytes n u) ≡ n
be_bytes-length zero u = refl
be_bytes-length (suc n) u = ap suc (be_bytes-length n u)

pub be_bytes-IsByte : (n u : ℕ) → All (λ b. b < 256) (be_bytes n u)
be_bytes-IsByte zero u = tt
be_bytes-IsByte (suc n) u = (omega arith, be_bytes-IsByte n u)

pub be_value-be_bytes : (n acc u : ℕ) → be_value acc (be_bytes n u) ≡ acc * 256 ^ n + u % 256 ^ n
be_value-be_bytes zero acc u = omega arith
be_value-be_bytes (suc n) acc u = omega (
  arith,
  be_value-be_bytes n (acc * 256 + u / 256 ^ n % 256) u,
  mod_digit n u,
  ap (λ (t : ℕ). acc * t) (pow-suc 256 n),
)
