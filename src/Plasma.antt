-- ===== src/Plasma.antt =====
-- What the sources take from the plasma submodule, which is not in this repository: the byte-order
-- macros of plasma_endian.h. They are a parameter of every definition that packs or unpacks, with
-- their documented meaning: the most significant byte stands first.
mod Bytes
pub use Bytes.*
use mcdb.Base.{ℕ, ◌^◌, ◌<◌, ◌≡◌, refl, List, length, All, arith}

abbrev pub IsByte : ℕ → Type 0
IsByte b = b < 256

pub record Plasma : Type 0 where
  pub be32enc : ℕ → List ℕ
  pub be32dec : List ℕ → ℕ
  pub be64enc : ℕ → List ℕ
  pub be64dec : List ℕ → ℕ
  pub be32enc_lem : (u : ℕ) → u < 2 ^ 32 → be32enc u ≡ be_bytes 4 u
  pub be32dec_lem : (s : List ℕ) → length s ≡ 4 → All IsByte s → be32dec s ≡ be_value 0 s
  pub be64enc_lem : (u : ℕ) → u < 2 ^ 64 → be64enc u ≡ be_bytes 8 u
  pub be64dec_lem : (s : List ℕ) → length s ≡ 8 → All IsByte s → be64dec s ≡ be_value 0 s

-- The macros as they are documented.
abbrev pub big_endian : Plasma
big_endian = record {
  be32enc = be_bytes 4;
  be32dec = be_value 0;
  be64enc = be_bytes 8;
  be64dec = be_value 0;
  be32enc_lem = λ u h. refl;
  be32dec_lem = λ s n h. refl;
  be64enc_lem = λ u h. refl;
  be64dec_lem = λ s n h. refl;
}

module _ ⦃plasma : Plasma⦄ where
  open plasma use {
    be32enc, be32dec, be64enc, be64dec, be32enc_lem, be32dec_lem, be64enc_lem, be64dec_lem,
  }

  pub length-be32enc : (u : ℕ) → u < 2 ^ 32 → length (be32enc u) ≡ 4
  length-be32enc u h = rw (be32enc_lem u h)

  pub length-be64enc : (u : ℕ) → u < 2 ^ 64 → length (be64enc u) ≡ 8
  length-be64enc u h = rw (be64enc_lem u h)

  pub be32dec-be32enc : (u : ℕ) → u < 2 ^ 32 → be32dec (be32enc u) ≡ u
  be32dec-be32enc u h =
      rw (be32enc_lem u h, be32dec_lem _ (be_bytes-length 4 u) (be_bytes-IsByte 4 u))
        (omega (arith, be_value-be_bytes 4 0 u))

  pub be64dec-be64enc : (u : ℕ) → u < 2 ^ 64 → be64dec (be64enc u) ≡ u
  be64dec-be64enc u h =
      rw (be64enc_lem u h, be64dec_lem _ (be_bytes-length 8 u) (be_bytes-IsByte 8 u))
        (omega (arith, be_value-be_bytes 8 0 u))
