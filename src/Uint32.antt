-- ===== src/Uint32.antt =====
-- uint32.h and uint32.c: unpacking from memory, and, in the modules below, the hash, the hexadecimal
-- and the decimal conversions. A `uint32_t` is a number below 2 ^ 32; a `char` is a byte.
pub mod Hash
pub mod Hex
pub mod Decimal
use mcdb.Base.{◌≤◌, ℕ, ◌+◌, ◌^◌, ◌<◌, ◌≡◌, subst, ap, ◌∙◌, length, arith}
use mcdb.Base.Memory.{Memory, load, At, At-load, load_congr}
use mcdb.Plasma.{Plasma, length-be32enc, length-be64enc, be32dec-be32enc, be64dec-be64enc}

module _ ⦃plasma : Plasma⦄ where
  open plasma use {be32enc, be32dec, be64enc, be64dec}

  -- uint32_strunpack_bigendian_macro and its aligned form: they read the same bytes.
  unfoldable pub strunpack32 : Memory → ℕ → ℕ
  strunpack32 mem s = be32dec (load mem s 4)

  -- uint64_strunpack_bigendian_aligned_macro of a 64-bit build.
  unfoldable pub strunpack64 : Memory → ℕ → ℕ
  strunpack64 mem s = be64dec (load mem s 8)

  pub strunpack32-At :
      (mem : Memory) (s u : ℕ) → u < 2 ^ 32 → At mem s (be32enc u) → strunpack32 mem s ≡ u
  unfolding strunpack32
  strunpack32-At mem s u h at =
      ap be32dec
        (subst (λ n. load mem s n ≡ be32enc u) (length-be32enc u h) (At-load mem s (be32enc u) at))
      ∙ be32dec-be32enc u h

  pub strunpack64-At :
      (mem : Memory) (s u : ℕ) → u < 2 ^ 64 → At mem s (be64enc u) → strunpack64 mem s ≡ u
  unfolding strunpack64
  strunpack64-At mem s u h at =
      ap be64dec
        (subst (λ n. load mem s n ≡ be64enc u) (length-be64enc u h) (At-load mem s (be64enc u) at))
      ∙ be64dec-be64enc u h

  pub strunpack32_congr :
      (mem mem' : Memory) (s : ℕ)
      → ((i : ℕ) → s ≤ i → i < s + 4 → mem i ≡ mem' i)
      → strunpack32 mem s ≡ strunpack32 mem' s
  unfolding strunpack32
  strunpack32_congr mem mem' s same = ap be32dec (load_congr mem mem' s 4 same)
