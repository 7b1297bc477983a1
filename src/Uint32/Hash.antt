-- ===== src/Uint32/Hash.antt =====
-- uint32.h: the hash of Bernstein's cdb. `h + (h << 5)` and the shift are computed in 32 bits.
use mcdb.Base.{
  ℕ, ◌+◌, ◌*◌, ◌^◌, ◌<◌, bit_xor, ◌≡◌, refl, ap, ◌∙◌, sym, List, [], ◌∷◌, ◌++◌, u32, All, arith,
}
use mcdb.Base.Bits.{bit_xor-lt, bit_xor_cancel}

abbrev pub hash_djb_init : ℕ
hash_djb_init = 5381

unfoldable pub hash_djb_uchar : ℕ → ℕ → ℕ
hash_djb_uchar h c = bit_xor (u32 (h + u32 (h * 2 ^ 5))) c

unfoldable pub hash_djb : ℕ → List ℕ → ℕ
hash_djb h [] = h
hash_djb h (c ∷ buf) = hash_djb (hash_djb_uchar h c) buf

-- Hashing a buffer in parts, each from the hash of the parts before it, hashes the whole.
pub hash_djb-append : (h : ℕ) (s t : List ℕ) → hash_djb h (s ++ t) ≡ hash_djb (hash_djb h s) t
unfolding hash_djb
hash_djb-append h [] t = refl
hash_djb-append h (c ∷ s) t = hash_djb-append (hash_djb_uchar h c) s t

hash_djb_uchar-lt : (h c : ℕ) → c < 256 → hash_djb_uchar h c < 2 ^ 32
unfolding hash_djb_uchar
hash_djb_uchar-lt h c hc = bit_xor-lt 32 _ c (omega arith) (omega arith)

-- The hash of bytes from a 32-bit start value stays below 2 ^ 32.
pub hash_djb-lt : (h : ℕ) (s : List ℕ) → h < 2 ^ 32 → All (λ c. c < 256) s → hash_djb h s < 2 ^ 32
unfolding hash_djb
hash_djb-lt h [] hh hs = hh
hash_djb-lt h (c ∷ s) hh hs = hash_djb-lt (hash_djb_uchar h c) s (hash_djb_uchar-lt h c hs.0) hs.1

times_33-injective :
    (g h : ℕ) → g < 2 ^ 32 → h < 2 ^ 32 → u32 (g + u32 (g * 32)) ≡ u32 (h + u32 (h * 32)) → g ≡ h
times_33-injective g h p q e = omega arith

hash_djb_uchar-injective :
    (g h c : ℕ) → g < 2 ^ 32 → h < 2 ^ 32 → hash_djb_uchar g c ≡ hash_djb_uchar h c → g ≡ h
unfolding hash_djb_uchar
hash_djb_uchar-injective g h c p q e =
    times_33-injective g h p q
      (sym (bit_xor_cancel _ c) ∙ ap (λ (t : ℕ). bit_xor t c) e ∙ bit_xor_cancel _ c)

-- Over the same bytes, different 32-bit start values, such as those of different tags, give
-- different hashes.
pub hash_djb-injective :
    (g h : ℕ) (s : List ℕ)
    → g < 2 ^ 32
    → h < 2 ^ 32
    → All (λ c. c < 256) s
    → hash_djb g s ≡ hash_djb h s
    → g ≡ h
unfolding hash_djb
hash_djb-injective g h [] p q b e = e
hash_djb-injective g h (c ∷ s) p q b e = hash_djb_uchar-injective g h c p q (
    hash_djb-injective (hash_djb_uchar g c) (hash_djb_uchar h c) s (hash_djb_uchar-lt g c b.0)
      (hash_djb_uchar-lt h c b.0) b.1 e)
