-- ===== src/Make/Window.antt =====
-- What mcdb_mmap_upsize promises: a mapping that reaches over all that is to be written.
use mcdb.Base.{ℕ, ◌+◌, ◌-◌, ◌%◌, ◌^◌, ◌<◌, ◌≤◌, ◌≡◌, ap, true}
use mcdb.Base.{bit_and, ltb, u64, inl, inr, Bool-cases, arith}
use mcdb.Base.Bits.{mod-lt-two-pow}
use mcdb.Base.Masks.{bit_and_high}
use native.Mathlib.Nat.{one-le-pow}
use mcdb.Mcdb.{mmap_sz}
use mcdb.Make.{Make, ask}
use mcdb.Make.Upsize.{not64, upsize_offset, upsize_msz, map_window, mcdb_mmap_upsize}

-- The page size that the writer found is a power of two, and not above the least mapping.
pub record Pages (m : Make) (j k : ℕ) : Type 0 where
  pub bits : j + k ≡ 64
  pub small : 2 ^ k ≤ mmap_sz
  pub mask : m.pgalign ≡ not64 (2 ^ k - 1)

page_mask :
    (j k a : ℕ)
    → j + k ≡ 64
    → 2 ^ k ≤ mmap_sz
    → a < 2 ^ 64
    → bit_and a (not64 (2 ^ k - 1)) + a % 2 ^ k ≡ a
page_mask j k a bits small lt =
    let whole : 2 ^ (j + k) ≡ 2 ^ 64 = ap (λ (t : ℕ). 2 ^ t) bits in
    let mask : 2 ^ (j + k) - 2 ^ k ≡ not64 (2 ^ k - 1) = omega (arith, whole, one-le-pow k 2) in
    omega (arith, bit_and_high j k a (omega (arith, whole)), ap (λ (t : ℕ). bit_and a t) mask)

module _ (m : Make) (j k : ℕ) (pages : Pages m j k) where
  offset-page : m.pos < 2 ^ 64 → upsize_offset m + m.pos % 2 ^ k ≡ m.pos
  unfolding upsize_offset
  offset-page lt = rw pages.mask (page_mask j k m.pos pages.bits pages.small lt)

  -- The mapping reaches to `sz`.
  msz-le :
      (sz : ℕ)
      → m.pos ≤ sz
      → sz < 2 ^ 62
      → (sz ≤ upsize_offset m + upsize_msz m sz) × (upsize_offset m + upsize_msz m sz < 2 ^ 63)
  unfolding upsize_msz
  msz-le sz le low =
      let off = offset-page (omega arith) in
      let need : u64 (sz + 2 ^ 64 - upsize_offset m) ≡ sz - upsize_offset m = omega (arith, off) in
      let slack : not64 m.pgalign ≡ 2 ^ k - 1 =
        omega (arith, pages.mask, pages.small, one-le-pow k 2) in
      let raised : u64 (sz - upsize_offset m + not64 m.pgalign)
          ≡ sz - upsize_offset m + (2 ^ k - 1) =
        omega (arith, slack, pages.small, off) in
      let down =
        page_mask j k (sz - upsize_offset m + (2 ^ k - 1)) pages.bits pages.small
          (omega (arith, pages.small, off)) in
      let masked = ap (λ (t : ℕ). bit_and (sz - upsize_offset m + (2 ^ k - 1)) t) pages.mask in
      let rest = mod-lt-two-pow (sz - upsize_offset m + (2 ^ k - 1)) k in
      elim (Bool-cases (ltb (sz - upsize_offset m) mmap_sz)) [
        | inl e ↦ rw (need, e) (ground (arith, off), ground (arith, off))
        | inr e ↦
            rw (need, e, raised)
              (
                omega (arith, off, masked, down, rest, pages.small),
                omega (arith, off, masked, down, rest, pages.small),
              )
      ]

  -- For a page size that is a power of two up to MCDB_MMAP_SZ, and `pos` up to `sz` below 2 ^ 62,
  -- a successful mcdb_mmap_upsize leaves a mapping that covers every position from `pos` up to
  -- `sz`.
  pub upsize-covers :
      (sz : ℕ)
      → m.pos ≤ sz
      → sz < 2 ^ 62
      → (mcdb_mmap_upsize m sz).0 ≡ true
      → ((mcdb_mmap_upsize m sz).1.mapped ≡ true)
        × ((mcdb_mmap_upsize m sz).1.offset ≤ m.pos)
        × (sz ≤ (mcdb_mmap_upsize m sz).1.offset + (mcdb_mmap_upsize m sz).1.msz)
  unfolding mcdb_mmap_upsize map_window ask
  upsize-covers sz le low ok =
      let off = offset-page (omega arith) in
      let (reach, fits) = msz-le sz le low in ground (arith, off, reach)
