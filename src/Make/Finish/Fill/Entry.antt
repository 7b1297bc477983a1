-- ===== src/Make/Finish/Fill/Entry.antt =====
-- An entry of a table as write_entry stores it.
use mcdb.Base.{ℕ, ◌+◌, ◌*◌, ◌^◌, ◌≤◌, ◌<◌, ◌≡◌, sym, ◌∙◌, ap₂, subst, ◌⊎◌}
use mcdb.Base.{List, ◌++◌, true, false, Option, none, some, ◌==◌, if◌then◌else◌}
use mcdb.Base.{length, length-append, u32, arith}
use mcdb.Base.Memory.{Memory, store, At, append-At, At-store_self, At-store_next, store_outside}
use mcdb.Plasma.{Plasma, length-be32enc, length-be64enc}
use mcdb.Table.{Slots}
use mcdb.Make.{Make, Hp, poke}
use mcdb.Make.Finish.{Area, entry_at, dpos_field, is_zero, write_entry}
use mcdb.Make.Finish.Fill.Apart.{
  IsEntry, IsStride, Stride-elim, is_zero-be_bytes, not_true→false, shrink,
}

module _ ⦃plasma : Plasma⦄ where
  open plasma use {be32enc, be64enc, be32enc_lem, be64enc_lem}

  -- What finish writes into a slot.
  pub entry_bytes : ℕ → Hp → List ℕ
  entry_bytes b hp =
      if b == 3
      then be32enc hp.h ++ be32enc hp.p
      else (be32enc hp.h ++ be32enc hp.l) ++ be64enc hp.p

  pub length-entry_bytes :
      (b : ℕ) (hp : Hp) → IsStride b → IsEntry b hp → length (entry_bytes b hp) ≡ 2 ^ b
  unfolding entry_bytes
  length-entry_bytes b hp s e =
      Stride-elim (λ b. IsEntry b hp → length (entry_bytes b hp) ≡ 2 ^ b)
        (λ e. omega (
          arith,
          length-append (be32enc hp.h) (be32enc hp.p),
          length-be32enc hp.h e.hash,
          length-be32enc hp.p e.near,
        ))
        (λ e. omega (
          arith,
          length-append (be32enc hp.h ++ be32enc hp.l) (be64enc hp.p),
          length-append (be32enc hp.h) (be32enc hp.l),
          length-be32enc hp.h e.hash,
          length-be32enc hp.l e.len,
          length-be64enc hp.p e.near,
        ))
        b s e

  -- Slot `u` in memory shows `o`.
  abbrev pub ShowsSlot : Area → Memory → ℕ → Option Hp → Type 0
  ShowsSlot t mem u none = is_zero mem (entry_at t u + dpos_field t) (dpos_field t) ≡ true
  ShowsSlot t mem u (some hp) = IsEntry t.b hp × At mem (entry_at t u) (entry_bytes t.b hp)

  abbrev pub Shows : Area → Memory → Slots Hp → Type 0
  Shows t mem s = (u : ℕ) → u < t.len → ShowsSlot t mem u (s u)

  -- An offset that is not 0 does not look empty.
  pub be32enc-is_zero :
      (mem : Memory) (a p : ℕ) → 0 < p → p < 2 ^ 32 → At mem a (be32enc p) → is_zero mem a 4 ≡ false
  be32enc-is_zero mem a p pos lt at = not_true→false λ z.
      absurd (omega (arith, is_zero-be_bytes 4 mem a p (subst (At mem a) (be32enc_lem p lt) at) z))

  pub be64enc-is_zero :
      (mem : Memory) (a p : ℕ) → 0 < p → p < 2 ^ 64 → At mem a (be64enc p) → is_zero mem a 8 ≡ false
  be64enc-is_zero mem a p pos lt at = not_true→false λ z.
      absurd (omega (arith, is_zero-be_bytes 8 mem a p (subst (At mem a) (be64enc_lem p lt) at) z))

  -- The parts of an entry, where they stand.
  pub At-entry_3 :
      (mem : Memory) (a : ℕ) (hp : Hp)
      → IsEntry 3 hp
      → At mem a (entry_bytes 3 hp)
      → At mem a (be32enc hp.h) × At mem (a + 4) (be32enc hp.p)
  unfolding entry_bytes
  At-entry_3 mem a hp e at =
      let (h, p) = append-At mem a (be32enc hp.h) (be32enc hp.p) at in
      (h, subst (λ n. At mem (a + n) (be32enc hp.p)) (length-be32enc hp.h e.hash) p)

  pub At-entry_4 :
      (mem : Memory) (a : ℕ) (hp : Hp)
      → IsEntry 4 hp
      → At mem a (entry_bytes 4 hp)
      → At mem a (be32enc hp.h) × At mem (a + 4) (be32enc hp.l) × At mem (a + 8) (be64enc hp.p)
  unfolding entry_bytes
  At-entry_4 mem a hp e at =
      let (hl, p) = append-At mem a (be32enc hp.h ++ be32enc hp.l) (be64enc hp.p) at in
      let (h, l) = append-At mem a (be32enc hp.h) (be32enc hp.l) hl in
      (
        h,
        subst (λ n. At mem (a + n) (be32enc hp.l)) (length-be32enc hp.h e.hash) l,
        subst (λ n. At mem (a + n) (be64enc hp.p))
            (length-append (be32enc hp.h) (be32enc hp.l)
              ∙ ap₂ ◌+◌ (length-be32enc hp.h e.hash) (length-be32enc hp.l e.len))
            p,
      )

  pub At-is_zero :
      (b : ℕ) (mem : Memory) (a : ℕ) (hp : Hp)
      → IsStride b
      → IsEntry b hp
      → At mem a (entry_bytes b hp)
      → is_zero mem (a + (if b == 3 then 4 else 8)) (if b == 3 then 4 else 8) ≡ false
  At-is_zero b mem a hp s e at =
      Stride-elim
        (λ b.
          IsEntry b hp
          → At mem a (entry_bytes b hp)
          → is_zero mem (a + (if b == 3 then 4 else 8)) (if b == 3 then 4 else 8) ≡ false)
        (λ e at. be32enc-is_zero mem (a + 4) hp.p e.present e.near (At-entry_3 mem a hp e at).1)
        (λ e at. be64enc-is_zero mem (a + 8) hp.p e.present e.near (At-entry_4 mem a hp e at).2) b s
        e at

  -- The stores of one entry leave its bytes, and touch nothing else.
  pub write_entry-At :
      (m : Make) (base len b u : ℕ) (hp : Hp)
      → IsStride b
      → IsEntry b hp
      → At
          (write_entry m (record { base = base; len = len; b = b }) u hp).file
          (base + u32 (u * 2 ^ b))
          (entry_bytes b hp)
  unfolding write_entry poke entry_bytes
  write_entry-At m base len b u hp s e =
      Stride-elim
        (λ b.
          IsEntry b hp
          → At (write_entry m (record { base = base; len = len; b = b }) u hp).file
              (base + u32 (u * 2 ^ b)) (entry_bytes b hp))
        (λ e.
          let q = base + u32 (u * 8) in
          let lh = length-be32enc hp.h e.hash in
          let wrap : u32 hp.p ≡ hp.p = omega (arith, e.near) in
          subst
            (λ v.
              At (store (store m.file q (be32enc hp.h)) (q + 4) (be32enc v)) q
                (be32enc hp.h ++ be32enc hp.p))
            (sym wrap)
            (At-store_next _ q 4 (be32enc hp.h) (be32enc hp.p) lh
              (At-store_self m.file q (be32enc hp.h))))
        (λ e.
          let q = base + u32 (u * 16) in
          let lh = length-be32enc hp.h e.hash in
          let ll = length-be32enc hp.l e.len in
          At-store_next _ q 8 (be32enc hp.h ++ be32enc hp.l) (be64enc hp.p)
            (omega (arith, lh, ll, length-append (be32enc hp.h) (be32enc hp.l)))
            (At-store_next _ q 4 (be32enc hp.h) (be32enc hp.l) lh
              (At-store_self m.file q (be32enc hp.h))))
        b s e

  pub write_entry_outside :
      (m : Make) (base len b u i : ℕ) (hp : Hp)
      → IsStride b
      → IsEntry b hp
      → (i < base + u32 (u * 2 ^ b)) ⊎ (base + u32 (u * 2 ^ b) + 2 ^ b ≤ i)
      → (write_entry m (record { base = base; len = len; b = b }) u hp).file i ≡ m.file i
  unfolding write_entry poke
  write_entry_outside m base len b u i hp s e out =
      Stride-elim
        (λ b.
          IsEntry b hp
          → (i < base + u32 (u * 2 ^ b)) ⊎ (base + u32 (u * 2 ^ b) + 2 ^ b ≤ i)
          → (write_entry m (record { base = base; len = len; b = b }) u hp).file i ≡ m.file i)
        (λ e out.
          let q = base + u32 (u * 8) in
          let wrap : u32 hp.p < 2 ^ 32 = omega arith in
          store_outside _ (q + 4) i (be32enc (u32 hp.p)) (
            shrink i q 8 (q + 4) _ out (omega arith)
              (omega (arith, length-be32enc (u32 hp.p) wrap)))
          ∙ store_outside m.file q i (be32enc hp.h)
              (shrink i q 8 q _ out (omega arith) (omega (arith, length-be32enc hp.h e.hash))))
        (λ e out.
          let q = base + u32 (u * 16) in
          store_outside _ (q + 8) i (be64enc hp.p)
            (shrink i q 16 (q + 8) _ out (omega arith) (omega (arith, length-be64enc hp.p e.near)))
          ∙ store_outside _ (q + 4) i (be32enc hp.l)
              (shrink i q 16 (q + 4) _ out (omega arith) (omega (arith, length-be32enc hp.l e.len)))
          ∙ store_outside m.file q i (be32enc hp.h)
              (shrink i q 16 q _ out (omega arith) (omega (arith, length-be32enc hp.h e.hash))))
        b s e out
