-- ===== src/Make/Finish/Fill.antt =====
-- The table that stands in memory is the ring of slots that `Table` speaks of.
pub mod Apart
pub mod Entry
pub use Apart.*
pub use Entry.*
use mcdb.Base.{
  ℕ, zero, suc, ◌+◌, ◌*◌, ◌/◌, ◌%◌, ◌^◌, ◌≤◌, ◌<◌, ◌≡◌, ◌≢◌, refl, sym, ◌∙◌, ap, ap₂, subst, inl,
  inr, ◌⊎◌,
}
use mcdb.Base.{
  List, [], ◌∷◌, ◌++◌, Bool, true, false, Option, none, some, ◌==◌, ==_iff, if◌then◌else◌,
}
use mcdb.Base.{ltb, Bool-cases, Option-cases, length, length-append, replicate, All, u32, arith}
use mcdb.Base.Memory.{
  Memory, store, At, At-congr, append-At, At-store_self, At-store_next, store_outside,
}
use mcdb.Base.Bits.{mod_digit}
use mcdb.Plasma.{Plasma, be_bytes, length-be32enc, length-be64enc}
use mcdb.Mcdb.{slot_bits}
use mcdb.Table.{next_slot, Slots, put, first_empty, fill}
use mcdb.Table.Ring.{next_slot-lt, first_empty-lt, first_empty_here, first_empty_next}
use mcdb.Table.Search.{put_same, put_other, fill_stuck, fill_next, none-ne-some, some_eq}
use mathlib.Core.Bool.{false≢true}
use native.Mathlib.Nat.{mul-le-mul_right}
use mcdb.Make.{Make, Hp, poke}
use mcdb.Make.Finish.{
  Area, entry_at, dpos_field, is_zero, find_empty, write_entry, insert_hp, insert_hps,
}

module _ ⦃plasma : Plasma⦄ where
  -- A slot's bytes decide what it shows.
  pub ShowsSlot-congr :
      (t : Area) (mem mem' : Memory) (u : ℕ) (o : Option Hp)
      → IsStride t.b
      → ((i : ℕ) → entry_at t u ≤ i → i < entry_at t u + 2 ^ t.b → mem i ≡ mem' i)
      → ShowsSlot t mem u o
      → ShowsSlot t mem' u o
  ShowsSlot-congr t mem mem' u none s same h =
      sym (
        is_zero_congr (dpos_field t) mem mem' _
          (λ i p q. same i (omega arith) (omega (arith, field_twice t.b s))))
      ∙ h
  ShowsSlot-congr t mem mem' u (some hp) s same (e, at) = (
    e,
    At-congr mem mem' (entry_at t u) (entry_bytes t.b hp)
        (λ i p q. same i p (subst (λ n. i < entry_at t u + n) (length-entry_bytes t.b hp s e) q))
        at,
  )

  Shows-write_entry :
      (m : Make) (t : Area) (s : Slots Hp) (q : ℕ) (hp : Hp)
      → IsStride t.b
      → IsEntry t.b hp
      → u32 (q * 2 ^ t.b) ≡ q * 2 ^ t.b
      → Shows t m.file s
      → Shows t (write_entry m t q hp).file (put s q hp)
  Shows-write_entry m t s q hp st e exact shows u lt = elim (Bool-cases (u == q)) [
    | inl same ↦
        let at = sym ((==_iff u q).0 same) in
        subst (λ v. ShowsSlot t (write_entry m t q hp).file v (put s q hp v)) at
          (subst (λ o. ShowsSlot t (write_entry m t q hp).file q o) (sym (put_same t.len s q hp))
            (
              e,
              subst (λ (d : ℕ). At (write_entry m t q hp).file (t.base + d) (entry_bytes t.b hp))
                  exact (write_entry-At m t.base t.len t.b q hp st e),
            ))
    | inr other ↦
        let away : u ≢ q = λ p. false≢true (sym other ∙ (==_iff u q).1 p) in
        subst (λ o. ShowsSlot t (write_entry m t q hp).file u o)
          (sym (put_other t.len s q u hp away))
          (ShowsSlot-congr t m.file _ u (s u) st
            (λ i lo hi. sym (
              write_entry_outside m t.base t.len t.b q i hp st e (
                subst (λ (d : ℕ). (i < t.base + d) ⊎ (t.base + d + 2 ^ t.b ≤ i)) (sym exact)
                  (apart u q (2 ^ t.b) t.base i away lo hi))))
            (shows u lt))
  ]

  find_empty-first_empty :
      (t : Area) (mem : Memory) (s : Slots Hp) (k u : ℕ)
      → IsStride t.b
      → Shows t mem s
      → u < t.len
      → find_empty k t mem u ≡ first_empty t.len k s u
  unfolding find_empty first_empty next_slot
  find_empty-first_empty t mem s zero u st shows lt = refl
  find_empty-first_empty t mem s (suc k) u st shows lt = elim (Option-cases (s u)) [
    | inl o ↦
        let empty = subst (ShowsSlot t mem u) o (shows u lt) in
        rw (empty, find_empty) (sym (first_empty_here t.len s k u o))
    | inr (hp, o) ↦
        let (e, at) = subst (ShowsSlot t mem u) o (shows u lt) in
        rw (At-is_zero t.b mem (entry_at t u) hp st e at, find_empty)
          (find_empty-first_empty t mem s k (next_slot t.len u) st shows (next_slot-lt t.len u lt))
        ∙ sym (first_empty_next t.len s k u hp o)
  ]

  -- In a table of at most 2 ^ 32 bytes the place of a slot does not wrap.
  slot_exact :
      (b len q : ℕ) → IsStride b → len * 2 ^ b ≤ 2 ^ 32 → q < len → u32 (q * 2 ^ b) ≡ q * 2 ^ b
  slot_exact b len q st room lt =
      Stride-elim (λ b. len * 2 ^ b ≤ 2 ^ 32 → u32 (q * 2 ^ b) ≡ q * 2 ^ b) (λ room. omega arith)
        (λ room. omega arith) b st room

  insert_hps-fill :
      (m : Make) (t : Area) (s : Slots Hp) (hps : List Hp)
      → IsStride t.b
      → 0 < t.len
      → t.len * 2 ^ t.b ≤ 2 ^ 32
      → All (IsEntry t.b) hps
      → Shows t m.file s
      → (s' : Slots Hp) → fill t.len (λ hp. hp.h / 2 ^ slot_bits % t.len) hps s ≡ some s'
      → (m' : Make) × (insert_hps m t hps ≡ some m') × Shows t m'.file s'
  unfolding fill insert_hps
  insert_hps-fill m t s [] st pos room es shows s' h =
      (m, refl, subst (Shows t m.file) (some_eq h) shows)
  insert_hps-fill m t s (hp ∷ hps) st pos room (e, es) shows s' h =
      let home = λ (hp : Hp). hp.h / 2 ^ slot_bits % t.len in
      elim (Option-cases (first_empty t.len t.len s (home hp))) [
        | inl o ↦ absurd (none-ne-some (sym (fill_stuck t.len home hp hps s o) ∙ h))
        | inr (q, o) ↦
            let run =
              find_empty-first_empty t m.file s t.len (home hp) st shows (omega arith) ∙ o in
            let exact =
              slot_exact t.b t.len q st room
                (first_empty-lt t.len s t.len (home hp) q (omega arith) o) in
            let (m', rest, shown) =
              insert_hps-fill (write_entry m t q hp) t (put s q hp) hps st pos room es
                (Shows-write_entry m t s q hp st e exact shows) s'
                (sym (fill_next t.len home hp hps s q o) ∙ h) in
            (m', rw (run, insert_hps, insert_hp) rest, shown)
      ]

  Shows-zeroes :
      (mem : Memory) (base len b : ℕ)
      → IsStride b
      → At mem base (replicate (len * 2 ^ b) 0)
      → Shows (record { base = base; len = len; b = b }) mem (λ _. none)
  Shows-zeroes mem base len b s at u lt =
      let field = field_twice b s in
      let inside : (u + 1) * 2 ^ b ≤ len * 2 ^ b = mul-le-mul_right (2 ^ b) lt' in
      is_zero_all _ mem _ (λ i lo hi.
        At-replicate (len * 2 ^ b) mem base 0 i at (omega arith) (omega (arith, field, inside)))
    where
      lt' : u + 1 ≤ len
      lt' = omega arith

  -- A zeroed table of at most 2 ^ 32 bytes is filled as the ring of slots is: no search for an
  -- empty slot runs forever, and the table shows what the ring holds.
  pub insert_hps-zeroes :
      (m : Make) (t : Area) (hps : List Hp) (s : Slots Hp)
      → IsStride t.b
      → 0 < t.len
      → t.len * 2 ^ t.b ≤ 2 ^ 32
      → All (IsEntry t.b) hps
      → At m.file t.base (replicate (t.len * 2 ^ t.b) 0)
      → fill t.len (λ hp. hp.h / 2 ^ slot_bits % t.len) hps (λ _. none) ≡ some s
      → (m' : Make) × (insert_hps m t hps ≡ some m') × Shows t m'.file s
  insert_hps-zeroes m t hps s st pos room es at filled =
      insert_hps-fill m t (λ _. none) hps st pos room es
        (Shows-zeroes m.file t.base t.len t.b st at) s filled
