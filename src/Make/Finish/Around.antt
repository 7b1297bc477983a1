-- ===== src/Make/Finish/Around.antt =====
-- What mcdb_make_finish leaves around a table that it fills.
use mcdb.Base.{ℕ, ◌+◌, ◌*◌, ◌/◌, ◌%◌, ◌^◌, ◌≤◌, ◌<◌, ◌≡◌, refl, sym, ◌∙◌, ap, subst, inl, inr}
use mcdb.Base.{List, [], ◌∷◌, none, some, arith}
use mcdb.Base.{Option-cases}
use mcdb.Base.{All}
use mcdb.Base.Memory.{Memory}
use mcdb.Plasma.{Plasma}
use mcdb.Mcdb.{slot_bits}
use native.Mathlib.Nat.{mul-le-mul_right}
use mcdb.Table.{Slots}
use mcdb.Table.Search.{none-ne-some, some_eq}
use mcdb.Make.{Make, Hp, poke}
use mcdb.Make.Keep.{Content, content}
use mcdb.Make.Finish.{Area, find_empty, write_entry, insert_hp, insert_hps}
use mcdb.Make.Finish.Fill.{IsStride, IsEntry, Shows, ShowsSlot-congr, write_entry_outside}

abbrev pub home : ℕ → Hp → ℕ
home len hp = hp.h / 2 ^ slot_bits % len

module _ ⦃plasma : Plasma⦄ where
  insert_hps_step :
      (m : Make) (t : Area) (hp : Hp) (hps : List Hp) (u : ℕ)
      → find_empty t.len t m.file (home t.len hp) ≡ some u
      → insert_hps m t (hp ∷ hps) ≡ insert_hps (write_entry m t u hp) t hps
  unfolding insert_hps insert_hp
  insert_hps_step m t hp hps u o = rw (o, insert_hps, insert_hp)

  insert_hps_stuck :
      (m : Make) (t : Area) (hp : Hp) (hps : List Hp)
      → find_empty t.len t m.file (home t.len hp) ≡ none
      → insert_hps m t (hp ∷ hps) ≡ none
  unfolding insert_hps insert_hp
  insert_hps_stuck m t hp hps o = rw (o, insert_hps, insert_hp)

  write_entry-content :
      (m : Make) (t : Area) (u : ℕ) (hp : Hp)
      → content (write_entry m t u hp) ≡ record (content m) { file = (write_entry m t u hp).file }
  unfolding write_entry poke
  write_entry-content m t u hp = ground arith

  -- Filling a table changes no byte in front of it, and nothing but bytes.
  pub insert_hps_before :
      (m : Make) (t : Area) (hps : List Hp) (m' : Make)
      → IsStride t.b
      → All (IsEntry t.b) hps
      → insert_hps m t hps ≡ some m'
      → (content m' ≡ record (content m) { file = m'.file })
        × ((i : ℕ) → i < t.base → m'.file i ≡ m.file i)
  insert_hps_before m t [] m' st es h =
      let same : m ≡ m' = some_eq (unfold insert_hps in h) in
      (
        subst (λ (m' : Make). content m' ≡ record (content m) { file = m'.file }) same refl,
        λ i lt. ap (λ (m : Make). m.file i) (sym same),
      )
  insert_hps_before m t (hp ∷ hps) m' st (e, es) h =
      elim (Option-cases (find_empty t.len t m.file (home t.len hp))) [
        | inl o ↦ absurd (none-ne-some (sym (insert_hps_stuck m t hp hps o) ∙ h))
        | inr (u, o) ↦
            let (kept, before) =
              insert_hps_before (write_entry m t u hp) t hps m' st es
                (sym (insert_hps_step m t hp hps u o) ∙ h) in
            (
              kept
                  ∙ ap (λ (c : Content). record c { file = m'.file })
                      (write_entry-content m t u hp),
              λ i lt.
                  before i lt
                  ∙ write_entry_outside m t.base t.len t.b u i hp st e (inl (omega arith)),
            )
      ]

  -- A table shows the same in memories that agree where it stands.
  pub Shows-congr :
      (t : Area) (mem mem' : Memory) (s : Slots Hp)
      → IsStride t.b
      → ((i : ℕ) → t.base ≤ i → i < t.base + t.len * 2 ^ t.b → mem i ≡ mem' i)
      → Shows t mem s
      → Shows t mem' s
  Shows-congr t mem mem' s st same shows u lt =
      let below : u + 1 ≤ t.len = omega arith in
      let inside : (u + 1) * 2 ^ t.b ≤ t.len * 2 ^ t.b = mul-le-mul_right (2 ^ t.b) below in
      ShowsSlot-congr t mem mem' u (s u) st
        (λ i lo hi. same i (omega arith) (omega (arith, inside))) (shows u lt)
