-- ===== src/Lookup/Round.antt =====
-- One round of the search loop: what it is to do, and the facts that both sizes of entries share.
pub mod Eight
pub mod Sixteen
use mcdb.Base.{
  ℕ, zero, suc, ◌+◌, ◌-◌, ◌*◌, ◌%◌, ◌^◌, ◌≤◌, ◌<◌, ◌≡◌, ◌≢◌, refl, sym, ◌∙◌, ap, ap₂, subst, inl,
  inr,
}
use mcdb.Base.{
  List, [], ◌∷◌, Bool, true, false, not, ◌&&◌, Option, none, some, ◌==◌, ==_iff, if◌then◌else◌,
}
use mcdb.Base.{Bool-cases, Option-cases, length, u64, arith}
use mcdb.Base.Memory.{Memory, load, At}
use mcdb.Plasma.{Plasma}
use mcdb.Uint32.{strunpack32, strunpack64, strunpack32-At, strunpack64-At}
use mathlib.Core.Bool.{false≢true}
use mcdb.Mcdb.{Mmap, Mcdb}
use mcdb.Mcdb.Find.{
  Round, stop, next, found, round_8, round_16, round, next_kpos, tag_len, key_matches,
}
use mcdb.Table.{next_slot, Slots}
use mcdb.Table.Ring.{next_slot-lt}
use mcdb.Make.{Hp}
use mcdb.Make.Finish.{Area, entry_at, dpos_field, is_zero}
use mcdb.Make.Finish.Fill.{IsStride, Shows, ShowsSlot, IsEntry, At-entry_3, At-entry_4}
use mcdb.Lookup.{Searched, area, AtSlot, hits, IsSearched}

pub ==-false : (p : ℕ) → 0 < p → (p == 0) ≡ false
==-false p h = ground arith

module _ ⦃plasma : Plasma⦄ where
  open plasma use {be32dec, be64dec, be32dec_lem, be64dec_lem}

  -- The state after the entry `hp` was found.
  pub record Found (read : Mmap) (hp : Hp) (m : Mcdb) : Type 0 where
    pub map : m.map ≡ read
    pub klen : m.klen ≡ hp.l
    pub dpos : m.dpos ≡ hp.p + 8 + hp.l
    pub dlen : m.dlen ≡ strunpack32 read.mem (hp.p + 4)

  -- What a round at a slot that shows `o` does.
  abbrev pub RoundAt : Searched → ℕ → ℕ → ℕ → (Hp → Bool) → Option Hp → Round → Type 0
  RoundAt c khash u j hit none r = (m' : Mcdb) × (r ≡ stop m')
  RoundAt c khash u j hit (some hp) r =
      (m' : Mcdb) × (r ≡ (if hit hp then found m' else next m'))
      × AtSlot c khash (next_slot c.len u) (j + 1) m'
      × (hit hp ≡ true → Found c.map hp m')

  pub strunpack32-zero : (mem : Memory) (a : ℕ) → is_zero mem a 4 ≡ true → strunpack32 mem a ≡ 0
  unfolding strunpack32 is_zero load
  strunpack32-zero mem a z = be32dec_lem _ refl (ground arith) ∙ ground arith

  pub strunpack64-zero : (mem : Memory) (a : ℕ) → is_zero mem a 8 ≡ true → strunpack64 mem a ≡ 0
  unfolding strunpack64 is_zero load
  strunpack64-zero mem a z = be64dec_lem _ refl (ground arith) ∙ ground arith

  -- The facts that both sizes share: the reads of a slot, and what the lookup tests.
  module _ (c : Searched) (khash : ℕ) (key : List ℕ) (tagc : ℕ) (m : Mcdb) (u j : ℕ)
      (at : AtSlot c khash u j m) where
    pub read_at :
        (k a v : ℕ)
        → m.kpos ≡ a
        → strunpack32 c.map.mem (a + k) ≡ v
        → strunpack32 m.map.mem (m.kpos + k) ≡ v
    read_at k a v e h = ap₂ (λ (mp : Mmap) (i : ℕ). strunpack32 mp.mem (i + k)) at.map e ∙ h

    pub tests : Mmap → Hp → Bool
    tests mp hp =
        (strunpack32 mp.mem hp.p == length key + tag_len tagc)
        && key_matches mp.mem (hp.p + 8) key tagc

    pub hits_same :
        (hp : Hp) → (hp.h == khash) ≡ true → hits c.map.mem khash key tagc hp ≡ tests c.map hp
    unfolding hits tests
    hits_same hp same = rw same

    pub hits_other : (hp : Hp) → (hp.h == khash) ≡ false → hits c.map.mem khash key tagc hp ≡ false
    unfolding hits
    hits_other hp other = rw other

    pub hits_longer :
        (hp : Hp)
        → (hp.h == khash) ≡ true
        → (strunpack32 c.map.mem hp.p == length key + tag_len tagc) ≡ false
        → hits c.map.mem khash key tagc hp ≡ false
    unfolding hits
    hits_longer hp same len = rw (same, len)

    pub after_miss :
        (hp : Hp) (m' : Mcdb) (r : Round)
        → hits c.map.mem khash key tagc hp ≡ false
        → r ≡ next m'
        → AtSlot c khash (next_slot c.len u) (j + 1) m'
        → RoundAt c khash u j (hits c.map.mem khash key tagc) (some hp) r
    after_miss hp m' r no_hit run at' =
        (m', rw no_hit run, at', λ h. absurd (false≢true (sym no_hit ∙ h)))

    pub after_same :
        (hp : Hp) (m' : Mcdb) (r : Round)
        → (hp.h == khash) ≡ true
        → r ≡ (if tests m.map hp then found m' else next m')
        → AtSlot c khash (next_slot c.len u) (j + 1) m'
        → Found c.map hp m'
        → RoundAt c khash u j (hits c.map.mem khash key tagc) (some hp) r
    after_same hp m' r same run at' there = (
      m',
      run
          ∙ ap (λ (t : Bool). if t then found m' else next m')
              (ap (λ mp. tests mp hp) at.map ∙ sym (hits_same hp same)),
      at',
      λ h. there,
    )
