-- ===== src/Mcdb/Slots.antt =====
-- mcdb_numrecs and mcdb_validate_slots: the header as a whole.
use mcdb.Base.{
  ℕ, zero, suc, ◌+◌, ◌*◌, ◌/◌, ◌^◌, Bool, false, Option, none, some, u32, u64, ltb, ◌==◌,
}
use mcdb.Base.{if◌then◌else◌}
use mcdb.Base.Memory.{Memory}
use mcdb.Plasma.{Plasma}
use mcdb.Uint32.{strunpack32, strunpack64}
use mcdb.Mcdb.{Mcdb, header_sz, slots, uint_max}

module _ ⦃plasma : Plasma⦄ where
  -- for (i = 8; i < MCDB_HEADER_SZ; i += 16) u += …, by the rounds left
  unfoldable pub sum_hslots : ℕ → Memory → ℕ → ℕ → ℕ
  unfolding strunpack32
  sum_hslots zero ptr i u = u
  sum_hslots (suc rounds) ptr i u = sum_hslots rounds ptr (i + 16) (u32 (u + strunpack32 ptr i))

  unfoldable pub mcdb_numrecs : Mcdb → ℕ × Mcdb
  unfolding sum_hslots
  mcdb_numrecs m =
      let counted = sum_hslots slots m.map.mem 8 0 / 2 in
      if m.map.n == uint_max
      then (counted, record m { map = record m.map { n = counted } })
      else (m.map.n, m)

  -- The do-while loop: `none` is `return false`, else `hpos_next` and `numrecs` at its end.
  unfoldable pub walk_slots : ℕ → ℕ → Memory → ℕ → ℕ → ℕ → Option (ℕ × ℕ)
  unfolding strunpack32 strunpack64
  walk_slots zero bits ptr u hpos_next numrecs = some (hpos_next, numrecs)
  walk_slots (suc rounds) bits ptr u hpos_next numrecs =
      let hpos = strunpack64 ptr u in
      let hslots = strunpack32 ptr (u + 8) in
      let rest =
        walk_slots rounds bits ptr (u + 16) (u64 (hpos_next + u64 (hslots * 2 ^ bits)))
          (u32 (numrecs + hslots)) in
      if hpos == hpos_next then rest else none

  unfoldable pub mcdb_validate_slots : Mcdb → Bool × Mcdb
  unfolding walk_slots
  mcdb_validate_slots m =
      let ptr = m.map.mem in
      if ltb m.map.size header_sz
      then (false, m)
      else elim (walk_slots slots m.map.b ptr 0 (strunpack64 ptr 0) 0) [
        | none ↦ (false, m)
        | some (hpos_next, numrecs) ↦
            (hpos_next == m.map.size, record m { map = record m.map { n = numrecs / 2 } })
      ]
