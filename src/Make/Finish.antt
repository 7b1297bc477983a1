-- ===== src/Make/Finish.antt =====
-- mcdb_make_finish: the padding, one hash table for each slot, and the header.
pub mod Fill
pub mod Around
pub mod Tables
pub mod Loop
pub mod Done
pub mod Returns
use mcdb.Base.{
  ℕ, zero, suc, ◌+◌, ◌-◌, ◌*◌, ◌/◌, ◌%◌, ◌^◌, bit_and, List, [], ◌∷◌, ◌++◌, Bool, true, false, not,
  ◌&&◌,
}
use mcdb.Base.{◌||◌, Option, none, some, ltb, ◌==◌, if◌then◌else◌, length, replicate, u32, u64}
use mcdb.Base.Memory.{Memory, load, store}
use mcdb.Plasma.{Plasma}
use mcdb.Mcdb.{slots, slot_bits, header_sz, int_max, uint_max, pad_align, pad_mask}
use mcdb.Make.{Make, Hp, HpSlot, Errno, eperm, enomem, os, ask, poke}
use mcdb.Make.Hplist.{sum_count}
use mcdb.Make.Add.{Rc, ensure_window}
use mcdb.Make.Start.{mcdb_make_destroy}

-- The records of a slot in the order of the loops: the newest list first, each from `hp[0]` on.
unfoldable pub slot_hps : List (List Hp) → List Hp
slot_hps [] = []
slot_hps (l ∷ ls) = l ++ slot_hps ls

-- *(uint32_t *)a == 0, and *(uintptr_t *)a == 0 for eight bytes
unfoldable pub is_zero : Memory → ℕ → ℕ → Bool
is_zero mem a zero = true
is_zero mem a (suc n) = mem a == 0 && is_zero mem (a + 1) n

-- A table: where it begins, its slots, and whether its entries have 8 or 16 bytes.
pub record Area : Type 0 where
  pub base : ℕ
  pub len : ℕ
  pub b : ℕ

-- Where slot `u` begins, and where its offset field stands in it.
abbrev pub entry_at : Area → ℕ → ℕ
entry_at t u = t.base + u * 2 ^ t.b

abbrev pub dpos_field : Area → ℕ
dpos_field t = if t.b == 3 then 4 else 8

-- while (the offset in slot `u` is not 0) if (++u == len) u = 0; `none`: more than `fuel` rounds
unfoldable pub find_empty : ℕ → Area → Memory → ℕ → Option ℕ
unfolding is_zero
find_empty zero t mem u = none
find_empty (suc fuel) t mem u = elim (is_zero mem (entry_at t u + dpos_field t) (dpos_field t)) [
  | true ↦ some u
  | false ↦ find_empty fuel t mem (if u + 1 == t.len then 0 else u + 1)
]

module _ ⦃plasma : Plasma⦄ where
  open plasma use {be32enc, be64enc}

  -- The stores into slot `u`, after `q += (u<<3)` or `q += (u<<4)`: the shift is one of `uint32_t`
  -- and wraps, where the loop in front of it widens `u` first.
  unfoldable pub write_entry : Make → Area → ℕ → Hp → Make
  unfolding poke
  write_entry m t u hp =
      let q = t.base + u32 (u * 2 ^ t.b) in
      if t.b == 3
      then poke (poke m q (be32enc hp.h)) (q + 4) (be32enc (u32 hp.p))
      else poke (poke (poke m q (be32enc hp.h)) (q + 4) (be32enc hp.l)) (q + 8) (be64enc hp.p)

  -- One round of the loop over the records; `none` is a search for an empty slot without end.
  unfoldable pub insert_hp : Make → Area → Hp → Option Make
  unfolding find_empty write_entry
  insert_hp m t hp = elim (find_empty t.len t m.file (hp.h / 2 ^ slot_bits % t.len)) [
    | none ↦ none
    | some u ↦ some (write_entry m t u hp)
  ]

  unfoldable pub insert_hps : Make → Area → List Hp → Option Make
  unfolding insert_hp
  insert_hps m t [] = some m
  insert_hps m t (hp ∷ hps) = elim (insert_hp m t hp) [
    | none ↦ none
    | some m' ↦ insert_hps m' t hps
  ]

  -- hpos, hslots, and four bytes of 0
  unfoldable pub header_entry : ℕ → ℕ → List ℕ
  header_entry hpos hslots = be64enc hpos ++ be32enc hslots ++ replicate 4 0

  -- What the loop over the slots hands on: whether it broke off, the state, and the header so far.
  pub record Written : Type 0 where
    pub whole : Bool
    pub state : Make
    pub header : List ℕ

  unfoldable pub write_slots : ℕ → ℕ → ℕ → Make → List ℕ → Option Written
  unfolding ensure_window poke slot_hps insert_hps header_entry
  write_slots zero i b m header = some (record { whole = true; state = m; header = header })
  write_slots (suc rounds) i b m header =
      let len = u32 (m.count i * 2) in
      let size = len * 2 ^ b in
      let (reached, m₁) = ensure_window m (u64 (m.pos + size)) in
      let m₂ = record (poke m₁ m.pos (replicate size 0)) { pos = u64 (m.pos + size) } in
      let area : Area = record { base = m.pos; len = len; b = b } in
      elim reached [
        | false ↦ some (record { whole = false; state = m₁; header = header })
        | true ↦ elim (insert_hps m₂ area (slot_hps (m.head i).lists)) [
          | none ↦ none
          | some m₃ ↦ write_slots rounds (i + 1) b m₃ (header ++ header_entry m.pos len)
        ]
      ]

-- mcdb_mmap_commit: cut the file to size, flush, and write the header over its begin.
unfoldable pub mcdb_mmap_commit : Make → List ℕ → Bool × Make
unfolding ask
mcdb_mmap_commit m header =
    let to_map = if m.offset == 0 then record m { file = store m.file 0 header } else m in
    let (truncated, m₁) = ask m in
    let (synced, m₂) =
      (let none_due : Bool × Make = (true, m₁) in if m.pos == m.offset then none_due else ask m₁) in
    let (sought, m₃) = ask m₂ in
    let (written, m₄) = ask m₃ in
    let m₅ = record m₄ { file = store m.file 0 header } in
    if not m.has_fd
    then (true, to_map)
    else if not truncated
    then (false, m₁)
    else if not synced
    then (false, m₂)
    else if not sought
    then (false, m₃)
    else if written
    then (true, m₅)
    else (false, m₄)

-- The padding up to a multiple of 16.
abbrev pub padding : ℕ → ℕ
padding pos = bit_and (pad_align - bit_and pos pad_mask) pad_mask

-- mcdb_make_err(m, e), and the return code of the end
abbrev pub give_up : Make → Errno → Rc
give_up m e = (some e, (mcdb_make_destroy m).1)

unfoldable pub close_up : Bool → Make → Rc
unfolding mcdb_make_destroy
close_up committed m =
    let (rc, m₁) = mcdb_make_destroy m in if committed && rc then (none, m₁) else (some os, m₁)

module _ ⦃plasma : Plasma⦄ where
  unfoldable pub finish_tables : Make → Option Rc
  unfolding write_slots mcdb_mmap_commit close_up
  finish_tables m = elim (write_slots slots 0 (if ltb m.pos uint_max then 3 else 4) m []) [
    | none ↦ none
    | some w ↦
        let (committed, m₁) = mcdb_mmap_commit w.state w.header in
        some (if w.whole then close_up committed m₁ else close_up false w.state)
  ]

  unfoldable pub mcdb_make_finish : Make → Option Rc
  unfolding sum_count ensure_window poke finish_tables
  mcdb_make_finish m =
      let d = padding m.pos in
      let (reached, m₁) = ensure_window m (u64 (m.pos + d)) in
      let padded = if d == 0 then m₁ else poke m₁ m.pos (replicate d 0xff) in
      if not m.mapped
      then some (give_up m eperm)
      else if ltb int_max (sum_count slots m.count)
      then some (give_up m enomem)
      else if not reached
      then some (give_up m₁ os)
      else finish_tables (record padded { pos = u64 (m.pos + d) })
