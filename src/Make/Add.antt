-- ===== src/Make/Add.antt =====
-- mcdb_make_start and the calls that add a record.
use mcdb.Base.{ℕ, ◌+◌, ◌-◌, List, Bool, true, not, ◌&&◌, ◌||◌, Option, none, some, ltb, ◌==◌}
use mcdb.Base.{length, if◌then◌else◌, u32, u64}
use mcdb.Plasma.{Plasma}
use mcdb.Mcdb.{run_hash, int_max, uint_max}
use mcdb.Make.{Make, Errno, eperm, einval, os, poke}
use mcdb.Make.Hplist.{mcdb_hplist_alloc, mcdb_make_addend}
use mcdb.Make.Upsize.{mcdb_mmap_upsize}

-- A call's result: `none` is 0, `some e` is -1 with errno `e`.
abbrev pub Rc : Type 0
Rc = Option Errno × Make

-- The lists, if the record before filled one.
unfoldable pub make_room : Make → Rc
unfolding mcdb_hplist_alloc
make_room m = if m.hp.l == uint_max then mcdb_hplist_alloc m else (none, m)

unfoldable pub begin_hp : Make → Make
begin_hp m = record m { hp = record m.hp { p = m.pos; h = m.hash_init } }

-- The mapping, if it does not reach to the end of the record.
unfoldable pub ensure_window : Make → ℕ → Bool × Make
unfolding mcdb_mmap_upsize
ensure_window m sz = if ltb (u64 (m.offset + m.msz)) sz then mcdb_mmap_upsize m sz else (true, m)

module _ ⦃plasma : Plasma⦄ where
  open plasma use {be32enc}

  unfoldable pub write_lens : Make → ℕ → ℕ → Make
  unfolding poke
  write_lens m keylen datalen =
      let m₁ = poke m m.pos (be32enc (u32 keylen)) in
      let m₂ = poke m₁ (m.pos + 4) (be32enc (u32 datalen)) in record m₂ { pos = u64 (m.pos + 8) }

  unfoldable pub mcdb_make_addbegin : Make → ℕ → ℕ → Rc
  unfolding make_room begin_hp ensure_window write_lens
  mcdb_make_addbegin m keylen datalen =
      let len = u64 (8 + keylen + datalen) in
      let (room, m₁) = make_room m in
      let m₂ = begin_hp m₁ in
      let m₃ = record m₂ { hp = record m₂.hp { l = u32 keylen } } in
      let (reached, m₄) = ensure_window m₃ (u64 (m.pos + len)) in
      if not m.mapped && m.has_fd then (some eperm, m) else elim room [
        | some e ↦ (some e, m₁)
        | none ↦
            if ltb (int_max - 8) keylen || ltb (int_max - 8) datalen
            then (some einval, m₂)
            else if not reached
            then (some os, m₄)
            else (none, write_lens m₄ keylen datalen)
      ]

  unfoldable pub mcdb_make_addbuf_data : Make → List ℕ → Make
  unfolding poke
  mcdb_make_addbuf_data m buf = record (poke m m.pos buf) { pos = u64 (m.pos + length buf) }

  unfoldable pub mcdb_make_addbuf_key : Make → List ℕ → Make
  unfolding mcdb_make_addbuf_data run_hash
  mcdb_make_addbuf_key m buf =
      mcdb_make_addbuf_data (record m { hp = record m.hp { h = run_hash m.hash_fn m.hp.h buf } })
        buf

  unfoldable pub mcdb_make_addrevert : Make → Make
  mcdb_make_addrevert m = record m { pos = m.hp.p }

  unfoldable pub mcdb_make_add : Make → List ℕ → List ℕ → Rc
  unfolding mcdb_make_addbegin mcdb_make_addbuf_key mcdb_make_addbuf_data mcdb_make_addend
  mcdb_make_add m key data' =
      let (rc, m₁) = mcdb_make_addbegin m (length key) (length data') in
      elim rc [
        | some e ↦ (some e, m₁)
        | none ↦
            (none, mcdb_make_addend (mcdb_make_addbuf_data (mcdb_make_addbuf_key m₁ key) data'))
      ]
