-- ===== src/Lookup.antt =====
-- What the writer puts into a hash table, the reader finds: mcdb_findtagstart and mcdb_findtagnext
-- of mcdb.c over the tables of mcdb_make_finish.
pub mod Round
pub mod Search
pub mod Walk
pub mod Sequence
pub mod Finished
pub mod Stored
use mcdb.Base.{
  ℕ, zero, suc, ◌+◌, ◌*◌, ◌^◌, ◌<◌, ◌≡◌, List, Bool, ◌&&◌, ◌==◌, length, Option, none, some,
}
use mcdb.Base.Memory.{Memory}
use mcdb.Plasma.{Plasma}
use mcdb.Uint32.{strunpack32}
use mcdb.Mcdb.{Mmap, Mcdb}
use mcdb.Mcdb.Find.{tag_len, key_matches}
use mcdb.Table.{Slots}
use mcdb.Make.{Hp}
use mcdb.Make.Finish.{Area, entry_at}
use mcdb.Make.Finish.Fill.{IsStride, Shows}

-- The table that a search reads: a map, where the table stands in it, and its entries.
pub record Searched : Type 0 where
  pub map : Mmap
  pub base : ℕ
  pub len : ℕ
  pub entries : Slots Hp

abbrev pub area : Searched → Area
area c = record { base = c.base; len = c.len; b = c.map.b }

-- A search for `khash` that stands at slot `u` after `j` slots.
pub record AtSlot (c : Searched) (khash u j : ℕ) (m : Mcdb) : Type 0 where
  pub map : m.map ≡ c.map
  pub hpos : m.hpos ≡ c.base
  pub hslots : m.hslots ≡ c.len
  pub same_hash : m.khash ≡ khash
  pub kpos : m.kpos ≡ entry_at (area c) u
  pub loop : m.loop ≡ j
  pub inside : u < c.len

module _ ⦃plasma : Plasma⦄ where
  -- The entry has the hash, and its record has the tag and the key.
  unfoldable pub hits : Memory → ℕ → List ℕ → ℕ → Hp → Bool
  hits mem khash key tagc hp =
      (hp.h == khash)
      && ((strunpack32 mem hp.p == length key + tag_len tagc)
          && key_matches mem (hp.p + 8) key tagc)

  -- A table as `finish` leaves it: the entries stand in memory, the file ends below 2 ^ 63, and an
  -- entry's `l` is the length of its record's key.
  pub record IsSearched (c : Searched) : Type 0 where
    pub stride : IsStride c.map.b
    pub shows : Shows (area c) c.map.mem c.entries
    pub ends : c.base + c.len * 2 ^ c.map.b < 2 ^ 63
    pub lens :
        (u : ℕ) (hp : Hp)
        → c.entries u ≡ some hp
        → (hp.p < 2 ^ 63) × (strunpack32 c.map.mem hp.p ≡ hp.l)
