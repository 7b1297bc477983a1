-- ===== src/Mcdb.antt =====
-- mcdb.h and mcdb.c: the reader. An mcdb is a mapped file: 256 header entries of 16 bytes, the
-- records, padding, and one hash table for each header entry. Positions count from `map->ptr`.
pub mod Open
pub mod Life
pub mod Find
pub mod Iter
pub mod Slots
pub mod Registry
use mcdb.Base.{
  ℕ, ◌+◌, ◌-◌, ◌*◌, ◌^◌, ◌≤◌, List, [], ◌∷◌, Bool, ◌&&◌, Option, none, some, leb, if◌then◌else◌,
}
use mcdb.Base.Memory.{Memory, load}
use mcdb.Uint32.Hash.{hash_djb}

abbrev pub slot_bits : ℕ
slot_bits = 8

abbrev pub slots : ℕ
slots = 256

abbrev pub header_sz : ℕ
header_sz = 4096

abbrev pub mmap_sz : ℕ
mmap_sz = 2 ^ 19

abbrev pub block_sz : ℕ
block_sz = 2 ^ 22

abbrev pub pad_align : ℕ
pad_align = 16

abbrev pub pad_mask : ℕ
pad_mask = pad_align - 1

abbrev pub int_max : ℕ
int_max = 2 ^ 31 - 1

abbrev pub uint_max : ℕ
uint_max = 2 ^ 32 - 1

-- A `hash_fn`: the built-in one, which the code calls directly, or one that the program set.
pub data HashFn : Type 0 where
  djb : HashFn
  custom : (ℕ → List ℕ → ℕ) → HashFn

unfoldable pub run_hash : HashFn → ℕ → List ℕ → ℕ
run_hash djb h buf = hash_djb h buf
run_hash (custom f) h buf = f h buf

-- struct mcdb_mmap, less what only opening and registering it use.
pub record Mmap : Type 0 where
  pub mem : Memory
  pub b : ℕ
  pub n : ℕ
  pub hash_init : ℕ
  pub hash_fn : HashFn
  pub size : ℕ

-- struct mcdb. `khash` is the number whose big-endian bytes the C field holds.
pub record Mcdb : Type 0 where
  pub map : Mmap
  pub loop : ℕ
  pub hslots : ℕ
  pub kpos : ℕ
  pub hpos : ℕ
  pub dpos : ℕ
  pub dlen : ℕ
  pub klen : ℕ
  pub khash : ℕ

-- `none` is NULL; else the bytes that `memcpy` put into `buf`.
unfoldable pub mcdb_read : Mcdb → ℕ → ℕ → Option (List ℕ)
mcdb_read m pos len =
    let mapsz = m.map.size in
    if leb pos mapsz && leb len (mapsz - pos) then some (load m.map.mem pos len) else none
