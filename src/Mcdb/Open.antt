-- ===== src/Mcdb/Open.antt =====
-- mcdb_mmap_init: map a file for reading.
use mcdb.Base.{ℕ, ◌||◌, Bool, not, Option, none, some, ltb, if◌then◌else◌}
use mcdb.Base.Memory.{Memory}
use mcdb.Uint32.Hash.{hash_djb_init}
use mcdb.Mcdb.{Mmap, djb, uint_max}
use mcdb.Make.Finish.{is_zero}

-- The answers of the system: fstat, the first mmap and whether it failed with EINVAL, the second mmap.
pub record Sys : Type 0 where
  pub stat : Bool
  pub shared : Bool
  pub einval : Bool
  pub private : Bool

-- 3 for 8-byte entries, 4 for 16-byte entries
unfoldable pub entry_shift : Memory → ℕ → ℕ
unfolding is_zero
entry_shift mem size = if ltb size uint_max || is_zero mem 0 4 then 3 else 4

-- The file's bytes and its size; `none` is false.
unfoldable pub mcdb_mmap_init : Sys → Memory → ℕ → Option Mmap
unfolding entry_shift
mcdb_mmap_init sys mem size =
    let map : Mmap = record {
      mem = mem;
      b = entry_shift mem size;
      n = uint_max;
      hash_init = hash_djb_init;
      hash_fn = djb;
      size = size;
    } in
    if not sys.stat
    then none
    else if not sys.shared
    then (if sys.einval then (if sys.private then some map else none) else none)
    else some map
