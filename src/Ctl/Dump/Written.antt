-- ===== src/Ctl/Dump/Written.antt =====
-- mcdbctl_dump of mcdbctl.c over a file that mcdb_make.c wrote.
use mcdb.Base.{ℕ, suc, ◌^◌, ◌≤◌, ◌<◌, ◌≡◌, List, [], ◌∷◌, ◌++◌, none, some, length}
use mcdb.Plasma.{Plasma}
use mcdb.Mcdb.{Mmap, Mcdb}
use mcdb.Mcdb.Open.{Sys, mcdb_mmap_init}
use mcdb.Make.{Make}
use mcdb.Make.Finish.{mcdb_make_finish}
use mcdb.Make.Valid.{IsMake, Few}
use mcdb.Lookup.Sequence.{Lies}
use mcdb.Lookup.Sequence.Written.{finish-Walks}
use mcdb.Makefmt.Records.{success}
use mcdb.Report.{status}
use mcdb.Ctl.Output.{Stdout}
use mcdb.Ctl.Output.Taken.{TakesAll}
use mcdb.Ctl.Dump.{mcdbctl_dump}
use mcdb.Ctl.Dump.Text.{texts, dump-Walks}

module _ ⦃plasma : Plasma⦄ where
  -- Let the writer's state be in order and its file hold the records rs behind the header, with
  -- less than 2 ^ 31 records in each slot and `pos` below 2 ^ 62. When mcdb_make_finish returns 0
  -- and mcdb_mmap_init opens its file, mcdbctl_dump, where every call of writev takes all it is
  -- given, IOV_MAX is at least 9 and below 2 ^ 32, and the bound on records exceeds their number,
  -- returns success and prints the texts of rs in their order, and an empty line.
  pub dump-Lies :
      (m r : Make) (sys : Sys) (read : Mmap) (q : Mcdb) (rs : List (List ℕ × List ℕ))
      (fuel iovnum calls : ℕ) (out : Stdout)
      → IsMake m
      → Few m
      → m.pos < 2 ^ 62
      → Lies m rs
      → mcdb_make_finish m ≡ some (none, r)
      → mcdb_mmap_init sys r.file r.pos ≡ some read
      → iovnum < 2 ^ 32
      → 9 ≤ iovnum
      → TakesAll out.wrote
      → length rs < fuel
      → (out' : Stdout) × (mcdbctl_dump fuel iovnum (suc (suc calls)) out (record q { map = read })
          ≡ some (status success, out'))
        × (out'.bytes ≡ out.bytes ++ texts rs ++ 0x0a ∷ [])
  dump-Lies m r sys read q rs fuel iovnum calls out valid few low s run opened big nine takes
        enough =
      dump-Walks iovnum calls big nine fuel out (record q { map = read }) rs takes
        (finish-Walks m r sys read q rs valid few low s run opened) enough
