-- ===== src/Tests/Found.antt =====
-- The lookup theorems on the file of Tests/Runs.
use mcdb.Base.{ℕ, ◌+◌, ◌≡◌, ◌⊎◌, refl, sym, ap₂, List, [], ◌∷◌, ◌++◌, true, false, none, some}
use mcdb.Base.Memory.{load}
use mcdb.Uint32.{strunpack32}
use mcdb.Mcdb.{Mmap, Mcdb, HashFn, djb, run_hash}
use mcdb.Mcdb.Open.{Sys, mcdb_mmap_init}
use mcdb.Mcdb.Find.{key_hash, key_hash_by}
use mcdb.Table.{select}
use mcdb.Make.{Make, Hp, Errno}
use mcdb.Make.Add.{Rc, mcdb_make_add}
use mcdb.Make.Finish.{mcdb_make_finish}
use mcdb.Make.Valid.{IsMake}
use mcdb.Make.Added.{Same, Added}
use mcdb.Make.Added.Add.{add-cases}
use mcdb.Make.Added.Keeps.{add-IsMake}
use mcdb.Lookup.{hits}
use mcdb.Lookup.Search.{Follows}
use mcdb.Lookup.Stored.{Holds, stored-search, add-Holds, add_ok-Holds}
use mcdb.Lookup.Finished.{slot_of, search, finish-search, finish_returns}
use mcdb.Tests.Runs.{
  bytes_first, key_one, key_two, key_two-bytes, begun, begun_pos, begun-IsMake, with_one,
  with_one_ok, with_one_pos, with_one-IsMake, with_one-Few, with_two, with_two_pos, with_two-hash,
  with_two-IsMake, with_two-Unwrapped, final, final_ok,
}

abbrev pub sys : Sys
sys = record { stat = true; shared = true; einval = false; private = false }

abbrev pub read : Mmap
read = elim (mcdb_mmap_init sys final.file final.pos) [
  | none ↦ record { mem = final.file; b = 3; n = 0; hash_init = 0; hash_fn = djb; size = 0 }
  | some m ↦ m
]

pub read_ok : mcdb_mmap_init sys final.file final.pos ≡ some read
unfolding mcdb_mmap_init
read_ok = refl

abbrev pub handle : Mcdb
handle = record {
  map = read;
  loop = 0;
  hslots = 0;
  kpos = 0;
  hpos = 0;
  dpos = 0;
  dlen = 0;
  klen = 0;
  khash = 0;
}

held : Holds with_one key_one (b'1' ∷ [])
held = add_ok-Holds begun with_one key_one (b'1' ∷ []) begun-IsMake begun_pos with_one_ok

pub held_still : Holds with_two key_one (b'1' ∷ [])
held_still =
    add-Holds with_one key_two (b'2' ∷ b'2' ∷ []) key_one (b'1' ∷ []) with_one-IsMake.fd
      with_one_pos held

add_ok-Holds_example : Holds with_one key_one (b'1' ∷ [])
add_ok-Holds_example =
    add_ok-Holds begun with_one key_one (b'1' ∷ []) begun-IsMake begun_pos with_one_ok

add-Holds_example : Holds with_two key_one (b'1' ∷ [])
add-Holds_example =
    add-Holds with_one key_two (b'2' ∷ b'2' ∷ []) key_one (b'1' ∷ []) with_one-IsMake.fd
      with_one_pos held

pub same_hash : key_hash handle.map key_one 0 ≡ run_hash with_two.hash_fn with_two.hash_init key_one
unfolding mcdb_mmap_init key_hash key_hash_by run_hash
same_hash = sym (ap₂ (λ (f : HashFn) (h : ℕ). run_hash f h key_one) with_two-hash.0 with_two-hash.1)

stored-search_example :
    (front : List Hp) × (back : List Hp) × Follows read key_one 0
      (front ++ held_still.hp ∷ back)
      (search handle read key_one 0)
    × (held_still.hp.l ≡ 3)
    × (strunpack32 read.mem (held_still.hp.p + 4) ≡ 1)
    × (load read.mem (held_still.hp.p + 8 + 3) 1 ≡ b'1' ∷ [])
stored-search_example =
    stored-search with_two final sys read handle key_one (b'1' ∷ []) with_two-IsMake
      with_two-Unwrapped with_two_pos held_still final_ok read_ok same_hash

abbrev pub khash : ℕ
khash = key_hash handle.map key_two 0

finish-search_example :
    Follows read key_two 0
      (select (hits read.mem khash key_two 0) (slot_of with_two khash))
      (search handle read key_two 0)
finish-search_example =
    finish-search with_two final sys read handle key_two 0 khash with_two-IsMake with_two-Unwrapped
      with_two_pos final_ok read_ok refl

finish_returns_example : (rc : Rc) × (mcdb_make_finish with_two ≡ some rc)
finish_returns_example = finish_returns with_two with_two-IsMake with_two-Unwrapped with_two_pos

add-IsMake_example : IsMake with_two
add-IsMake_example =
    add-IsMake with_one key_two (b'2' ∷ b'2' ∷ []) with_one-IsMake with_one-Few key_two-bytes
      with_one_pos

add-cases_example :
    ((m' : Make) × (mcdb_make_add with_one key_two (b'2' ∷ b'2' ∷ []) ≡ (none, m'))
      × Added with_one key_two (b'2' ∷ b'2' ∷ []) m')
    ⊎ ((e : Errno) × (m' : Make) × (mcdb_make_add with_one key_two (b'2' ∷ b'2' ∷ [])
          ≡ (some e, m'))
        × Same with_one m')
add-cases_example = add-cases with_one key_two (b'2' ∷ b'2' ∷ []) with_one-IsMake.fd with_one_pos
