-- ===== src/Make/Start.antt =====
-- mcdb_make_start and mcdb_make_destroy.
use mcdb.Base.{ℕ, ◌-◌, [], ◌∷◌, Bool, true, false, not, ◌&&◌, none, some, if◌then◌else◌}
use mcdb.Base.Memory.{Memory}
use mcdb.Uint32.Hash.{hash_djb_init}
use mcdb.Mcdb.{djb, header_sz, mmap_sz}
use mcdb.Make.{Make, HpSlot, os, ask}
use mcdb.Make.Hplist.{free_lists}
use mcdb.Make.Upsize.{mcdb_mmap_upsize, not64}
use mcdb.Make.Add.{Rc}

-- munmap, and the lists; the result is whether the return code is 0
unfoldable pub mcdb_make_destroy : Make → Bool × Make
unfolding ask free_lists
mcdb_make_destroy m =
    let (unmapped, m₁) = ask m in
    if m.mapped && m.has_fd
    then (unmapped, free_lists (record m₁ { mapped = false }))
    else (true, free_lists m)

abbrev empty_slot : HpSlot
empty_slot = record { lists = [] ∷ []; pend = 0 }

-- The fields before the first call of the system. `file` is the file behind `fd`; `pagesize` is
-- plasma_sysconf_pagesize().
unfoldable pub start_state : Memory → Bool → ℕ → (ℕ → Bool) → Make
start_state file has_fd pagesize fails = record {
  pos = header_sz;
  offset = 0;
  mapped = false;
  file = file;
  hash_init = hash_djb_init;
  hash_fn = djb;
  fsz = 0;
  osz = 0;
  msz = 0;
  pgalign = not64 (pagesize - 1);
  hp = record { p = header_sz; h = 0; l = 0 };
  has_fd = has_fd;
  count = λ i. 0;
  head = λ i. empty_slot;
  head0 = false;
  owned = 0;
  fails = fails;
  calls = 0;
  faulted = false;
}

-- mcdb_make_destroy with an array of lists that nothing has set yet: it follows `pend` and `next` of
-- the first, so that what it frees is undefined, and `faulted` says so.
unfoldable pub destroy_unset : Make → Bool × Make
unfolding mcdb_make_destroy
destroy_unset m = let (rc, m₁) = mcdb_make_destroy m in (rc, record m₁ { faulted = true })

unfoldable pub mcdb_make_start : Memory → Bool → ℕ → (ℕ → Bool) → Rc
unfolding start_state mcdb_mmap_upsize mcdb_make_destroy destroy_unset
mcdb_make_start file has_fd pagesize fails =
    let (got, m₁) = ask (start_state file has_fd pagesize fails) in
    let m₂ = record m₁ { head0 = true; owned = 1 } in
    let (reached, m₃) = mcdb_mmap_upsize m₂ mmap_sz in
    if not got
    then (some os, (mcdb_make_destroy m₁).1)
    else if not has_fd
    then (none, m₂)
    else if reached
    then (none, m₃)
    else (some os, (destroy_unset m₃).1)
