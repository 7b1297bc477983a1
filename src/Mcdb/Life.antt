-- ===== src/Mcdb/Life.antt =====
-- The life of a struct mcdb_mmap: mcdb_mmap_create, reopen, refresh_check, free and destroy of
-- mcdb.c, with what they hold of the system.
use mcdb.Base.{
  ℕ, ◌+◌, ◌-◌, ◌≡◌, Bool, true, false, not, ◌&&◌, Option, none, some, ltb, ◌==◌, if◌then◌else◌,
}
use mcdb.Base.{arith}
use mcdb.Base.Memory.{Memory}
use mcdb.Mcdb.{Mmap}
use mcdb.Mcdb.Open.{Sys, mcdb_mmap_init}

-- The fields that opening uses, and what is held: arrays from fn_malloc, file descriptors, mappings.
-- `map` is `none` for a NULL `ptr`, `dfd` for -1, `name_owned` is fname != fnamebuf, and `caller_owned`
-- is `allocated`: the program brought the struct.
pub record Handle : Type 0 where
  pub map : Option Mmap
  pub mtime : ℕ
  pub dfd : Option ℕ
  pub named : Bool
  pub name_owned : Bool
  pub caller_owned : Bool
  pub refcnt : ℕ
  pub arrays : ℕ
  pub fds : ℕ
  pub maps : ℕ

-- What the system answers to one attempt to open: the open itself, the calls of mcdb_mmap_init, and
-- the file's bytes, size and time.
pub record Answer : Type 0 where
  pub opened : Bool
  pub sys : Sys
  pub mem : Memory
  pub size : ℕ
  pub time : ℕ

unfoldable pub mcdb_mmap_unmap : Handle → Handle
mcdb_mmap_unmap h = elim h.map [ none ↦ h | some map ↦ record h { map = none; maps = h.maps - 1 } ]

unfoldable pub mcdb_mmap_free : Handle → Handle
unfolding mcdb_mmap_unmap
mcdb_mmap_free h =
    let h₁ = mcdb_mmap_unmap h in
    let h₂ =
      (if h₁.named && h₁.name_owned
        then record h₁ { named = false; arrays = h₁.arrays - 1 }
        else h₁) in
    if not h₂.caller_owned then record h₂ { arrays = h₂.arrays - 1 } else h₂

unfoldable pub mcdb_mmap_destroy : Handle → Handle
unfolding mcdb_mmap_free
mcdb_mmap_destroy h = elim h.dfd [
  | none ↦ mcdb_mmap_free h
  | some fd ↦ mcdb_mmap_free (record h { dfd = none; fds = h.fds - 1 })
]

-- The descriptor is open only while the file is mapped.
unfoldable pub mcdb_mmap_reopen : Handle → Answer → Bool × Handle
unfolding mcdb_mmap_unmap
mcdb_mmap_reopen h a =
    let h₁ = mcdb_mmap_unmap h in
    if not a.opened then (false, h) else elim (mcdb_mmap_init a.sys a.mem a.size) [
      | none ↦ (false, h₁)
      | some map ↦ (true, record h₁ { map = some map; mtime = a.time; maps = h₁.maps + 1 })
    ]

-- `stat` is the time that stat or fstatat gives, `none` if it fails.
unfoldable pub mcdb_mmap_refresh_check : Handle → Option ℕ → Bool
mcdb_mmap_refresh_check h stat = elim h.map [
  | none ↦ true
  | some map ↦ elim stat [ none ↦ false | some time ↦ not (h.mtime == time) ]
]

abbrev fresh : Bool → Handle
fresh caller_owned = record {
  map = none;
  mtime = 0;
  dfd = none;
  named = false;
  name_owned = false;
  caller_owned = caller_owned;
  refcnt = 0;
  arrays = if caller_owned then 0 else 1;
  fds = 0;
  maps = 0;
}

-- The open of `dname`, `none` when it is NULL; `got` is what open gives, `none` for -1.
unfoldable pub open_dir : Handle → Option (Option ℕ) → Bool × Handle
open_dir h dir = elim dir [
  | none ↦ (true, h)
  | some got ↦ elim got [
    | none ↦ (false, h)
    | some fd ↦ (ltb 2 fd, record h { dfd = some fd; fds = h.fds + 1 })
  ]
]

-- A name that is too long for `fnamebuf` needs an array.
unfoldable pub keep_name : Handle → Bool → Bool → Bool × Handle
keep_name h long got =
    if not long
    then (true, record h { named = true })
    else if got
    then (true, record h { named = true; name_owned = true; arrays = h.arrays + 1 })
    else (false, h)

-- `struct_got` and `name_got` say whether fn_malloc succeeds. The result is whether a map is returned.
unfoldable pub mcdb_mmap_create :
    Bool → Bool → Option (Option ℕ) → Bool → Bool → Answer → Bool × Handle
unfolding open_dir keep_name mcdb_mmap_reopen mcdb_mmap_destroy
mcdb_mmap_create caller_owned struct_got dir long name_got a =
    let h = fresh caller_owned in
    let (dir_open, h₁) = open_dir h dir in
    let (name_kept, h₂) = keep_name h₁ long name_got in
    let (mapped, h₃) = mcdb_mmap_reopen h₂ a in
    if not caller_owned && not struct_got
    then (false, record h { arrays = 0 })
    else if not dir_open
    then (false, mcdb_mmap_destroy h₁)
    else if not name_kept
    then (false, mcdb_mmap_destroy h₂)
    else if mapped
    then (true, record h₃ { refcnt = h₃.refcnt + 1 })
    else (false, mcdb_mmap_destroy h₃)

-- Whatever the system answers, mcdb_mmap_create that returns NULL, and mcdb_mmap_destroy after
-- one that returns a map, leave no array from fn_malloc, no file descriptor and no mapping
-- behind.
pub create-destroy :
    (caller_owned struct_got : Bool) (dir : Option (Option ℕ)) (long name_got : Bool) (a : Answer)
    → let r = mcdb_mmap_create caller_owned struct_got dir long name_got a in
      let left = if r.0 then mcdb_mmap_destroy r.1 else r.1 in
      (left.arrays ≡ 0) × (left.fds ≡ 0) × (left.maps ≡ 0)
unfolding mcdb_mmap_create open_dir keep_name mcdb_mmap_reopen mcdb_mmap_destroy mcdb_mmap_free
    mcdb_mmap_unmap
create-destroy caller_owned struct_got dir long name_got a = ground arith
