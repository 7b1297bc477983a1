-- ===== src/Makefn.antt =====
-- mcdb_makefn.c: the temporary file into which the writer writes, and its rename over the database.
use mcdb.Base.{ℕ, ◌-◌, ◌≡◌, Bool, true, false, not, ◌&&◌, if◌then◌else◌, arith}

-- m->fd: -1, -2 for a file that is closed, or an open file.
pub data Fd : Type 0 where
  no_fd : Fd
  shut : Fd
  open_fd : Fd

-- What stat gives for the database: no such file, another failure, a regular file, or another kind.
pub data Stat : Type 0 where
  missing : Stat
  unreadable : Stat
  regular : Stat
  special : Stat

-- The fields that mcdb_makefn.c uses, and what it holds: arrays from fn_malloc, file descriptors, the
-- temporary file, and whether that took the database's place.
pub record Makefn : Type 0 where
  pub fd : Fd
  pub fntmp : Bool
  pub arrays : ℕ
  pub fds : ℕ
  pub temporary : Bool
  pub replaced : Bool

abbrev pub unopened : Makefn
unopened = record {
  fd = no_fd;
  fntmp = false;
  arrays = 0;
  fds = 0;
  temporary = false;
  replaced = false;
}

-- `got` is fn_malloc's success and `made` mkstemp's; the result is whether EXIT_SUCCESS is returned.
unfoldable pub mcdb_makefn_start : Stat → Bool → Bool → Bool × Makefn
mcdb_makefn_start stat got made =
    let usable : Bool = elim stat [
      | missing ↦ true
      | unreadable ↦ false
      | regular ↦ true
      | special ↦ false
    ] in
    if not usable
    then (false, unopened)
    else if not got
    then (false, unopened)
    else if made
    then (
      true,
      record unopened { fd = open_fd; fntmp = true; arrays = 1; fds = 1; temporary = true },
    )
    else (false, unopened)

-- The answers of fchmod, fdatasync, close and rename.
unfoldable pub mcdb_makefn_finish : Makefn → Bool → Bool → Bool → Bool → Bool → Bool × Makefn
mcdb_makefn_finish m datasync chmod_ok sync_ok close_ok rename_ok =
    let closed = record m { fd = shut; fds = m.fds - 1 } in
    if not chmod_ok
    then (false, m)
    else if datasync && not sync_ok
    then (false, m)
    else if not close_ok
    then (false, m)
    else if rename_ok
    then (true, record closed { fd = no_fd; temporary = false; replaced = true })
    else (false, closed)

unfoldable pub mcdb_makefn_cleanup : Makefn → Makefn
mcdb_makefn_cleanup m =
    let m₁ : Makefn = elim m.fd [
      | no_fd ↦ m
      | shut ↦ record m { fd = no_fd; temporary = false }
      | open_fd ↦ record m { fd = no_fd; temporary = false; fds = m.fds - 1 }
    ] in
    if m₁.fntmp then record m₁ { fntmp = false; arrays = m₁.arrays - 1 } else m₁

-- Whatever the system answers, after mcdb_makefn_start, mcdb_makefn_finish if the start
-- succeeded, and mcdb_makefn_cleanup, no array from fn_malloc, no file descriptor and no
-- temporary file is left, and the database was replaced exactly when both calls returned
-- EXIT_SUCCESS.
pub finish-cleanup :
    (stat : Stat) (got made datasync chmod_ok sync_ok close_ok rename_ok : Bool)
    → let s = mcdb_makefn_start stat got made in
      let f = mcdb_makefn_finish s.1 datasync chmod_ok sync_ok close_ok rename_ok in
      let whole = s.0 && f.0 in
      let left = mcdb_makefn_cleanup (if s.0 then f.1 else s.1) in
      (left.arrays ≡ 0) × (left.fds ≡ 0) × (left.temporary ≡ false) × (left.replaced ≡ whole)
unfolding mcdb_makefn_start mcdb_makefn_finish mcdb_makefn_cleanup
finish-cleanup stat got made datasync chmod_ok sync_ok close_ok rename_ok = ground arith
