-- ===== src/Makefmt/Files.antt =====
-- mcdb_makefmt_fdintofile and mcdb_makefmt_fileintofile: the text into a temporary file that takes the database's place.
use mcdb.Base.{ℕ, ◌≡◌, ◌&&◌, List, Bool, true, false, not, Option, none, some, if◌then◌else◌, arith}
use mcdb.Base.Memory.{Memory}
use mcdb.Plasma.{Plasma}
use mcdb.Makefn.{
  Stat, Makefn, missing, unreadable, regular, special, mcdb_makefn_start, mcdb_makefn_finish,
  mcdb_makefn_cleanup,
}
use mcdb.Makefmt.Records.{
  Status, success, error_readformat, error_read, error_write, error_malloc, mcdb_makefmt_fdintofd,
}

-- The answers of the system to mcdb_makefn_start and mcdb_makefn_finish.
pub record Answers : Type 0 where
  pub stat : Stat
  pub got : Bool
  pub made : Bool
  pub chmod_ok : Bool
  pub sync_ok : Bool
  pub close_ok : Bool
  pub rename_ok : Bool

abbrev pub is_success : Status → Bool
is_success s = elim s [
  | success ↦ true
  | error_readformat ↦ false
  | error_read ↦ false
  | error_write ↦ false
  | error_malloc ↦ false
]

-- errno == ENOMEM: fn_malloc was called, and failed.
abbrev out_of_memory : Stat → Bool → Bool
out_of_memory stat got = elim stat [
  | missing ↦ not got
  | unreadable ↦ false
  | regular ↦ not got
  | special ↦ false
]

-- What follows the start; `written` is what mcdb_makefmt_fdintofd returns.
unfoldable pub into_file : Answers → Status → Status × Makefn
unfolding mcdb_makefn_start mcdb_makefn_finish mcdb_makefn_cleanup
into_file a written =
    let (started, m) = mcdb_makefn_start a.stat a.got a.made in
    let (renamed, m₁) = mcdb_makefn_finish m true a.chmod_ok a.sync_ok a.close_ok a.rename_ok in
    if not started
    then ((if out_of_memory a.stat a.got then error_malloc else error_write), mcdb_makefn_cleanup m)
    else if is_success written
    then ((if renamed then success else error_write), mcdb_makefn_cleanup m₁)
    else (written, mcdb_makefn_cleanup m)

module _ ⦃plasma : Plasma⦄ where
  unfoldable pub mcdb_makefmt_fdintofile :
      Answers
      → ℕ
      → Bool
      → (ℕ → Option (List ℕ))
      → Memory
      → ℕ
      → Memory
      → ℕ
      → (ℕ → Bool)
      → Option (Status × Makefn)
  unfolding into_file
  mcdb_makefmt_fdintofile a fuel has_fd reads buf bufsz file pagesize fails =
      elim (mcdb_makefmt_fdintofd fuel has_fd reads buf bufsz file pagesize fails) [
        | none ↦ none
        | some (written, m) ↦ some (into_file a written)
      ]

-- Whatever the system answers and mcdb_makefmt_fdintofd returns, the rest of
-- mcdb_makefmt_fdintofile replaces the database exactly when it returns success, and leaves no
-- temporary file, no array and no file descriptor.
pub into_file-replaced :
    (a : Answers) (written : Status)
    → let (s, m) = into_file a written in
      (m.replaced ≡ is_success s) × (m.temporary ≡ false) × (m.arrays ≡ 0) × (m.fds ≡ 0)
unfolding into_file mcdb_makefn_start mcdb_makefn_finish mcdb_makefn_cleanup
into_file-replaced a written = ground arith

-- The answers of the system to mcdb_makefmt_fileintofile.
pub record InputFile : Type 0 where
  pub opened : Bool
  pub stat_ok : Bool
  pub is_regular : Bool
  pub mapped : Bool
  pub closed : Bool

-- The status, what is left of the database's writer if it was started, and how many maps and file
-- descriptors of the text are left. `into` is the call of mcdb_makefmt_fdintofile over the map.
unfoldable pub mcdb_makefmt_fileintofile :
    InputFile → Option (Status × Makefn) → Option (Status × Option Makefn × ℕ × ℕ)
mcdb_makefmt_fileintofile a into =
    let is_mapped = a.stat_ok && a.is_regular && a.mapped in
    if not a.opened
    then some (error_read, none, 0, 0)
    else if a.closed && is_mapped
    then (elim into [ none ↦ none | some (s, m) ↦ some (s, some m, 0, 0) ])
    else some (error_read, none, 0, (if a.closed then 0 else 1))
