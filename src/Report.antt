-- ===== src/Report.antt =====
-- mcdb_error.c: what is printed for a status, and the exit status.
use mcdb.Base.{ℕ}
use mcdb.Makefmt.Records.{Status, success, error_readformat, error_read, error_write, error_malloc}

-- MCDB_ERROR_USAGE and any other value join the statuses of the text input.
pub data Rv : Type 0 where
  status : Status → Rv
  error_usage : Rv
  other : Rv

pub data Message : Type 0 where
  nothing : Message
  bad_format : Message
  read_input : Message
  write_output : Message
  malloc_failed : Message
  usage : Message
  unknown_error : Message

unfoldable pub mcdb_error : Rv → Message × ℕ
mcdb_error rv = elim rv [
  | status s ↦ elim s [
    | success ↦ (nothing, 0)
    | error_readformat ↦ (bad_format, 111)
    | error_read ↦ (read_input, 111)
    | error_write ↦ (write_output, 111)
    | error_malloc ↦ (malloc_failed, 111)
  ]
  | error_usage ↦ (usage, 101)
  | other ↦ (unknown_error, 111)
]
