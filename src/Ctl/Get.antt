-- ===== src/Ctl/Get.antt =====
-- mcdbctl_getseq and mcdbctl_getall: the data of the records of one key.
pub mod Laws
pub mod Stored
use mcdb.Base.{
  ℕ, zero, suc, ◌+◌, ◌^◌, List, [], ◌∷◌, Bool, true, false, Option, none, some, if◌then◌else◌,
}
use mcdb.Base.Memory.{load}
use mcdb.Plasma.{Plasma}
use mcdb.Mcdb.{Mcdb}
use mcdb.Mcdb.Find.{mcdb_findtagstart, mcdb_findtagnext, mcdb_find}
use mcdb.Makefmt.Records.{success, error_write}
use mcdb.Report.{Rv, status}
use mcdb.Ctl.Output.{Stdout, writev_loop}

-- EXIT_FAILURE, which is no message of mcdb_error, or another value.
pub data Reply : Type 0 where
  not_found : Reply
  answer : Rv → Reply

-- mcdb_dataptr(m), mcdb_datalen(m)
abbrev pub data_of : Mcdb → List ℕ
data_of m = load m.map.mem m.dpos m.dlen

-- The data and a newline; `none` is a call of writev_loop that goes on.
unfoldable pub put_line : ℕ → Stdout → Mcdb → Option (Bool × Stdout)
put_line calls out m = writev_loop calls out (data_of m ∷ (0x0a ∷ []) ∷ []) (m.dlen + 1)

abbrev pub write_status : Bool → Rv
write_status done = if done then status success else status error_write

module _ ⦃plasma : Plasma⦄ where
  -- while ((rc = mcdb_findnext(m, key, klen)) && seq--)
  unfoldable pub find_seq : ℕ → Mcdb → List ℕ → Bool × Mcdb
  find_seq zero m key = mcdb_findtagnext m key 0
  find_seq (suc seq) m key =
      let (rc, m₁) = mcdb_findtagnext m key 0 in
      elim rc [ false ↦ (false, m₁) | true ↦ find_seq seq m₁ key ]

  unfoldable pub mcdbctl_getseq : ℕ → Stdout → Mcdb → List ℕ → ℕ → Option (Reply × Stdout)
  unfolding find_seq
  mcdbctl_getseq calls out m key seq =
      let (started, m₁) = mcdb_findtagstart m m.map key 0 in
      let (rc, m₂) = find_seq seq m₁ key in
      if started
      then if rc
        then elim (put_line calls out m₂) [
          | none ↦ none
          | some (done, out₁) ↦ some (answer (write_status done), out₁)
        ]
        else some (not_found, out)
      else some (not_found, out)

  -- do … while (mcdb_findnext(m, key, klen)), for at most `fuel` records.
  unfoldable pub getall_loop : ℕ → ℕ → Stdout → Mcdb → List ℕ → Option (Reply × Stdout)
  getall_loop zero calls out m key = none
  getall_loop (suc fuel) calls out m key = elim (put_line calls out m) [
    | none ↦ none
    | some (done, out₁) ↦
        let (more, m₁) = mcdb_findtagnext m key 0 in
        elim done [
          | false ↦ some (answer (status error_write), out₁)
          | true ↦ elim more [
            | true ↦ getall_loop fuel calls out₁ m₁ key
            | false ↦ some (answer (status success), out₁)
          ]
        ]
  ]

  unfoldable pub mcdbctl_getall : ℕ → ℕ → Stdout → Mcdb → List ℕ → Option (Reply × Stdout)
  unfolding getall_loop
  mcdbctl_getall fuel calls out m key =
      let (found, m₁) = mcdb_find m key in
      if found then getall_loop fuel calls out m₁ key else some (not_found, out)
