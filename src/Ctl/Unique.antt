-- ===== src/Ctl/Unique.antt =====
-- mcdbctl_has_unique_keys and mcdbctl_make_unique_keys: one value for each key.
use mcdb.Base.{
  ℕ, zero, suc, ◌≡◌, List, Bool, true, false, Option, none, some, ◌==◌, if◌then◌else◌, arith,
}
use mcdb.Base.Memory.{Memory}
use mcdb.Plasma.{Plasma}
use mcdb.Mcdb.{Mcdb}
use mcdb.Mcdb.Find.{mcdb_find, mcdb_findtagnext}
use mcdb.Mcdb.Iter.{McdbIter, mcdb_iter_init, mcdb_iter, iter_dataptr}
use mcdb.Mcdb.Slots.{mcdb_validate_slots}
use mcdb.Make.{Make}
use mcdb.Make.Add.{mcdb_make_add}
use mcdb.Make.Start.{mcdb_make_start, mcdb_make_destroy}
use mcdb.Make.Finish.{mcdb_make_finish}
use mcdb.Makefn.{Makefn, unopened, mcdb_makefn_start, mcdb_makefn_finish, mcdb_makefn_cleanup}
use mcdb.Makefmt.Files.{Answers, is_success}
use mcdb.Makefmt.Records.{Status, success, error_readformat, error_write}
use mcdb.Ctl.Dump.{iter_key, iter_data}
use mcdb.Ctl.Get.{data_of}

-- true, false and MCDB_ERROR_READFORMAT
pub data Unique : Type 0 where
  unique : Unique
  repeated : Unique
  bad_format : Unique

module _ ⦃plasma : Plasma⦄ where
  -- The loop over the records, at most `fuel`; `none` is a loop that goes on.
  unfoldable pub unique_loop : ℕ → Mcdb → McdbIter → Option Unique
  unique_loop zero m iter = none
  unique_loop (suc fuel) m iter =
      let (more, it) = mcdb_iter iter in
      let (found, m₁) = mcdb_find m (iter_key it) in
      let (again, m₂) = mcdb_findtagnext m₁ (iter_key it) 0 in
      elim more [
        | false ↦ some unique
        | true ↦ elim found [
          | false ↦ some bad_format
          | true ↦ elim again [ true ↦ some repeated | false ↦ unique_loop fuel m₂ it ]
        ]
      ]

  unfoldable pub mcdbctl_has_unique_keys : ℕ → Mcdb → Option Unique
  unfolding unique_loop
  mcdbctl_has_unique_keys fuel m =
      let (valid, m₁) = mcdb_validate_slots m in
      elim valid [ false ↦ some bad_format | true ↦ unique_loop fuel m₁ (mcdb_iter_init m₁) ]

  -- while (mcdb_findnext(…)): the data of the last record of the key.
  unfoldable pub last_data : ℕ → Mcdb → List ℕ → List ℕ → Option (List ℕ × Mcdb)
  last_data zero m key value = none
  last_data (suc fuel) m key value =
      let (more, m₁) = mcdb_findtagnext m key 0 in
      elim more [ false ↦ some (value, m₁) | true ↦ last_data fuel m₁ key (data_of m₁) ]

  -- What is added for a record that a search for its key finds first.
  unfoldable pub chosen : ℕ → Bool → Mcdb → McdbIter → Option (List ℕ × Mcdb)
  unfolding last_data
  chosen tries first m it = elim first [
    | true ↦ some (iter_data it, m)
    | false ↦ last_data tries m (iter_key it) (iter_data it)
  ]

  -- The loop over the records, which fills the writer `mk`.
  unfoldable pub copy_loop : ℕ → ℕ → Bool → Mcdb → McdbIter → Make → Option (Status × Make)
  unfolding chosen
  copy_loop zero tries first m iter mk = none
  copy_loop (suc fuel) tries first m iter mk =
      let (more, it) = mcdb_iter iter in
      let (found, m₁) = mcdb_find m (iter_key it) in
      elim more [
        | false ↦ some (success, mk)
        | true ↦ elim found [
          | false ↦ some (error_readformat, mk)
          | true ↦ elim (iter_dataptr it == m₁.dpos) [
            | false ↦ copy_loop fuel tries first m₁ it mk
            | true ↦ elim (chosen tries first m₁ it) [
              | none ↦ none
              | some (value, m₂) ↦
                  let (rc, mk₁) = mcdb_make_add mk (iter_key it) value in
                  elim rc [
                    | some e ↦ some (error_write, mk₁)
                    | none ↦ copy_loop fuel tries first m₂ it mk₁
                  ]
            ]
          ]
        ]
      ]

  -- mcdb_make_finish and mcdb_makefn_finish, after a loop that succeeded.
  unfoldable pub finish_copy : Answers → Status → Make → Makefn → Option (Status × Make × Makefn)
  finish_copy a rv mk mf =
      let (renamed, mf₁) = mcdb_makefn_finish mf true a.chmod_ok a.sync_ok a.close_ok a.rename_ok in
      elim rv [
        | success ↦ elim (mcdb_make_finish mk) [
          | none ↦ none
          | some (rc, mk₁) ↦ elim rc [
            | some e ↦ some (error_write, mk₁, mf)
            | none ↦ some ((if renamed then success else error_write), mk₁, mf₁)
          ]
        ]
        | other ↦ some (other, mk, mf)
      ]

  -- What is left: the temporary file, and the writer after its destruction, if it was started.
  -- `file`, `pagesize` and `fails` are those of mcdb_make_start on the temporary file.
  unfoldable pub mcdbctl_make_unique_keys :
      ℕ
      → ℕ
      → Answers
      → Memory
      → ℕ
      → (ℕ → Bool)
      → Bool
      → Mcdb
      → Option (Status × Makefn × Option Make)
  unfolding copy_loop finish_copy
  mcdbctl_make_unique_keys fuel tries a file pagesize fails first m =
      let (valid, m₁) = mcdb_validate_slots m in
      let (made, mf) = mcdb_makefn_start a.stat a.got a.made in
      let (rc, mk) = mcdb_make_start file true pagesize fails in
      elim valid [
        | false ↦ some (error_readformat, unopened, none)
        | true ↦ elim made [
          | false ↦ some (error_write, mcdb_makefn_cleanup mf, none)
          | true ↦ elim rc [
            | some e ↦ some (error_write, mcdb_makefn_cleanup mf, some (mcdb_make_destroy mk).1)
            | none ↦ elim (copy_loop fuel tries first m₁ (mcdb_iter_init m₁) mk) [
              | none ↦ none
              | some (rv, mk₁) ↦ elim (finish_copy a rv mk₁ mf) [
                | none ↦ none
                | some (rv₁, mk₂, mf₁) ↦
                    some (rv₁, mcdb_makefn_cleanup mf₁, some (mcdb_make_destroy mk₂).1)
              ]
            ]
          ]
        ]
      ]

  -- When mcdbctl_make_unique_keys returns, whatever the system answered, the database was
  -- replaced exactly if it returns success, and no temporary file, no array and no descriptor of
  -- it is left.
  pub make_unique_keys-replaced :
      (fuel tries : ℕ) (a : Answers) (file : Memory) (pagesize : ℕ) (fails : ℕ → Bool)
      (first : Bool) (m : Mcdb) (s : Status) (mf : Makefn) (mk : Option Make)
      → mcdbctl_make_unique_keys fuel tries a file pagesize fails first m ≡ some (s, mf, mk)
      → (mf.replaced ≡ is_success s) × (mf.temporary ≡ false) × (mf.arrays ≡ 0) × (mf.fds ≡ 0)
  unfolding mcdbctl_make_unique_keys finish_copy mcdb_makefn_start mcdb_makefn_finish
      mcdb_makefn_cleanup
  make_unique_keys-replaced fuel tries a file pagesize fails first m s mf mk run = ground arith
