-- ===== src/Ctl/Stats.antt =====
-- mcdbctl_stats: how many rounds a search for each record takes.
use mcdb.Base.{
  ℕ, zero, suc, ◌+◌, ◌-◌, List, [], ◌∷◌, Bool, true, false, not, ◌&&◌, Option, none, some, ltb,
  ◌==◌, if◌then◌else◌, replicate,
}
use mcdb.Plasma.{Plasma}
use mcdb.Mcdb.{Mcdb}
use mcdb.Mcdb.Find.{mcdb_findtagstart, mcdb_findtagnext}
use mcdb.Mcdb.Iter.{McdbIter, mcdb_iter_init, mcdb_iter, iter_dataptr}
use mcdb.Mcdb.Slots.{mcdb_validate_slots}
use mcdb.Ctl.Dump.{iter_key}

-- nrec and numd[11]; numd[d] is printed as d0 … d9 and >9.
pub record Stats : Type 0 where
  pub nrec : ℕ
  pub numd : List ℕ

abbrev no_stats : Stats
no_stats = record { nrec = 0; numd = replicate 11 0 }

abbrev bump : List ℕ → ℕ → List ℕ
bump [] i = []
bump (n ∷ ns) zero = (n + 1) ∷ ns
bump (n ∷ ns) (suc i) = n ∷ bump ns i

-- numd[loop < 11 ? loop - 1 : 10], where a found record has `loop` at least 1.
unfoldable pub count_record : Stats → ℕ → Stats
count_record s loop = record {
  nrec = s.nrec + 1;
  numd = bump s.numd (if ltb loop 11 then loop - 1 else 10);
}

module _ ⦃plasma : Plasma⦄ where
  -- do { rc = mcdb_findnext(…); } while (rc && mcdb_datapos(m) != iter_dpos)
  unfoldable pub find_at : ℕ → Mcdb → List ℕ → ℕ → Option (Bool × Mcdb)
  find_at zero m key dpos = none
  find_at (suc fuel) m key dpos =
      let (rc, m₁) = mcdb_findtagnext m key 0 in
      elim (rc && not (m₁.dpos == dpos)) [ true ↦ find_at fuel m₁ key dpos | false ↦ some (rc, m₁) ]

  -- The loop over the records: `none` is a loop that goes on, and the second `none` a record that is
  -- not found, for which MCDB_ERROR_READFORMAT is returned.
  unfoldable pub stats_loop : ℕ → ℕ → Mcdb → McdbIter → Stats → Option (Option Stats)
  unfolding find_at count_record
  stats_loop zero tries m iter s = none
  stats_loop (suc fuel) tries m iter s =
      let (more, it) = mcdb_iter iter in
      let (started, m₁) = mcdb_findtagstart m m.map (iter_key it) 0 in
      elim more [
        | false ↦ some (some s)
        | true ↦ elim started [
          | false ↦ some none
          | true ↦ elim (find_at tries m₁ (iter_key it) (iter_dataptr it)) [
            | none ↦ none
            | some (rc, m₂) ↦ elim rc [
              | false ↦ some none
              | true ↦ stats_loop fuel tries m₂ it (count_record s m₂.loop)
            ]
          ]
        ]
      ]

  unfoldable pub mcdbctl_stats : ℕ → ℕ → Mcdb → Option (Option Stats)
  unfolding stats_loop
  mcdbctl_stats fuel tries m =
      let (valid, m₁) = mcdb_validate_slots m in
      elim valid [
        | false ↦ some none
        | true ↦ stats_loop fuel tries m₁ (mcdb_iter_init m₁) no_stats
      ]
