-- ===== src/Nss/Write.antt =====
-- nss_mcdb_make_mcdbctl_write of nss/nss_mcdb_make.c: a record under a tagged key.
pub mod Joined
use mcdb.Base.{ℕ, ◌+◌, List, [], ◌∷◌, Bool, true, false, none, some, length}
use mcdb.Plasma.{Plasma}
use mcdb.Make.{Make}
use mcdb.Make.Hplist.{mcdb_make_addend}
use mcdb.Make.Add.{mcdb_make_addbegin, mcdb_make_addbuf_key, mcdb_make_addbuf_data}

module _ ⦃plasma : Plasma⦄ where
  -- The fields `tagc`, `key` and `data` of `w`, and the writer that it points to.
  unfoldable pub nss_mcdb_make_mcdbctl_write : Make → ℕ → List ℕ → List ℕ → Bool × Make
  unfolding mcdb_make_addbegin mcdb_make_addbuf_key mcdb_make_addbuf_data mcdb_make_addend
  nss_mcdb_make_mcdbctl_write m tagc key data' =
      let (rc, m₁) = mcdb_make_addbegin m (length key + 1) (length data') in
      elim rc [
        | some e ↦ (false, m₁)
        | none ↦
            let m₂ = mcdb_make_addbuf_key (mcdb_make_addbuf_key m₁ (tagc ∷ [])) key in
            (true, mcdb_make_addend (mcdb_make_addbuf_data m₂ data'))
      ]
