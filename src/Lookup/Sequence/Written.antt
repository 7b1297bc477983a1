-- ===== src/Lookup/Sequence/Written.antt =====
-- mcdb_make.c keeps the records of its file in the order of the calls that added them, and mcdb_iter
-- of mcdb.c visits them so.
use mcdb.Base.{
  ℕ, ◌+◌, ◌-◌, ◌^◌, ◌≤◌, ◌<◌, ◌≡◌, refl, sym, ◌∙◌, ap, subst, List, [], ◌∷◌, ◌++◌, Bool, true, none,
  some, length, arith, inl, inr,
}
use mcdb.Base.Memory.{Memory}
use mcdb.Plasma.{Plasma}
use mcdb.Uint32.{strunpack64, strunpack64-At}
use mcdb.Mcdb.{Mmap, Mcdb, header_sz}
use mcdb.Mcdb.Open.{Sys, mcdb_mmap_init}
use mcdb.Mcdb.Iter.{mcdb_iter_init}
use mcdb.Make.{Make, ask}
use mcdb.Make.Keep.{Content}
use mcdb.Make.Add.{Rc, mcdb_make_add}
use mcdb.Make.Start.{mcdb_make_start, start_state}
use mcdb.Make.Started.{start_ok}
use mcdb.Make.Finish.{mcdb_make_finish, padding}
use mcdb.Make.Valid.{IsMake, Few}
use mcdb.Make.Added.{Same}
use mcdb.Make.Added.Add.{add-cases}
use mcdb.Make.Finish.Done.{padding_mod}
use mcdb.Lookup.Finished.{finish_done, read_back}
use mcdb.Lookup.Walk.{Walks}
use mcdb.Lookup.Sequence.{Sequence, Sequence-congr, Sequence-Walks, Lies, Added-Lies}

module _ ⦃plasma : Plasma⦄ where
  -- A writer that mcdb_make_start started holds no records.
  pub start-Lies :
      (file : Memory) (pagesize : ℕ) (fails : ℕ → Bool) (m : Make)
      → mcdb_make_start file true pagesize fails ≡ (none, m)
      → Lies m []
  unfolding ask start_state
  start-Lies file pagesize fails m run =
      sym (ap (λ (c : Content). c.pos) (start_ok file pagesize fails m run))

  -- What a call of mcdb_make_add did to the records.
  abbrev pub AddLies : List (List ℕ × List ℕ) → List ℕ → List ℕ → Rc → Type 0
  AddLies rs key value (none, m') = Lies m' (rs ++ (key, value) ∷ [])
  AddLies rs key value (some e, m') = Lies m' rs

  Same-Lies : (m m' : Make) (rs : List (List ℕ × List ℕ)) → Same m m' → Lies m rs → Lies m' rs
  Same-Lies m m' rs same s =
      subst (λ (e : ℕ). Sequence m'.file header_sz e rs) (sym same.pos)
        (subst (λ (mem : Memory). Sequence mem header_sz m.pos rs) (sym same.file) s)

  -- When the file of a writer holds the records rs behind the header and nothing else up to
  -- `pos`, it holds rs and the new record behind them after mcdb_make_add that returns 0, and
  -- just rs after one that fails, for a writer with a file and room below 2 ^ 63.
  pub add-Lies :
      (m : Make) (key value : List ℕ) (rs : List (List ℕ × List ℕ))
      → m.has_fd ≡ true
      → m.pos + 8 + length key + length value < 2 ^ 63
      → Lies m rs
      → AddLies rs key value (mcdb_make_add m key value)
  add-Lies m key value rs fd low s = elim (add-cases m key value fd low) [
    | inl (m', run, a) ↦ subst (AddLies rs key value) (sym run) (Added-Lies m m' key value rs a s)
    | inr (e, m', run, same) ↦ subst (AddLies rs key value) (sym run) (Same-Lies m m' rs same s)
  ]

  iter_init-eod :
      (q : Mcdb) (base : ℕ)
      → strunpack64 q.map.mem 0 ≡ base
      → 7 ≤ base
      → base < 2 ^ 64
      → (mcdb_iter_init q).eod ≡ base - 7
  unfolding mcdb_iter_init
  iter_init-eod q base e lo hi = ground (arith, e)

  -- Let the writer's state be in order and its file hold the records rs behind the header, with
  -- less than 2 ^ 31 records in each slot and `pos` below 2 ^ 62. When mcdb_make_finish returns 0
  -- and mcdb_mmap_init opens its file, the calls of mcdb_iter after mcdb_iter_init give the keys
  -- and values of rs in their order, and then false.
  pub finish-Walks :
      (m r : Make) (sys : Sys) (read : Mmap) (q : Mcdb) (rs : List (List ℕ × List ℕ))
      → IsMake m
      → Few m
      → m.pos < 2 ^ 62
      → Lies m rs
      → mcdb_make_finish m ≡ some (none, r)
      → mcdb_mmap_init sys r.file r.pos ≡ some read
      → Walks (mcdb_iter_init (record q { map = read })) rs
  unfolding mcdb_iter_init
  finish-Walks m r sys read q rs valid few low s run opened =
      let done = finish_done m r valid few low run in
      let (mem, _) = read_back m r sys read low done opened in
      let base = m.pos + padding m.pos in
      let high : base < 2 ^ 63 = omega (arith, padding_mod m.pos) in
      let first : strunpack64 read.mem 0 ≡ base =
        ap (λ (mem : Memory). strunpack64 mem 0) mem
        ∙ strunpack64-At r.file 0 base (omega arith) done.first in
      let handle = record q { map = read } in
      Sequence-Walks (mcdb_iter_init handle) header_sz m.pos base rs refl
        (iter_init-eod handle base first (omega (arith, valid.begins)) (omega arith)) (omega arith)
        high
        (Sequence-congr m.file read.mem header_sz m.pos rs
          (λ i lo hi. sym (ap (λ (mem : Memory). mem i) mem ∙ done.data_kept i lo hi)) s)
        (λ i lo hi. ap (λ (mem : Memory). mem i) mem ∙ done.padded i lo hi)
