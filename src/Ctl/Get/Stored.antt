-- ===== src/Ctl/Get/Stored.antt =====
-- mcdbctl_getseq of mcdbctl.c over a file that mcdb_make.c wrote.
use mcdb.Base.{
  ℕ, ◌+◌, ◌^◌, ◌<◌, ◌≡◌, refl, sym, ap, ap₂, ◌∙◌, subst, List, [], ◌∷◌, ◌++◌, Bool, none, some,
  Option, length, arith,
}
use mcdb.Base.Memory.{load}
use mcdb.Plasma.{Plasma}
use mcdb.Mcdb.{Mmap, Mcdb, run_hash}
use mcdb.Mcdb.Open.{Sys, mcdb_mmap_init}
use mcdb.Mcdb.Find.{key_hash}
use mcdb.Make.{Make, Hp}
use mcdb.Make.Finish.{mcdb_make_finish}
use mcdb.Make.Valid.{IsMake}
use mcdb.Make.Finish.Done.{Unwrapped}
use mcdb.Lookup.Stored.{Holds, stored-search}
use mcdb.Ctl.Output.{Stdout}
use mcdb.Ctl.Output.Whole.{Wrote, Progress}
use mcdb.Ctl.Get.{answer, write_status, mcdbctl_getseq}
use mcdb.Ctl.Get.Laws.{get_elem?, line, line_of, FitsSome, Printed, getseq-Follows}

get_elem?-append_here {ℓ} :
    {A : Type ℓ} (xs : List A) (y : A) (ys : List A) → get_elem? (xs ++ y ∷ ys) (length xs) ≡ some y
get_elem?-append_here [] y ys = refl
get_elem?-append_here (x ∷ xs) y ys = get_elem?-append_here xs y ys

module _ ⦃plasma : Plasma⦄ where
  -- Let the writer's state be in order, hold a record of a key and data, need no table larger
  -- than 2 ^ 32 bytes (at most 2 ^ 27 records in a slot, or 2 ^ 28 where entries have 8 bytes)
  -- and stand below 2 ^ 62. When mcdb_make_finish returns 0, mcdb_mmap_init opens its file, and
  -- the reader hashes the key as the writer did, there is a seq for which mcdbctl_getseq writes
  -- of the data and a newline all, and returns success, or a part, and returns MCDB_ERROR_WRITE.
  -- Every call of writev that succeeds is to write at least a byte, and the bound on such calls
  -- is to exceed the line's length and be below 2 ^ 63.
  pub getseq-Holds :
      (m : Make) (r : Make) (sys : Sys) (read : Mmap) (q : Mcdb) (key data' : List ℕ) (calls : ℕ)
      (out : Stdout)
      → IsMake m
      → Unwrapped m
      → m.pos < 2 ^ 62
      → Holds m key data'
      → mcdb_make_finish m ≡ some (none, r)
      → mcdb_mmap_init sys r.file r.pos ≡ some read
      → key_hash read key 0 ≡ run_hash m.hash_fn m.hash_init key
      → Progress out.wrote
      → length data' + 1 < calls
      → calls < 2 ^ 63
      → (seq : ℕ) × (b : Bool) × (out' : Stdout) × (mcdbctl_getseq calls out
            (record q { map = read })
            key
            seq
          ≡ some (answer (write_status b), out'))
        × Wrote out (data' ++ 0x0a ∷ []) b out'
  getseq-Holds m r sys read q key data' calls out valid small low h run opened hash moves fits
        bound =
      let handle = record q { map = read } in
      let (front, back, follows, len, dlen, bytes) =
        stored-search m r sys read handle key data' valid small low h run opened hash in
      let here = get_elem?-append_here front h.hp back in
      let text : line read h.hp ≡ data' ++ 0x0a ∷ [] =
        ap₂ (λ (l n : ℕ). load read.mem (h.hp.p + 8 + l) n ++ 0x0a ∷ []) len dlen
        ∙ ap (λ (t : List ℕ). t ++ 0x0a ∷ []) bytes in
      let printed =
        getseq-Follows calls out handle key (length front) (front ++ h.hp ∷ back) bound moves
          (subst (FitsSome calls read) (sym here) (omega (arith, dlen))) follows in
      let (b, out', ran, w) =
        subst
          (λ (o : Option Hp).
            Printed out (line_of read o) (mcdbctl_getseq calls out handle key (length front)))
          here printed in
      (length front, b, out', ran, subst (λ (t : List ℕ). Wrote out t b out') text w)
