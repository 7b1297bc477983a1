-- ===== src/Ctl/Get/Laws.antt =====
-- What mcdbctl_getseq and mcdbctl_getall of mcdbctl.c print, by the answers of the search.
pub mod Seq
pub use Seq.*
use mcdb.Base.{
  ℕ, zero, suc, ◌+◌, ◌^◌, ◌≤◌, ◌<◌, ◌≡◌, refl, sym, ap, ap₂, ◌∙◌, subst, List, [], ◌∷◌, ◌++◌, Bool,
  true, false, Option, none, some, inl, inr, if◌then◌else◌, length, arith, length-append,
  Bool-cases, All,
}
use mcdb.Base.Memory.{load, length-load}
use mathlib.Core.List.{append-nil, append_assoc}
use mathlib.Core.Bool.{false≢true}
use mcdb.Plasma.{Plasma}
use mcdb.Uint32.{strunpack32}
use mcdb.Mcdb.{Mmap, Mcdb}
use mcdb.Mcdb.Find.{mcdb_findtagstart, mcdb_findtagnext, mcdb_find}
use mcdb.Make.{Hp}
use mcdb.Lookup.Round.{Found}
use mcdb.Lookup.Search.{Follows}
use mcdb.Lookup.Finished.{search}
use mcdb.Ctl.Output.{Stdout}
use mcdb.Ctl.Output.Whole.{Wrote, Progress, writev_loop-Wrote}
use mcdb.Ctl.Get.{
  Reply, not_found, answer, data_of, put_line, write_status, find_seq, mcdbctl_getseq, getall_loop,
  mcdbctl_getall,
}

module _ ⦃plasma : Plasma⦄ where
  Wrote-append :
      (out out₁ out₂ : Stdout) (s t : List ℕ) (b : Bool)
      → Wrote out s true out₁
      → Wrote out₁ t b out₂
      → Wrote out (s ++ t) b out₂
  Wrote-append out out₁ out₂ s t b w v =
      let here : out₁.bytes ≡ out.bytes ++ s =
        sym (append-nil out₁.bytes)
        ∙ ap (λ (l : List ℕ). out₁.bytes ++ l) (sym (w.all refl))
        ∙ w.split in
      record {
        left = v.left;
        split = v.split ∙ ap (λ (l : List ℕ). l ++ t) here ∙ append_assoc out.bytes s t;
        all = v.all;
        same = v.same ∙ w.same;
      }

  Wrote-short :
      (out out' : Stdout) (s t : List ℕ) → Wrote out s false out' → Wrote out (s ++ t) false out'
  Wrote-short out out' s t w = record {
    left = w.left ++ t;
    split =
        sym (append_assoc out'.bytes w.left t)
        ∙ ap (λ (l : List ℕ). l ++ t) w.split
        ∙ append_assoc out.bytes s t;
    all = λ b. absurd (false≢true b);
    same = w.same;
  }

  getall_loop-Follows :
      (fuel calls : ℕ) (out : Stdout) (read : Mmap) (key : List ℕ) (hp : Hp) (hps : List Hp)
      (m : Mcdb)
      → calls < 2 ^ 63
      → Progress out.wrote
      → All (Fits calls read) (hp ∷ hps)
      → Found read hp m
      → Follows read key 0 hps (mcdb_findtagnext m key 0)
      → length hps < fuel
      → PrintedAll read out (hp ∷ hps) (getall_loop fuel calls out m key)
  unfolding getall_loop
  getall_loop-Follows zero calls out read key hp hps m low moves fits f h enough =
      absurd (omega arith)
  getall_loop-Follows (suc fuel) calls out read key hp [] m low moves fits f h enough =
      let (b, out', run, w) = put_line-Wrote calls out read hp m low moves fits.0 f in
      let w' = subst (λ (t : List ℕ). Wrote out t b out') (sym (append-nil (line read hp))) w in
      elim (Bool-cases b) [
        | inl done ↦ (b, out', rw (run, getall_loop, done, h) refl, w')
        | inr failed ↦ (b, out', rw (run, getall_loop, failed) refl, w')
      ]
  getall_loop-Follows (suc fuel) calls out read key hp (hp₂ ∷ hps) m low moves fits f h enough =
      let (b, out₁, run, w) = put_line-Wrote calls out read hp m low moves fits.0 f in
      elim (Bool-cases b) [
        | inl done ↦
            let (b₂, out₂, rest, v) =
              getall_loop-Follows fuel calls out₁ read key hp₂ hps (mcdb_findtagnext m key 0).1 low
                (subst Progress (sym w.same) moves) fits.1 h.1 h.2 (omega arith) in
            (
              b₂,
              out₂,
              rw (run, getall_loop, done, h.0) rest,
              Wrote-append out out₁ out₂ (line read hp) (lines read (hp₂ ∷ hps)) b₂
                  (subst (λ (b : Bool). Wrote out (line read hp) b out₁) done w) v,
            )
        | inr failed ↦ (
          b,
          out₁,
          rw (run, getall_loop, failed) refl,
          subst (λ (b : Bool). Wrote out (lines read (hp ∷ hp₂ ∷ hps)) b out₁) (sym failed)
              (Wrote-short out out₁ (line read hp) (lines read (hp₂ ∷ hps))
                (subst (λ (b : Bool). Wrote out (line read hp) b out₁) failed w)),
        )
      ]

  find-search : (m : Mcdb) (key : List ℕ) → mcdb_find m key ≡ search m m.map key 0
  unfolding mcdb_find
  find-search m key =
      let started = mcdb_findtagstart m m.map key 0 in
      elim (Bool-cases started.0) [
        | inl e ↦ rw (e, mcdb_find) refl
        | inr e ↦ rw (e, mcdb_find) (ap (λ (b : Bool). (b, started.1)) (sym e))
      ]

  getall-by :
      (fuel calls : ℕ) (out : Stdout) (m : Mcdb) (key : List ℕ) (r : Bool × Mcdb) (hps : List Hp)
      → calls < 2 ^ 63
      → Progress out.wrote
      → All (Fits calls m.map) hps
      → Follows m.map key 0 hps r
      → length hps ≤ fuel
      → PrintedAll m.map out hps
          (if r.0 then getall_loop (fuel + 1) calls out r.1 key else some (not_found, out))
  getall-by fuel calls out m key r [] low moves fits h enough = rw h refl
  getall-by fuel calls out m key r (hp ∷ hps) low moves fits h enough = rw h.0 (
      getall_loop-Follows (fuel + 1) calls out m.map key hp hps r.1 low moves fits h.1 h.2
        (omega arith))

  -- Let the search for a key through the map answer with the records hps. mcdbctl_getall prints
  -- nothing and returns EXIT_FAILURE if there is none; else it writes of the lines of all of them
  -- in order all, and returns success, or a part, and returns MCDB_ERROR_WRITE. Every call of
  -- writev that succeeds is to write at least a byte, each line is to be shorter than the bound
  -- on such calls, that below 2 ^ 63, and the bound on records larger than their number.
  pub getall-Follows :
      (fuel calls : ℕ) (out : Stdout) (m : Mcdb) (key : List ℕ) (hps : List Hp)
      → calls < 2 ^ 63
      → Progress out.wrote
      → All (Fits calls m.map) hps
      → Follows m.map key 0 hps (search m m.map key 0)
      → length hps ≤ fuel
      → PrintedAll m.map out hps (mcdbctl_getall (fuel + 1) calls out m key)
  unfolding mcdbctl_getall
  getall-Follows fuel calls out m key hps low moves fits h enough =
      subst
        (λ (r : Bool × Mcdb).
          PrintedAll m.map out hps
            (if r.0 then getall_loop (fuel + 1) calls out r.1 key else some (not_found, out)))
        (sym (find-search m key))
        (getall-by fuel calls out m key (search m m.map key 0) hps low moves fits h enough)
