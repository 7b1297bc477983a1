-- ===== src/Ctl/Get/Laws/Seq.antt =====
-- What mcdbctl_getseq prints for a search with given answers.
use mcdb.Base.{
  ℕ, zero, suc, ◌+◌, ◌^◌, ◌<◌, ◌≡◌, refl, sym, ap, ap₂, ◌∙◌, subst, List, [], ◌∷◌, ◌++◌, Bool, true,
  false, Option, none, some, inl, inr, if◌then◌else◌, arith, length-append, Bool-cases,
}
use mcdb.Base.Memory.{load, length-load}
use mathlib.Core.Bool.{false≢true}
use mcdb.Plasma.{Plasma}
use mcdb.Uint32.{strunpack32}
use mcdb.Mcdb.{Mmap, Mcdb}
use mcdb.Mcdb.Find.{mcdb_findtagstart, mcdb_findtagnext}
use mcdb.Make.{Hp}
use mcdb.Lookup.Round.{Found}
use mcdb.Lookup.Search.{Follows}
use mcdb.Lookup.Finished.{search}
use mcdb.Ctl.Output.{Stdout}
use mcdb.Ctl.Output.Whole.{Wrote, Progress, writev_loop-Wrote}
use mcdb.Ctl.Get.{
  Reply, not_found, answer, data_of, put_line, write_status, find_seq, mcdbctl_getseq,
}

abbrev pub get_elem? {ℓ} : {A : Type ℓ} → List A → ℕ → Option A
get_elem? [] i = none
get_elem? (x ∷ xs) zero = some x
get_elem? (x ∷ xs) (suc i) = get_elem? xs i

module _ ⦃plasma : Plasma⦄ where
  -- The line of a record: its data and a newline.
  abbrev pub line : Mmap → Hp → List ℕ
  line read hp = load read.mem (hp.p + 8 + hp.l) (strunpack32 read.mem (hp.p + 4)) ++ 0x0a ∷ []

  -- The calls of writev that a line may take.
  abbrev pub Fits : ℕ → Mmap → Hp → Type 0
  Fits calls read hp = strunpack32 read.mem (hp.p + 4) + 1 < calls

  pub Found-data_of :
      (read : Mmap) (hp : Hp) (m : Mcdb) → Found read hp m → data_of m ++ 0x0a ∷ [] ≡ line read hp
  Found-data_of read hp m f =
      ap₂ (λ (mp : Mmap) (a : ℕ). load mp.mem a m.dlen ++ 0x0a ∷ []) f.map f.dpos
      ∙ ap (λ (n : ℕ). load read.mem (hp.p + 8 + hp.l) n ++ 0x0a ∷ []) f.dlen

  pub put_line-Wrote :
      (calls : ℕ) (out : Stdout) (read : Mmap) (hp : Hp) (m : Mcdb)
      → calls < 2 ^ 63
      → Progress out.wrote
      → Fits calls read hp
      → Found read hp m
      → (b : Bool) × (out' : Stdout) × (put_line calls out m ≡ some (b, out'))
        × Wrote out (line read hp) b out'
  unfolding put_line
  put_line-Wrote calls out read hp m low moves fits f =
      let (b, out', run, w) =
        writev_loop-Wrote calls out (data_of m ∷ (0x0a ∷ []) ∷ []) (m.dlen + 1) moves
          (omega
            (arith, length-append {0} (data_of m) (0x0a ∷ []), length-load m.map.mem m.dpos m.dlen))
          (omega (arith, f.dlen)) (omega (arith, f.dlen)) in
      (b, out', run, subst (λ (text : List ℕ). Wrote out text b out') (Found-data_of read hp m f) w)

  abbrev pub Printed : Stdout → Option (List ℕ) → Option (Reply × Stdout) → Type 0
  Printed out none r = r ≡ some (not_found, out)
  Printed out (some text) r =
      (b : Bool) × (out' : Stdout) × (r ≡ some (answer (write_status b), out'))
      × Wrote out text b out'

  abbrev pub AtSeq : Mmap → Option Hp → Bool × Mcdb → Type 0
  AtSeq read none r = r.0 ≡ false
  AtSeq read (some hp) r = (r.0 ≡ true) × Found read hp r.1

  pub find_seq-AtSeq :
      (read : Mmap) (key : List ℕ) (seq : ℕ) (m : Mcdb) (hps : List Hp)
      → Follows read key 0 hps (mcdb_findtagnext m key 0)
      → AtSeq read (get_elem? hps seq) (find_seq seq m key)
  unfolding find_seq
  find_seq-AtSeq read key zero m [] h = h
  find_seq-AtSeq read key zero m (hp ∷ hps) h = (h.0, h.1)
  find_seq-AtSeq read key (suc seq) m [] h = rw (h, find_seq) refl
  find_seq-AtSeq read key (suc seq) m (hp ∷ hps) h =
      subst (AtSeq read (get_elem? hps seq)) (sym (rw (h.0, find_seq) refl))
        (find_seq-AtSeq read key seq (mcdb_findtagnext m key 0).1 hps h.2)

  pub not_started :
      (read : Mmap) (key : List ℕ) (hps : List Hp) (r : Bool × Mcdb)
      → Follows read key 0 hps r
      → r.0 ≡ false
      → hps ≡ []
  not_started read key [] r h e = refl
  not_started read key (hp ∷ hps) r h e = absurd (false≢true (sym e ∙ h.0))

  abbrev pub line_of : Mmap → Option Hp → Option (List ℕ)
  line_of read none = none
  line_of read (some hp) = some (line read hp)

  abbrev pub FitsSome : ℕ → Mmap → Option Hp → Type 0
  FitsSome calls read none = Unit
  FitsSome calls read (some hp) = Fits calls read hp

  pub reply-AtSeq :
      (calls : ℕ) (out : Stdout) (read : Mmap) (o : Option Hp) (r : Bool × Mcdb)
      → calls < 2 ^ 63
      → Progress out.wrote
      → FitsSome calls read o
      → AtSeq read o r
      → Printed out (line_of read o) (
          if r.0
          then elim (put_line calls out r.1) [
            | none ↦ none
            | some (done, out₁) ↦ some (answer (write_status done), out₁)
          ]
          else some (not_found, out))
  reply-AtSeq calls out read none r low moves fits at = rw at refl
  reply-AtSeq calls out read (some hp) r low moves fits at =
      let (b, out', run, w) = put_line-Wrote calls out read hp r.1 low moves fits at.1 in
      (b, out', rw (at.0, run) refl, w)

  -- Let the search for a key through the map answer with the records `hps`. mcdbctl_getseq prints
  -- the line of the record with index seq, or is in error if it cannot be written whole, and when
  -- there is no such record it prints nothing and returns EXIT_FAILURE. Every call of writev that
  -- succeeds is to write at least a byte, and the lines are to fit the bound on such calls.
  pub getseq-Follows :
      (calls : ℕ) (out : Stdout) (m : Mcdb) (key : List ℕ) (seq : ℕ) (hps : List Hp)
      → calls < 2 ^ 63
      → Progress out.wrote
      → FitsSome calls m.map (get_elem? hps seq)
      → Follows m.map key 0 hps (search m m.map key 0)
      → Printed out (line_of m.map (get_elem? hps seq)) (mcdbctl_getseq calls out m key seq)
  unfolding mcdbctl_getseq
  getseq-Follows calls out m key seq hps low moves fits h =
      let started = mcdb_findtagstart m m.map key 0 in
      elim (Bool-cases started.0) [
        | inl e ↦
            let at =
              find_seq-AtSeq m.map key seq started.1 hps
                (subst (Follows m.map key 0 hps) (rw e refl) h) in
            subst (Printed out (line_of m.map (get_elem? hps seq)))
              (sym (rw (e, mcdbctl_getseq) refl))
              (reply-AtSeq calls out m.map (get_elem? hps seq) (find_seq seq started.1 key) low
                moves fits at)
        | inr e ↦
            let empty = not_started m.map key hps (search m m.map key 0) h (rw e refl) in
            subst
              (λ (hps : List Hp).
                Printed out (line_of m.map (get_elem? hps seq))
                  (mcdbctl_getseq calls out m key seq))
              (sym empty) (rw (e, mcdbctl_getseq) refl)
      ]

  abbrev pub lines : Mmap → List Hp → List ℕ
  lines read [] = []
  lines read (hp ∷ hps) = line read hp ++ lines read hps

  -- What getall prints: every line, one at least.
  abbrev pub PrintedAll : Mmap → Stdout → List Hp → Option (Reply × Stdout) → Type 0
  PrintedAll read out [] r = r ≡ some (not_found, out)
  PrintedAll read out (hp ∷ hps) r =
      (b : Bool) × (out' : Stdout) × (r ≡ some (answer (write_status b), out'))
      × Wrote out (lines read (hp ∷ hps)) b out'
