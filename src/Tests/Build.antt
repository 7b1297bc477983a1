-- ===== src/Tests/Build.antt =====
-- A small database, written and read.
use mcdb.Base.{ℕ, List, [], ◌∷◌, Bool, true, false, Option, none, some}
use mcdb.Base.Memory.{load}
use mcdb.Plasma.{Plasma, big_endian}
use mcdb.Mcdb.{djb, Mmap, Mcdb}
use mcdb.Mcdb.Find.{mcdb_find, mcdb_findtagnext}
use mcdb.Make.{Errno}
use mcdb.Make.Add.{Rc, mcdb_make_add}
use mcdb.Make.Start.{mcdb_make_start}
use mcdb.Make.Finish.{mcdb_make_finish}

instance abbrev bytes_first : Plasma
bytes_first = big_endian

abbrev k1 : List ℕ
k1 = b'o' ∷ b'n' ∷ b'e' ∷ []

abbrev k2 : List ℕ
k2 = b't' ∷ b'w' ∷ b'o' ∷ []

built : Option Rc
built =
    let (_, m₀) = mcdb_make_start (λ a. 0) true 4096 (λ k. false) in
    let (_, m₁) = mcdb_make_add m₀ k1 (b'1' ∷ []) in
    let (_, m₂) = mcdb_make_add m₁ k2 (b'2' ∷ b'2' ∷ []) in
    let (_, m₃) = mcdb_make_add m₂ k1 (b'3' ∷ []) in mcdb_make_finish m₃

summary : Option (Option Errno × ℕ × Bool × List ℕ)
summary = elim built [
  | none ↦ none
  | some (rc, m) ↦ some (rc, m.pos, m.faulted, load m.file 4096 24)
]

lookup1 : Option (Bool × ℕ × ℕ × Bool × ℕ × Bool)
lookup1 = elim built [
  | none ↦ none
  | some (rc, m) ↦
      let map : Mmap = record {
        mem = m.file;
        b = 3;
        n = 0;
        hash_init = 5381;
        hash_fn = djb;
        size = m.pos;
      } in
      let q : Mcdb = record {
        map = map;
        loop = 0;
        hslots = 0;
        kpos = 0;
        hpos = 0;
        dpos = 0;
        dlen = 0;
        klen = 0;
        khash = 0;
      } in
      let (f, q₁) = mcdb_find q k1 in
      let (g, q₂) = mcdb_findtagnext q₁ k1 0 in
      let (h, q₃) = mcdb_findtagnext q₂ k1 0 in some (f, q₁.dpos, q₁.dlen, g, q₂.dpos, h)
]
