-- ===== src/Make/Valid.antt =====
-- When the state of the writer is in order.
use mcdb.Base.{ℕ, ◌+◌, ◌%◌, ◌^◌, ◌≤◌, ◌<◌, ◌≡◌, List, true, length, All}
use mcdb.Base.Memory.{Memory}
use mcdb.Plasma.{Plasma, IsByte}
use mcdb.Uint32.{strunpack32}
use mcdb.Mcdb.{run_hash, slots, header_sz}
use mcdb.Make.{Make, Hp}
use mcdb.Make.Finish.{slot_hps}

module _ ⦃plasma : Plasma⦄ where
  -- A record of slot `j` that stands behind the header and in front of `pos`, with the length of
  -- its key in the file.
  pub record IsRecord (file : Memory) (pos j : ℕ) (hp : Hp) : Type 0 where
    pub hash : hp.h < 2 ^ 32
    pub slot : hp.h % slots ≡ j
    pub len : hp.l < 2 ^ 32
    pub begins : header_sz ≤ hp.p
    pub ends : hp.p + 8 + hp.l ≤ pos
    pub lens : strunpack32 file hp.p ≡ hp.l

  -- A writer with a file whose lists hold records, as many as are counted.
  pub record IsMake (m : Make) : Type 0 where
    pub fd : m.has_fd ≡ true
    pub begins : header_sz ≤ m.pos
    pub hashes :
        (h : ℕ) (buf : List ℕ) → h < 2 ^ 32 → All IsByte buf → run_hash m.hash_fn h buf < 2 ^ 32
    pub hash_init : m.hash_init < 2 ^ 32
    pub counted : (j : ℕ) → j < slots → m.count j ≡ length (slot_hps (m.head j).lists)
    pub records : (j : ℕ) → j < slots → All (IsRecord m.file m.pos j) (slot_hps (m.head j).lists)

-- No slot has as many records as its table has no room for.
abbrev pub Few : Make → Type 0
Few m = (j : ℕ) → j < slots → m.count j < 2 ^ 31
