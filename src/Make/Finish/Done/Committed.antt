-- ===== src/Make/Finish/Done/Committed.antt =====
-- The file behind a run of the loop over the slots and the commit of the header.
use mcdb.Base.{ℕ, ◌+◌, ◌-◌, ◌*◌, ◌%◌, ◌^◌, ◌≤◌, ◌<◌, ◌≡◌, refl, sym, ◌∙◌, ap, subst, inl, inr, ltb}
use mcdb.Base.{
  List, [], ◌++◌, Bool, true, false, none, some, if◌then◌else◌, length, replicate, u32, arith,
}
use mcdb.Base.{Bool-cases, Option-cases, bit_and}
use mcdb.Table.Search.{none-ne-some, some_eq}
use mcdb.Base.Bits.{bit_and_mask}
use mcdb.Base.Memory.{Memory, At, append-At, store, store_outside, At-store_self}
use mcdb.Plasma.{Plasma}
use mcdb.Mcdb.{slots, header_sz, uint_max}
use mathlib.Core.Bool.{false≢true}
use mcdb.Make.{Make, Hp, ask}
use mcdb.Make.Add.{Rc}
use mcdb.Make.Hplist.{free_lists}
use mcdb.Make.Start.{mcdb_make_destroy}
use mcdb.Make.Keep.{Content}
use mcdb.Make.Finish.{
  Written, slot_hps, header_entry, write_slots, mcdb_mmap_commit, close_up, padding, finish_tables,
}
use mcdb.Make.Finish.Fill.{IsStride}
use mcdb.Make.Finish.Around.{Shows-congr}
use mcdb.Make.Finish.Tables.{Fits, Table, Laid}
use mcdb.Make.Finish.Loop.{write_slots-Laid}

pub padding_mod : (pos : ℕ) → padding pos ≡ (16 - pos % 16) % 16
padding_mod pos =
    bit_and_mask 4 (16 - bit_and pos 15) ∙ ap (λ (r : ℕ). (16 - r) % 16) (bit_and_mask 4 pos)

pub commit-file :
    (m : Make) (header : List ℕ)
    → m.has_fd ≡ true
    → (mcdb_mmap_commit m header).0 ≡ true
    → ((mcdb_mmap_commit m header).1.file ≡ store m.file 0 header)
      × ((mcdb_mmap_commit m header).1.pos ≡ m.pos)
unfolding mcdb_mmap_commit ask
commit-file m header fd h = ground arith

pub destroy-file :
    (m : Make) → ((mcdb_make_destroy m).1.file ≡ m.file) × ((mcdb_make_destroy m).1.pos ≡ m.pos)
unfolding mcdb_make_destroy ask free_lists
destroy-file m = ground arith

pub close_up-file :
    (committed : Bool) (m : Make)
    → (close_up committed m).0 ≡ none
    → (committed ≡ true)
      × ((close_up committed m).1.file ≡ m.file)
      × ((close_up committed m).1.pos ≡ m.pos)
unfolding close_up
close_up-file committed m h = ground (arith, destroy-file m)

-- The stride that the tables behind the records get.
abbrev pub shift_of : ℕ → ℕ
shift_of pos = if ltb (pos + padding pos) uint_max then 3 else 4

-- No table is larger than 2 ^ 32 bytes, so that the places of its slots do not wrap: at most
-- 2 ^ 28 records in a slot with entries of 8 bytes, and 2 ^ 27 with entries of 16.
abbrev pub Unwrapped : Make → Type 0
Unwrapped m = (j : ℕ) → j < slots → m.count j * 2 * 2 ^ shift_of m.pos ≤ 2 ^ 32

pub shift_of-IsStride : (pos : ℕ) → IsStride (if ltb pos uint_max then 3 else 4)
shift_of-IsStride pos = elim (Bool-cases (ltb pos uint_max)) [
  | inl e ↦ rw e (inl refl)
  | inr e ↦ rw e (inr refl)
]

module _ ⦃plasma : Plasma⦄ where
  open plasma use {be32enc, be64enc}

  -- What stands in the file: the header, the bytes of `m` in front of `pos`, and a table for each slot
  -- that the header names; the first table begins at `pos`.
  pub record Finished (b base : ℕ) (m : Make) (r : Make) : Type 0 where
    pub header : List ℕ
    pub first : At r.file 0 (be64enc base)
    pub behind : base ≤ r.pos
    pub on_top : At r.file 0 header
    pub grown : m.pos ≤ r.pos
    pub data_kept : (a : ℕ) → header_sz ≤ a → a < m.pos → r.file a ≡ m.file a
    pub padded : (a : ℕ) → m.pos ≤ a → a < base → r.file a ≡ 0xff
    pub tables :
        (j : ℕ)
        → j < slots
        → Table b (slot_hps (m.head j).lists) (u32 (m.count j * 2)) r.file header j

  pub header_entry-hpos :
      (mem : Memory) (hpos hslots : ℕ) (rest : List ℕ)
      → At mem 0 (header_entry hpos hslots ++ rest)
      → At mem 0 (be64enc hpos)
  unfolding header_entry
  header_entry-hpos mem hpos hslots rest at =
      let (entry, _) = append-At mem 0 (header_entry hpos hslots) rest at in
      let (fields, _) = append-At mem 0 (be64enc hpos ++ be32enc hslots) (replicate 4 0) entry in
      (append-At mem 0 (be64enc hpos) (be32enc hslots) fields).0

  -- A table behind the header stays when the header is written.
  pub header-Table :
      (b len k : ℕ) (hps : List Hp) (mem : Memory) (header : List ℕ)
      → IsStride b
      → length header ≡ header_sz
      → Table b hps len mem header k
      → Table b hps len (store mem 0 header) header k
  header-Table b len k hps mem header st size t = record {
    base = t.base;
    slots = t.slots;
    begins = t.begins;
    ends = t.ends;
    shows = λ room.
        Shows-congr (record { base = t.base; len = len; b = b }) mem (store mem 0 header) t.slots st
          (λ i lo hi. sym (store_outside mem 0 i header (inr (omega (arith, t.begins)))))
          (t.shows room);
    filled = t.filled;
    named = t.named;
  }

  module _ (m : Make) (fd : m.has_fd ≡ true) (begin : header_sz ≤ m.pos)
      (low : m.pos + 257 * 2 ^ 36 < 2 ^ 63) where
    abbrev pub b : ℕ
    b = if ltb m.pos uint_max then 3 else 4

    -- What the loop and the commit come back with.
    abbrev pub outcome : Written → Rc
    outcome w =
        let (committed, m₁) = mcdb_mmap_commit w.state w.header in
        if w.whole then close_up committed m₁ else close_up false w.state

    pub finish_tables_run :
        (w : Written) → write_slots slots 0 b m [] ≡ some w → finish_tables m ≡ some (outcome w)
    unfolding finish_tables
    finish_tables_run w run = rw (run, finish_tables)

    pub Laid-Finished :
        (w : Written) (r : Make)
        → Laid slots 0 b m [] w
        → r.file ≡ store w.state.file 0 w.header
        → r.pos ≡ w.state.pos
        → Finished b m.pos m r
    Laid-Finished w r laid file pos =
        let size : length w.header ≡ header_sz = ap length laid.appended ∙ laid.size in
        record {
          header = w.header;
          on_top =
              subst (λ (mem : Memory). At mem 0 w.header) (sym file)
                (At-store_self w.state.file 0 w.header);
          first =
              let (len, rest, split) = laid.first (omega arith) in
              header_entry-hpos r.file m.pos len rest (
                subst (λ (bytes : List ℕ). At r.file 0 bytes) (laid.appended ∙ split)
                  (subst (λ (mem : Memory). At mem 0 w.header) (sym file)
                    (At-store_self w.state.file 0 w.header)));
          behind = omega (arith, pos, laid.grown);
          grown = omega (arith, pos, laid.grown);
          data_kept = λ a lo hi.
              ap (λ (mem : Memory). mem a) file
              ∙ store_outside w.state.file 0 a w.header (inr (omega (arith, size)))
              ∙ laid.before a hi;
          padded = λ a lo hi. absurd (omega arith);
          tables = λ j lt.
              subst
                (λ (mem : Memory).
                  Table b (slot_hps (m.head j).lists) (u32 (m.count j * 2)) mem w.header j)
                (sym file)
                (header-Table b (u32 (m.count j * 2)) j (slot_hps (m.head j).lists) w.state.file
                  w.header (shift_of-IsStride m.pos) size
                  (subst
                    (λ (bytes : List ℕ).
                      Table b (slot_hps (m.head j).lists) (u32 (m.count j * 2)) w.state.file bytes
                        j)
                    (sym laid.appended)
                    (subst
                      (λ (k : ℕ).
                        Table b (slot_hps (m.head j).lists) (u32 (m.count j * 2)) w.state.file
                          laid.bytes k)
                      (omega arith) (laid.tables j (omega arith) (omega arith)))));
        }

    pub finish_tables_stuck : write_slots slots 0 b m [] ≡ none → finish_tables m ≡ none
    unfolding finish_tables
    finish_tables_stuck stuck = rw (stuck, finish_tables)

    outcome-whole : (w : Written) → (outcome w).0 ≡ none → w.whole ≡ true
    outcome-whole w ok = elim (Bool-cases w.whole) [
      | inl whole ↦ whole
      | inr broke ↦
          let c = mcdb_mmap_commit w.state w.header in
          absurd (
            false≢true
              (close_up-file false w.state (
                sym (
                  ap (λ (t : Bool). (if t then close_up c.0 c.1 else close_up false w.state).0)
                    broke)
                ∙ ok)).0)
    ]

    outcome-Finished :
        (w : Written)
        → Laid slots 0 b m [] w
        → w.whole ≡ true
        → (outcome w).0 ≡ none
        → Finished b m.pos m (outcome w).1
    outcome-Finished w laid whole ok =
        let c = mcdb_mmap_commit w.state w.header in
        let as_whole =
          ap (λ (t : Bool). if t then close_up c.0 c.1 else close_up false w.state) whole in
        let (committed, file, pos) =
          close_up-file c.0 c.1 (sym (ap (λ (rc : Rc). rc.0) as_whole) ∙ ok) in
        let (stored, at) =
          commit-file w.state w.header (ap (λ (c : Content). c.has_fd) laid.kept ∙ fd) committed in
        subst (Finished b m.pos m) (sym (ap (λ (rc : Rc). rc.1) as_whole))
          (Laid-Finished w (close_up c.0 c.1).1 laid (file ∙ stored) (pos ∙ at))

    pub finish_tables-Finished :
        (rc : Rc)
        → ((j : ℕ) → j < slots → Fits b m.count m.head j)
        → finish_tables m ≡ some rc
        → rc.0 ≡ none
        → Finished b m.pos m rc.1
    finish_tables-Finished rc fits run ok = elim (Option-cases (write_slots slots 0 b m [])) [
      | inl stuck ↦ absurd (none-ne-some (sym (finish_tables_stuck stuck) ∙ run))
      | inr (w, ran) ↦
          let same : outcome w ≡ rc = some_eq (sym (finish_tables_run w ran) ∙ run) in
          let there : (outcome w).0 ≡ none = ap (λ (rc : Rc). rc.0) same ∙ ok in
          let whole = outcome-whole w there in
          subst (λ (rc : Rc). Finished b m.pos m rc.1) same
            (outcome-Finished w
              (write_slots-Laid slots 0 b m [] w (shift_of-IsStride m.pos) fd begin low
                (λ j lo hi. fits j hi) ran whole)
              whole there)
    ]
