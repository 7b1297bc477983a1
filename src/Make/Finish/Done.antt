-- ===== src/Make/Finish/Done.antt =====
-- A whole run of mcdb_make_finish: the file that it leaves.
pub mod Committed
pub use Committed.*
use mcdb.Base.{ℕ, ◌+◌, ◌-◌, ◌*◌, ◌%◌, ◌^◌, ◌≤◌, ◌<◌, ◌≡◌, refl, sym, ◌∙◌, ap, subst, inl, inr, ltb}
use mcdb.Base.{
  List, [], ◌∷◌, ◌++◌, Bool, true, false, not, none, some, if◌then◌else◌, length, replicate,
  length-replicate, get_or-replicate, u32, u64, arith, All,
}
use mcdb.Base.{Bool-cases, ◌==◌, bit_and, ◌⊎◌}
use mcdb.Base.Bits.{bit_and_mask}
use mcdb.Base.Memory.{Memory, At, append-At, store, store_outside, store_inside, At-store_self}
use mcdb.Plasma.{Plasma}
use mcdb.Mcdb.{slots, header_sz, uint_max, int_max}
use mathlib.Core.Bool.{false≢true}
use mcdb.Table.Search.{none-ne-some, some_eq}
use mcdb.Make.{Make, Hp, Errno, poke, ask, os, eperm, enomem}
use mcdb.Make.Add.{Rc, ensure_window}
use mcdb.Make.Hplist.{free_lists, sum_count}
use mcdb.Make.Start.{mcdb_make_destroy}
use mcdb.Make.Keep.{Content, content, ensure_window-content}
use mcdb.Make.Finish.{
  Written, slot_hps, header_entry, write_slots, mcdb_mmap_commit, close_up, give_up, padding,
  finish_tables, mcdb_make_finish,
}
use mcdb.Make.Valid.{IsRecord, IsMake, Few}
use mcdb.Make.Finish.Fill.{IsStride, IsEntry}
use mcdb.Make.Finish.Tables.{Fits, Table, Laid}
use mcdb.Make.Finish.Loop.{write_slots-Laid}

module _ ⦃plasma : Plasma⦄ where
  open plasma use {be64enc}

  module _ (m : Make) (fd : m.has_fd ≡ true) where
    abbrev padded_pos : ℕ
    padded_pos = m.pos + padding m.pos

    abbrev reach_pad : Bool × Make
    reach_pad = ensure_window m (u64 padded_pos)

    abbrev pad_bytes : List ℕ
    pad_bytes = replicate (padding m.pos) 0xff

    abbrev padded : Make
    padded = record (if padding m.pos == 0 then reach_pad.1 else poke reach_pad.1 m.pos pad_bytes) {
      pos = u64 padded_pos;
    }

    pub padded-content :
        content padded ≡ record (content m) { file = padded.file; pos = u64 padded_pos }
    unfolding poke
    padded-content =
        let reached = ensure_window-content m (u64 padded_pos) fd in
        elim (Bool-cases (padding m.pos == 0)) [
          | inl e ↦ rw e (
              ap (λ (c : Content). record c { file = reach_pad.1.file; pos = u64 padded_pos })
                reached)
          | inr e ↦ rw e (
              ap
                (λ (c : Content). record c {
                  file = store reach_pad.1.file m.pos pad_bytes;
                  pos = u64 padded_pos;
                })
                reached)
        ]

    padded_before : (a : ℕ) → a < m.pos → padded.file a ≡ m.file a
    unfolding poke
    padded_before a lt =
        let reached =
          ap (λ (c : Content). c.file a) (ensure_window-content m (u64 padded_pos) fd) in
        elim (Bool-cases (padding m.pos == 0)) [
          | inl e ↦ rw e reached
          | inr e ↦ rw e (store_outside reach_pad.1.file m.pos a pad_bytes (inl lt) ∙ reached)
        ]

    padded_on : (a : ℕ) → m.pos ≤ a → a < padded_pos → padded.file a ≡ 0xff
    unfolding poke
    padded_on a lo hi =
        let k = a - m.pos in
        let here : m.pos + k ≡ a = omega arith in
        let size : length pad_bytes ≡ padding m.pos = length-replicate (padding m.pos) 0xff in
        elim (Bool-cases (padding m.pos == 0)) [
          | inl e ↦ absurd (ground arith)
          | inr e ↦ rw e (
              ap (λ (i : ℕ). store reach_pad.1.file m.pos pad_bytes i) (sym here)
              ∙ store_inside reach_pad.1.file m.pos k pad_bytes (omega (arith, size))
              ∙ get_or-replicate (padding m.pos) k 0xff 0 (omega arith))
        ]

    finish_by : mcdb_make_finish m ≡ (
        if not m.mapped
        then some (give_up m eperm)
        else if ltb int_max (sum_count slots m.count)
        then some (give_up m enomem)
        else if not reach_pad.0
        then some (give_up reach_pad.1 os)
        else finish_tables padded)
    unfolding mcdb_make_finish
    finish_by = refl

  -- Records in front of `pos` have entries in the tables behind it.
  IsRecord-IsEntry :
      (file : Memory) (pos end j : ℕ) (hps : List Hp)
      → pos ≤ end
      → end < 2 ^ 63
      → All (IsRecord file pos j) hps
      → All (IsEntry (if ltb end uint_max then 3 else 4)) hps
  IsRecord-IsEntry file pos end j [] le low rs = tt
  IsRecord-IsEntry file pos end j (hp ∷ hps) le low (r, rs) = (
    record {
      hash = r.hash;
      len = r.len;
      present = omega (arith, r.begins);
      near = ground (arith, r.begins, r.ends);
    },
    IsRecord-IsEntry file pos end j hps le low rs,
  )

  module _ (m : Make) (valid : IsMake m) (few : Few m) (low : m.pos < 2 ^ 62) where
    abbrev pub behind : Make
    behind = padded m valid.fd

    pub behind-pos : behind.pos ≡ m.pos + padding m.pos
    behind-pos =
        let fit : u64 (m.pos + padding m.pos) ≡ m.pos + padding m.pos =
          omega (arith, padding_mod m.pos) in
        ap (λ (c : Content). c.pos) (padded-content m valid.fd) ∙ fit

    shift_of-Fits : (j : ℕ) → j < slots → Fits (shift_of m.pos) behind.count behind.head j
    shift_of-Fits j lt =
        subst (λ (c : Content). Fits (shift_of m.pos) c.count c.head j)
          (sym (padded-content m valid.fd))
          (record {
            counted = valid.counted j lt;
            few = omega (arith, few j lt);
            entries =
                IsRecord-IsEntry m.file m.pos (m.pos + padding m.pos) j (slot_hps (m.head j).lists)
                  (omega arith) (omega (arith, padding_mod m.pos)) (valid.records j lt);
          })

    unpad :
        (r : Make)
        → Finished (shift_of m.pos) behind.pos behind r
        → Finished (shift_of m.pos) (m.pos + padding m.pos) m r
    unpad r done = record {
      header = done.header;
      on_top = done.on_top;
      first = subst (λ (base : ℕ). At r.file 0 (be64enc base)) behind-pos done.first;
      behind = omega (arith, done.behind, behind-pos);
      grown = omega (arith, done.grown, behind-pos);
      data_kept = λ a lo hi.
          done.data_kept a lo (omega (arith, behind-pos)) ∙ padded_before m valid.fd a hi;
      padded = λ a lo hi.
          done.data_kept a (omega (arith, valid.begins)) (omega (arith, behind-pos))
          ∙ padded_on m valid.fd a lo hi;
      tables = λ j lt.
          subst
            (λ (c : Content).
              Table (shift_of m.pos) (slot_hps (c.head j).lists) (u32 (c.count j * 2)) r.file
                done.header j)
            (padded-content m valid.fd) (done.tables j lt);
    }

    -- The state that the loop begins with has what the loop relies on.
    pub as_behind : (if ltb behind.pos uint_max then 3 else 4) ≡ shift_of m.pos
    as_behind = ap (λ (p : ℕ). if ltb p uint_max then 3 else 4) behind-pos

    pub behind-has_fd : behind.has_fd ≡ true
    behind-has_fd = ap (λ (c : Content). c.has_fd) (padded-content m valid.fd) ∙ valid.fd

    pub behind-low : behind.pos + 257 * 2 ^ 36 < 2 ^ 63
    behind-low = omega (arith, behind-pos, padding_mod m.pos)

    pub behind-Fits :
        (j : ℕ)
        → j < slots
        → Fits (if ltb behind.pos uint_max then 3 else 4) behind.count behind.head j
    behind-Fits j lt =
        subst (λ (b : ℕ). Fits b behind.count behind.head j) (sym as_behind) (shift_of-Fits j lt)

    behind_done :
        (rc : Rc)
        → finish_tables behind ≡ some rc
        → rc.0 ≡ none
        → Finished (shift_of m.pos) (m.pos + padding m.pos) m rc.1
    behind_done rc run ok = unpad rc.1 (
        subst (λ (b : ℕ). Finished b behind.pos behind rc.1) as_behind
          (finish_tables-Finished behind behind-has_fd (omega (arith, behind-pos, valid.begins))
            behind-low rc behind-Fits run ok))

    -- The call gives up in front of the tables, or its result is that of the tables' loop.
    pub finish-tables_or :
        ((m' : Make) × (e : Errno) × (mcdb_make_finish m ≡ some (give_up m' e)))
        ⊎ (mcdb_make_finish m ≡ finish_tables behind)
    finish-tables_or = elim (Bool-cases (not m.mapped)) [
      | inl e ↦ inl (m, eperm, finish_by m valid.fd ∙ rw e refl)
      | inr e ↦ elim (Bool-cases (ltb int_max (sum_count slots m.count))) [
        | inl many ↦ inl (m, enomem, finish_by m valid.fd ∙ rw (e, many) refl)
        | inr fewer ↦ elim (Bool-cases (not (reach_pad m valid.fd).0)) [
          | inl broke ↦
              inl ((reach_pad m valid.fd).1, os, finish_by m valid.fd ∙ rw (e, fewer, broke) refl)
          | inr reached ↦ inr (finish_by m valid.fd ∙ rw (e, fewer, reached) refl)
        ]
      ]
    ]

    -- When the call comes back with 0 the file is whole.
    pub finish-Finished :
        (rc : Rc)
        → mcdb_make_finish m ≡ some rc
        → rc.0 ≡ none
        → Finished (shift_of m.pos) (m.pos + padding m.pos) m rc.1
    finish-Finished rc run ok = elim finish-tables_or [
      | inl (m', e, gave) ↦
          let same = some_eq (sym gave ∙ run) in
          absurd (none-ne-some (sym (ap (λ (rc : Rc). rc.0) same ∙ ok)))
      | inr tables ↦ behind_done rc (sym tables ∙ run) ok
    ]
