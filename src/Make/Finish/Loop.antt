-- ===== src/Make/Finish/Loop.antt =====
-- All rounds of the loop of mcdb_make_finish over the slots.
use mcdb.Base.{ℕ, zero, suc, ◌+◌, ◌-◌, ◌*◌, ◌^◌, ◌≤◌, ◌<◌, ◌≡◌, refl, sym, ◌∙◌, ap, subst, inl, inr}
use mcdb.Base.{Option, Option-cases, List, [], ◌++◌, true, some, length, u32, arith, length-append}
use mcdb.Base.{Bool-cases, ==_iff, ◌==◌}
use mcdb.Base.Memory.{Memory, At, append-At}
use mcdb.Plasma.{Plasma}
use mcdb.Mcdb.{header_sz}
use mathlib.Core.Bool.{false≢true}
use mathlib.Core.List.{append-nil, append_assoc}
use mcdb.Make.{Make, Hp}
use mcdb.Make.Keep.{Content}
use mcdb.Table.Search.{none-ne-some, some_eq}
use mcdb.Make.Finish.{Written, slot_hps, header_entry, write_slots, insert_hps}
use mcdb.Make.Finish.Fill.{IsStride}
use mcdb.Make.Finish.Tables.{
  Fits, Table, Laid, Step, step, zeroed, slot_len, slot_area, reach, write_slots_stop,
  write_slots_stuck, write_slots_step,
}
use mcdb.Make.Finish.Around.{Shows-congr}
use mcdb.Make.Finish.Tables.{length-header_entry, size-le}

module _ ⦃plasma : Plasma⦄ where
  module _ (i b : ℕ) (m : Make) (header : List ℕ) (m₃ : Make) (st : IsStride b)
      (low : m.pos + 2 ^ 36 < 2 ^ 63) (begin : header_sz ≤ m.pos) (s : Step i b m header m₃) where
    abbrev entry : List ℕ
    entry = header_entry m.pos (slot_len i b m header)

    -- The table of the first round, in a memory that agrees up to its end.
    first_table :
        (mem : Memory) (bytes : List ℕ)
        → ((a : ℕ) → a < m.pos + slot_len i b m header * 2 ^ b → mem a ≡ m₃.file a)
        → Table b (slot_hps (m.head i).lists) (slot_len i b m header) mem (entry ++ bytes) 0
    first_table mem bytes same = record {
      base = m.pos;
      slots = s.slots;
      begins = begin;
      ends = omega (arith, size-le i b m header st);
      shows = λ room.
          Shows-congr (slot_area i b m header) m₃.file mem s.slots st (λ a lo hi. sym (same a hi))
            (s.shows room);
      filled = s.filled;
      named = λ mem' a at.
          subst (λ (a : ℕ). At mem' a entry) (omega arith) (append-At mem' a entry bytes at).0;
    }

    -- The tables of the later rounds, seen from the first.
    later_table :
        (hps : List Hp) (len : ℕ) (mem : Memory) (bytes : List ℕ) (k k' : ℕ)
        → k' ≡ k + 1
        → Table b hps len mem bytes k
        → Table b hps len mem (entry ++ bytes) k'
    later_table hps len mem bytes k k' next t = record {
      base = t.base;
      slots = t.slots;
      begins = t.begins;
      ends = t.ends;
      shows = t.shows;
      filled = t.filled;
      named = λ mem' a at.
          subst (λ (a : ℕ). At mem' a (header_entry t.base len)) (omega (arith, lens))
            (t.named mem' (a + length entry) (append-At mem' a entry bytes at).1);
    }
      where
        lens : length entry ≡ 16
        lens = length-header_entry m.pos (slot_len i b m header) (omega arith) (omega arith)

    -- A whole run from the second round on is one from the first.
    Laid-step :
        (rounds : ℕ) (w : Written)
        → Laid rounds (i + 1) b m₃ (header ++ entry) w
        → Laid (suc rounds) i b m header w
    Laid-step rounds w rest =
        let pos₃ = ap (λ (c : Content). c.pos) s.kept in
        record {
          bytes = entry ++ rest.bytes;
          size = omega (
            arith,
            length-append entry rest.bytes,
            length-header_entry m.pos (slot_len i b m header) (omega arith) (omega arith),
            rest.size,
          );
          first = λ lt. (slot_len i b m header, rest.bytes, refl);
          appended = rest.appended ∙ append_assoc header entry rest.bytes;
          kept =
              rest.kept
              ∙ ap (λ (c : Content). record c { file = w.state.file; pos = w.state.pos }) s.kept;
          grown = omega (arith, rest.grown, pos₃);
          before = λ a lt. rest.before a (omega (arith, pos₃)) ∙ s.before a lt;
          tables = λ j lo hi. elim (Bool-cases (j == i)) [
            | inl first ↦
                let here = (==_iff j i).0 first in
                subst
                  (λ (k : ℕ).
                    Table b (slot_hps (m.head j).lists) (u32 (m.count j * 2)) w.state.file
                      (entry ++ rest.bytes) k)
                  (omega arith)
                  (subst
                    (λ (j : ℕ).
                      Table b (slot_hps (m.head j).lists) (u32 (m.count j * 2)) w.state.file
                        (entry ++ rest.bytes) 0)
                    (sym here)
                    (first_table w.state.file rest.bytes
                      (λ a lt. rest.before a (omega (arith, pos₃)))))
            | inr later ↦
                let next : i + 1 ≤ j = ground arith in
                later_table (slot_hps (m.head j).lists) (u32 (m.count j * 2)) w.state.file
                  rest.bytes (j - (i + 1)) (j - i) (omega (arith, next))
                  (subst
                    (λ (c : Content).
                      Table b (slot_hps (c.head j).lists) (u32 (c.count j * 2)) w.state.file
                        rest.bytes (j - (i + 1)))
                    s.kept (rest.tables j next (omega arith)))
          ];
        }

  abbrev pub inserts : ℕ → ℕ → Make → List ℕ → Option Make
  inserts i b m header =
      insert_hps (zeroed i b m header) (slot_area i b m header) (slot_hps (m.head i).lists)

  -- The later rounds still have what they rely on.
  pub Fits-later :
      (rounds i b : ℕ) (m : Make) (header : List ℕ) (m₃ : Make)
      → Step i b m header m₃
      → ((j : ℕ) → i ≤ j → j < i + suc rounds → Fits b m.count m.head j)
      → (j : ℕ) → i + 1 ≤ j
      → j < i + 1 + rounds
      → Fits b m₃.count m₃.head j
  Fits-later rounds i b m header m₃ s fits j lo hi =
      subst (λ (c : Content). Fits b c.count c.head j) (sym s.kept)
        (fits j (omega arith) (omega arith))

  -- When the loop comes back and did not break off, the tables stand in the file.
  pub write_slots-Laid :
      (rounds i b : ℕ) (m : Make) (header : List ℕ) (w : Written)
      → IsStride b
      → m.has_fd ≡ true
      → header_sz ≤ m.pos
      → m.pos + (rounds + 1) * 2 ^ 36 < 2 ^ 63
      → ((j : ℕ) → i ≤ j → j < i + rounds → Fits b m.count m.head j)
      → write_slots rounds i b m header ≡ some w
      → w.whole ≡ true
      → Laid rounds i b m header w
  write_slots-Laid zero i b m header w st fd begin low fits run whole =
      let same : record { whole = true; state = m; header = header } ≡ w =
        some_eq (unfold write_slots in run) in
      subst (Laid 0 i b m header) same (record {
        bytes = [];
        size = refl;
        first = λ lt. absurd (omega arith);
        appended = sym (append-nil header);
        kept = refl;
        grown = omega arith;
        before = λ a lt. refl;
        tables = λ j lo hi. absurd (omega arith);
      })
  write_slots-Laid (suc rounds) i b m header w st fd begin low fits run whole =
      elim (Bool-cases (reach i b m header).0) [
        | inr broke ↦
            let same = some_eq (sym (write_slots_stop i b m header rounds broke) ∙ run) in
            absurd (false≢true (ap (λ (w : Written). w.whole) same ∙ whole))
        | inl reached ↦ elim (Option-cases (inserts i b m header)) [
          | inl stuck ↦
              absurd
                (none-ne-some (sym (write_slots_stuck i b m header rounds reached stuck) ∙ run))
          | inr (m₃, ran) ↦
              let s =
                step i b m header m₃ st fd (omega arith) (fits i (omega arith) (omega arith)) ran in
              let size = size-le i b m header st in
              let pos₃ = ap (λ (c : Content). c.pos) s.kept in
              Laid-step i b m header m₃ st (omega arith) begin s rounds w (
                write_slots-Laid rounds (i + 1) b m₃
                  (header ++ header_entry m.pos (slot_len i b m header)) w st
                  (ap (λ (c : Content). c.has_fd) s.kept ∙ fd) (omega (arith, pos₃))
                  (omega (arith, pos₃, size)) (Fits-later rounds i b m header m₃ s fits)
                  (sym (write_slots_step i b m header rounds m₃ reached ran) ∙ run) whole)
        ]
      ]
