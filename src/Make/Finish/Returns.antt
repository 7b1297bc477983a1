-- ===== src/Make/Finish/Returns.antt =====
-- mcdb_make_finish comes back: its searches for an empty slot find one.
use mcdb.Base.{
  ℕ, zero, suc, ◌+◌, ◌*◌, ◌^◌, ◌≤◌, ◌<◌, ◌≡◌, refl, sym, ◌∙◌, ap, subst, inl, inr, ltb,
  if◌then◌else◌,
}
use mcdb.Base.{List, [], ◌++◌, true, false, some, Bool-cases, u32, arith}
use mcdb.Plasma.{Plasma}
use mcdb.Mcdb.{slots, uint_max, header_sz}
use mcdb.Make.{Make}
use mcdb.Make.Add.{Rc}
use mcdb.Make.Keep.{Content}
use mcdb.Make.Valid.{IsMake, Few}
use mcdb.Make.Finish.{Written, header_entry, write_slots, give_up, finish_tables, mcdb_make_finish}
use mcdb.Make.Finish.Fill.{IsStride}
use mcdb.Make.Finish.Tables.{
  Fits, step, inserted, slot_len, reach, write_slots_stop, write_slots_step, size-le,
}
use mcdb.Make.Finish.Loop.{Fits-later}
use mcdb.Make.Finish.Done.{
  shift_of, shift_of-IsStride, Unwrapped, outcome, finish_tables_run, behind, behind-pos, as_behind,
  behind-has_fd, behind-low, behind-Fits, padded-content, finish-tables_or,
}

module _ ⦃plasma : Plasma⦄ where
  -- The loop comes back when no table is larger than 2 ^ 32 bytes.
  pub write_slots_returns :
      (rounds i b : ℕ) (m : Make) (header : List ℕ)
      → IsStride b
      → m.has_fd ≡ true
      → m.pos + (rounds + 1) * 2 ^ 36 < 2 ^ 63
      → ((j : ℕ) → i ≤ j → j < i + rounds → Fits b m.count m.head j)
      → ((j : ℕ) → i ≤ j → j < i + rounds → u32 (m.count j * 2) * 2 ^ b ≤ 2 ^ 32)
      → (w : Written) × (write_slots rounds i b m header ≡ some w)
  write_slots_returns zero i b m header st fd low fits room =
      (record { whole = true; state = m; header = header }, unfold write_slots in refl)
  write_slots_returns (suc rounds) i b m header st fd low fits room =
      elim (Bool-cases (reach i b m header).0) [
        | inr broke ↦ (
          record { whole = false; state = (reach i b m header).1; header = header },
          write_slots_stop i b m header rounds broke,
        )
        | inl reached ↦
            let here = fits i (omega arith) (omega arith) in
            let (m₃, ran) = inserted i b m header st here (room i (omega arith) (omega arith)) in
            let s = step i b m header m₃ st fd (omega arith) here ran in
            let size = size-le i b m header st in
            let pos₃ = ap (λ (c : Content). c.pos) s.kept in
            let (w, run) =
              write_slots_returns rounds (i + 1) b m₃
                (header ++ header_entry m.pos (slot_len i b m header)) st
                (ap (λ (c : Content). c.has_fd) s.kept ∙ fd) (omega (arith, pos₃, size))
                (Fits-later rounds i b m header m₃ s fits)
                (λ j lo hi.
                  subst (λ (c : Content). u32 (c.count j * 2) * 2 ^ b ≤ 2 ^ 32) (sym s.kept)
                    (room j (omega arith) (omega arith))) in
            (w, write_slots_step i b m header rounds m₃ reached ran ∙ run)
      ]

  -- Tables of at most 2 ^ 32 bytes have at most 2 ^ 28 records.
  pub Unwrapped-Few : (m : Make) → Unwrapped m → Few m
  Unwrapped-Few m small j lt = ground (arith, small j lt)

  -- A table's size, in the terms of the loop.
  pub Unwrapped-room :
      (m : Make)
      → Unwrapped m
      → (j : ℕ) → j < slots
      → u32 (m.count j * 2) * 2 ^ shift_of m.pos ≤ 2 ^ 32
  Unwrapped-room m small j lt =
      let exact : u32 (m.count j * 2) ≡ m.count j * 2 = omega (arith, Unwrapped-Few m small j lt) in
      subst (λ (len : ℕ). len * 2 ^ shift_of m.pos ≤ 2 ^ 32) (sym exact) (small j lt)

  module _ (m : Make) (valid : IsMake m) (small : Unwrapped m) (low : m.pos < 2 ^ 62) where
    abbrev few : Few m
    few = Unwrapped-Few m small

    behind_room :
        (j : ℕ)
        → j < slots
        → u32 ((behind m valid few low).count j * 2)
            * 2 ^ (if ltb (behind m valid few low).pos uint_max then 3 else 4)
          ≤ 2 ^ 32
    behind_room j lt =
        subst (λ (b : ℕ). u32 ((behind m valid few low).count j * 2) * 2 ^ b ≤ 2 ^ 32)
          (sym (as_behind m valid few low))
          (subst (λ (c : Content). u32 (c.count j * 2) * 2 ^ shift_of m.pos ≤ 2 ^ 32)
            (sym (padded-content m valid.fd)) (Unwrapped-room m small j lt))

    behind_returns : (rc : Rc) × (finish_tables (behind m valid few low) ≡ some rc)
    behind_returns =
        let m₁ = behind m valid few low in
        let (w, run) =
          write_slots_returns slots 0 (if ltb m₁.pos uint_max then 3 else 4) m₁ []
            (shift_of-IsStride m₁.pos) (behind-has_fd m valid few low) (behind-low m valid few low)
            (λ j lo hi. behind-Fits m valid few low j hi) (λ j lo hi. behind_room j hi) in
        let begin : header_sz ≤ m₁.pos = omega (arith, behind-pos m valid few low, valid.begins) in
        let fd = behind-has_fd m valid few low in
        let after = behind-low m valid few low in
        (outcome m₁ fd begin after w, finish_tables_run m₁ fd begin after w run)

    pub finish_comes_back : (rc : Rc) × (mcdb_make_finish m ≡ some rc)
    finish_comes_back = elim (finish-tables_or m valid few low) [
      | inl (m', e, gave) ↦ (give_up m' e, gave)
      | inr tables ↦ let (rc, run) = behind_returns in (rc, tables ∙ run)
    ]
