-- ===== src/Make/Finish/Tables.antt =====
-- The loop of mcdb_make_finish over the slots: one table after the other, and the header's bytes.
use mcdb.Base.{ℕ, suc, ◌+◌, ◌-◌, ◌*◌, ◌^◌, ◌≤◌, ◌<◌, ◌≡◌, refl, sym, ◌∙◌, ap, subst, inl, inr}
use mcdb.Base.{
  List, [], ◌∷◌, ◌++◌, Bool, true, false, none, some, length, replicate, u32, u64, arith,
}
use mcdb.Base.{All, length-append}
use mcdb.Base.Memory.{Memory, At, At-store_self, store_outside}
use mcdb.Plasma.{Plasma, length-be32enc, length-be64enc}
use mcdb.Mcdb.{header_sz}
use mcdb.Table.{Slots, fill}
use mcdb.Table.Room.{fill_empty_exists}
use mcdb.Table.Search.{some_eq}
use mcdb.Make.{Make, Hp, HpSlot, poke}
use mcdb.Make.Add.{ensure_window}
use mcdb.Make.Keep.{Content, content, ensure_window-content}
use mcdb.Make.Finish.{Area, Written, insert_hps, slot_hps, header_entry, write_slots}
use mcdb.Make.Finish.Fill.{IsStride, IsEntry, Shows, insert_hps-zeroes}
use mcdb.Make.Finish.Around.{home, insert_hps_before}

-- What the loop relies on for slot `j`: the count is that of the records, which have entries.
pub record Fits (b : ℕ) (count : ℕ → ℕ) (head : ℕ → HpSlot) (j : ℕ) : Type 0 where
  pub counted : count j ≡ length (slot_hps (head j).lists)
  pub few : count j * 2 < 2 ^ 32
  pub entries : All (IsEntry b) (slot_hps (head j).lists)

module _ ⦃plasma : Plasma⦄ where
  open plasma use {be32enc, be64enc}

  -- A table of `len` slots for `hps` in `mem`, which entry `k` of the header `bytes` names. A table
  -- of more than 2 ^ 32 bytes need not show what it should: the places of its slots wrap.
  pub record Table (b : ℕ) (hps : List Hp) (len : ℕ) (mem : Memory) (bytes : List ℕ) (k : ℕ)
      : Type 0 where
    pub base : ℕ
    pub slots : Slots Hp
    pub begins : header_sz ≤ base
    pub ends : base + len * 2 ^ b < 2 ^ 63
    pub shows : len * 2 ^ b ≤ 2 ^ 32 → Shows (record { base = base; len = len; b = b }) mem slots
    pub filled : fill len (home len) hps (λ _. none) ≡ some slots
    pub named :
        (mem' : Memory) (a : ℕ) → At mem' a bytes → At mem' (a + k * 16) (header_entry base len)

  -- What the loop leaves when it did not break off: the tables of the slots from `i` on.
  pub record Laid (rounds i b : ℕ) (m : Make) (header : List ℕ) (w : Written) : Type 0 where
    pub bytes : List ℕ
    pub size : length bytes ≡ rounds * 16
    pub first : 0 < rounds → (len : ℕ) × (rest : List ℕ) × (bytes ≡ header_entry m.pos len ++ rest)
    pub appended : w.header ≡ header ++ bytes
    pub kept : content w.state ≡ record (content m) { file = w.state.file; pos = w.state.pos }
    pub grown : m.pos ≤ w.state.pos
    pub before : (a : ℕ) → a < m.pos → w.state.file a ≡ m.file a
    pub tables :
        (j : ℕ)
        → i ≤ j
        → j < i + rounds
        → Table b (slot_hps (m.head j).lists) (u32 (m.count j * 2)) w.state.file bytes (j - i)

  pub length-header_entry :
      (base len : ℕ) → base < 2 ^ 64 → len < 2 ^ 32 → length (header_entry base len) ≡ 16
  unfolding header_entry
  length-header_entry base len p q = omega (
    arith,
    length-append (be64enc base ++ be32enc len) (replicate 4 0),
    length-append (be64enc base) (be32enc len),
    length-be64enc base p,
    length-be32enc len q,
  )

  module _ (i b : ℕ) (m : Make) (header : List ℕ) where
    abbrev pub slot_len : ℕ
    slot_len = u32 (m.count i * 2)

    abbrev pub slot_area : Area
    slot_area = record { base = m.pos; len = slot_len; b = b }

    abbrev pub reach : Bool × Make
    reach = ensure_window m (u64 (m.pos + slot_len * 2 ^ b))

    -- The state with the table's slots empty.
    abbrev pub zeroed : Make
    zeroed = record (poke reach.1 m.pos (replicate (slot_len * 2 ^ b) 0)) {
      pos = u64 (m.pos + slot_len * 2 ^ b);
    }

    pub write_slots_stop :
        (rounds : ℕ)
        → reach.0 ≡ false
        → write_slots (suc rounds) i b m header
          ≡ some (record { whole = false; state = reach.1; header = header })
    unfolding write_slots
    write_slots_stop rounds o = rw (o, write_slots)

    pub write_slots_stuck :
        (rounds : ℕ)
        → reach.0 ≡ true
        → insert_hps zeroed slot_area (slot_hps (m.head i).lists) ≡ none
        → write_slots (suc rounds) i b m header ≡ none
    unfolding write_slots
    write_slots_stuck rounds o stuck = rw (o, stuck, write_slots)

    pub write_slots_step :
        (rounds : ℕ) (m₃ : Make)
        → reach.0 ≡ true
        → insert_hps zeroed slot_area (slot_hps (m.head i).lists) ≡ some m₃
        → write_slots (suc rounds) i b m header
          ≡ write_slots rounds (i + 1) b m₃ (header ++ header_entry m.pos slot_len)
    unfolding write_slots
    write_slots_step rounds m₃ o run = rw (o, run, write_slots)

  ring_filled :
      (len : ℕ) (hps : List Hp)
      → length hps * 2 ≡ len
      → (s : Slots Hp) × (fill len (home len) hps (λ _. none) ≡ some s)
  ring_filled len [] e = (λ _. none, unfold fill in refl)
  ring_filled len (hp ∷ hps) e =
      let slots_there : 0 < len = omega arith in
      fill_empty_exists len (home len) (λ e. omega (arith, slots_there)) (hp ∷ hps) (omega arith)

  table_filled :
      (m : Make) (t : Area) (hps : List Hp) (s : Slots Hp)
      → IsStride t.b
      → length hps * 2 ≡ t.len
      → t.len * 2 ^ t.b ≤ 2 ^ 32
      → All (IsEntry t.b) hps
      → At m.file t.base (replicate (t.len * 2 ^ t.b) 0)
      → fill t.len (home t.len) hps (λ _. none) ≡ some s
      → (m' : Make) × (insert_hps m t hps ≡ some m') × Shows t m'.file s
  table_filled m t [] s st len room es at filled =
      (m, unfold insert_hps in refl, λ u lt. absurd (omega arith))
  table_filled m t (hp ∷ hps) s st len room es at filled =
      insert_hps-zeroes m t (hp ∷ hps) s st (omega arith) room es at filled

  module _ (i b : ℕ) (m : Make) (header : List ℕ) where
    -- The first of the tables, in a state that the later rounds leave as it is in front of `pos`.
    pub record Step (m₃ : Make) : Type 0 where
      pub slots : Slots Hp
      pub shows :
          slot_len i b m header * 2 ^ b ≤ 2 ^ 32 → Shows (slot_area i b m header) m₃.file slots
      pub filled :
          fill
            (slot_len i b m header)
            (home (slot_len i b m header))
            (slot_hps (m.head i).lists)
            (λ _. none)
          ≡ some slots
      pub kept :
          content m₃
          ≡ record (content m) { file = m₃.file; pos = m.pos + slot_len i b m header * 2 ^ b }
      pub before : (a : ℕ) → a < m.pos → m₃.file a ≡ m.file a

    pub size-le : IsStride b → slot_len i b m header * 2 ^ b ≤ 2 ^ 36
    size-le (inl b3) = rw b3 (omega arith)
    size-le (inr b4) = rw b4 (omega arith)

    zeroed-At : At (zeroed i b m header).file m.pos (replicate (slot_len i b m header * 2 ^ b) 0)
    unfolding poke
    zeroed-At = At-store_self _ m.pos (replicate (slot_len i b m header * 2 ^ b) 0)

    zeroed-content :
        m.has_fd ≡ true
        → content (zeroed i b m header) ≡ record (content m) {
          file = (zeroed i b m header).file;
          pos = u64 (m.pos + slot_len i b m header * 2 ^ b);
        }
    unfolding poke
    zeroed-content fd =
        ap
          (λ (c : Content). record c {
            file = (zeroed i b m header).file;
            pos = u64 (m.pos + slot_len i b m header * 2 ^ b);
          })
          (ensure_window-content m (u64 (m.pos + slot_len i b m header * 2 ^ b)) fd)

    zeroed_before : m.has_fd ≡ true → (a : ℕ) → a < m.pos → (zeroed i b m header).file a ≡ m.file a
    unfolding poke
    zeroed_before fd a lt =
        store_outside _ m.pos a (replicate (slot_len i b m header * 2 ^ b) 0) (inl lt)
        ∙ ap (λ (c : Content). c.file a)
            (ensure_window-content m (u64 (m.pos + slot_len i b m header * 2 ^ b)) fd)

    records_counted :
        Fits b m.count m.head i → length (slot_hps (m.head i).lists) * 2 ≡ slot_len i b m header
    records_counted fits = omega (arith, fits.counted, fits.few)

    -- A table of at most 2 ^ 32 bytes is filled: no search for an empty slot runs forever.
    pub inserted :
        IsStride b
        → Fits b m.count m.head i
        → slot_len i b m header * 2 ^ b ≤ 2 ^ 32
        → (m₃ : Make) × (insert_hps
              (zeroed i b m header)
              (slot_area i b m header)
              (slot_hps (m.head i).lists)
            ≡ some m₃)
    inserted st fits room =
        let hps = slot_hps (m.head i).lists in
        let (s, filled) = ring_filled (slot_len i b m header) hps (records_counted fits) in
        let (m₃, run, _) =
          table_filled (zeroed i b m header) (slot_area i b m header) hps s st
            (records_counted fits) room fits.entries zeroed-At filled in
        (m₃, run)

    -- What a run that comes back leaves, whether the places of the slots wrap or not.
    pub step :
        (m₃ : Make)
        → IsStride b
        → m.has_fd ≡ true
        → m.pos + 2 ^ 36 < 2 ^ 63
        → Fits b m.count m.head i
        → insert_hps (zeroed i b m header) (slot_area i b m header) (slot_hps (m.head i).lists)
          ≡ some m₃
        → Step m₃
    step m₃ st fd low fits run =
        let z = zeroed i b m header in
        let t = slot_area i b m header in
        let hps = slot_hps (m.head i).lists in
        let (s, filled) = ring_filled t.len hps (records_counted fits) in
        let (kept, before) = insert_hps_before z t hps m₃ st fits.entries run in
        let fits_64 : u64 (m.pos + t.len * 2 ^ b) ≡ m.pos + t.len * 2 ^ b =
          omega (arith, size-le st) in
        record {
          slots = s;
          shows = λ room.
              let (m', ran, shows) =
                table_filled z t hps s st (records_counted fits) room fits.entries zeroed-At
                  filled in
              subst (λ (m : Make). Shows t m.file s) (some_eq (sym ran ∙ run)) shows;
          filled = filled;
          kept =
              kept
              ∙ ap (λ (c : Content). record c { file = m₃.file }) (zeroed-content fd)
              ∙ ap (λ (p : ℕ). record (content m) { file = m₃.file; pos = p }) fits_64;
          before = λ a lt. before a lt ∙ zeroed_before fd a lt;
        }
