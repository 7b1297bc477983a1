-- ===== src/Lookup/Finished.antt =====
-- Lookups in the file that mcdb_make_finish leaves.
use mcdb.Base.{ℕ, ◌+◌, ◌*◌, ◌/◌, ◌%◌, ◌^◌, ◌≤◌, ◌<◌, ◌≡◌, refl, sym, ◌∙◌, ap, subst, inl, inr}
use mcdb.Base.{
  List, [], ◌∷◌, ◌++◌, Bool, true, false, none, some, ◌==◌, ◌&&◌, if◌then◌else◌, length, u32, arith,
  replicate,
}
use mcdb.Base.{Bool-cases}
use mcdb.Base.Memory.{Memory, At, append-At}
use mcdb.Plasma.{Plasma, be_bytes, length-be64enc}
use mcdb.Uint32.{strunpack32, strunpack64, strunpack32_congr, strunpack32-At, strunpack64-At}
use mcdb.Mcdb.{Mmap, Mcdb, slots, slot_bits}
use mcdb.Mcdb.Open.{Sys, entry_shift, mcdb_mmap_init}
use mcdb.Mcdb.Find.{key_hash, mcdb_findtagstart, mcdb_findtagnext}
use mcdb.Table.{select}
use mcdb.Table.Search.{select-nil, select-fill_empty, none-ne-some}
use mcdb.Table.Entries.{fill-Every}
use mcdb.Make.{Make, Hp}
use mcdb.Make.Add.{Rc}
use mcdb.Make.Finish.{is_zero, header_entry, slot_hps, padding, mcdb_make_finish}
use mcdb.Make.Valid.{IsRecord, IsMake, Few}
use mcdb.Make.Finish.Around.{home}
use mcdb.Make.Finish.Tables.{Table}
use mcdb.Make.Finish.Fill.{IsStride, Shows}
use mcdb.Lookup.{Searched, IsSearched, hits}
use mcdb.Lookup.Search.{Named, Follows, findtag-chain, start_none, hits-hash}
use mcdb.Make.Finish.Done.{
  Finished, Unwrapped, shift_of, shift_of-IsStride, padding_mod, finish-Finished,
}
use mcdb.Make.Finish.Returns.{Unwrapped-Few, Unwrapped-room, finish_comes_back}

module _ ⦃plasma : Plasma⦄ where
  open plasma use {be32enc, be64enc, be64enc_lem}

  top_bytes :
      (pos : ℕ)
      → pos < 2 ^ 64
      → ((pos / 256 ^ 7 % 256 == 0)
          && ((pos / 256 ^ 6 % 256 == 0)
              && ((pos / 256 ^ 5 % 256 == 0) && ((pos / 256 ^ 4 % 256 == 0) && true))))
        ≡ (pos / 2 ^ 32 == 0)
  top_bytes pos low = ground arith

  is_zero-be64enc :
      (mem : Memory) (pos : ℕ)
      → pos < 2 ^ 64
      → At mem 0 (be64enc pos)
      → is_zero mem 0 4 ≡ (pos / 2 ^ 32 == 0)
  unfolding is_zero
  is_zero-be64enc mem pos low at =
      let there : At mem 0 (be_bytes 8 pos) =
        subst (λ (bytes : List ℕ). At mem 0 bytes) (be64enc_lem pos low) at in
      rw (there.0, there.1.0, there.1.1.0, there.1.1.1.0) (top_bytes pos low)

  -- From the first header entry, which holds the padded end of the data, and a file at least that
  -- long, mcdb_mmap_init takes the size of table entries that mcdb_make_finish chose, for data
  -- that end below 2 ^ 63.
  pub entry_shift-finish :
      (mem : Memory) (size pos : ℕ)
      → pos + padding pos < 2 ^ 63
      → pos + padding pos ≤ size
      → At mem 0 (be64enc (pos + padding pos))
      → entry_shift mem size ≡ shift_of pos
  unfolding entry_shift
  entry_shift-finish mem size pos low le at =
      rw (is_zero-be64enc mem (pos + padding pos) (omega arith) at)
        (ground (arith, padding_mod pos))

  -- The table of slot `j` as a search reads it.
  module _ (m : Make) (valid : IsMake m) (small : Unwrapped m) (low : m.pos < 2 ^ 62) (r : Make)
      (done : Finished (shift_of m.pos) (m.pos + padding m.pos) m r) where
    module _ (read : Mmap) (mem : read.mem ≡ r.file) (shift : read.b ≡ shift_of m.pos) (j : ℕ)
        (j-lt : j < slots) where
      abbrev len : ℕ
      len = u32 (m.count j * 2)

      abbrev table : Table (shift_of m.pos) (slot_hps (m.head j).lists) len r.file done.header j
      table = done.tables j j-lt

      abbrev searched : Searched
      searched = record { map = read; base = table.base; len = len; entries = table.slots }

      -- A record that `finish` found in the lists, in the file it left.
      record_there :
          (hp : Hp)
          → IsRecord m.file m.pos j hp
          → (hp.p < 2 ^ 63) × (strunpack32 read.mem hp.p ≡ hp.l)
      record_there hp rec = (
        omega (arith, rec.ends),
        ap (λ (mem : Memory). strunpack32 mem hp.p) mem
            ∙ strunpack32_congr r.file m.file hp.p
                (λ i lo hi. done.data_kept i (omega (arith, rec.begins)) (omega (arith, rec.ends)))
            ∙ rec.lens,
      )

      searched-IsSearched : IsSearched searched
      searched-IsSearched = record {
        stride = subst IsStride (sym shift) (shift_of-IsStride (m.pos + padding m.pos));
        shows =
            subst
              (λ (b : ℕ).
                Shows (record { base = table.base; len = len; b = b }) read.mem table.slots)
              (sym shift)
              (subst
                (λ (mem : Memory).
                  Shows (record { base = table.base; len = len; b = shift_of m.pos }) mem
                    table.slots)
                (sym mem) (table.shows (Unwrapped-room m small j j-lt)));
        ends = subst (λ (b : ℕ). table.base + len * 2 ^ b < 2 ^ 63) (sym shift) table.ends;
        lens = λ u hp o. record_there hp (
            fill-Every (IsRecord m.file m.pos j) len (home len) (slot_hps (m.head j).lists)
              (λ _. none) table.slots (valid.records j j-lt) (λ u x h. absurd (none-ne-some h))
              table.filled u hp o);
      }

      -- The header's entry for the slot, read from the file.
      header_read :
          (strunpack64 read.mem (j * 16) ≡ table.base) × (strunpack32 read.mem (j * 16 + 8) ≡ len)
      unfolding header_entry
      header_read =
          let there = table.named r.file 0 done.on_top in
          let (fields, _) =
            append-At r.file (0 + j * 16) (be64enc table.base ++ be32enc len) (replicate 4 0)
              there in
          let (hpos, hslots) =
            append-At r.file (0 + j * 16) (be64enc table.base) (be32enc len) fields in
          let at_8 : 0 + j * 16 + length (be64enc table.base) ≡ j * 16 + 8 =
            omega (arith, length-be64enc table.base (omega (arith, table.ends))) in
          (
            ap (λ (mem : Memory). strunpack64 mem (j * 16)) mem
                ∙ strunpack64-At r.file (j * 16) table.base (omega (arith, table.ends))
                    (subst (λ (a : ℕ). At r.file a (be64enc table.base)) (omega arith) hpos),
            ap (λ (mem : Memory). strunpack32 mem (j * 16 + 8)) mem
                ∙ strunpack32-At r.file (j * 16 + 8) len (omega arith)
                    (subst (λ (a : ℕ). At r.file a (be32enc len)) at_8 hslots),
          )

      searched-Named : (khash : ℕ) → khash % slots ≡ j → Named searched khash
      searched-Named khash slot = record {
        hpos = ap (λ (i : ℕ). strunpack64 read.mem (i * 16)) slot ∙ header_read.0;
        hslots = ap (λ (i : ℕ). strunpack32 read.mem (i * 16 + 8)) slot ∙ header_read.1;
      }

    module _ (read : Mmap) (mem : read.mem ≡ r.file) (shift : read.b ≡ shift_of m.pos) (q : Mcdb)
        (key : List ℕ) (tagc khash : ℕ) (hash : key_hash q.map key tagc ≡ khash) where
      abbrev j : ℕ
      j = khash % slots

      abbrev in_slot : List Hp
      in_slot = slot_hps (m.head j).lists

      abbrev started : Bool × Mcdb
      started = mcdb_findtagstart q read key tagc

      -- The search as the callers write it: `mcdb_findtagstart(…) && mcdb_findtagnext(…)`.
      abbrev answer : Bool × Mcdb
      answer = if started.0 then mcdb_findtagnext started.1 key tagc else started

      in_empty : (hps : List Hp) → length hps ≡ 0 → hps ≡ []
      in_empty [] e = refl
      in_empty (hp ∷ hps) e = absurd (omega arith)

      finish_lookup_none :
          u32 (m.count j * 2) ≡ 0
          → Follows read key tagc (select (hits read.mem khash key tagc) in_slot) answer
      finish_lookup_none empty =
          let counted : length in_slot ≡ 0 =
            omega (
              arith,
              valid.counted j (omega arith),
              Unwrapped-Few m small j (omega arith),
              empty,
            ) in
          let not_started : started.0 ≡ false =
            start_none q read key tagc khash hash
              ((header_read read mem shift j (omega arith)).1 ∙ empty) in
          subst (λ (hps : List Hp). Follows read key tagc hps answer)
            (sym (
              ap (select (hits read.mem khash key tagc)) (in_empty in_slot counted)
              ∙ select-nil (hits read.mem khash key tagc)))
            (ap (λ (t : Bool). (if t then mcdb_findtagnext started.1 key tagc else started).0)
                not_started
              ∙ not_started)

      finish_lookup_some :
          0 < u32 (m.count j * 2)
          → Follows read key tagc (select (hits read.mem khash key tagc) in_slot) answer
      finish_lookup_some pos =
          let c = searched read mem shift j (omega arith) in
          let t = table read mem shift j (omega arith) in
          let wanted = hits read.mem khash key tagc in
          let (begun, follows) =
            findtag-chain c (searched-IsSearched read mem shift j (omega arith)) q key tagc khash
              hash pos (searched-Named read mem shift j (omega arith) khash refl) in
          let met =
            select-fill_empty c.len (home c.len) wanted (khash / 2 ^ slot_bits % c.len)
              (omega arith)
              (λ hp hit.
                ap (λ (h : ℕ). h / 2 ^ slot_bits % c.len)
                  (hits-hash read.mem khash key tagc hp hit))
              in_slot t.slots t.filled in
          subst (λ (hps : List Hp). Follows read key tagc hps answer) met
            (subst (Follows read key tagc _)
              (ap (λ (t : Bool). if t then mcdb_findtagnext started.1 key tagc else started)
                (sym begun))
              follows)

      pub finish_lookup :
          Follows read key tagc (select (hits read.mem khash key tagc) in_slot) answer
      finish_lookup = elim (Bool-cases (u32 (m.count j * 2) == 0)) [
        | inl e ↦ finish_lookup_none (ground arith)
        | inr e ↦ finish_lookup_some (ground arith)
      ]

  opened-map :
      (sys : Sys) (mem : Memory) (size : ℕ) (read : Mmap)
      → mcdb_mmap_init sys mem size ≡ some read
      → (read.mem ≡ mem) × (read.b ≡ entry_shift mem size)
  unfolding mcdb_mmap_init
  opened-map sys mem size read h = ground arith

  -- A search as the callers write it: `mcdb_findtagstart(…) && mcdb_findtagnext(…)`, where `read` is
  -- the map after the refresh.
  abbrev pub search : Mcdb → Mmap → List ℕ → ℕ → Bool × Mcdb
  search q read key tagc =
      let started = mcdb_findtagstart q read key tagc in
      if started.0 then mcdb_findtagnext started.1 key tagc else started

  -- The records in the slot of a hash, in the order in which finish puts them.
  abbrev pub slot_of : Make → ℕ → List Hp
  slot_of m khash = slot_hps (m.head (khash % slots)).lists

  -- mcdb_make_finish comes back from a state in order with no table larger than 2 ^ 32 bytes (at
  -- most 2 ^ 27 records in a slot, or 2 ^ 28 where entries have 8 bytes) and `pos` below 2 ^ 62:
  -- no search for an empty slot uses up its fuel, whatever calls of the system fail.
  pub finish_returns :
      (m : Make)
      → IsMake m
      → Unwrapped m
      → m.pos < 2 ^ 62
      → (rc : Rc) × (mcdb_make_finish m ≡ some rc)
  finish_returns m valid small low = finish_comes_back m valid small low

  pub finish_done :
      (m : Make) (r : Make)
      → IsMake m
      → Few m
      → m.pos < 2 ^ 62
      → mcdb_make_finish m ≡ some (none, r)
      → Finished (shift_of m.pos) (m.pos + padding m.pos) m r
  finish_done m r valid few low run = finish-Finished m valid few low (none, r) run refl

  pub read_back :
      (m : Make) (r : Make) (sys : Sys) (read : Mmap)
      → m.pos < 2 ^ 62
      → Finished (shift_of m.pos) (m.pos + padding m.pos) m r
      → mcdb_mmap_init sys r.file r.pos ≡ some read
      → (read.mem ≡ r.file) × (read.b ≡ shift_of m.pos)
  read_back m r sys read low done opened =
      let (mem, shift) = opened-map sys r.file r.pos read opened in
      (
        mem,
        shift
            ∙ entry_shift-finish r.file r.pos m.pos (omega (arith, padding_mod m.pos)) done.behind
                done.first,
      )

  -- Let the writer's state be in order, with no table larger than 2 ^ 32 bytes (at most 2 ^ 27
  -- records in a slot, or 2 ^ 28 where entries have 8 bytes) and `pos` below 2 ^ 62. When
  -- mcdb_make_finish returns 0 and mcdb_mmap_init opens its file, a search for a key and a tag
  -- answers true once for each record in the slot that has the hash, the tag and the key, in the
  -- order of the slot's lists, with its lengths and position, and then false.
  pub finish-search :
      (m : Make) (r : Make) (sys : Sys) (read : Mmap) (q : Mcdb) (key : List ℕ) (tagc khash : ℕ)
      → IsMake m
      → Unwrapped m
      → m.pos < 2 ^ 62
      → mcdb_make_finish m ≡ some (none, r)
      → mcdb_mmap_init sys r.file r.pos ≡ some read
      → key_hash q.map key tagc ≡ khash
      → Follows read key tagc
          (select (hits read.mem khash key tagc) (slot_of m khash))
          (search q read key tagc)
  finish-search m r sys read q key tagc khash valid small low run opened hash =
      let done = finish_done m r valid (Unwrapped-Few m small) low run in
      let (mem, shift) = read_back m r sys read low done opened in
      finish_lookup m valid small low r done read mem shift q key tagc khash hash
