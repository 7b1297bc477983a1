-- ===== src/Lookup/Sequence.antt =====
-- The records of a file one after another, as the writer (mcdb_make.c) lays them and mcdb_iter of
-- mcdb.c visits them.
pub mod Written
use mcdb.Base.{
  ℕ, ◌+◌, ◌-◌, ◌^◌, ◌≤◌, ◌<◌, ◌≡◌, refl, sym, ◌∙◌, ap, subst, List, [], ◌∷◌, ◌++◌, Bool, true,
  false, length, u32, u64, ltb, ◌==◌, not, if◌then◌else◌, arith, none, inl, inr, Bool-cases,
}
use mcdb.Base.Memory.{Memory, At, At-congr, At-load, load}
use mathlib.Core.Bool.{false≢true}
use mcdb.Plasma.{Plasma, length-be32enc}
use mcdb.Uint32.{strunpack32, strunpack32-At}
use mcdb.Mcdb.{Mmap, Mcdb, header_sz, uint_max}
use mcdb.Mcdb.Iter.{McdbIter, mcdb_iter, iter_keyptr, iter_dataptr}
use mcdb.Make.{Make}
use mcdb.Make.Add.{Rc, mcdb_make_add}
use mcdb.Make.Added.{Same, Added}
use mcdb.Make.Added.Add.{add-cases}
use mcdb.Table.Search.{none-ne-some}
use mcdb.Lookup.Walk.{Gives, Walks}

abbrev pub after_record : ℕ → List ℕ → List ℕ → ℕ
after_record a key value = a + 8 + length key + length value

module _ ⦃plasma : Plasma⦄ where
  open plasma use {be32enc, be32enc_lem}

  -- A record stands at `a`: two lengths, the key and its value.
  pub record RecordAt (mem : Memory) (a : ℕ) (key value : List ℕ) : Type 0 where
    pub small : length key < 2 ^ 31 - 8
    pub small_value : length value < 2 ^ 31 - 8
    pub key_len : At mem a (be32enc (length key))
    pub value_len : At mem (a + 4) (be32enc (length value))
    pub key_bytes : At mem (a + 8) key
    pub value_bytes : At mem (a + 8 + length key) value

  -- From `a` to `e` stand these records and nothing else.
  abbrev pub Sequence : Memory → ℕ → ℕ → List (List ℕ × List ℕ) → Type 0
  Sequence mem a e [] = a ≡ e
  Sequence mem a e ((key, value) ∷ rs) =
      RecordAt mem a key value × Sequence mem (after_record a key value) e rs

  Sequence-le : (mem : Memory) (a e : ℕ) (rs : List (List ℕ × List ℕ)) → Sequence mem a e rs → a ≤ e
  Sequence-le mem a e [] s = omega arith
  Sequence-le mem a e ((key, value) ∷ rs) (r, s) =
      omega (arith, Sequence-le mem (after_record a key value) e rs s)

  RecordAt-congr :
      (mem mem' : Memory) (a : ℕ) (key value : List ℕ)
      → ((i : ℕ) → a ≤ i → i < after_record a key value → mem i ≡ mem' i)
      → RecordAt mem a key value
      → RecordAt mem' a key value
  RecordAt-congr mem mem' a key value same r =
      let k4 = length-be32enc (length key) (omega (arith, r.small)) in
      let v4 = length-be32enc (length value) (omega (arith, r.small_value)) in
      let moved =
        λ (b : ℕ) (bytes : List ℕ) (lo : a ≤ b) (hi : b + length bytes ≤ after_record a key value)
            (at : At mem b bytes).
          At-congr mem mem' b bytes (λ i p q. same i (omega arith) (omega arith)) at in
      record {
        small = r.small;
        small_value = r.small_value;
        key_len = moved a _ (omega arith) (omega (arith, k4)) r.key_len;
        value_len = moved (a + 4) _ (omega arith) (omega (arith, v4)) r.value_len;
        key_bytes = moved (a + 8) _ (omega arith) (omega arith) r.key_bytes;
        value_bytes = moved (a + 8 + length key) _ (omega arith) (omega arith) r.value_bytes;
      }

  Sequence-congr :
      (mem mem' : Memory) (a e : ℕ) (rs : List (List ℕ × List ℕ))
      → ((i : ℕ) → a ≤ i → i < e → mem i ≡ mem' i)
      → Sequence mem a e rs
      → Sequence mem' a e rs
  Sequence-congr mem mem' a e [] same s = s
  Sequence-congr mem mem' a e ((key, value) ∷ rs) same (r, s) =
      let le = Sequence-le mem (after_record a key value) e rs s in
      (
        RecordAt-congr mem mem' a key value (λ i lo hi. same i lo (omega arith)) r,
        Sequence-congr mem mem' (after_record a key value) e rs (λ i lo hi. same i (omega arith) hi)
            s,
      )

  Sequence-append :
      (mem : Memory) (a e : ℕ) (rs : List (List ℕ × List ℕ)) (key value : List ℕ)
      → Sequence mem a e rs
      → RecordAt mem e key value
      → Sequence mem a (after_record e key value) (rs ++ (key, value) ∷ [])
  Sequence-append mem a e [] key value s r = (
    subst (λ (p : ℕ). RecordAt mem p key value) (sym s) r,
    ap (λ (p : ℕ). after_record p key value) s,
  )
  Sequence-append mem a e ((k, v) ∷ rs) key value (r₀, s) r =
      (r₀, Sequence-append mem (after_record a k v) e rs key value s r)

  -- The writer's file holds these records behind the header, up to `pos`.
  abbrev pub Lies : Make → List (List ℕ × List ℕ) → Type 0
  Lies m rs = Sequence m.file header_sz m.pos rs

  Added-Lies :
      (m m' : Make) (key value : List ℕ) (rs : List (List ℕ × List ℕ))
      → Added m key value m'
      → Lies m rs
      → Lies m' (rs ++ (key, value) ∷ [])
  Added-Lies m m' key value rs a s =
      subst (λ (e : ℕ). Sequence m'.file header_sz e (rs ++ (key, value) ∷ [])) (sym a.pos)
        (Sequence-append m'.file header_sz m.pos rs key value
          (Sequence-congr m.file m'.file header_sz m.pos rs (λ i lo hi. sym (a.before i hi)) s)
          (record {
            small = a.small;
            small_value = a.small_data;
            key_len = a.key_len;
            value_len = a.data_len;
            key_bytes = a.key_bytes;
            value_bytes = a.data_bytes;
          }))

  -- A call of mcdb_iter at a record, below the end of the data.
  iter_step :
      (iter : McdbIter) (a : ℕ) (key value : List ℕ)
      → iter.ptr ≡ a
      → after_record a key value ≤ iter.eod + 7
      → after_record a key value < 2 ^ 63
      → RecordAt iter.map.mem a key value
      → mcdb_iter iter ≡ (
        true,
        record iter { klen = length key; dlen = length value; ptr = after_record a key value },
      )
  unfolding mcdb_iter
  iter_step iter a key value at le low r =
      let k : strunpack32 iter.map.mem iter.ptr ≡ length key =
        ap (λ (p : ℕ). strunpack32 iter.map.mem p) at
        ∙ strunpack32-At iter.map.mem a (length key) (omega (arith, r.small)) r.key_len in
      let d : strunpack32 iter.map.mem (iter.ptr + 4) ≡ length value =
        ap (λ (p : ℕ). strunpack32 iter.map.mem (p + 4)) at
        ∙ strunpack32-At iter.map.mem (a + 4) (length value) (omega (arith, r.small_value))
            r.value_len in
      ground (arith, k, d, r.small, r.small_value)

  iter_ends :
      (iter : McdbIter) (e base : ℕ)
      → iter.ptr ≡ e
      → iter.eod ≡ base - 7
      → ((i : ℕ) → e ≤ i → i < base → iter.map.mem i ≡ 0xff)
      → (mcdb_iter iter).0 ≡ false
  unfolding mcdb_iter
  iter_ends iter e base at eod ones = elim (Bool-cases (ltb iter.ptr iter.eod)) [
    | inr past ↦ rw past refl
    | inl before ↦
        let filled : strunpack32 iter.map.mem iter.ptr ≡ uint_max =
          strunpack32-At iter.map.mem iter.ptr uint_max (omega arith) (
            subst (λ (bytes : List ℕ). At iter.map.mem iter.ptr bytes)
              (sym (be32enc_lem uint_max (omega arith)))
              (
                ones iter.ptr (omega arith) (ground arith),
                (
                  ones (iter.ptr + 1) (omega arith) (ground arith),
                  (
                    ones (iter.ptr + 1 + 1) (omega arith) (ground arith),
                    (ones (iter.ptr + 1 + 1 + 1) (omega arith) (ground arith), tt),
                  ),
                ),
              )) in
        ground (arith, filled)
  ]

  -- An iterator over a sequence with ones from its end to `base` visits just its records.
  pub Sequence-Walks :
      (iter : McdbIter) (a e base : ℕ) (rs : List (List ℕ × List ℕ))
      → iter.ptr ≡ a
      → iter.eod ≡ base - 7
      → e ≤ base
      → base < 2 ^ 63
      → Sequence iter.map.mem a e rs
      → ((i : ℕ) → e ≤ i → i < base → iter.map.mem i ≡ 0xff)
      → Walks iter rs
  Sequence-Walks iter a e base [] at eod le low s ones = iter_ends iter e base (at ∙ s) eod ones
  Sequence-Walks iter a e base ((key, value) ∷ rs) at eod le low (r, s) ones =
      let rest = Sequence-le iter.map.mem (after_record a key value) e rs s in
      let run = iter_step iter a key value at (omega (arith, eod)) (omega arith) r in
      let it = record iter {
        klen = length key;
        dlen = length value;
        ptr = after_record a key value;
      } in
      let onward = Sequence-Walks it (after_record a key value) e base rs refl eod le low s ones in
      let key_at : after_record a key value - length value - length key ≡ a + 8 = omega arith in
      let value_at : after_record a key value - length value ≡ a + 8 + length key = omega arith in
      (
        subst (Gives key value) (sym run) (
          refl,
          ap (λ (p : ℕ). load iter.map.mem p (length key)) key_at
              ∙ At-load iter.map.mem (a + 8) key r.key_bytes,
          ap (λ (p : ℕ). load iter.map.mem p (length value)) value_at
              ∙ At-load iter.map.mem (a + 8 + length key) value r.value_bytes,
          omega (arith, r.small),
          omega (arith, r.small_value),
        ),
        subst (λ (r : Bool × McdbIter). Walks r.1 rs) (sym run) onward,
      )
