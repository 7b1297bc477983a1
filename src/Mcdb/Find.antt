-- ===== src/Mcdb/Find.antt =====
-- mcdb_findtagstart and mcdb_findtagnext: look a key up in the hash table of its slot.
use mcdb.Base.{
  ℕ, zero, suc, ◌+◌, ◌-◌, ◌*◌, ◌/◌, ◌%◌, ◌^◌, List, [], ◌∷◌, Bool, true, false, not, ◌&&◌, ◌||◌,
  u64, ltb,
}
use mcdb.Base.{◌==◌, if◌then◌else◌, length, bit_and}
use mcdb.Base.Memory.{Memory, load, same_bytes}
use mcdb.Plasma.{Plasma}
use mcdb.Uint32.{strunpack32, strunpack64}
use mcdb.Uint32.Hash.{hash_djb, hash_djb_uchar, hash_djb_init}
use mcdb.Mcdb.{HashFn, djb, custom, Mmap, Mcdb, slots, slot_bits}

-- The hash of a key behind its tag; tag 0 is no tag.
unfoldable pub key_hash_by : HashFn → ℕ → List ℕ → ℕ → ℕ
key_hash_by djb hash_init key tagc =
    hash_djb (if not (tagc == 0) then hash_djb_uchar hash_djb_init tagc else hash_djb_init) key
key_hash_by (custom f) hash_init key tagc =
    f (if not (tagc == 0) then f hash_init (tagc ∷ []) else hash_init) key

unfoldable pub key_hash : Mmap → List ℕ → ℕ → ℕ
unfolding key_hash_by
key_hash map key tagc = key_hash_by map.hash_fn map.hash_init key tagc

-- tagc != 0, as a number
abbrev pub tag_len : ℕ → ℕ
tag_len tagc = if tagc == 0 then 0 else 1

-- The tag and the key at `ptr`; a mismatch of the lengths has been seen before.
unfoldable pub key_matches : Memory → ℕ → List ℕ → ℕ → Bool
key_matches mem ptr key tagc =
    (tagc == 0 || tagc == mem ptr) && same_bytes key (load mem (ptr + tag_len tagc) (length key))

abbrev hslots_end : Mcdb → ℕ
hslots_end m = u64 (m.hpos + u64 (m.hslots * 2 ^ m.map.b))

-- The position behind the entry at `kpos`, in the table taken as a ring.
unfoldable pub next_kpos : Mcdb → ℕ → ℕ
next_kpos m stride =
    let kpos = u64 (m.kpos + stride) in if kpos == hslots_end m then m.hpos else kpos

-- What one round of a search loop does: leave it, go on, or return true.
pub data Round : Type 0 where
  stop : Mcdb → Round
  next : Mcdb → Round
  found : Mcdb → Round

module _ ⦃plasma : Plasma⦄ where
  -- `refreshed` is the map that mcdb_thread_refresh_self(m) leaves in `m->map`.
  unfoldable pub mcdb_findtagstart : Mcdb → Mmap → List ℕ → ℕ → Bool × Mcdb
  unfolding strunpack32 strunpack64 key_hash
  mcdb_findtagstart m refreshed key tagc =
      let khash = key_hash m.map key tagc in
      let ptr = bit_and khash (slots - 1) * 2 ^ 4 in
      let hpos = strunpack64 refreshed.mem ptr in
      let hslots = strunpack32 refreshed.mem (ptr + 8) in
      let m₁ = record m { map = refreshed; hpos = hpos; hslots = hslots; loop = 0 } in
      if hslots == 0 then (false, m₁) else (
        true,
        record m₁ {
          kpos = u64 (hpos + u64 (khash / 2 ^ slot_bits % hslots * 2 ^ refreshed.b));
          khash = khash;
        },
      )

  -- The body of the loop for 8-byte entries (data below 4 GB).
  unfoldable pub round_8 : Mcdb → List ℕ → ℕ → Round
  unfolding strunpack32 key_matches next_kpos
  round_8 m key tagc =
      let mem = m.map.mem in
      let khash = strunpack32 mem m.kpos in
      let vpos = strunpack32 mem (m.kpos + 4) in
      let klen = strunpack32 mem vpos in
      let m₁ = record m { kpos = next_kpos m 8 } in
      let m₂ = record m₁ { loop = m.loop + 1 } in
      let m₃ = record m₂ {
        klen = klen;
        dlen = strunpack32 mem (vpos + 4);
        dpos = u64 (vpos + 8 + klen);
      } in
      if vpos == 0
      then stop m₁
      else if not (khash == m.khash)
      then next m₂
      else if klen == length key + tag_len tagc && key_matches mem (vpos + 8) key tagc
      then found m₃
      else next m₃

  -- The body of the loop for 16-byte entries, which hold the key's length as well.
  unfoldable pub round_16 : Mcdb → List ℕ → ℕ → Round
  unfolding strunpack32 strunpack64 key_matches next_kpos
  round_16 m key tagc =
      let mem = m.map.mem in
      let khash = strunpack32 mem m.kpos in
      let klen = strunpack32 mem (m.kpos + 4) in
      let vpos = strunpack64 mem (m.kpos + 8) in
      let m₁ = record m { kpos = next_kpos m 16; klen = klen } in
      let m₂ = record m₁ { loop = m.loop + 1 } in
      let m₃ = record m₂ {
        dpos = u64 (vpos + 8 + klen);
        dlen = strunpack32 mem (u64 (vpos + 4));
      } in
      if vpos == 0
      then stop m₁
      else if not (khash == m.khash && klen == length key + tag_len tagc)
      then next m₂
      else if key_matches mem (u64 (vpos + 8)) key tagc
      then found m₃
      else next m₃

  unfoldable pub round : Mcdb → List ℕ → ℕ → Round
  unfolding round_8 round_16
  round m key tagc = if m.map.b == 3 then round_8 m key tagc else round_16 m key tagc

  -- The while loop; every round but the last counts `loop` up, so `hslots` rounds and one test
  -- are enough.
  unfoldable pub search_loop : ℕ → Mcdb → List ℕ → ℕ → Bool × Mcdb
  unfolding round
  search_loop zero m key tagc = (false, record m { loop = 0 })
  search_loop (suc fuel) m key tagc = elim (ltb m.loop m.hslots) [
    | false ↦ (false, record m { loop = 0 })
    | true ↦ elim (round m key tagc) [
      | stop m' ↦ (false, record m' { loop = 0 })
      | next m' ↦ search_loop fuel m' key tagc
      | found m' ↦ (true, m')
    ]
  ]

  unfoldable pub mcdb_findtagnext : Mcdb → List ℕ → ℕ → Bool × Mcdb
  unfolding search_loop
  mcdb_findtagnext m key tagc = search_loop (m.hslots + 1) m key tagc

  -- mcdb_find
  unfoldable pub mcdb_find : Mcdb → List ℕ → Bool × Mcdb
  unfolding mcdb_findtagstart mcdb_findtagnext
  mcdb_find m key =
      let (started, m₁) = mcdb_findtagstart m m.map key 0 in
      if started then mcdb_findtagnext m₁ key 0 else (false, m₁)
