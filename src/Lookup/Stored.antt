-- ===== src/Lookup/Stored.antt =====
-- A key and data that mcdb_make_add stored are found again.
use mcdb.Base.{
  ℕ, ◌+◌, ◌%◌, ◌^◌, ◌<◌, ◌≤◌, ◌≡◌, refl, sym, ◌∙◌, ap, ap₂, subst, List, [], ◌∷◌, ◌++◌, true,
}
use mcdb.Base.{◌==◌, Bool-cases, ==_iff, inl, inr, arith, length, none, some}
use mcdb.Base.Memory.{Memory, At, At-congr, At-load, load, same_bytes, same_bytes_refl}
use mathlib.Core.Bool.{false≢true}
use mcdb.Plasma.{Plasma, length-be32enc}
use mcdb.Uint32.{strunpack32, strunpack32-At}
use mcdb.Mcdb.{HashFn, Mmap, Mcdb, slots, run_hash, header_sz}
use mcdb.Mcdb.Open.{Sys, mcdb_mmap_init}
use mcdb.Mcdb.Find.{key_hash, key_matches}
use mcdb.Table.{select}
use mcdb.Table.Search.{select_take, select-append, none-ne-some}
use mcdb.Make.{Make, Hp}
use mcdb.Make.Add.{Rc, mcdb_make_add}
use mcdb.Make.Finish.{mcdb_make_finish, slot_hps}
use mcdb.Make.Valid.{IsMake}
use mcdb.Make.Finish.Done.{Unwrapped}
use mcdb.Make.Finish.Returns.{Unwrapped-Few}
use mcdb.Make.Added.{Same, Added, key_slot, new_hp}
use mcdb.Make.Added.Add.{add-cases}
use mcdb.Lookup.{hits}
use mcdb.Lookup.Search.{Follows}
use mcdb.Lookup.Finished.{slot_of, search, finish-search, finish_done, read_back}

module _ ⦃plasma : Plasma⦄ where
  open plasma use {be32enc}

  -- The writer has a record of `key` and `data'`: in the lists, and in the file behind its lengths.
  pub record Holds (m : Make) (key data' : List ℕ) : Type 0 where
    pub hp : Hp
    pub hash : hp.h ≡ run_hash m.hash_fn m.hash_init key
    pub len : hp.l ≡ length key
    pub small : length key < 2 ^ 31
    pub small_data : length data' < 2 ^ 32
    pub front : List Hp
    pub back : List Hp
    pub listed : slot_of m hp.h ≡ front ++ hp ∷ back
    pub begins : header_sz ≤ hp.p
    pub ends : hp.p + 8 + length key + length data' ≤ m.pos
    pub key_len : At m.file hp.p (be32enc (length key))
    pub data_len : At m.file (hp.p + 4) (be32enc (length data'))
    pub key_bytes : At m.file (hp.p + 8) key
    pub data_bytes : At m.file (hp.p + 8 + length key) data'

  -- A successful call of mcdb_make_add makes it so.
  Added-Holds :
      (m : Make) (key data' : List ℕ) (m' : Make)
      → IsMake m
      → Added m key data' m'
      → Holds m' key data'
  Added-Holds m key data' m' valid a = record {
    hp = new_hp m key;
    hash = ap₂ (λ (f : HashFn) (h : ℕ). run_hash f h key) (sym a.hash_fn) (sym a.hash_init);
    len = refl;
    small = omega (arith, a.small);
    small_data = omega (arith, a.small_data);
    front = a.front;
    back = a.back;
    listed = a.filed;
    begins = valid.begins;
    ends = omega (arith, a.pos);
    key_len = a.key_len;
    data_len = a.data_len;
    key_bytes = a.key_bytes;
    data_bytes = a.data_bytes;
  }

  -- The bytes of a record in another memory that agrees there.
  module _ (m : Make) (key data' : List ℕ) (h : Holds m key data') (mem : Memory)
      (same : (a : ℕ) → header_sz ≤ a → a < m.pos → mem a ≡ m.file a) where
    moved_At :
        (a : ℕ) (bytes : List ℕ)
        → h.hp.p ≤ a
        → a + length bytes ≤ m.pos
        → At m.file a bytes
        → At mem a bytes
    moved_At a bytes lo hi at =
        At-congr m.file mem a bytes (λ i p q. sym (same i (omega (arith, h.begins)) (omega arith)))
          at

    key_len_there : strunpack32 mem h.hp.p ≡ length key
    key_len_there = strunpack32-At mem h.hp.p (length key) (omega (arith, h.small)) (
        moved_At h.hp.p (be32enc (length key)) (omega arith)
          (omega (arith, length-be32enc (length key) (omega (arith, h.small)), h.ends)) h.key_len)

    data_len_there : strunpack32 mem (h.hp.p + 4) ≡ length data'
    data_len_there = strunpack32-At mem (h.hp.p + 4) (length data') h.small_data (
        moved_At (h.hp.p + 4) (be32enc (length data')) (omega arith)
          (omega (arith, length-be32enc (length data') h.small_data, h.ends)) h.data_len)

    data_there : load mem (h.hp.p + 8 + length key) (length data') ≡ data'
    data_there = At-load mem _ data' (
        moved_At (h.hp.p + 8 + length key) data' (omega arith) (omega (arith, h.ends)) h.data_bytes)

    key_there : load mem (h.hp.p + 8) (length key) ≡ key
    key_there =
        At-load mem _ key
          (moved_At (h.hp.p + 8) key (omega arith) (omega (arith, h.ends)) h.key_bytes)

    hits_there : hits mem h.hp.h key 0 h.hp ≡ true
    unfolding hits key_matches
    hits_there =
        let here : h.hp.p + 8 + 0 ≡ h.hp.p + 8 = omega arith in
        let equal : same_bytes key (load mem (h.hp.p + 8 + 0) (length key)) ≡ true =
          ap (λ (a : ℕ). same_bytes key (load mem a (length key))) here
          ∙ ap (same_bytes key) key_there
          ∙ same_bytes_refl key in
        ground (arith, key_len_there, equal)

  -- Let the writer's state be in order, hold a record of a key and data, need no table larger
  -- than 2 ^ 32 bytes (at most 2 ^ 27 records in a slot, or 2 ^ 28 where entries have 8 bytes)
  -- and stand below 2 ^ 62. When mcdb_make_finish returns 0, mcdb_mmap_init opens its file, and
  -- the reader hashes the key as the writer did, mcdb_findtagstart and mcdb_findtagnext with tag
  -- 0 give an answer for that record among theirs, and its data length and data stand where that
  -- answer points.
  pub stored-search :
      (m : Make) (r : Make) (sys : Sys) (read : Mmap) (q : Mcdb) (key data' : List ℕ)
      → IsMake m
      → Unwrapped m
      → m.pos < 2 ^ 62
      → (h : Holds m key data') → mcdb_make_finish m ≡ some (none, r)
      → mcdb_mmap_init sys r.file r.pos ≡ some read
      → key_hash q.map key 0 ≡ run_hash m.hash_fn m.hash_init key
      → (front : List Hp) × (back : List Hp) × Follows read key 0
          (front ++ h.hp ∷ back)
          (search q read key 0)
        × (h.hp.l ≡ length key)
        × (strunpack32 read.mem (h.hp.p + 4) ≡ length data')
        × (load read.mem (h.hp.p + 8 + length key) (length data') ≡ data')
  stored-search m r sys read q key data' valid small low h run opened hash =
      let done = finish_done m r valid (Unwrapped-Few m small) low run in
      let (mem, _) = read_back m r sys read low done opened in
      let same : (a : ℕ) → header_sz ≤ a → a < m.pos → read.mem a ≡ m.file a =
        λ a lo hi. ap (λ (mem : Memory). mem a) mem ∙ done.data_kept a lo hi in
      let wanted = hits read.mem h.hp.h key 0 in
      let hit = hits_there m key data' h read.mem same in
      let follows =
        finish-search m r sys read q key 0 h.hp.h valid small low run opened (hash ∙ sym h.hash) in
      (
        select wanted h.front,
        select wanted h.back,
        subst (λ (hps : List Hp). Follows read key 0 hps (search q read key 0))
            (ap (select wanted) h.listed
              ∙ select-append wanted h.front (h.hp ∷ h.back)
              ∙ ap (λ (hps : List Hp). select wanted h.front ++ hps)
                  (select_take wanted h.hp h.back hit))
            follows,
        h.len,
        data_len_there m key data' h read.mem same,
        data_there m key data' h read.mem same,
      )

  split_insert :
      (xs ys : List Hp) (y x : Hp) (front back : List Hp)
      → xs ++ ys ≡ front ++ x ∷ back
      → (front' : List Hp) × (back' : List Hp) × (xs ++ y ∷ ys ≡ front' ++ x ∷ back')
  split_insert [] ys y x front back e = (y ∷ front, back, ap (λ (t : List Hp). y ∷ t) e)
  split_insert (z ∷ zs) ys y x [] back e =
      let head : z ≡ x = cc in ([], zs ++ y ∷ ys, ap (λ (v : Hp). v ∷ zs ++ y ∷ ys) head)
  split_insert (z ∷ zs) ys y x (w ∷ front) back e =
      let head : z ≡ w = cc in
      let (front', back', rest) = split_insert zs ys y x front back (cc) in
      (w ∷ front', back', ap₂ (λ (v : Hp) (t : List Hp). v ∷ t) head rest)

  Same-Holds :
      (m m' : Make) (key data' : List ℕ) → Same m m' → Holds m key data' → Holds m' key data'
  Same-Holds m m' key data' same h =
      let moved = λ (a : ℕ) (bytes : List ℕ) (at : At m.file a bytes).
        subst (λ (mem : Memory). At mem a bytes) (sym same.file) at in
      record {
        hp = h.hp;
        hash =
            h.hash
            ∙ ap₂ (λ (f : HashFn) (i : ℕ). run_hash f i key) (sym same.hash_fn)
                (sym same.hash_init);
        len = h.len;
        small = h.small;
        small_data = h.small_data;
        front = h.front;
        back = h.back;
        listed = same.lists (h.hp.h % slots) ∙ h.listed;
        begins = h.begins;
        ends = omega (arith, h.ends, same.pos);
        key_len = moved _ _ h.key_len;
        data_len = moved _ _ h.data_len;
        key_bytes = moved _ _ h.key_bytes;
        data_bytes = moved _ _ h.data_bytes;
      }

  -- The lists keep their records when a record is added.
  still_listed :
      (m : Make) (k d : List ℕ) (m' : Make) (j : ℕ) (hp : Hp) (front back : List Hp)
      → Added m k d m'
      → slot_hps (m.head j).lists ≡ front ++ hp ∷ back
      → (front' : List Hp) × (back' : List Hp) × (slot_hps (m'.head j).lists ≡ front' ++ hp ∷ back')
  still_listed m k d m' j hp front back a listed = elim (Bool-cases (j == key_slot m k)) [
    | inl here ↦
        let i = (==_iff j (key_slot m k)).0 here in
        let (front', back', split) =
          split_insert a.front a.back (new_hp m k) hp front back
            (sym a.split ∙ ap (λ (j : ℕ). slot_hps (m.head j).lists) (sym i) ∙ listed) in
        (front', back', ap (λ (j : ℕ). slot_hps (m'.head j).lists) i ∙ a.filed ∙ split)
    | inr away ↦ (
      front,
      back,
      (a.others j (λ h. false≢true (sym away ∙ (==_iff j (key_slot m k)).1 h))).1 ∙ listed,
    )
  ]

  Added-Holds_before :
      (m : Make) (k d : List ℕ) (m' : Make) (key data' : List ℕ)
      → Added m k d m'
      → Holds m key data'
      → Holds m' key data'
  Added-Holds_before m k d m' key data' a h =
      let (front, back, listed) =
        still_listed m k d m' (h.hp.h % slots) h.hp h.front h.back a h.listed in
      let same : (i : ℕ) → header_sz ≤ i → i < m.pos → m'.file i ≡ m.file i =
        λ i lo hi. a.before i hi in
      let k4 = length-be32enc (length key) (omega (arith, h.small)) in
      let d4 = length-be32enc (length data') h.small_data in
      let moved = moved_At m key data' h m'.file same in
      record {
        hp = h.hp;
        hash =
            h.hash
            ∙ ap₂ (λ (f : HashFn) (i : ℕ). run_hash f i key) (sym a.hash_fn) (sym a.hash_init);
        len = h.len;
        small = h.small;
        small_data = h.small_data;
        front = front;
        back = back;
        listed = listed;
        begins = h.begins;
        ends = omega (arith, h.ends, a.pos);
        key_len = moved h.hp.p _ (omega arith) (omega (arith, k4, h.ends)) h.key_len;
        data_len = moved (h.hp.p + 4) _ (omega arith) (omega (arith, d4, h.ends)) h.data_len;
        key_bytes = moved (h.hp.p + 8) _ (omega arith) (omega (arith, h.ends)) h.key_bytes;
        data_bytes =
            moved (h.hp.p + 8 + length key) _ (omega arith) (omega (arith, h.ends)) h.data_bytes;
      }

  -- A record that the writer holds is still held after mcdb_make_add of another, whether that
  -- call succeeds or fails, for a writer with a file and room below 2 ^ 63.
  pub add-Holds :
      (m : Make) (k d key data' : List ℕ)
      → m.has_fd ≡ true
      → m.pos + 8 + length k + length d < 2 ^ 63
      → Holds m key data'
      → Holds (mcdb_make_add m k d).1 key data'
  add-Holds m k d key data' fd low h = elim (add-cases m k d fd low) [
    | inl (m', run, a) ↦
        subst (λ (r : Rc). Holds r.1 key data') (sym run)
          (Added-Holds_before m k d m' key data' a h)
    | inr (e, m', run, same) ↦
        subst (λ (r : Rc). Holds r.1 key data') (sym run) (Same-Holds m m' key data' same h)
  ]

  -- From a state in order, with room below 2 ^ 63, a call of mcdb_make_add that returns 0 leaves
  -- a writer that holds the record: its lengths, key and data in the file and an entry with its
  -- hash in the lists of its slot.
  pub add_ok-Holds :
      (m m' : Make) (key data' : List ℕ)
      → IsMake m
      → m.pos + 8 + length key + length data' < 2 ^ 63
      → mcdb_make_add m key data' ≡ (none, m')
      → Holds m' key data'
  add_ok-Holds m m' key data' valid low run = elim (add-cases m key data' valid.fd low) [
    | inl (m₁, ran, a) ↦
        subst (λ (m : Make). Holds m key data') (ap (λ (r : Rc). r.1) (sym ran ∙ run))
          (Added-Holds m key data' m₁ valid a)
    | inr (e, m₁, ran, same) ↦ absurd (none-ne-some (ap (λ (r : Rc). r.0) (sym run ∙ ran)))
  ]
