-- ===== src/Make/Added.antt =====
-- What mcdb_make_add does to the file and the lists.
pub mod Begin
pub mod Write
pub mod Add
pub mod Keeps
use mcdb.Base.{
  ℕ, ◌+◌, ◌-◌, ◌^◌, ◌%◌, ◌<◌, ◌≡◌, ◌≢◌, refl, List, Bool, ◌==◌, if◌then◌else◌, length, u32, ◌++◌,
  [], ◌∷◌,
}
use mcdb.Base.Memory.{Memory, At}
use mcdb.Plasma.{Plasma}
use mcdb.Mcdb.{slots, run_hash}
use mcdb.Make.{Make, Hp, update}
use mcdb.Make.Finish.{slot_hps}

-- Two states with the same file and the same records, up to lists without records.
pub record Same (m m' : Make) : Type 0 where
  pub pos : m'.pos ≡ m.pos
  pub file : m'.file ≡ m.file
  pub fd : m'.has_fd ≡ m.has_fd
  pub hash_init : m'.hash_init ≡ m.hash_init
  pub hash_fn : m'.hash_fn ≡ m.hash_fn
  pub count : m'.count ≡ m.count
  pub lists : (j : ℕ) → slot_hps (m'.head j).lists ≡ slot_hps (m.head j).lists

module _ ⦃plasma : Plasma⦄ where
  open plasma use {be32enc}

  abbrev pub key_slot : Make → List ℕ → ℕ
  key_slot m key = run_hash m.hash_fn m.hash_init key % slots

  -- The record of `key` that begins at the end of the data.
  abbrev pub new_hp : Make → List ℕ → Hp
  new_hp m key = record { p = m.pos; h = run_hash m.hash_fn m.hash_init key; l = length key }

  -- `m'` is `m` with the record behind its data and an entry for it in the slot of its hash.
  pub record Added (m : Make) (key data' : List ℕ) (m' : Make) : Type 0 where
    pub small : length key < 2 ^ 31 - 8
    pub small_data : length data' < 2 ^ 31 - 8
    pub pos : m'.pos ≡ m.pos + 8 + length key + length data'
    pub key_len : At m'.file m.pos (be32enc (length key))
    pub data_len : At m'.file (m.pos + 4) (be32enc (length data'))
    pub key_bytes : At m'.file (m.pos + 8) key
    pub data_bytes : At m'.file (m.pos + 8 + length key) data'
    pub before : (a : ℕ) → a < m.pos → m'.file a ≡ m.file a
    pub fd : m'.has_fd ≡ m.has_fd
    pub hash_init : m'.hash_init ≡ m.hash_init
    pub hash_fn : m'.hash_fn ≡ m.hash_fn
    pub counted : m'.count (key_slot m key) ≡ u32 (m.count (key_slot m key) + 1)
    pub front : List Hp
    pub back : List Hp
    pub split : slot_hps (m.head (key_slot m key)).lists ≡ front ++ back
    pub filed : slot_hps (m'.head (key_slot m key)).lists ≡ front ++ new_hp m key ∷ back
    pub others :
        (j : ℕ)
        → j ≢ key_slot m key
        → (m'.count j ≡ m.count j) × (slot_hps (m'.head j).lists ≡ slot_hps (m.head j).lists)
