-- ===== src/Make/Added/Write.antt =====
-- The stores of mcdb_make_add, and the lists after it.
use mcdb.Base.{ℕ, ◌+◌, ◌-◌, ◌%◌, ◌^◌, ◌<◌, ◌≡◌, ◌≢◌, refl, List, [], ◌∷◌, ◌++◌}
use mcdb.Base.{u32, u64, arith, length}
use mcdb.Base.Bits.{bit_and_mask}
use mcdb.Base.Memory.{Memory, store}
use mcdb.Plasma.{Plasma}
use mathlib.Core.List.{append_assoc}
use mcdb.Mcdb.{slots, run_hash}
use mcdb.Make.{Make, Hp, HpSlot, update, poke}
use mcdb.Make.Hplist.{push_hp, mcdb_make_addend}
use mcdb.Make.Add.{write_lens, mcdb_make_addbuf_key, mcdb_make_addbuf_data}
use mcdb.Make.Finish.{slot_hps}

-- The new record goes behind those of the slot's newest list.
pub push_hp-slot_hps :
    (s : HpSlot) (hp : Hp)
    → (front : List Hp) × (back : List Hp) × (slot_hps s.lists ≡ front ++ back)
      × (slot_hps (push_hp s hp).lists ≡ front ++ hp ∷ back)
unfolding push_hp slot_hps
push_hp-slot_hps s hp = by_lists s.lists
  where
    by_lists :
        (ls : List (List Hp))
        → (front : List Hp) × (back : List Hp) × (slot_hps ls ≡ front ++ back)
          × (slot_hps (elim ls [ [] ↦ (hp ∷ []) ∷ [] | l ∷ ls ↦ (l ++ hp ∷ []) ∷ ls ])
              ≡ front ++ hp ∷ back)
    by_lists [] = ([], [], refl, refl)
    by_lists (l ∷ ls) = (l, slot_hps ls, refl, append_assoc l (hp ∷ []) (slot_hps ls))

pub addend-facts :
    (m : Make)
    → ((mcdb_make_addend m).file ≡ m.file)
      × ((mcdb_make_addend m).pos ≡ m.pos)
      × ((mcdb_make_addend m).has_fd ≡ m.has_fd)
      × ((mcdb_make_addend m).hash_init ≡ m.hash_init)
      × ((mcdb_make_addend m).hash_fn ≡ m.hash_fn)
      × ((mcdb_make_addend m).count
          ≡ update m.count (m.hp.h % slots) (u32 (m.count (m.hp.h % slots) + 1)))
      × ((mcdb_make_addend m).head
          ≡ update m.head (m.hp.h % slots) (push_hp (m.head (m.hp.h % slots)) m.hp))
unfolding mcdb_make_addend
addend-facts m = rw (bit_and_mask 8 m.hp.h) (ground arith)

pub u32_id : (a : ℕ) → a < 2 ^ 31 → u32 a ≡ a
u32_id a h = omega arith

pub u64_id : (a : ℕ) → a < 2 ^ 63 → u64 a ≡ a
u64_id a h = omega arith

module _ ⦃plasma : Plasma⦄ where
  open plasma use {be32enc}

  module _ (m : Make) (key data' : List ℕ) (small : length key < 2 ^ 31 - 8)
      (small' : length data' < 2 ^ 31 - 8)
      (low : m.pos + 8 + length key + length data' < 2 ^ 63) where
    abbrev pub stored : Make
    stored =
        mcdb_make_addbuf_data (mcdb_make_addbuf_key (write_lens m (length key) (length data')) key)
          data'

    abbrev pub lens_stored : Memory
    lens_stored =
        store (store m.file m.pos (be32enc (length key))) (m.pos + 4) (be32enc (length data'))

    abbrev pub key_stored : Memory
    key_stored = store lens_stored (m.pos + 8) key

    pub stored-file :
        stored.file ≡ store (store lens_stored (m.pos + 8) key) (m.pos + 8 + length key) data'
    unfolding write_lens mcdb_make_addbuf_data mcdb_make_addbuf_key poke
    stored-file = rw (
      u32_id (length key) (omega arith),
      u32_id (length data') (omega arith),
      u64_id (m.pos + 8) (omega arith),
      u64_id (m.pos + 8 + length key) (omega arith),
    )

    pub stored-pos : stored.pos ≡ m.pos + 8 + length key + length data'
    unfolding write_lens mcdb_make_addbuf_data mcdb_make_addbuf_key poke
    stored-pos = omega arith

    pub stored-hp : stored.hp ≡ record m.hp { h = run_hash m.hash_fn m.hp.h key }
    unfolding write_lens mcdb_make_addbuf_data mcdb_make_addbuf_key poke
    stored-hp = refl

    pub stored-rest :
        (stored.head ≡ m.head)
        × (stored.count ≡ m.count)
        × (stored.has_fd ≡ m.has_fd)
        × (stored.hash_init ≡ m.hash_init)
        × (stored.hash_fn ≡ m.hash_fn)
    unfolding write_lens mcdb_make_addbuf_data mcdb_make_addbuf_key poke
    stored-rest = (refl, refl, refl, refl, refl)

pub update_here {ℓ} : {A : Type ℓ} (f : ℕ → A) (i : ℕ) (v : A) → update f i v i ≡ v
update_here f i v = ground arith

pub update_away {ℓ} : {A : Type ℓ} (f : ℕ → A) (i j : ℕ) (v : A) → j ≢ i → update f i v j ≡ f j
update_away f i j v ne = ground arith
