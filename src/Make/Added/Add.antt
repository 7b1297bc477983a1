-- ===== src/Make/Added/Add.antt =====
-- mcdb_make_add as a whole.
use mcdb.Base.{ℕ, ◌+◌, ◌-◌, ◌%◌, ◌^◌, ◌<◌, ◌≡◌, sym, ◌∙◌, ap, ap₂, subst, List, true}
use mcdb.Base.{u32, inl, inr, ◌⊎◌, arith, length, none, some}
use mcdb.Base.Memory.{Memory, At, store, store_outside, At-store_self, At-store_apart}
use mcdb.Plasma.{Plasma, length-be32enc}
use mcdb.Mcdb.{HashFn, slots, run_hash}
use mcdb.Make.{Make, Hp, HpSlot, Errno, update}
use mcdb.Make.Hplist.{push_hp, mcdb_make_addend}
use mcdb.Make.Add.{
  Rc, write_lens, mcdb_make_add, mcdb_make_addbegin, mcdb_make_addbuf_key, mcdb_make_addbuf_data,
}
use mcdb.Make.Finish.{slot_hps}
use mcdb.Make.Added.{Same, Added, key_slot, new_hp}
use mcdb.Make.Added.Begin.{begun, begun-Same, begun-hp, addbegin-cases}
use mcdb.Make.Added.Write.{
  stored, stored-file, stored-pos, stored-hp, stored-rest, update_here, update_away, lens_stored,
  push_hp-slot_hps, addend-facts, u32_id,
}

module _ ⦃plasma : Plasma⦄ where
  open plasma use {be32enc}

  module _ (m : Make) (key data' : List ℕ) (small : length key < 2 ^ 31 - 8)
      (small' : length data' < 2 ^ 31 - 8)
      (low : m.pos + 8 + length key + length data' < 2 ^ 63) where
    abbrev klen : ℕ
    klen = length key

    -- The four stores stand side by side.
    stores_stand :
        (At (stored m key data' small small' low).file m.pos (be32enc klen))
        × At (stored m key data' small small' low).file (m.pos + 4) (be32enc (length data'))
        × At (stored m key data' small small' low).file (m.pos + 8) key
        × At (stored m key data' small small' low).file (m.pos + 8 + klen) data'
        × ((a : ℕ) → a < m.pos → (stored m key data' small small' low).file a ≡ m.file a)
    stores_stand =
        let k4 = length-be32enc klen (omega arith) in
        let d4 = length-be32enc (length data') (omega arith) in
        let p = m.pos in
        let lens = lens_stored m key data' small small' low in
        let keyed = store lens (p + 8) key in
        rw (stored-file m key data' small small' low) (
          At-store_apart keyed (p + 8 + klen) p data' (be32enc klen) (inl (omega (arith, k4))) (
              At-store_apart lens (p + 8) p key (be32enc klen) (inl (omega (arith, k4))) (
                At-store_apart (store m.file p (be32enc klen)) (p + 4) p (be32enc (length data'))
                  (be32enc klen) (inl (omega (arith, k4)))
                  (At-store_self m.file p (be32enc klen)))),
          At-store_apart keyed (p + 8 + klen) (p + 4) data' (be32enc (length data'))
              (inl (omega (arith, d4)))
              (At-store_apart lens (p + 8) (p + 4) key (be32enc (length data'))
                (inl (omega (arith, d4)))
                (At-store_self (store m.file p (be32enc klen)) (p + 4) (be32enc (length data')))),
          At-store_apart keyed (p + 8 + klen) (p + 8) data' key (inl (omega arith))
              (At-store_self lens (p + 8) key),
          At-store_self keyed (p + 8 + klen) data',
          λ a lt.
              store_outside keyed (p + 8 + klen) a data' (inl (omega arith))
              ∙ store_outside lens (p + 8) a key (inl (omega arith))
              ∙ store_outside (store m.file p (be32enc klen)) (p + 4) a (be32enc (length data'))
                  (inl (omega arith))
              ∙ store_outside m.file p a (be32enc klen) (inl lt),
        )

  -- The run from `m₀`, which has the records of `m`, and the hash that starts the key's.
  module _ (m m₀ : Make) (key data' : List ℕ) (same : Same m m₀)
      (hp : m₀.hp ≡ record { p = m.pos; h = m.hash_init; l = u32 (length key) })
      (small : length key < 2 ^ 31 - 8) (small' : length data' < 2 ^ 31 - 8)
      (low : m.pos + 8 + length key + length data' < 2 ^ 63) where
    low₀ : m₀.pos + 8 + length key + length data' < 2 ^ 63
    low₀ = omega (arith, same.pos)

    abbrev s : Make
    s = stored m₀ key data' small small' low₀

    abbrev ended : Make
    ended = mcdb_make_addend s

    s-hp : s.hp ≡ new_hp m key
    s-hp =
        stored-hp m₀ key data' small small' low₀
        ∙ ap₂ (λ (f : HashFn) (hp : Hp). record hp { h = run_hash f hp.h key }) same.hash_fn hp
        ∙ ap (λ (l : ℕ). record { p = m.pos; h = run_hash m.hash_fn m.hash_init key; l = l })
            (u32_id (length key) (omega arith))

    s-slot : s.hp.h % slots ≡ key_slot m key
    s-slot = ap (λ (hp : Hp). hp.h % slots) s-hp

    ended-Added : Added m key data' ended
    ended-Added =
        let (file, pos, fd, init, fn, count, head) = addend-facts s in
        let (head₀, count₀, fd₀, init₀, fn₀) = stored-rest m₀ key data' small small' low₀ in
        let (klen, dlen, keys, datas, before) = stores_stand m₀ key data' small small' low₀ in
        let i = key_slot m key in
        let (front, back, split, filed) = push_hp-slot_hps (m₀.head i) (new_hp m key) in
        let at = λ (k : ℕ) (bytes : List ℕ) (a : At s.file (m₀.pos + k) bytes).
          subst (λ (mem : Memory). At mem (m.pos + k) bytes) (sym file)
            (subst (λ (p : ℕ). At s.file (p + k) bytes) same.pos a) in
        let counts : ended.count ≡ update m.count i (u32 (m.count i + 1)) =
          count
          ∙ ap₂ (λ (c : ℕ → ℕ) (i : ℕ). update c i (u32 (c i + 1))) (count₀ ∙ same.count) s-slot in
        let heads : ended.head ≡ update m₀.head i (push_hp (m₀.head i) (new_hp m key)) =
          head
          ∙ ap₂ (λ (f : ℕ → HpSlot) (i : ℕ). update f i (push_hp (f i) s.hp)) head₀ s-slot
          ∙ ap (λ (hp : Hp). update m₀.head i (push_hp (m₀.head i) hp)) s-hp in
        record {
          small = small;
          small_data = omega arith;
          pos =
              pos
              ∙ stored-pos m₀ key data' small small' low₀
              ∙ ap (λ (p : ℕ). p + 8 + length key + length data') same.pos;
          key_len =
              subst (λ (mem : Memory). At mem m.pos (be32enc (length key))) (sym file)
                (subst (λ (p : ℕ). At s.file p (be32enc (length key))) same.pos klen);
          data_len = at 4 _ dlen;
          key_bytes = at 8 _ keys;
          data_bytes =
              subst (λ (mem : Memory). At mem (m.pos + 8 + length key) data') (sym file)
                (subst (λ (p : ℕ). At s.file (p + 8 + length key) data') same.pos datas);
          before = λ a lt.
              ap (λ (mem : Memory). mem a) file
              ∙ before a (omega (arith, same.pos))
              ∙ ap (λ (mem : Memory). mem a) same.file;
          fd = fd ∙ fd₀ ∙ same.fd;
          hash_init = init ∙ init₀ ∙ same.hash_init;
          hash_fn = fn ∙ fn₀ ∙ same.hash_fn;
          counted = ap (λ (c : ℕ → ℕ). c i) counts ∙ update_here m.count i (u32 (m.count i + 1));
          front = front;
          back = back;
          split = sym (same.lists i) ∙ split;
          filed =
              ap (λ (f : ℕ → HpSlot). slot_hps (f i).lists) heads
              ∙ ap (λ (h : HpSlot). slot_hps h.lists)
                  (update_here m₀.head i (push_hp (m₀.head i) (new_hp m key)))
              ∙ filed;
          others = λ j ne. (
            ap (λ (c : ℕ → ℕ). c j) counts ∙ update_away m.count i j (u32 (m.count i + 1)) ne,
            ap (λ (f : ℕ → HpSlot). slot_hps (f j).lists) heads
                ∙ ap (λ (h : HpSlot). slot_hps h.lists)
                    (update_away m₀.head i j (push_hp (m₀.head i) (new_hp m key)) ne)
                ∙ same.lists j,
          );
        }

  pub add_fails :
      (m : Make) (key data' : List ℕ) (e : Errno) (m' : Make)
      → mcdb_make_addbegin m (length key) (length data') ≡ (some e, m')
      → mcdb_make_add m key data' ≡ (some e, m')
  unfolding mcdb_make_add
  add_fails m key data' e m' run = rw (run, mcdb_make_add) (ap (λ (r : Rc). (some e, r.1)) run)

  pub add_goes :
      (m : Make) (key data' : List ℕ) (m' : Make)
      → mcdb_make_addbegin m (length key) (length data') ≡ (none, m')
      → mcdb_make_add m key data'
        ≡ (none, mcdb_make_addend (mcdb_make_addbuf_data (mcdb_make_addbuf_key m' key) data'))
  unfolding mcdb_make_add
  add_goes m key data' m' run =
      rw (run, mcdb_make_add)
        (ap
          (λ (r : Rc).
            (none, mcdb_make_addend (mcdb_make_addbuf_data (mcdb_make_addbuf_key r.1 key) data')))
          run)

  -- mcdb_make_add, for a writer with a file and room below 2 ^ 63, either returns 0 with the
  -- record behind the data and filed once in the slot of its hash, all else unchanged, or fails
  -- and leaves file, position, counts and records as they were.
  pub add-cases :
      (m : Make) (key data' : List ℕ)
      → m.has_fd ≡ true
      → m.pos + 8 + length key + length data' < 2 ^ 63
      → ((m' : Make) × (mcdb_make_add m key data' ≡ (none, m')) × Added m key data' m')
        ⊎ ((e : Errno) × (m' : Make) × (mcdb_make_add m key data' ≡ (some e, m')) × Same m m')
  add-cases m key data' fd low = elim (addbegin-cases m (length key) (length data') fd) [
    | inr (e, m', run, same) ↦ inr (e, m', add_fails m key data' e m' run, same)
    | inl (run, small, small') ↦
        let m₀ = begun m (length key) (length data') in
        let same = begun-Same m (length key) (length data') fd in
        let hp = begun-hp m (length key) (length data') fd in
        inl (
          ended m m₀ key data' same hp small small' low,
          add_goes m key data' (write_lens m₀ (length key) (length data')) run,
          ended-Added m m₀ key data' same hp small small' low,
        )
  ]
