-- ===== src/Make/Added/Begin.antt =====
-- mcdb_make_addbegin up to the stores: the records stay as they are.
use mcdb.Base.{
  ℕ, ◌+◌, ◌-◌, ◌^◌, ◌<◌, ◌≡◌, refl, ◌∙◌, ap, Bool, true, false, not, none, some, ◌==◌, ◌&&◌, ◌||◌,
  ◌⊎◌, Option-cases,
}
use mcdb.Base.{if◌then◌else◌, ltb, u32, u64, Bool-cases, inl, inr, arith}
use mcdb.Plasma.{Plasma}
use mcdb.Mcdb.{int_max, uint_max}
use mcdb.Make.{Make, HpSlot, Errno, einval, eperm, os, ask}
use mcdb.Make.Hplist.{take_pend, give_list, mcdb_hplist_alloc}
use mcdb.Make.Add.{make_room, begin_hp, ensure_window, write_lens, mcdb_make_addbegin}
use mcdb.Make.Keep.{Content, content, ensure_window-content}
use mcdb.Make.Finish.{slot_hps}
use mcdb.Make.Added.{Same}

give_list-slot_hps : (s : HpSlot) → slot_hps (give_list s).lists ≡ slot_hps s.lists
unfolding give_list slot_hps
give_list-slot_hps s = ground arith

take_pend-slot_hps : (s : HpSlot) → slot_hps (take_pend s).lists ≡ slot_hps s.lists
unfolding take_pend slot_hps
take_pend-slot_hps s = refl

Same-refl : (m : Make) → Same m m
Same-refl m = record {
  pos = refl;
  file = refl;
  fd = refl;
  hash_init = refl;
  hash_fn = refl;
  count = refl;
  lists = λ j. refl;
}

alloc-Same : (m : Make) → Same m (mcdb_hplist_alloc m).1
unfolding mcdb_hplist_alloc ask
alloc-Same m = record {
  pos = ground arith;
  file = ground arith;
  fd = ground arith;
  hash_init = ground arith;
  hash_fn = ground arith;
  count = ground arith;
  lists = λ j. ground (arith, give_list-slot_hps (m.head j), take_pend-slot_hps (m.head j));
}

module _ (m : Make) (keylen datalen : ℕ) where
  -- The state in which the lengths are written.
  abbrev pub room : Make
  room = (make_room m).1

  abbrev set_hp : Make
  set_hp = record (begin_hp room) {
    hp = record { p = room.pos; h = room.hash_init; l = u32 keylen };
  }

  abbrev reach_record : Bool × Make
  reach_record = ensure_window set_hp (u64 (m.pos + u64 (8 + keylen + datalen)))

  abbrev pub begun : Make
  begun = reach_record.1

  alloc_if-Same : (b : Bool) → Same m (if b then mcdb_hplist_alloc m else (none, m)).1
  alloc_if-Same true = alloc-Same m
  alloc_if-Same false = Same-refl m

  room-Same : Same m room
  unfolding make_room
  room-Same = alloc_if-Same (m.hp.l == uint_max)

  begin_hp-Same : Same m (begin_hp room)
  unfolding begin_hp
  begin_hp-Same = record {
    pos = room-Same.pos;
    file = room-Same.file;
    fd = room-Same.fd;
    hash_init = room-Same.hash_init;
    hash_fn = room-Same.hash_fn;
    count = room-Same.count;
    lists = room-Same.lists;
  }

  module _ (fd : m.has_fd ≡ true) where
    set_hp-fd : set_hp.has_fd ≡ true
    unfolding begin_hp
    set_hp-fd = room-Same.fd ∙ fd

    begun-content :
        content begun
        ≡ record (content room) { hp = record { p = room.pos; h = room.hash_init; l = u32 keylen } }
    unfolding begin_hp
    begun-content =
        ensure_window-content set_hp (u64 (m.pos + u64 (8 + keylen + datalen))) set_hp-fd

    pub begun-Same : Same m begun
    begun-Same = record {
      pos = ap (λ (c : Content). c.pos) begun-content ∙ room-Same.pos;
      file = ap (λ (c : Content). c.file) begun-content ∙ room-Same.file;
      fd = ap (λ (c : Content). c.has_fd) begun-content ∙ room-Same.fd;
      hash_init = ap (λ (c : Content). c.hash_init) begun-content ∙ room-Same.hash_init;
      hash_fn = ap (λ (c : Content). c.hash_fn) begun-content ∙ room-Same.hash_fn;
      count = ap (λ (c : Content). c.count) begun-content ∙ room-Same.count;
      lists =
          λ j. ap (λ (c : Content). slot_hps (c.head j).lists) begun-content ∙ room-Same.lists j;
    }

    pub begun-hp : begun.hp ≡ record { p = m.pos; h = m.hash_init; l = u32 keylen }
    begun-hp =
        ap (λ (c : Content). c.hp) begun-content
        ∙ ap (λ (p : ℕ). record { p = p; h = room.hash_init; l = u32 keylen }) room-Same.pos
        ∙ ap (λ (h : ℕ). record { p = m.pos; h = h; l = u32 keylen }) room-Same.hash_init

  module _ ⦃plasma : Plasma⦄ (fd : m.has_fd ≡ true) where
    -- The call fails and leaves the records alone, or it goes on from `begun`.
    pub addbegin-cases :
        (((mcdb_make_addbegin m keylen datalen) ≡ (none, write_lens begun keylen datalen))
          × (keylen < 2 ^ 31 - 8)
          × (datalen < 2 ^ 31 - 8))
        ⊎ ((e : Errno) × (m' : Make) × (mcdb_make_addbegin m keylen datalen ≡ (some e, m'))
            × Same m m')
    unfolding mcdb_make_addbegin
    addbegin-cases = elim (Bool-cases (not m.mapped && m.has_fd)) [
      | inl e ↦ inr (eperm, m, rw e refl, Same-refl m)
      | inr open_ ↦ elim (Option-cases (make_room m).0) [
        | inr (e, o) ↦ inr (e, room, rw (open_, o) refl, room-Same)
        | inl o ↦ elim (Bool-cases (ltb (int_max - 8) keylen || ltb (int_max - 8) datalen)) [
          | inl e ↦ inr (einval, begin_hp room, rw (open_, o, e) refl, begin_hp-Same)
          | inr e ↦ elim (Bool-cases (not reach_record.0)) [
            | inl broke ↦ inr (os, begun, rw (open_, o, e, broke) refl, begun-Same fd)
            | inr reached ↦ inl (rw (open_, o, e, reached) refl, ground arith, ground arith)
          ]
        ]
      ]
    ]
