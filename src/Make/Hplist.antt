-- ===== src/Make/Hplist.antt =====
-- mcdb_hplist_alloc, mcdb_make_addend's use of the lists, and what mcdb_make_destroy frees.
use mcdb.Base.{ℕ, zero, suc, ◌+◌, ◌-◌, bit_and, [], ◌∷◌, ◌++◌, false, not, ltb, ◌==◌, u32}
use mcdb.Base.{length, if◌then◌else◌, Option, none, some}
use mcdb.Mcdb.{slots, int_max, uint_max}
use mcdb.Make.{Make, Hp, HpSlot, Errno, enomem, os, hplist_max, ask, update}

-- m->head[i]->num
abbrev pub head_num : HpSlot → ℕ
head_num s = elim s.lists [ [] ↦ 0 | l ∷ ls ↦ length l ]

-- A spare list of the slot becomes its head.
unfoldable pub take_pend : HpSlot → HpSlot
take_pend s = record { lists = [] ∷ s.lists; pend = s.pend - 1 }

-- A new list of the slot is spare, unless the head is full: then it becomes the head.
unfoldable pub give_list : HpSlot → HpSlot
give_list s =
    if not (head_num s == hplist_max)
    then record s { pend = s.pend + 1 }
    else record { lists = [] ∷ s.lists; pend = 0 }

-- The sum of the first `k` counts, in 32 bits.
unfoldable pub sum_count : ℕ → (ℕ → ℕ) → ℕ
sum_count zero count = 0
sum_count (suc k) count = u32 (sum_count k count + count k)

-- One array gives every slot a new list.
unfoldable pub mcdb_hplist_alloc : Make → Option Errno × Make
unfolding take_pend give_list sum_count ask
mcdb_hplist_alloc m =
    let i = bit_and m.hp.h (slots - 1) in
    let (got, m₁) = ask m in
    let m₂ = record m₁ { head = λ j. give_list (m.head j); owned = m.owned + 1 } in
    if not ((m.head i).pend == 0)
    then (none, record m { head = update m.head i (take_pend (m.head i)) })
    else if not got
    then (some os, m₁)
    else if ltb (sum_count slots m.count) int_max
    then (none, m₂)
    else (some enomem, m₂)

-- head->hp[head->num++] = hp
unfoldable pub push_hp : HpSlot → Hp → HpSlot
push_hp s hp = record s {
  lists = elim s.lists [ [] ↦ (hp ∷ []) ∷ [] | l ∷ ls ↦ (l ++ hp ∷ []) ∷ ls ];
}

unfoldable pub mcdb_make_addend : Make → Make
unfolding push_hp
mcdb_make_addend m =
    let slot_idx = bit_and m.hp.h (slots - 1) in
    let i = head_num (m.head slot_idx) in
    let m₁ = record m {
      head = update m.head slot_idx (push_hp (m.head slot_idx) m.hp);
      count = update m.count slot_idx (u32 (m.count slot_idx + 1));
    } in
    if i == hplist_max - 1 then record m₁ { hp = record m.hp { l = uint_max } } else m₁

-- Both loops of mcdb_make_destroy free along slot 0, whose lists are the arrays' first elements.
unfoldable pub free_lists : Make → Make
free_lists m =
    if m.head0
    then record m { head0 = false; owned = m.owned - ((m.head 0).pend + length (m.head 0).lists) }
    else m
