-- ===== src/Make/Keep.antt =====
-- What mcdb_mmap_upsize leaves alone: all but the mapping and the numbers about it.
use mcdb.Base.{ℕ, ◌+◌, ◌≡◌, refl, ◌∙◌, ap, Bool, true, false, not, ltb, if◌then◌else◌, u64}
use mcdb.Base.{Bool-cases, inl, inr, arith}
use mcdb.Base.Memory.{Memory}
use mcdb.Mcdb.{HashFn}
use mcdb.Make.{Make, Hp, HpSlot, ask}
use mcdb.Make.Upsize.{
  upsize_offset, upsize_msz, grow_file, unmap_prior, map_window, mcdb_mmap_upsize,
}
use mcdb.Make.Add.{ensure_window}

-- The part of the state that is about the records.
pub record Content : Type 0 where
  pub pos : ℕ
  pub file : Memory
  pub hash_init : ℕ
  pub hash_fn : HashFn
  pub hp : Hp
  pub has_fd : Bool
  pub count : ℕ → ℕ
  pub head : ℕ → HpSlot
  pub head0 : Bool
  pub owned : ℕ

abbrev pub content : Make → Content
content m = record {
  pos = m.pos;
  file = m.file;
  hash_init = m.hash_init;
  hash_fn = m.hash_fn;
  hp = m.hp;
  has_fd = m.has_fd;
  count = m.count;
  head = m.head;
  head0 = m.head0;
  owned = m.owned;
}

grow_file-content : (m : Make) (size : ℕ) → content (grow_file m size).1 ≡ content m
unfolding grow_file ask
grow_file-content m size = ground arith

unmap_prior-content : (m : Make) → content (unmap_prior m).1 ≡ content m
unfolding unmap_prior ask
unmap_prior-content m = ground arith

map_window-content :
    (m : Make) (offset msz : ℕ) → m.has_fd ≡ true → content (map_window m offset msz).1 ≡ content m
unfolding map_window ask
map_window-content m offset msz fd = ground arith

module _ (m : Make) (sz : ℕ) (fd : m.has_fd ≡ true) where
  pub upsize-content : content (mcdb_mmap_upsize m sz).1 ≡ content m
  unfolding mcdb_mmap_upsize
  upsize-content =
      let offset = upsize_offset m in
      let msz = upsize_msz m sz in
      let m₁ = (grow_file m (u64 (offset + msz))).1 in
      let m₂ = (unmap_prior m₁).1 in
      let grown = grow_file-content m (u64 (offset + msz)) in
      let dropped = unmap_prior-content m₁ ∙ grown in
      let mapped =
        map_window-content m₂ offset msz (ap (λ (c : Content). c.has_fd) dropped ∙ fd) ∙ dropped in
      pick (not (grow_file m (u64 (offset + msz))).0) (false, m₁) _ grown
        (pick (not (unmap_prior m₁).0) (false, m₂) (map_window m₂ offset msz) dropped mapped)
    where
      pick :
          (b : Bool) (r s : Bool × Make)
          → content r.1 ≡ content m
          → content s.1 ≡ content m
          → content (if b then r else s).1 ≡ content m
      pick true r s p q = p
      pick false r s p q = q

  pub ensure_window-content : content (ensure_window m sz).1 ≡ content m
  unfolding ensure_window
  ensure_window-content = elim (Bool-cases (ltb (u64 (m.offset + m.msz)) sz)) [
    | inl e ↦ rw e upsize-content
    | inr e ↦ rw e refl
  ]
