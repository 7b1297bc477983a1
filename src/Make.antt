-- ===== src/Make.antt =====
-- mcdb_make.h and mcdb_make.c: the state of the writer, the calls it makes of the system, and its
-- writes through the mapping. Numbers are those of a 64-bit build.
pub mod Hplist
pub mod Upsize
pub mod Add
pub mod Start
pub mod Keep
pub mod Window
pub mod Valid
pub mod Added
pub mod Started
pub mod Fallocate
pub mod Finish
use mcdb.Base.{
  ℕ, suc, ◌+◌, ◌-◌, ◌^◌, List, [], ◌∷◌, Bool, true, false, not, ◌&&◌, ◌||◌, Option, none, some, leb,
  u64,
}
use mcdb.Base.{length, if◌then◌else◌, ◌==◌}
use mcdb.Base.Memory.{Memory, store}
use mcdb.Mcdb.{HashFn}

abbrev pub hplist_max : ℕ
hplist_max = 250

-- struct mcdb_hp: where a record begins, the hash of its key, and the key's length.
pub record Hp : Type 0 where
  pub p : ℕ
  pub h : ℕ
  pub l : ℕ

-- The lists of one slot: struct mcdb_hplist from `m->head[i]` on along `next`, each by the entries
-- `hp[0]` to `hp[num - 1]`, and the number of empty ones along `pend`.
pub record HpSlot : Type 0 where
  pub lists : List (List Hp)
  pub pend : ℕ

-- The values of `errno` that the code sets itself; `os` is what a failed call left there.
pub data Errno : Type 0 where
  eperm einval enomem os : Errno

-- struct mcdb_make with the file behind `m->fd`. `mapped` is `m->map != MAP_FAILED`; the mapping
-- shows the bytes of the file from `offset` on. `fails k` says whether the `k`-th call of the system
-- will fail, and `calls` counts them. `faulted` records a write outside the mapping, or a read of
-- memory that nothing has set. `owned` is the number of arrays got from `fn_malloc` and not yet
-- freed; `head0` is `m->head[0] != NULL`.
pub record Make : Type 0 where
  pub pos : ℕ
  pub offset : ℕ
  pub mapped : Bool
  pub file : Memory
  pub hash_init : ℕ
  pub hash_fn : HashFn
  pub fsz : ℕ
  pub osz : ℕ
  pub msz : ℕ
  pub pgalign : ℕ
  pub hp : Hp
  pub has_fd : Bool
  pub count : ℕ → ℕ
  pub head : ℕ → HpSlot
  pub head0 : Bool
  pub owned : ℕ
  pub fails : ℕ → Bool
  pub calls : ℕ
  pub faulted : Bool

-- The next call of the system: whether it succeeds.
unfoldable pub ask : Make → Bool × Make
ask m = (not (m.fails m.calls), record m { calls = m.calls + 1 })

abbrev pub update {ℓ} : {A : Type ℓ} → (ℕ → A) → ℕ → A → ℕ → A
update f i v j = if j == i then v else f j

-- A write of `bytes` at `m->map + pos - m->offset`.
unfoldable pub poke : Make → ℕ → List ℕ → Make
poke m pos bytes = record m {
  file = store m.file pos bytes;
  faulted =
      m.faulted
      || not (m.mapped && (leb m.offset pos && leb (pos + length bytes) (m.offset + m.msz)));
}
