-- ===== src/Make/Started.antt =====
-- mcdb_make_start leaves a writer in order.
use mcdb.Base.{ℕ, ◌^◌, ◌<◌, ◌≡◌, refl, sym, ap, subst, Bool, true, none, All, length}
use mcdb.Base.{arith}
use mcdb.Base.Memory.{Memory}
use mcdb.Plasma.{Plasma}
use mcdb.Uint32.Hash.{hash_djb-lt}
use mcdb.Mcdb.{run_hash, mmap_sz}
use mcdb.Make.{Make, ask}
use mcdb.Make.Start.{mcdb_make_start, start_state}
use mcdb.Make.Keep.{Content, content, upsize-content}
use mcdb.Make.Finish.{slot_hps}
use mcdb.Make.Valid.{IsRecord, IsMake}

abbrev pub first_lists : Memory → ℕ → (ℕ → Bool) → Make
first_lists file pagesize fails = record (ask (start_state file true pagesize fails)).1 {
  head0 = true;
  owned = 1;
}

pub start_ok :
    (file : Memory) (pagesize : ℕ) (fails : ℕ → Bool) (m : Make)
    → mcdb_make_start file true pagesize fails ≡ (none, m)
    → content m ≡ content (first_lists file pagesize fails)
unfolding mcdb_make_start start_state ask
start_ok file pagesize fails m run =
    ground (arith, upsize-content (first_lists file pagesize fails) mmap_sz refl)

module _ ⦃plasma : Plasma⦄ where
  -- mcdb_make_start with a file, when it returns 0, leaves a writer whose state is in order.
  pub start-IsMake :
      (file : Memory) (pagesize : ℕ) (fails : ℕ → Bool) (m : Make)
      → mcdb_make_start file true pagesize fails ≡ (none, m)
      → IsMake m
  unfolding start_state ask run_hash slot_hps
  start-IsMake file pagesize fails m run =
      let same = start_ok file pagesize fails m run in
      record {
        fd = ap (λ (c : Content). c.has_fd) same;
        begins = omega (arith, ap (λ (c : Content). c.pos) same);
        hashes = λ h buf lt bytes.
            subst (λ (c : Content). run_hash c.hash_fn h buf < 2 ^ 32) (sym same)
              (hash_djb-lt h buf lt bytes);
        hash_init = subst (λ (c : Content). c.hash_init < 2 ^ 32) (sym same) (omega arith);
        counted = λ j lt.
            subst (λ (c : Content). c.count j ≡ length (slot_hps (c.head j).lists)) (sym same) refl;
        records = λ j lt.
            subst (λ (c : Content). All (IsRecord m.file m.pos j) (slot_hps (c.head j).lists))
              (sym same) tt;
      }
