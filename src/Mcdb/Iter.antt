-- ===== src/Mcdb/Iter.antt =====
-- mcdb_iter_init and mcdb_iter: the records in file order. The pointers count from `map->ptr`.
use mcdb.Base.{ℕ, ◌+◌, ◌-◌, ◌^◌, Bool, true, false, not, u32, u64, ltb, ◌==◌, if◌then◌else◌}
use mcdb.Plasma.{Plasma}
use mcdb.Uint32.{strunpack32, strunpack64}
use mcdb.Mcdb.{Mmap, Mcdb, header_sz, uint_max}

pub record McdbIter : Type 0 where
  pub ptr : ℕ
  pub eod : ℕ
  pub klen : ℕ
  pub dlen : ℕ
  pub map : Mmap

abbrev pub iter_dataptr : McdbIter → ℕ
iter_dataptr iter = iter.ptr - iter.dlen

abbrev pub iter_keyptr : McdbIter → ℕ
iter_keyptr iter = iter.ptr - iter.dlen - iter.klen

module _ ⦃plasma : Plasma⦄ where
  unfoldable pub mcdb_iter_init : Mcdb → McdbIter
  unfolding strunpack64
  mcdb_iter_init m = record {
    ptr = header_sz;
    eod = u64 (strunpack64 m.map.mem 0 + 2 ^ 64 - 7);
    klen = 0;
    dlen = 0;
    map = m.map;
  }

  -- `8 + klen + dlen` is computed in 32 bits.
  unfoldable pub mcdb_iter : McdbIter → Bool × McdbIter
  unfolding strunpack32
  mcdb_iter iter =
      let klen = strunpack32 iter.map.mem iter.ptr in
      let dlen = strunpack32 iter.map.mem (iter.ptr + 4) in
      let iter₁ = record iter {
        klen = klen;
        dlen = dlen;
        ptr = u64 (iter.ptr + u32 (8 + klen + dlen));
      } in
      if ltb iter.ptr iter.eod
      then if not (klen == uint_max)
        then (true, iter₁)
        else (false, record iter₁ { ptr = iter.eod })
      else (false, iter)
