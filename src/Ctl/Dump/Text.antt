-- ===== src/Ctl/Dump/Text.antt =====
-- The whole output of mcdbctl_dump of mcdbctl.c.
use mcdb.Base.{
  ℕ, zero, suc, ◌^◌, ◌≤◌, ◌<◌, ◌≡◌, refl, sym, ap, ap₂, ◌∙◌, subst, List, [], ◌∷◌, ◌++◌, true,
  Option, some,
}
use mcdb.Base.{length, arith}
use mcdb.Base.Memory.{length-load}
use mathlib.Core.List.{append-nil, append_assoc}
use mcdb.Plasma.{Plasma}
use mcdb.Mcdb.{Mcdb}
use mcdb.Mcdb.Iter.{McdbIter, mcdb_iter_init, mcdb_iter}
use mcdb.Lookup.Walk.{Walks}
use mcdb.Makefmt.Records.{success}
use mcdb.Report.{status}
use mcdb.Ctl.Output.{Stdout, total, writev}
use mcdb.Ctl.Output.Whole.{writev-some, after}
use mcdb.Ctl.Output.Taken.{TakesAll, writev_loop-TakesAll}
use mcdb.Ctl.Dump.{Batch, iter_key, iter_data, dump_record, dump_loop, dump_end, mcdbctl_dump}
use mcdb.Ctl.Dump.Bounds.{IsBatch, view, record_text, dump_record-view}

-- The text of records, without the empty line at its end.
abbrev pub texts : List (List ℕ × List ℕ) → List ℕ
texts [] = []
texts ((key, value) ∷ rs) = record_text (length key) (length value) key value ++ texts rs

module _ ⦃plasma : Plasma⦄ (iovnum calls : ℕ) (big : iovnum < 2 ^ 32) (nine : 9 ≤ iovnum) where
  loop_step :
      (fuel : ℕ) (b b₁ : Batch) (iter : McdbIter)
      → (mcdb_iter iter).0 ≡ true
      → let it = (mcdb_iter iter).1 in
        dump_record iovnum (suc (suc calls)) b it.klen it.dlen (iter_key it) (iter_data it)
          ≡ some (true, b₁)
        → dump_loop (suc fuel) iovnum (suc (suc calls)) b iter
          ≡ dump_loop fuel iovnum (suc (suc calls)) b₁ (mcdb_iter iter).1
  unfolding dump_loop
  loop_step fuel b b₁ iter more run = rw (more, dump_loop) (rw run refl)

  dump_loop-Walks :
      (fuel : ℕ) (b : Batch) (iter : McdbIter) (rs : List (List ℕ × List ℕ))
      → IsBatch iovnum 0 0 b
      → TakesAll b.out.wrote
      → Walks iter rs
      → length rs < fuel
      → (b' : Batch) × (dump_loop fuel iovnum (suc (suc calls)) b iter ≡ some (true, b'))
        × IsBatch iovnum 0 0 b'
        × (view b' ≡ view b ++ texts rs)
        × (b'.out.wrote ≡ b.out.wrote)
  unfolding dump_loop
  dump_loop-Walks zero b iter rs v takes w enough = absurd (omega arith)
  dump_loop-Walks (suc fuel) b iter [] v takes w enough =
      (b, rw (w, dump_loop) refl, v, sym (append-nil (view b)), refl)
  dump_loop-Walks (suc fuel) b iter ((key, value) ∷ rs) v takes w enough =
      let it = (mcdb_iter iter).1 in
      let ((more, key_is, value_is, k, d), rest) = w in
      let kl = length-load it.map.mem _ it.klen in
      let dl = length-load it.map.mem _ it.dlen in
      let (b₁, run, v₁, text, same) =
        dump_record-view iovnum calls it.klen it.dlen (iter_key it) (iter_data it) b big nine k
          (omega arith) kl dl v takes in
      let (b', ran, v', all, same') =
        dump_loop-Walks fuel b₁ it rs v₁ (subst TakesAll (sym same) takes) rest (omega arith) in
      let here : record_text it.klen it.dlen (iter_key it) (iter_data it)
          ≡ record_text (length key) (length value) key value =
        ap₂ (λ (k d : ℕ). record_text k d (iter_key it) (iter_data it)) (sym kl) (sym dl)
        ∙ ap₂ (λ (k v : List ℕ). record_text (length k) (length v) k v) key_is value_is in
      (
        b',
        loop_step fuel b b₁ iter more run ∙ ran,
        v',
        all
            ∙ ap (λ (t : List ℕ). t ++ texts rs) (text ∙ ap (λ (t : List ℕ). view b ++ t) here)
            ∙ append_assoc (view b) (record_text (length key) (length value) key value) (texts rs),
        same' ∙ same,
      )

  dump_end-view :
      (b : Batch)
      → IsBatch iovnum 0 0 b
      → TakesAll b.out.wrote
      → (out' : Stdout) × (dump_end (suc (suc calls)) b ≡ some (status success, out'))
        × (out'.bytes ≡ view b ++ 0x0a ∷ [])
  unfolding dump_end
  dump_end-view b v takes =
      let small : total b.iov ≤ 2 ^ 64 = omega (arith, v.sized, v.numbers, v.pieces, v.low) in
      let (out, run, bytes, same) =
        writev_loop-TakesAll calls b.out b.iov b.iovlen takes v.ends small in
      let (n, o, large) = subst TakesAll (sym same) takes out.asked in
      let one : writev out ((0x0a ∷ []) ∷ []) ≡ (some 1, after out ((0x0a ∷ []) ∷ []) 1) =
        writev-some out ((0x0a ∷ []) ∷ []) n o
        ∙ ap (λ (len : ℕ). (some len, after out ((0x0a ∷ []) ∷ []) len)) (omega arith) in
      (
        after out ((0x0a ∷ []) ∷ []) 1,
        rw (run, dump_end)
            (rw one (ap (λ (r : Option ℕ × Stdout). some (status success, r.1)) one)),
        ap (λ (t : List ℕ). t ++ 0x0a ∷ []) bytes,
      )

  -- The output for the records that mcdb_iter gives.
  pub dump-Walks :
      (fuel : ℕ) (out : Stdout) (m : Mcdb) (rs : List (List ℕ × List ℕ))
      → TakesAll out.wrote
      → Walks (mcdb_iter_init m) rs
      → length rs < fuel
      → (out' : Stdout) × (mcdbctl_dump fuel iovnum (suc (suc calls)) out m
          ≡ some (status success, out'))
        × (out'.bytes ≡ out.bytes ++ texts rs ++ 0x0a ∷ [])
  unfolding mcdbctl_dump
  dump-Walks fuel out m rs takes w enough =
      let b : Batch = record { iov = []; iovlen = 0; buflen = 0; out = out } in
      let start : IsBatch iovnum 0 0 b = record {
        sized = omega arith;
        numbers = omega arith;
        pieces = omega arith;
        low = omega arith;
        ends = tt;
      } in
      let (b', run, v, text, same) =
        dump_loop-Walks fuel b (mcdb_iter_init m) rs start takes w enough in
      let (out', ran, bytes) = dump_end-view b' v (subst TakesAll (sym same) takes) in
      (
        out',
        rw (run, mcdbctl_dump) ran,
        bytes
            ∙ ap (λ (t : List ℕ). t ++ 0x0a ∷ [])
                (text ∙ ap (λ (t : List ℕ). t ++ texts rs) (append-nil out.bytes)),
      )
