-- ===== src/Ctl/Dump/Short.antt =====
-- mcdbctl_dump of mcdbctl.c tells writev_loop too small a size.
use mcdb.Base.{
  ℕ, suc, ◌+◌, ◌-◌, ◌^◌, ◌<◌, ◌≡◌, refl, ap, ◌∙◌, List, [], ◌∷◌, ◌++◌, true, Option, some,
}
use mcdb.Base.{◌==◌, take, u64, arith}
use mcdb.Plasma.{Plasma}
use mcdb.Makefmt.Records.{success}
use mcdb.Report.{status}
use mcdb.Ctl.Output.{Stdout, concat, total, writev, writev_loop}
use mcdb.Ctl.Output.Whole.{writev-some, after}
use mcdb.Ctl.Dump.{Batch, dump_end}
use mcdb.Ctl.Dump.Bounds.{IsBatch}

-- A first call of writev that takes just `sz` bytes ends the loop, with success.
writev_loop-short :
    (fuel : ℕ) (out : Stdout) (iov : List (List ℕ)) (sz : ℕ)
    → 0 < sz
    → sz < total iov
    → sz < 2 ^ 63
    → out.wrote out.asked ≡ some sz
    → writev_loop (suc fuel) out iov sz ≡ some (true, after out iov sz)
unfolding writev_loop
writev_loop-short fuel out [] sz pos less low o = absurd (omega arith)
writev_loop-short fuel out (v ∷ iov) sz pos less low o =
    let short : writev out (v ∷ iov) ≡ (some sz, after out (v ∷ iov) sz) =
      writev-some out (v ∷ iov) sz o
      ∙ ap (λ (len : ℕ). (some len, after out (v ∷ iov) len)) (omega arith) in
    let none_left : (u64 (sz + 2 ^ 64 - sz) == 0) ≡ true = ground arith in
    rw (short, writev_loop, none_left) (ap (λ (r : Option ℕ × Stdout). some (true, r.1)) short)

module _ ⦃plasma : Plasma⦄ where
  -- In a batch in order with some number in it, iovlen is less than the pieces' size by buflen,
  -- the bytes of the numbers. When the first call of writev for the last batch takes just iovlen
  -- bytes, and write its newline, mcdbctl_dump ends with success though the last buflen bytes of
  -- the batch were not written.
  pub dump_end-short :
      (calls iovnum spare due : ℕ) (b : Batch)
      → IsBatch iovnum spare due b
      → 0 < b.iovlen
      → 0 < b.buflen
      → b.out.wrote b.out.asked ≡ some b.iovlen
      → b.out.wrote (b.out.asked + 1) ≡ some 1
      → (out' : Stdout) × (dump_end (suc calls) b ≡ some (status success, out'))
        × (out'.bytes ≡ (b.out.bytes ++ take b.iovlen (concat b.iov)) ++ 0x0a ∷ [])
        × (b.iovlen + b.buflen ≡ total b.iov)
  unfolding dump_end
  dump_end-short calls iovnum spare due b v pos some_number o o₁ =
      let out = after b.out b.iov b.iovlen in
      let run =
        writev_loop-short calls b.out b.iov b.iovlen pos (omega (arith, v.sized))
          (omega (arith, v.low)) o in
      let one = writev-some out ((0x0a ∷ []) ∷ []) 1 o₁ in
      (
        after out ((0x0a ∷ []) ∷ []) 1,
        rw (run, dump_end)
            (rw one (ap (λ (r : Option ℕ × Stdout). some (status success, r.1)) one)),
        refl,
        omega (arith, v.sized),
      )
