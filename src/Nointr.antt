-- ===== src/Nointr.antt =====
-- nointr.c: the write that is made again when a signal interrupts it or bytes are left.
use mcdb.Base.{ℕ, zero, suc, ◌+◌, ◌-◌, List, true, false, Option, some, none, ◌==◌, ◌++◌}
use mcdb.Base.Memory.{Memory, load}

-- What a call gives: a result, -1 with errno EINTR, or -1 with another errno.
pub data WriteAnswer : Type 0 where
  result : ℕ → WriteAnswer
  interrupted : WriteAnswer
  failed : WriteAnswer

-- The answer of the last call, and the bytes written behind `out`, which start at `pos` of the buffer;
-- a call writes the first of the bytes left, as many as it says. `fuel` bounds the calls, and `none`
-- is a loop that goes on.
unfoldable pub nointr_write :
    ℕ → (ℕ → WriteAnswer) → ℕ → List ℕ → Memory → ℕ → ℕ → Option (WriteAnswer × List ℕ)
nointr_write zero calls k out buf pos sz = none
nointr_write (suc fuel) calls k out buf pos sz =
    let written : ℕ → List ℕ = λ n. out ++ load buf pos n in
    elim (calls k) [
      | failed ↦ some (failed, out)
      | interrupted ↦ nointr_write fuel calls (k + 1) out buf pos sz
      | result n ↦ elim (sz - n == 0) [
        | true ↦ some (result n, written n)
        | false ↦ nointr_write fuel calls (k + 1) (written n) buf (pos + n) (sz - n)
      ]
    ]
