-- ===== src/Ctl/Output.antt =====
-- writev_loop: all of several pieces of output, whatever parts of them the calls of writev take.
pub mod Whole
pub mod Taken
use mcdb.Base.{
  ℕ, zero, suc, ◌+◌, ◌-◌, ◌^◌, List, [], ◌∷◌, ◌++◌, Bool, true, false, Option, none, some,
}
use mcdb.Base.{leb, ◌==◌, if◌then◌else◌, min, length, take, drop, u64}

-- Standard output: what was written, the calls made, and what the `k`-th call gives, `none` for -1.
-- A call never takes more than it is given.
pub record Stdout : Type 0 where
  pub bytes : List ℕ
  pub asked : ℕ
  pub wrote : ℕ → Option ℕ

-- struct iovec iov[iovcnt], as the bytes of each.
abbrev pub concat : List (List ℕ) → List ℕ
concat [] = []
concat (v ∷ iov) = v ++ concat iov

abbrev pub total : List (List ℕ) → ℕ
total iov = length (concat iov)

unfoldable pub writev : Stdout → List (List ℕ) → Option ℕ × Stdout
writev out iov =
    let out₁ = record out { asked = out.asked + 1 } in
    elim (out.wrote out.asked) [
      | none ↦ (none, out₁)
      | some n ↦
          let len = min n (total iov) in
          (some len, record out₁ { bytes = out.bytes ++ take len (concat iov) })
    ]

-- while (len != 0) …: past the pieces that were written, and into the one that was in part.
unfoldable pub skip : ℕ → List (List ℕ) → List (List ℕ)
skip len [] = []
skip len (v ∷ iov) =
    let rest = skip (len - length v) iov in
    if len == 0 then v ∷ iov else if leb (length v) len then rest else drop len v ∷ iov

-- `sz` is a pattern of 64 bits, which goes below 0 when the pieces are longer than it says. `none` is
-- a loop that goes on.
unfoldable pub writev_loop : ℕ → Stdout → List (List ℕ) → ℕ → Option (Bool × Stdout)
unfolding writev skip
writev_loop zero out iov sz = none
writev_loop (suc fuel) out [] sz = some (true, out)
writev_loop (suc fuel) out (v ∷ iov) sz =
    let (got, out₁) = writev out (v ∷ iov) in
    elim got [
      | none ↦ some (false, out₁)
      | some len ↦
          let left = u64 (sz + 2 ^ 64 - len) in
          elim (left == 0) [
            | true ↦ some (true, out₁)
            | false ↦ writev_loop fuel out₁ (skip len (v ∷ iov)) left
          ]
    ]
