-- ===== src/Table.antt =====
-- Open addressing in a ring of `n` slots: what mcdb_make_finish does to fill the hash table of one
-- header slot, and what mcdb_findtagnext does to search it, over any type of entries.
pub mod Ring
pub mod Search
pub mod Room
pub mod Entries
use mcdb.Base.{
  ℕ, zero, suc, ◌+◌, Bool, true, false, Option, none, some, List, [], ◌∷◌, ◌==◌, if◌then◌else◌,
}

-- `if (++u == len) u = 0`
unfoldable pub next_slot : ℕ → ℕ → ℕ
next_slot n u = if u + 1 == n then 0 else u + 1

-- A table: the entry in each slot.
abbrev pub Slots : Type 0 → Type 0
Slots E = ℕ → Option E

module _ {E : Type 0} where
  unfoldable pub put : Slots E → ℕ → E → Slots E
  put t q e u = if u == q then some e else t u

  -- The entries that satisfy `p`, in order.
  unfoldable pub select : (E → Bool) → List E → List E
  select p [] = []
  select p (x ∷ xs) = if p x then x ∷ select p xs else select p xs

  module _ (n : ℕ) where
    -- The first empty slot from `u` on, within `k` steps.
    unfoldable pub first_empty : ℕ → Slots E → ℕ → Option ℕ
    first_empty zero t u = none
    first_empty (suc k) t u = elim (t u) [
      | none ↦ some u
      | some x ↦ first_empty k t (next_slot n u)
    ]

    -- The entries met from `u` on, up to the first empty slot or `k` slots.
    unfoldable pub chain : ℕ → Slots E → ℕ → List E
    chain zero t u = []
    chain (suc k) t u = elim (t u) [ none ↦ [] | some x ↦ x ∷ chain k t (next_slot n u) ]

    -- Entries are put one after the other into the first empty slot from their home on.
    unfoldable pub fill : (E → ℕ) → List E → Slots E → Option (Slots E)
    fill home [] t = some t
    fill home (e ∷ es) t = elim (first_empty n t (home e)) [
      | none ↦ none
      | some q ↦ fill home es (put t q e)
    ]
