-- ===== src/Lookup/Walk.antt =====
-- What mcdb_iter of mcdb.c visits: the records that the calls of it give, until it returns false.
use mcdb.Base.{ℕ, ◌^◌, ◌<◌, ◌≡◌, List, [], ◌∷◌, Bool, true, false}
use mcdb.Base.Memory.{load}
use mcdb.Plasma.{Plasma}
use mcdb.Mcdb.Iter.{McdbIter, mcdb_iter, iter_keyptr, iter_dataptr}

module _ ⦃plasma : Plasma⦄ where
  -- A call of mcdb_iter gave this key and value, with lengths that int holds.
  abbrev pub Gives : List ℕ → List ℕ → Bool × McdbIter → Type 0
  Gives key value r =
      (r.0 ≡ true)
      × (load r.1.map.mem (iter_keyptr r.1) r.1.klen ≡ key)
      × (load r.1.map.mem (iter_dataptr r.1) r.1.dlen ≡ value)
      × (r.1.klen < 2 ^ 31)
      × (r.1.dlen < 2 ^ 31)

  -- The calls of mcdb_iter give these keys and values in turn, and then false.
  abbrev pub Walks : McdbIter → List (List ℕ × List ℕ) → Type 0
  Walks iter [] = (mcdb_iter iter).0 ≡ false
  Walks iter ((key, value) ∷ rs) = Gives key value (mcdb_iter iter) × Walks (mcdb_iter iter).1 rs
