-- ===== src/Nss/Session/Loop.antt =====
-- The loop of nss_mcdb_getent over records that mcdb_iter gives.
use mcdb.Base.{
  ℕ, zero, suc, ◌<◌, ◌≡◌, refl, sym, ap, ◌∙◌, subst, List, [], ◌∷◌, Bool, true, false, some, inl,
  inr, All, ◌⊎◌,
}
use mcdb.Base.{◌==◌, if◌then◌else◌, arith, Bool-cases, length}
use mcdb.Base.Memory.{Memory, load}
use mcdb.Plasma.{Plasma}
use mcdb.Mcdb.{Mmap}
use mcdb.Mcdb.Iter.{McdbIter, mcdb_iter, iter_keyptr, iter_dataptr}
use mcdb.Lookup.Walk.{Gives, Walks}
use mcdb.Nss.Session.{getent_loop}

-- A key of at least a byte.
abbrev pub IsTagged : List ℕ × List ℕ → Type 0
IsTagged r = 0 < length r.0

abbrev pub first_byte : List ℕ → ℕ
first_byte [] = 0
first_byte (b ∷ key) = b

-- The records under '='.
abbrev pub named : List (List ℕ × List ℕ) → List (List ℕ × List ℕ)
named [] = []
named (r ∷ rs) = if first_byte r.0 == 61 then (r ∷ named rs) else named rs

module _ ⦃plasma : Plasma⦄ where
  first_byte-load :
      (mem : Memory) (a n : ℕ) (key : List ℕ)
      → load mem a n ≡ key
      → 0 < length key
      → mem a ≡ first_byte key
  unfolding load
  first_byte-load mem a zero key e pos = absurd (omega (arith, ap length e))
  first_byte-load mem a (suc n) key e pos = ap first_byte e

  -- The loop stops at the first record under '=', with the others still to come, or at the end.
  pub record Stops (map : Mmap) (eod : ℕ) (rs : List (List ℕ × List ℕ)) (r : Bool × McdbIter)
      : Type 0 where
    pub key : List ℕ
    pub value : List ℕ
    pub later : List (List ℕ × List ℕ)
    pub split : named rs ≡ (key, value) ∷ named later
    pub fewer : length later < length rs
    pub tagged : All IsTagged later
    pub on : r.0 ≡ true
    pub data_there : load r.1.map.mem (iter_dataptr r.1) r.1.dlen ≡ value
    pub walks : Walks r.1 later
    pub same_map : r.1.map ≡ map
    pub same_eod : r.1.eod ≡ eod

  abbrev pub Ends : List (List ℕ × List ℕ) → Bool × McdbIter → Type 0
  Ends rs r = (named rs ≡ []) × (r.0 ≡ false)

  skipped :
      (map : Mmap) (eod : ℕ) (key value : List ℕ) (rs : List (List ℕ × List ℕ))
      (r : Bool × McdbIter)
      → (first_byte key == 61) ≡ false
      → Stops map eod rs r
      → Stops map eod ((key, value) ∷ rs) r
  skipped map eod key value rs r e s = record {
    key = s.key;
    value = s.value;
    later = s.later;
    split = rw e s.split;
    fewer = omega (arith, s.fewer);
    tagged = s.tagged;
    on = s.on;
    data_there = s.data_there;
    walks = s.walks;
    same_map = s.same_map;
    same_eod = s.same_eod;
  }

  iter_keeps :
      (iter : McdbIter) → ((mcdb_iter iter).1.map ≡ iter.map) × ((mcdb_iter iter).1.eod ≡ iter.eod)
  unfolding mcdb_iter
  iter_keeps iter = (ground arith, ground arith)

  -- A call depends on where it stands, not on the lengths of the record before.
  iter_again :
      (iter : McdbIter) (k d : ℕ)
      → let iter' = record iter { klen = k; dlen = d } in
        ((mcdb_iter iter').0 ≡ (mcdb_iter iter).0)
        × ((mcdb_iter iter).0 ≡ true → mcdb_iter iter' ≡ mcdb_iter iter)
  unfolding mcdb_iter
  iter_again iter k d = (ground arith, λ h. ground (arith, h))

  pub again-Walks :
      (iter : McdbIter) (k d : ℕ) (rs : List (List ℕ × List ℕ))
      → Walks iter rs
      → Walks (record iter { klen = k; dlen = d }) rs
  again-Walks iter k d [] w = (iter_again iter k d).0 ∙ w
  again-Walks iter k d ((key, value) ∷ rs) w =
      subst (λ (r : Bool × McdbIter). Gives key value r × Walks r.1 rs)
        (sym ((iter_again iter k d).1 w.0.0)) w

  pub getent_loop-Walks :
      (fuel : ℕ) (iter : McdbIter) (rs : List (List ℕ × List ℕ))
      → Walks iter rs
      → All IsTagged rs
      → length rs < fuel
      → (r : Bool × McdbIter) × (getent_loop fuel iter ≡ some r)
        × (Stops iter.map iter.eod rs r ⊎ Ends rs r)
  unfolding getent_loop
  getent_loop-Walks zero iter rs w t lt = absurd (omega arith)
  getent_loop-Walks (suc fuel) iter [] w t lt =
      ((false, (mcdb_iter iter).1), rw w refl, inr (refl, refl))
  getent_loop-Walks (suc fuel) iter ((key, value) ∷ rs) w t lt =
      let step : Bool × McdbIter = mcdb_iter iter in
      let byte : step.1.map.mem (iter_keyptr step.1) ≡ first_byte key =
        first_byte-load step.1.map.mem (iter_keyptr step.1) step.1.klen key w.0.1 t.0 in
      let keeps = iter_keeps iter in
      elim (Bool-cases (first_byte key == 61)) [
        | inl e ↦ (
          (true, step.1),
          rw (w.0.0, byte, e) refl,
          inl (record {
            key = key;
            value = value;
            later = rs;
            split = rw e refl;
            fewer = omega arith;
            tagged = t.1;
            on = refl;
            data_there = w.0.2;
            walks = w.1;
            same_map = keeps.0;
            same_eod = keeps.1;
          }),
        )
        | inr e ↦
            let (r, run, out) = getent_loop-Walks fuel step.1 rs w.1 t.1 (omega arith) in
            let moved : Stops step.1.map step.1.eod rs r → Stops iter.map iter.eod rs r = λ s.
              subst (λ mp. Stops mp iter.eod rs r) keeps.0
                (subst (λ e. Stops step.1.map e rs r) keeps.1 s) in
            (
              r,
              rw (w.0.0, byte, e) run,
              elim out [
                | inl stops ↦ inl (skipped iter.map iter.eod key value rs r e (moved stops))
                | inr ends ↦ inr (rw e ends.0, ends.1)
              ],
            )
      ]
