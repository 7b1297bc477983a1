-- ===== src/Nss/Session/Walk.antt =====
-- nss_mcdb_getent gives the records under '=' in the order of the file.
use mcdb.Base.{
  ℕ, zero, suc, ◌^◌, ◌<◌, ◌≡◌, refl, sym, ap, ap₂, ◌∙◌, subst, List, [], ◌∷◌, Bool, true, false,
  Option, none, some, inl, inr, All,
}
use mcdb.Base.{if◌then◌else◌, arith, length}
use mcdb.Base.Memory.{load}
use mcdb.Plasma.{Plasma}
use mcdb.Mcdb.{Mmap, Mcdb, header_sz}
use mcdb.Mcdb.Open.{Sys, mcdb_mmap_init}
use mcdb.Make.{Make}
use mcdb.Make.Valid.{IsMake, Few}
use mcdb.Make.Finish.{mcdb_make_finish}
use mcdb.Lookup.Sequence.{Lies}
use mcdb.Lookup.Sequence.Written.{finish-Walks}
use mcdb.Mcdb.Iter.{McdbIter, mcdb_iter_init, iter_dataptr}
use mcdb.Lookup.Walk.{Walks}
use mcdb.Nss.{NssStatus, success, notfound}
use mcdb.Nss.Session.{Session, getent_loop, rewound, walk_on, nss_mcdb_getent, nss_mcdb_setent}
use mcdb.Nss.Session.Loop.{IsTagged, named, again-Walks, getent_loop-Walks}

abbrev pub in_session : Mcdb → Session
in_session m = record { is_open = true; st = m }

module _ ⦃plasma : Plasma⦄ where
  abbrev stopped : Mcdb → McdbIter → Mcdb
  stopped m it = record m { hpos = it.ptr }

  abbrev pointed : Mcdb → McdbIter → Mcdb
  pointed m it = record (stopped m it) { dpos = iter_dataptr it; dlen = it.dlen }

  init_map : (m : Mcdb) → (mcdb_iter_init m).map ≡ m.map
  unfolding mcdb_iter_init
  init_map m = refl

  rewound_again :
      (m : Mcdb) (it : McdbIter)
      → it.map ≡ (rewound m).map
      → it.eod ≡ (rewound m).eod
      → record it { klen = 0; dlen = 0 } ≡ rewound (pointed m it)
  unfolding mcdb_iter_init
  rewound_again m it mp e =
      ap₂ (λ (map : Mmap) (eod : ℕ). record it { klen = 0; dlen = 0; map = map; eod = eod }) mp e

  setent_rewinds :
      (q : Mcdb) (read : Mmap)
      → rewound (record q { map = read; hpos = header_sz })
        ≡ mcdb_iter_init (record q { map = read })
  unfolding mcdb_iter_init
  setent_rewinds q read = refl

  module _ {A : Type 0} where
    -- Calls of nss_mcdb_getent in an open session decode these records in turn, and then find none.
    abbrev pub Lists : ℕ → (Mcdb → NssStatus × A) → A → Mcdb → List (List ℕ × List ℕ) → Type 0
    Lists fuel decode unset m [] =
        (m₁ : Mcdb) × (nss_mcdb_getent fuel (in_session m) none decode unset
          ≡ some ((notfound, unset), in_session m₁))
    Lists fuel decode unset m ((key, value) ∷ es) =
        (m₁ : Mcdb) × (nss_mcdb_getent fuel (in_session m) none decode unset
          ≡ some (decode m₁, in_session m₁))
        × (load m₁.map.mem m₁.dpos m₁.dlen ≡ value)
        × Lists fuel decode unset m₁ es

    -- nss_mcdb_getent behind its loop.
    abbrev after_loop :
        Mcdb
        → (Mcdb → NssStatus × A)
        → A
        → Option (Bool × McdbIter)
        → Option ((NssStatus × A) × Mcdb)
    after_loop m decode unset none = none
    after_loop m decode unset (some (found, it)) =
        if found
        then some (decode (pointed m it), pointed m it)
        else some ((notfound, unset), stopped m it)

    abbrev session_of : Option ((NssStatus × A) × Mcdb) → Option ((NssStatus × A) × Session)
    session_of none = none
    session_of (some (r, k)) = some (r, in_session k)

    abbrev goes_on :
        Mcdb
        → (Mcdb → NssStatus × A)
        → A
        → Option (Bool × McdbIter)
        → Option ((NssStatus × A) × Session)
    goes_on m decode unset o = session_of (after_loop m decode unset o)

    getent_goes :
        (fuel : ℕ) (m : Mcdb) (decode : Mcdb → NssStatus × A) (unset : A)
        → nss_mcdb_getent fuel (in_session m) none decode unset
          ≡ goes_on m decode unset (getent_loop fuel (rewound m))
    unfolding nss_mcdb_getent walk_on
    getent_goes fuel m decode unset = refl

    -- The records are enumerated; `n` bounds how many are left.
    getent-Lists :
        (n fuel : ℕ) (decode : Mcdb → NssStatus × A) (unset : A) (m : Mcdb)
        (rs : List (List ℕ × List ℕ))
        → length rs < n
        → length rs < fuel
        → All IsTagged rs
        → Walks (rewound m) rs
        → Lists fuel decode unset m (named rs)
    getent-Lists zero fuel decode unset m rs bound lt t w = absurd (omega arith)
    getent-Lists (suc n) fuel decode unset m rs bound lt t w =
        let (r, run, out) = getent_loop-Walks fuel (rewound m) rs w t lt in
        let ran : nss_mcdb_getent fuel (in_session m) none decode unset
            ≡ goes_on m decode unset (some r) =
          getent_goes fuel m decode unset ∙ ap (goes_on m decode unset) run in
        elim out [
          | inr ends ↦ subst (Lists fuel decode unset m) (sym ends.0) (
            stopped m r.1,
            ran ∙ ap (λ (b : Bool). goes_on m decode unset (some (b, r.1))) ends.1,
          )
          | inl stops ↦ subst (Lists fuel decode unset m) (sym stops.split) (
            pointed m r.1,
            ran ∙ ap (λ (b : Bool). goes_on m decode unset (some (b, r.1))) stops.on,
            ap (λ (map : Mmap). load map.mem (iter_dataptr r.1) r.1.dlen)
                  (sym (stops.same_map ∙ init_map m))
                ∙ stops.data_there,
            getent-Lists n fuel decode unset (pointed m r.1) stops.later
                (omega (arith, stops.fewer)) (omega (arith, stops.fewer)) stops.tagged
                (subst (λ it. Walks it stops.later)
                  (rewound_again m r.1 stops.same_map stops.same_eod)
                  (again-Walks r.1 0 0 stops.later stops.walks)),
          )
        ]

    -- Let the writer's state be in order and its file hold the records rs behind the header, each
    -- with a key of a byte at least, with less than 2 ^ 31 records in each slot and `pos` below 2
    -- ^ 62, and let more fuel than records be given. When mcdb_make_finish returns 0 and
    -- mcdb_mmap_init opens its file, nss_mcdb_setent of a closed session with that map opens it,
    -- and calls of nss_mcdb_getent then decode the data of the records whose key begins with '=',
    -- in the order of the file, one a call, and then return notfound.
    pub setent-getent :
        (m r : Make) (sys : Sys) (read : Mmap) (q : Mcdb) (rs : List (List ℕ × List ℕ)) (fuel : ℕ)
        (decode : Mcdb → NssStatus × A) (unset : A)
        → IsMake m
        → Few m
        → m.pos < 2 ^ 62
        → Lies m rs
        → mcdb_make_finish m ≡ some (none, r)
        → mcdb_mmap_init sys r.file r.pos ≡ some read
        → All IsTagged rs
        → length rs < fuel
        → let (status, s) = nss_mcdb_setent (record { is_open = false; st = q }) (some read) in
          (status ≡ success) × (s.is_open ≡ true) × Lists fuel decode unset s.st (named rs)
    unfolding nss_mcdb_setent
    setent-getent m r sys read q rs fuel decode unset valid few low lies run opened t lt = (
      refl,
      refl,
      getent-Lists (suc (length rs)) fuel decode unset (record q { map = read; hpos = header_sz })
          rs (omega arith) lt t
          (subst (λ it. Walks it rs) (sym (setent_rewinds q read))
            (finish-Walks m r sys read q rs valid few low lies run opened)),
    )
