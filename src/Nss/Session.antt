-- ===== src/Nss/Session.antt =====
-- Queries and walks through a database: nss/nss_mcdb.c.
pub mod Loop
pub mod Walk
use mcdb.Base.{
  ℕ, zero, suc, ◌+◌, ◌-◌, ◌*◌, ◌^◌, List, [], ◌∷◌, ◌++◌, Bool, true, false, not, ◌&&◌, Option, none,
  some,
}
use mcdb.Base.{ltb, ◌==◌, if◌then◌else◌}
use mcdb.Base.Memory.{Memory, load, store}
use mcdb.Plasma.{Plasma}
use mcdb.Mcdb.{Mmap, Mcdb, header_sz}
use mcdb.Mcdb.Find.{mcdb_findtagstart, mcdb_findtagnext}
use mcdb.Mcdb.Iter.{McdbIter, mcdb_iter_init, mcdb_iter, iter_keyptr, iter_dataptr}
use mcdb.Mcdb.Registry.{Node, Registered, mcdb_mmap_thread_registration}
use mcdb.Nss.{NssStatus, success, notfound, tryagain, unavail}

-- _nss_mcdb_st[dbtype]: `is_open` is map != NULL.
pub record Session : Type 0 where
  pub is_open : Bool
  pub st : Mcdb

-- `shared` is what _nss_mcdb_db_getshared returns, `none` for NULL.
unfoldable pub nss_mcdb_setent : Session → Option Mmap → NssStatus × Session
nss_mcdb_setent s shared =
    if s.is_open
    then (success, record s { st = record s.st { hpos = header_sz } })
    else elim shared [
      | none ↦ (unavail, s)
      | some map ↦
          (success, record { is_open = true; st = record s.st { map = map; hpos = header_sz } })
    ]

-- `chain` is the chain of maps from the session's on.
unfoldable pub nss_mcdb_endent : Session → List Node → NssStatus × (Session × Option Registered)
unfolding mcdb_mmap_thread_registration
nss_mcdb_endent s chain =
    let released = mcdb_mmap_thread_registration false chain in
    let s₁ = record s { is_open = false } in
    if not s.is_open then (success, (s₁, none)) else elim released.result [
      | none ↦ (unavail, (s₁, some released))
      | some map ↦ (success, (s₁, some released))
    ]

module _ ⦃plasma : Plasma⦄ where
  -- The while loop, with true when it finds a key that begins with '=', 61.
  unfoldable pub getent_loop : ℕ → McdbIter → Option (Bool × McdbIter)
  unfolding mcdb_iter
  getent_loop zero iter = none
  getent_loop (suc fuel) iter =
      let (more, iter₁) = mcdb_iter iter in
      let rest = getent_loop fuel iter₁ in
      if not more
      then some (false, iter₁)
      else if iter₁.map.mem (iter_keyptr iter₁) == 61
      then some (true, iter₁)
      else rest

  abbrev pub rewound : Mcdb → McdbIter
  rewound m = record (mcdb_iter_init m) { ptr = m.hpos }

  module _ {A : Type 0} where
    -- `decode` is v->decode, and `unset` the caller's struct and buffer as they were.
    unfoldable pub walk_on : ℕ → Mcdb → (Mcdb → NssStatus × A) → A → Option ((NssStatus × A) × Mcdb)
    unfolding mcdb_iter_init getent_loop
    walk_on fuel m decode unset = elim (getent_loop fuel (rewound m)) [
      | none ↦ none
      | some (found, iter) ↦
          let m₁ = record m { hpos = iter.ptr } in
          let m₂ = record m₁ { dpos = iter_dataptr iter; dlen = iter.dlen } in
          if found then some (decode m₂, m₂) else some ((notfound, unset), m₁)
    ]

    unfoldable pub nss_mcdb_getent :
        ℕ → Session → Option Mmap → (Mcdb → NssStatus × A) → A → Option ((NssStatus × A) × Session)
    unfolding nss_mcdb_setent walk_on
    nss_mcdb_getent fuel s shared decode unset =
        let (status, s₁) = if s.is_open then (success, s) else nss_mcdb_setent s shared in
        elim status [
          | success ↦ elim (walk_on fuel s₁.st decode unset) [
            | none ↦ none
            | some (r, m) ↦ some (r, record s₁ { st = m })
          ]
          | _ ↦ some ((unavail, unset), s₁)
        ]

    -- `m.map` is the shared map of a fresh struct mcdb, and `refreshed` what the lookup makes of it.
    unfoldable pub nss_mcdb_get_generic :
        Option Mcdb → Mmap → List ℕ → ℕ → (Mcdb → NssStatus × A) → A → NssStatus × A
    unfolding mcdb_findtagstart mcdb_findtagnext
    nss_mcdb_get_generic none refreshed key tagc decode unset = (unavail, unset)
    nss_mcdb_get_generic (some m) refreshed key tagc decode unset =
        let (started, m₁) = mcdb_findtagstart m refreshed key tagc in
        let (rc, m₂) = mcdb_findtagnext m₁ key tagc in
        if started && rc then decode m₂ else (notfound, unset)

  -- The first record of a key, whose position the session keeps.
  unfoldable pub nss_mcdb_getentstart :
      Session → Option Mmap → Mmap → List ℕ → ℕ → NssStatus × Session
  unfolding nss_mcdb_setent mcdb_findtagstart mcdb_findtagnext
  nss_mcdb_getentstart s shared refreshed key tagc =
      let (status, s₁) = nss_mcdb_setent s shared in
      let (started, m₁) = mcdb_findtagstart s₁.st refreshed key tagc in
      let (rc, m₂) = mcdb_findtagnext m₁ key tagc in
      elim status [
        | success ↦
            if not started
            then (notfound, record s₁ { st = m₁ })
            else (if rc then success else notfound, record s₁ { st = m₂ })
        | _ ↦ (unavail, s₁)
      ]

-- Decodes what the search before has found, as its `loop` tells.
unfoldable pub nss_mcdb_getnetgrentnext {ℓ} :
    {A : Type ℓ} → Session → (Mcdb → NssStatus × A) → A → NssStatus × A
nss_mcdb_getnetgrentnext s decode unset =
    if not s.is_open
    then (unavail, unset)
    else if not (s.st.loop == 0)
    then decode s.st
    else (notfound, unset)

-- The data and a '\0' in the caller's buffer at `buf`.
unfoldable pub nss_mcdb_buf_decode : Memory → ℕ → ℕ → Mcdb → NssStatus × Memory
nss_mcdb_buf_decode out buf bufsz m =
    if ltb m.dlen bufsz
    then (success, store (store out buf (load m.map.mem m.dpos m.dlen)) (buf + m.dlen) (0 ∷ []))
    else (tryagain, out)
