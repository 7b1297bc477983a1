-- ===== src/Lookup/Search.antt =====
-- The whole search: mcdb_findtagstart and then mcdb_findtagnext again and again.
use mcdb.Base.{
  ℕ, zero, suc, ◌+◌, ◌*◌, ◌/◌, ◌%◌, ◌^◌, ◌≤◌, ◌<◌, ◌≡◌, refl, sym, ◌∙◌, ap, subst, inl, inr,
}
use mcdb.Base.{List, [], ◌∷◌, Bool, true, false, Option, ◌==◌, if◌then◌else◌, ltb, u64, arith}
use mcdb.Base.{Bool-cases, Option-cases}
use mcdb.Base.Bits.{bit_and_mask}
use native.Mathlib.Nat.{mul-le-mul_right}
use mcdb.Base.Memory.{Memory}
use mcdb.Plasma.{Plasma}
use mcdb.Uint32.{strunpack32, strunpack64}
use mcdb.Mcdb.{Mmap, Mcdb, slots, slot_bits}
use mcdb.Mcdb.Find.{
  stop, next, found, round, round_8, round_16, search_loop, key_hash, mcdb_findtagstart,
  mcdb_findtagnext,
}
use mcdb.Table.{next_slot, select, chain}
use mcdb.Table.Search.{select-nil, select_skip, select_take, chain-zero, chain_here, chain_next}
use mcdb.Make.{Hp}
use mcdb.Lookup.{Searched, AtSlot, hits, IsSearched}
use mcdb.Lookup.Round.{Found, RoundAt, ==-false}
use mcdb.Lookup.Round.Eight.{round_8-RoundAt}
use mcdb.Lookup.Round.Sixteen.{round_16-RoundAt}

module _ ⦃plasma : Plasma⦄ where
  -- The answer `r` and those of the calls of mcdb_findtagnext after it: true with each of the
  -- records in turn, and then false.
  abbrev pub Follows : Mmap → List ℕ → ℕ → List Hp → Bool × Mcdb → Type 0
  Follows read key tagc [] r = r.0 ≡ false
  Follows read key tagc (hp ∷ hps) r =
      (r.0 ≡ true) × Found read hp r.1 × Follows read key tagc hps (mcdb_findtagnext r.1 key tagc)

  module _ (c : Searched) (valid : IsSearched c) (khash : ℕ) (key : List ℕ) (tagc : ℕ) where
    round_by :
        (m : Mcdb) (b : ℕ)
        → m.map.b ≡ b
        → round m key tagc ≡ (if b == 3 then round_8 m key tagc else round_16 m key tagc)
    unfolding round
    round_by m b e = ap (λ (b : ℕ). if b == 3 then round_8 m key tagc else round_16 m key tagc) e

    round-RoundAt :
        (m : Mcdb) (u j : ℕ)
        → AtSlot c khash u j m
        → RoundAt c khash u j (hits c.map.mem khash key tagc) (c.entries u) (round m key tagc)
    round-RoundAt m u j at =
        let does = RoundAt c khash u j (hits c.map.mem khash key tagc) (c.entries u) in
        let stride_read = ap (λ (mp : Mmap). mp.b) at.map in
        elim valid.stride [
          | inl b3 ↦
              subst does (sym (round_by m 3 (stride_read ∙ b3)))
                (round_8-RoundAt c valid khash key tagc m u j b3 at)
          | inr b4 ↦
              subst does (sym (round_by m 4 (stride_read ∙ b4)))
                (round_16-RoundAt c valid khash key tagc m u j b4 at)
        ]

    loop_ended :
        (fuel : ℕ) (m : Mcdb)
        → ltb m.loop m.hslots ≡ false
        → (search_loop fuel m key tagc).0 ≡ false
    unfolding search_loop
    loop_ended zero m e = refl
    loop_ended (suc fuel) m e = rw (e, search_loop) refl

    loop_stop :
        (fuel : ℕ) (m m' : Mcdb)
        → ltb m.loop m.hslots ≡ true
        → round m key tagc ≡ stop m'
        → (search_loop (suc fuel) m key tagc).0 ≡ false
    unfolding search_loop
    loop_stop fuel m m' e run = rw (e, run, search_loop) refl

    loop_next :
        (fuel : ℕ) (m m' : Mcdb)
        → ltb m.loop m.hslots ≡ true
        → round m key tagc ≡ next m'
        → search_loop (suc fuel) m key tagc ≡ search_loop fuel m' key tagc
    unfolding search_loop
    loop_next fuel m m' e run = rw (e, run, search_loop)

    loop_found :
        (fuel : ℕ) (m m' : Mcdb)
        → ltb m.loop m.hslots ≡ true
        → round m key tagc ≡ found m'
        → search_loop (suc fuel) m key tagc ≡ (true, m')
    unfolding search_loop
    loop_found fuel m m' e run = rw (e, run, search_loop)

    findtagnext_loop :
        (m : Mcdb) → mcdb_findtagnext m key tagc ≡ search_loop (m.hslots + 1) m key tagc
    unfolding mcdb_findtagnext
    findtagnext_loop m = refl

    abbrev wanted : Hp → Bool
    wanted = hits c.map.mem khash key tagc

    search-Follows :
        (k fuel : ℕ) (m : Mcdb) (u j : ℕ)
        → AtSlot c khash u j m
        → j + k ≡ c.len
        → k < fuel
        → Follows c.map key tagc
            (select wanted (chain c.len k c.entries u))
            (search_loop fuel m key tagc)
    search-Follows zero fuel m u j at left enough =
        let ended : ltb m.loop m.hslots ≡ false = rw (at.loop, at.hslots) (ground arith) in
        subst (λ es. Follows c.map key tagc es (search_loop fuel m key tagc))
          (sym (ap (select wanted) (chain-zero c.len c.entries u) ∙ select-nil wanted))
          (loop_ended fuel m ended)
    search-Follows (suc k) zero m u j at left enough = absurd (omega arith)
    search-Follows (suc k) (suc fuel) m u j at left enough =
        let going : ltb m.loop m.hslots ≡ true = rw (at.loop, at.hslots) (ground arith) in
        let here = round-RoundAt m u j at in
        let does = λ (o : Option Hp). RoundAt c khash u j wanted o (round m key tagc) in
        elim (Option-cases (c.entries u)) [
          | inl o ↦
              let (m', run) = subst does o here in
              subst (λ es. Follows c.map key tagc es (search_loop (suc fuel) m key tagc))
                (sym (ap (select wanted) (chain_here c.len c.entries k u o) ∙ select-nil wanted))
                (loop_stop fuel m m' going run)
          | inr (hp, o) ↦
              let (m', run, at', there) = subst does o here in
              let met = ap (select wanted) (chain_next c.len c.entries k u hp o) in
              let rest = λ (fuel : ℕ) (enough : k < fuel).
                search-Follows k fuel m' (next_slot c.len u) (j + 1) at' (omega arith) enough in
              elim (Bool-cases (wanted hp)) [
                | inl hit ↦
                    subst (λ es. Follows c.map key tagc es (search_loop (suc fuel) m key tagc))
                      (sym (met ∙ select_take wanted hp _ hit))
                      (subst
                        (Follows c.map key tagc
                          (hp ∷ select wanted (chain c.len k c.entries (next_slot c.len u))))
                        (sym (
                          loop_found fuel m m' going
                            (run ∙ ap (λ t. if t then found m' else next m') hit)))
                        (
                          refl,
                          there hit,
                          subst
                              (Follows c.map key tagc
                                (select wanted (chain c.len k c.entries (next_slot c.len u))))
                              (sym (findtagnext_loop m'))
                              (rest (m'.hslots + 1) (omega (arith, at'.hslots))),
                        ))
                | inr miss ↦
                    subst (λ es. Follows c.map key tagc es (search_loop (suc fuel) m key tagc))
                      (sym (met ∙ select_skip wanted hp _ miss))
                      (subst
                        (Follows c.map key tagc
                          (select wanted (chain c.len k c.entries (next_slot c.len u))))
                        (sym (
                          loop_next fuel m m' going
                            (run ∙ ap (λ t. if t then found m' else next m') miss)))
                        (rest fuel (omega arith)))
              ]
        ]

  -- The header entry for `khash` names the table.
  pub record Named (c : Searched) (khash : ℕ) : Type 0 where
    pub hpos : strunpack64 c.map.mem (khash % slots * 16) ≡ c.base
    pub hslots : strunpack32 c.map.mem (khash % slots * 16 + 8) ≡ c.len

  -- Where a search for a hash begins.
  abbrev pub start_slot : Searched → ℕ → ℕ
  start_slot c khash = khash / 2 ^ slot_bits % c.len

  module _ (c : Searched) (valid : IsSearched c) (q : Mcdb) (key : List ℕ) (tagc : ℕ) where
    start_reads :
        (khash : ℕ)
        → key_hash q.map key tagc ≡ khash
        → 0 < c.len
        → Named c khash
        → mcdb_findtagstart q c.map key tagc ≡ (
          true,
          record q {
            map = c.map;
            hpos = c.base;
            hslots = c.len;
            loop = 0;
            kpos = u64 (c.base + u64 (start_slot c khash * 2 ^ c.map.b));
            khash = khash;
          },
        )
    unfolding mcdb_findtagstart
    start_reads khash hash pos named =
        rw (hash, bit_and_mask 8 khash, named.hpos, named.hslots, ==-false c.len pos)

    start_inside :
        (khash : ℕ)
        → 0 < c.len
        → start_slot c khash * 2 ^ c.map.b + 2 ^ c.map.b ≤ c.len * 2 ^ c.map.b
    start_inside khash pos =
        let below : start_slot c khash + 1 ≤ c.len = omega arith in
        let le : (start_slot c khash + 1) * 2 ^ c.map.b ≤ c.len * 2 ^ c.map.b =
          mul-le-mul_right (2 ^ c.map.b) below in
        omega (arith, le)

    start-AtSlot :
        (khash : ℕ)
        → key_hash q.map key tagc ≡ khash
        → 0 < c.len
        → Named c khash
        → ((mcdb_findtagstart q c.map key tagc).0 ≡ true)
          × AtSlot c khash (start_slot c khash) 0 (mcdb_findtagstart q c.map key tagc).1
    start-AtSlot khash hash pos named = rw (start_reads khash hash pos named) (
      refl,
      record {
        map = refl;
        hpos = refl;
        hslots = refl;
        same_hash = refl;
        kpos = omega (arith, valid.ends, start_inside khash pos);
        loop = refl;
        inside = omega arith;
      },
    )

    pub findtag-chain :
        (khash : ℕ)
        → key_hash q.map key tagc ≡ khash
        → 0 < c.len
        → Named c khash
        → let r = mcdb_findtagstart q c.map key tagc in
          (r.0 ≡ true)
          × Follows c.map key tagc
              (select
                (hits c.map.mem khash key tagc)
                (chain c.len c.len c.entries (start_slot c khash)))
              (mcdb_findtagnext r.1 key tagc)
    findtag-chain khash hash pos named =
        let (started, at) = start-AtSlot khash hash pos named in
        let m = (mcdb_findtagstart q c.map key tagc).1 in
        (
          started,
          subst
              (Follows c.map key tagc (
                select (hits c.map.mem khash key tagc)
                  (chain c.len c.len c.entries (start_slot c khash))))
              (sym (findtagnext_loop c valid khash key tagc m))
              (search-Follows c valid khash key tagc c.len (m.hslots + 1) m (start_slot c khash) 0
                at (omega arith) (omega (arith, at.hslots))),
        )

  -- A slot that the header gives no table.
  pub start_none :
      (q : Mcdb) (read : Mmap) (key : List ℕ) (tagc khash : ℕ)
      → key_hash q.map key tagc ≡ khash
      → strunpack32 read.mem (khash % slots * 16 + 8) ≡ 0
      → (mcdb_findtagstart q read key tagc).0 ≡ false
  unfolding mcdb_findtagstart
  start_none q read key tagc khash hash empty = rw (hash, bit_and_mask 8 khash, empty) refl

  -- A match has the hash.
  pub hits-hash :
      (mem : Memory) (khash : ℕ) (key : List ℕ) (tagc : ℕ) (hp : Hp)
      → hits mem khash key tagc hp ≡ true
      → hp.h ≡ khash
  unfolding hits
  hits-hash mem khash key tagc hp h = ground arith
