-- ===== src/Mcdb/Registry/Counts.antt =====
-- What the registrations of mcdb.c do to the counts of references.
use mcdb.Base.{
  ℕ, ◌+◌, ◌%◌, ◌^◌, ◌<◌, ◌≡◌, refl, ap, ◌∙◌, List, [], ◌∷◌, Bool, true, false, not, Option, none,
  some, inl, inr, All,
}
use mcdb.Base.{◌==◌, ==_iff, arith, Bool-cases}
use mcdb.Mcdb.Registry.{
  Node, newer_bit, guard_bit, clear_bit, set_bit, refs, take_ref, drop_ref, take_last, last_address,
  sweep, reopen_attach, reopen_end, Registered, give_up_ref, mcdb_mmap_thread_registration,
  reopen_begin, mcdb_mmap_reopen_threadsafe,
}

-- No registered pointer counts for a map, and no thread reopens it.
abbrev pub Unused : Node → Type 0
Unused n = (refs n ≡ 0) × (n.refcnt < guard_bit)

clear-Unused : (n : Node) → clear_bit n.refcnt newer_bit ≡ 0 → Unused n
unfolding clear_bit
clear-Unused n e = ground arith

sweep-Unused : (unmap chain : List Node) → All Unused unmap → All Unused (sweep unmap chain).0
unfolding sweep
sweep-Unused unmap [] h = h
sweep-Unused unmap (next ∷ rest) h = elim (Bool-cases (clear_bit next.refcnt newer_bit == 0)) [
  | inl e ↦ rw e (sweep-Unused (next ∷ unmap) rest (clear-Unused next ((==_iff _ 0).0 e), h))
  | inr e ↦ rw e h
]

give_up_ref-Unused :
    (map : Node) (rest : List Node) (kept left : Option ℕ)
    → All Unused (give_up_ref map rest kept left).freed
unfolding give_up_ref
give_up_ref-Unused map rest kept left = elim (Bool-cases ((drop_ref map).refcnt == 0)) [
  | inl e ↦
      let zero_refs = (==_iff (drop_ref map).refcnt 0).0 e in
      rw e ((omega (arith, zero_refs), omega (arith, zero_refs)), sweep-Unused [] rest tt)
  | inr e ↦ rw e tt
]

-- Each map that mcdb_mmap_thread_registration frees, for any chain of maps and either direction,
-- has no registered pointer counted in its refcnt and is not guarded by a thread that reopens it.
pub registration-Unused :
    (incr : Bool) (chain : List Node) → All Unused (mcdb_mmap_thread_registration incr chain).freed
unfolding mcdb_mmap_thread_registration
registration-Unused true [] = tt
registration-Unused false [] = tt
registration-Unused true (map ∷ []) = elim (Bool-cases (not map.mapped)) [
  | inl e ↦ rw e tt
  | inr e ↦ rw e tt
]
registration-Unused true (map ∷ next ∷ rest) = elim (Bool-cases (not map.mapped)) [
  | inl e ↦ rw e tt
  | inr e ↦ rw e (give_up_ref-Unused map (take_last next rest) _ _)
]
registration-Unused false (map ∷ rest) = give_up_ref-Unused map rest (some map.address) none

-- The registered pointers that a chain counts.
abbrev pub total : List Node → ℕ
total [] = 0
total (n ∷ chain) = refs n + total chain

-- One more reference does not run into the bits of the flags.
abbrev pub Roomy : Node → Type 0
Roomy n = (refs n + 1 < 2 ^ 30) × (n.refcnt < 2 ^ 32)

refs-take_ref : (n : Node) → Roomy n → refs (take_ref n) ≡ refs n + 1
refs-take_ref n h = omega arith

refs-drop_ref : (n : Node) → n.refcnt < 2 ^ 32 → 0 < refs n → refs (drop_ref n) + 1 ≡ refs n
refs-drop_ref n low h = omega arith

refs_clear : (r : ℕ) → clear_bit r newer_bit % 2 ^ 30 ≡ r % 2 ^ 30
unfolding clear_bit
refs_clear r = ground arith

total-take_last :
    (next : Node) (rest : List Node)
    → All Roomy (next ∷ rest)
    → total (take_last next rest) ≡ total (next ∷ rest) + 1
unfolding take_last
total-take_last next [] h = omega (arith, refs-take_ref next h.0)
total-take_last next (later ∷ rest) h = omega (arith, total-take_last later rest h.1)

total-sweep : (unmap chain : List Node) → total (sweep unmap chain).1 ≡ total chain
unfolding sweep
total-sweep unmap [] = refl
total-sweep unmap (next ∷ rest) = elim (Bool-cases (clear_bit next.refcnt newer_bit == 0)) [
  | inl e ↦
      let unused = clear-Unused next ((==_iff _ 0).0 e) in
      rw e (omega (arith, total-sweep (next ∷ unmap) rest, unused))
  | inr e ↦ rw e (omega (arith, refs_clear next.refcnt))
]

total-give_up_ref :
    (map : Node) (rest : List Node) (kept left : Option ℕ)
    → map.refcnt < 2 ^ 32
    → 0 < refs map
    → total (give_up_ref map rest kept left).chain + 1 ≡ total (map ∷ rest)
unfolding give_up_ref
total-give_up_ref map rest kept left low pos =
    let dropped = refs-drop_ref map low pos in
    elim (Bool-cases ((drop_ref map).refcnt == 0)) [
      | inl e ↦
          let none_left = (==_iff (drop_ref map).refcnt 0).0 e in
          rw e (omega (arith, total-sweep [] rest, dropped, none_left))
      | inr e ↦ rw e (omega (arith, dropped))
    ]

-- What a registration adds to the count of the chain from `map` on.
abbrev pub Counted : Bool → Node → List Node → Registered → Type 0
Counted false map rest r = total r.chain + 1 ≡ total (map ∷ rest)
Counted true map [] r = total r.chain ≡ total (map ∷ []) + 1
Counted true map (next ∷ rest) r = total r.chain ≡ total (map ∷ next ∷ rest)

-- A registration that finds a successor moves *mapptr to the newest map.
registration_moves :
    (map next : Node) (rest : List Node)
    → map.mapped ≡ true
    → let last = some (last_address next rest) in
      mcdb_mmap_thread_registration true (map ∷ next ∷ rest)
      ≡ give_up_ref map (take_last next rest) last last
unfolding mcdb_mmap_thread_registration
registration_moves map next rest there = ground arith

-- Let the first map of a chain be mapped with a registered pointer, and every map's refcnt fit 32
-- bits with room for one more. Then mcdb_mmap_thread_registration takes 1 from the chain's
-- registered pointers when it unregisters, adds 1 when it registers with a map without successor,
-- and leaves their number when it registers through a map with a successor.
pub registration-Counted :
    (incr : Bool) (map : Node) (rest : List Node)
    → map.mapped ≡ true
    → 0 < refs map
    → All Roomy (map ∷ rest)
    → Counted incr map rest (mcdb_mmap_thread_registration incr (map ∷ rest))
unfolding mcdb_mmap_thread_registration
registration-Counted false map rest there pos room =
    total-give_up_ref map rest (some map.address) none room.0.1 pos
registration-Counted true map [] there pos room = rw there (omega (arith, refs-take_ref map room.0))
registration-Counted true map (next ∷ rest) there pos room =
    let last = some (last_address next rest) in
    ap (λ (r : Registered). total r.chain) (registration_moves map next rest there)
    ∙ omega (
      arith,
      total-give_up_ref map (take_last next rest) last last room.0.1 pos,
      total-take_last next rest room.1,
    )

-- For a map without guard and successor, a call of mcdb_mmap_reopen_threadsafe whose allocation
-- or opening fails, while no other thread acts, returns false, and the next call returns true and
-- leaves the map as it is, whatever the system would answer and other threads would do.
pub reopen_stuck :
    (map : Node) (others others₂ : List Node → List Node) (opened : Option Node)
    → map.refcnt < guard_bit
    → let first = mcdb_mmap_reopen_threadsafe (map ∷ []) (λ chain. chain) (λ chain. chain) none in
      (first.0 ≡ false)
      × (mcdb_mmap_reopen_threadsafe first.1 others others₂ opened ≡ (true, first.1))
unfolding mcdb_mmap_reopen_threadsafe reopen_begin set_bit
reopen_stuck map others others₂ opened low = (ground arith, ground arith)

-- When one pointer is registered with a map that is mapped and has no successor, no other thread
-- acts, and the file opens with refcnt 0, mcdb_mmap_reopen_threadsafe returns true and leaves the
-- new map alone in the chain, with one pointer registered.
pub reopen_moves :
    (map next : Node)
    → map.mapped ≡ true
    → map.refcnt ≡ 1
    → next.refcnt ≡ 0
    → mcdb_mmap_reopen_threadsafe (map ∷ []) (λ chain. chain) (λ chain. chain) (some next)
      ≡ (true, record next { refcnt = 1 } ∷ [])
unfolding mcdb_mmap_reopen_threadsafe reopen_begin reopen_attach reopen_end set_bit clear_bit
    mcdb_mmap_thread_registration give_up_ref take_last last_address sweep
reopen_moves map next there one zero_refs = ground arith
