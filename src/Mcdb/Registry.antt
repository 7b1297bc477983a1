-- ===== src/Mcdb/Registry.antt =====
-- mcdb_mmap_thread_registration and mcdb_mmap_reopen_threadsafe of mcdb.c: threads share a chain of
-- maps, the newest last, and each map counts the pointers that are registered with it. What stands
-- between two locks of the global spinlock is one step.
pub mod Counts
pub mod Kept
use mcdb.Base.{
  ℕ, zero, suc, ◌+◌, ◌-◌, ◌/◌, ◌%◌, ◌^◌, List, [], ◌∷◌, Bool, true, false, not, ◌&&◌, ◌||◌, Option,
  none, some,
}
use mcdb.Base.{ltb, ◌==◌, if◌then◌else◌, u32}

-- A struct mcdb_mmap in the chain: its address, refcnt, and whether ptr is not NULL.
pub record Node : Type 0 where
  pub address : ℕ
  pub refcnt : ℕ
  pub mapped : Bool

-- 0x40000000: not the oldest of its chain. 0x80000000: a thread reopens it.
abbrev pub newer_bit : ℕ
newer_bit = 2 ^ 30

abbrev pub guard_bit : ℕ
guard_bit = 2 ^ 31

-- r & ~bit and r | bit, for a bit of the 32.
unfoldable pub clear_bit : ℕ → ℕ → ℕ
clear_bit r bit = if r / bit % 2 == 1 then r - bit else r

unfoldable pub set_bit : ℕ → ℕ → ℕ
set_bit r bit = if r / bit % 2 == 1 then r else r + bit

-- The registered pointers that refcnt counts.
abbrev pub refs : Node → ℕ
refs n = n.refcnt % 2 ^ 30

abbrev pub take_ref : Node → Node
take_ref n = record n { refcnt = u32 (n.refcnt + 1) }

abbrev pub drop_ref : Node → Node
drop_ref n = record n { refcnt = u32 (n.refcnt + 2 ^ 32 - 1) }

-- while (next->next != NULL) next = next->next; ++next->refcnt
unfoldable pub take_last : Node → List Node → List Node
take_last next [] = take_ref next ∷ []
take_last next (later ∷ rest) = next ∷ take_last later rest

unfoldable pub last_address : Node → List Node → ℕ
last_address next [] = next.address
last_address next (later ∷ rest) = last_address later rest

-- The loop over the maps behind one that is given up: those without references go to `unmap`, and the
-- first with one is the oldest from now on.
unfoldable pub sweep : List Node → List Node → List Node × List Node
unfolding clear_bit
sweep unmap [] = (unmap, [])
sweep unmap (next ∷ rest) =
    let swept = sweep (next ∷ unmap) rest in
    if clear_bit next.refcnt newer_bit == 0
    then swept
    else (unmap, record next { refcnt = clear_bit next.refcnt newer_bit } ∷ rest)

-- What a registration returns (`none` for NULL), what is in *mapptr, the chain from the oldest map
-- that is left on, and the maps that are freed.
pub record Registered : Type 0 where
  pub result : Option ℕ
  pub pointer : Option ℕ
  pub chain : List Node
  pub freed : List Node

-- if (--map->refcnt == 0) …, where `pointer` is what *mapptr is to be.
unfoldable pub give_up_ref : Node → List Node → Option ℕ → Option ℕ → Registered
unfolding sweep
give_up_ref map rest kept gone =
    let map₁ = drop_ref map in
    let (unmap, chain) = sweep [] rest in
    if map₁.refcnt == 0
    then record { result = some map.address; pointer = gone; chain = chain; freed = map₁ ∷ unmap }
    else record { result = some map.address; pointer = kept; chain = map₁ ∷ rest; freed = [] }

-- The chain is that of *mapptr, empty for NULL; `incr` is MCDB_REGISTER_USE_INCR. A result that is not
-- NULL for a NULL *mapptr is the address 1.
unfoldable pub mcdb_mmap_thread_registration : Bool → List Node → Registered
mcdb_mmap_thread_registration incr [] = record {
  result = if incr then none else some 1;
  pointer = none;
  chain = [];
  freed = [];
}
mcdb_mmap_thread_registration true (map ∷ []) =
    if not map.mapped
    then record { result = none; pointer = some map.address; chain = map ∷ []; freed = [] }
    else record {
      result = some map.address;
      pointer = some map.address;
      chain = take_ref map ∷ [];
      freed = [];
    }
mcdb_mmap_thread_registration true (map ∷ next ∷ rest) =
    let last = some (last_address next rest) in
    if not map.mapped
    then record { result = none; pointer = some map.address; chain = map ∷ next ∷ rest; freed = [] }
    else give_up_ref map (take_last next rest) last last
mcdb_mmap_thread_registration false (map ∷ rest) = give_up_ref map rest (some map.address) none

-- The first step of mcdb_mmap_reopen_threadsafe: the call is over with a registration, or since
-- another thread reopens the map; or the map is guarded and this thread goes on.
pub data Begun : Type 0 where
  registered : Registered → Begun
  in_progress : Begun
  guarded : List Node → Begun

-- The empty chain is out of the question, since the code reads map->next at once.
unfoldable pub reopen_begin : List Node → Begun
unfolding mcdb_mmap_thread_registration set_bit
reopen_begin [] = in_progress
reopen_begin (map ∷ next ∷ rest) =
    registered (mcdb_mmap_thread_registration true (map ∷ next ∷ rest))
reopen_begin (map ∷ []) =
    if ltb map.refcnt guard_bit
    then guarded (record map { refcnt = set_bit map.refcnt guard_bit } ∷ [])
    else in_progress

-- map->next = next, which needs no lock since one thread only has the guard.
unfoldable pub reopen_attach : Node → List Node → List Node
unfolding set_bit
reopen_attach next [] = []
reopen_attach next (map ∷ rest) = map ∷ record next { refcnt = set_bit next.refcnt newer_bit } ∷ []

-- The last step: the guard is taken off, and *mapptr moves on.
unfoldable pub reopen_end : List Node → Registered
unfolding clear_bit mcdb_mmap_thread_registration
reopen_end [] = mcdb_mmap_thread_registration true []
reopen_end (map ∷ rest) =
    mcdb_mmap_thread_registration true
      (record map { refcnt = clear_bit map.refcnt guard_bit } ∷ rest)

abbrev succeeded : Registered → Bool
succeeded r = elim r.result [ none ↦ false | some a ↦ true ]

-- The whole call, for a *mapptr that no other thread moves. `others` is what other threads do to the
-- chain while the map is opened, and `others₂` between its attachment and the last lock; `opened` is
-- the copy that mcdb_mmap_reopen filled, `none` when there is no fn_malloc, or it or
-- mcdb_mmap_reopen fails. The result is what the call returns, and the chain that it leaves.
unfoldable pub mcdb_mmap_reopen_threadsafe :
    List Node → (List Node → List Node) → (List Node → List Node) → Option Node → Bool × List Node
unfolding reopen_begin reopen_attach reopen_end
mcdb_mmap_reopen_threadsafe chain others others₂ opened = elim (reopen_begin chain) [
  | registered r ↦ (succeeded r, r.chain)
  | in_progress ↦ (true, chain)
  | guarded chain₁ ↦ elim opened [
    | none ↦ (false, others chain₁)
    | some next ↦
        let r = reopen_end (others₂ (reopen_attach next (others chain₁))) in (succeeded r, r.chain)
  ]
]
