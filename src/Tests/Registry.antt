-- ===== src/Tests/Registry.antt =====
-- Chains of maps at concrete counts.
use mcdb.Base.{◌+◌, ◌≡◌, refl, [], ◌∷◌, true, false, none, some, All}
use mcdb.Base.{arith}
use mcdb.Mcdb.Registry.{Node, newer_bit, mcdb_mmap_thread_registration, mcdb_mmap_reopen_threadsafe}
use mcdb.Mcdb.Registry.Counts.{
  Unused, Counted, registration-Unused, registration-Counted, reopen_stuck, reopen_moves,
}
use mcdb.Mcdb.Registry.Kept.{times, registration_keeps}

-- One pointer is registered with the oldest map, none with the second, one with the newest.
abbrev oldest : Node
oldest = record { address = 1000; refcnt = 1; mapped = true }

abbrev second : Node
second = record { address = 2000; refcnt = newer_bit; mapped = true }

abbrev newest : Node
newest = record { address = 3000; refcnt = newer_bit + 1; mapped = true }

abbrev opened_map : Node
opened_map = record { address = 4000; refcnt = 0; mapped = true }

registration-Unused_example :
    All Unused (mcdb_mmap_thread_registration true (oldest ∷ second ∷ newest ∷ [])).freed
registration-Unused_example = registration-Unused true (oldest ∷ second ∷ newest ∷ [])

registration-Counted_example :
    Counted true oldest
      (second ∷ newest ∷ [])
      (mcdb_mmap_thread_registration true (oldest ∷ second ∷ newest ∷ []))
registration-Counted_example =
    registration-Counted true oldest (second ∷ newest ∷ []) refl (omega arith)
      ((omega arith, omega arith), ((omega arith, omega arith), ((omega arith, omega arith), tt)))

registration_keeps_example :
    let r = mcdb_mmap_thread_registration true (oldest ∷ second ∷ newest ∷ []) in
    times 2000 r.freed + times 2000 r.chain ≡ 1
registration_keeps_example = registration_keeps true (oldest ∷ second ∷ newest ∷ []) 2000

reopen_stuck_example :
    let first = mcdb_mmap_reopen_threadsafe (oldest ∷ []) (λ chain. chain) (λ chain. chain) none in
    (first.0 ≡ false)
    × (mcdb_mmap_reopen_threadsafe first.1 (λ chain. chain) (λ chain. chain) (some opened_map)
        ≡ (true, first.1))
reopen_stuck_example =
    reopen_stuck oldest (λ chain. chain) (λ chain. chain) (some opened_map) (omega arith)

reopen_moves_example :
    mcdb_mmap_reopen_threadsafe (oldest ∷ []) (λ chain. chain) (λ chain. chain) (some opened_map)
    ≡ (true, record opened_map { refcnt = 1 } ∷ [])
reopen_moves_example = reopen_moves oldest opened_map refl refl refl
