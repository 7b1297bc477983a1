-- ===== src/Mcdb/Registry/Kept.antt =====
-- What the registrations of mcdb.c do to the maps of the chain: they stay in it or are freed.
use mcdb.Base.{
  ℕ, ◌+◌, ◌≡◌, refl, ap, ◌∙◌, List, [], ◌∷◌, Bool, true, false, not, Option, none, some, inl, inr,
}
use mcdb.Base.{if◌then◌else◌, ◌==◌, arith, Bool-cases}
use mcdb.Mcdb.Registry.{
  Node, newer_bit, clear_bit, drop_ref, take_last, sweep, give_up_ref,
  mcdb_mmap_thread_registration,
}

-- How often a map of that address stands in a list.
abbrev pub times : ℕ → List Node → ℕ
times address [] = 0
times address (n ∷ rest) =
    if n.address == address then times address rest + 1 else times address rest

times-take_last :
    (a : ℕ) (next : Node) (rest : List Node) → times a (take_last next rest) ≡ times a (next ∷ rest)
unfolding take_last
times-take_last a next [] = refl
times-take_last a next (later ∷ rest) =
    ap (λ (k : ℕ). if next.address == a then k + 1 else k) (times-take_last a later rest)

times-sweep :
    (a : ℕ) (unmap chain : List Node)
    → let (freed, kept) = sweep unmap chain in
      times a freed + times a kept ≡ times a unmap + times a chain
unfolding sweep
times-sweep a unmap [] = refl
times-sweep a unmap (next ∷ rest) = elim (Bool-cases (clear_bit next.refcnt newer_bit == 0)) [
  | inl e ↦ rw e (ground (arith, times-sweep a (next ∷ unmap) rest))
  | inr e ↦ rw e (omega arith)
]

times-give_up_ref :
    (a : ℕ) (map : Node) (rest : List Node) (kept left : Option ℕ)
    → let r = give_up_ref map rest kept left in
      times a r.freed + times a r.chain ≡ times a (map ∷ rest)
unfolding give_up_ref
times-give_up_ref a map rest kept left = elim (Bool-cases ((drop_ref map).refcnt == 0)) [
  | inl e ↦ rw e (ground (arith, times-sweep a [] rest))
  | inr e ↦ rw e (omega arith)
]

-- For any chain of maps and either direction, mcdb_mmap_thread_registration loses no map and
-- frees none twice: an address stands as often in the maps that are freed and the chain that is
-- left, taken together, as it stood in the chain.
pub registration_keeps :
    (incr : Bool) (chain : List Node) (a : ℕ)
    → let r = mcdb_mmap_thread_registration incr chain in
      times a r.freed + times a r.chain ≡ times a chain
unfolding mcdb_mmap_thread_registration
registration_keeps true [] a = refl
registration_keeps false [] a = refl
registration_keeps true (map ∷ []) a = elim (Bool-cases (not map.mapped)) [
  | inl e ↦ rw e (omega arith)
  | inr e ↦ rw e (omega arith)
]
registration_keeps true (map ∷ next ∷ rest) a = elim (Bool-cases (not map.mapped)) [
  | inl e ↦ rw e (omega arith)
  | inr e ↦ rw e (
      times-give_up_ref a map (take_last next rest) _ _
      ∙ ap (λ (k : ℕ). if map.address == a then k + 1 else k) (times-take_last a next rest))
]
registration_keeps false (map ∷ rest) a = times-give_up_ref a map rest (some map.address) none
