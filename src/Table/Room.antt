-- ===== src/Table/Room.antt =====
-- A table with more slots than entries always has room.
use mcdb.Base.{
  ℕ, zero, suc, ◌+◌, ◌-◌, ◌≤◌, ◌<◌, ◌≡◌, ◌≢◌, refl, ◌∙◌, subst, inl, inr, Option, none, some,
}
use mcdb.Base.{List, [], ◌∷◌, if◌then◌else◌, Bool-cases, Option-cases, ltb, length, arith}
use mcdb.Table.{Slots, put, first_empty, fill}
use mcdb.Table.Ring.{walk, walk_closed, Full-walk, first_empty-none}
use mcdb.Table.Search.{fill_next}

module _ {E : Type 0} where
  taken : Option E → ℕ
  taken none = 0
  taken (some x) = 1

  -- The entries in the first `k` slots.
  unfoldable pub occupied : ℕ → Slots E → ℕ
  unfolding taken
  occupied zero t = 0
  occupied (suc k) t = taken (t k) + occupied k t

  occupied-put_within :
      (k : ℕ) (t : Slots E) (q : ℕ) (e : E)
      → occupied k (put t q e) ≤ occupied k t + (if ltb q k then 1 else 0)
  unfolding occupied put
  occupied-put_within zero t q e = ground arith
  occupied-put_within (suc k) t q e = ground (arith, occupied-put_within k t q e)

  occupied-put : (k : ℕ) (t : Slots E) (q : ℕ) (e : E) → occupied k (put t q e) ≤ occupied k t + 1
  occupied-put k t q e = ground (arith, occupied-put_within k t q e)

  taken_some : (o : Option E) → o ≢ none → taken o ≡ 1
  unfolding taken
  taken_some none h = absurd (h refl)
  taken_some (some x) h = refl

  occupied_full : (k : ℕ) (t : Slots E) → ((u : ℕ) → u < k → t u ≢ none) → occupied k t ≡ k
  unfolding occupied
  occupied_full zero t h = refl
  occupied_full (suc k) t h =
      omega
        (arith, taken_some (t k) (h k (omega arith)), occupied_full k t (λ u lt. h u (omega arith)))

module _ (n : ℕ) where
  occupied_empty : (E : Type 0) (k : ℕ) → occupied {E = E} k (λ _. none) ≡ 0
  unfolding occupied
  occupied_empty E zero = refl
  occupied_empty E (suc k) = omega (arith, occupied_empty E k)

  -- `d` steps from `s` lead to slot `u`.
  steps_to : ℕ → ℕ → ℕ
  steps_to s u = if ltb u s then n - s + u else u - s

  walk-steps_to : (s u : ℕ) → s < n → u < n → (walk n s (steps_to s u) ≡ u) × (steps_to s u < n)
  unfolding steps_to
  walk-steps_to s u p q = elim (Bool-cases (ltb u s)) [
    | inl e ↦ rw e (ground (arith, walk_closed n (n - s + u) s), ground arith)
    | inr e ↦ rw e (ground (arith, walk_closed n (u - s) s), ground arith)
  ]

module _ {E : Type 0} (n : ℕ) where
  first_empty_exists :
      (t : Slots E) (s : ℕ) → s < n → occupied n t < n → (q : ℕ) × (first_empty n n t s ≡ some q)
  first_empty_exists t s lt room = elim (Option-cases (first_empty n n t s)) [
    | inr found ↦ found
    | inl o ↦
        let full = first_empty-none n t n s o in
        let everywhere : (u : ℕ) → u < n → t u ≢ none = λ u q.
          let (at, near) = walk-steps_to n s u lt q in
          subst (λ v. t v ≢ none) at (Full-walk n t s n (steps_to n s u) full near) in
        absurd (omega (arith, occupied_full n t everywhere))
  ]

  module _ (home : E → ℕ) (home-lt : (e : E) → home e < n) where
    fill_exists :
        (es : List E) (t : Slots E)
        → occupied n t + length es ≤ n
        → (t' : Slots E) × (fill n home es t ≡ some t')
    fill_exists [] t room = (t, unfold fill in refl)
    fill_exists (e ∷ es) t room =
        let (q, o) = first_empty_exists t (home e) (home-lt e) (omega arith) in
        let (t', h) = fill_exists es (put t q e) (omega (arith, occupied-put n t q e)) in
        (t', fill_next n home e es t q o ∙ h)

    -- As many entries as slots can be put into an empty table: no search for a slot runs forever.
    pub fill_empty_exists :
        (es : List E) → length es ≤ n → (t : Slots E) × (fill n home es (λ _. none) ≡ some t)
    fill_empty_exists es h = fill_exists es (λ _. none) (omega (arith, occupied_empty n E n))
