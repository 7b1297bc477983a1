-- ===== src/Table/Ring.antt =====
-- Walking round the ring, and what stands on the way.
use mcdb.Base.{
  ℕ, zero, suc, ◌+◌, ◌-◌, ◌≤◌, ◌<◌, ◌≡◌, ◌≢◌, refl, sym, ◌∙◌, subst, inl, inr, none, some,
}
use mcdb.Base.{ltb, if◌then◌else◌, Option-cases, arith}
use mcdb.Table.{next_slot, Slots, put, first_empty}

module _ (n : ℕ) where
  unfoldable pub walk : ℕ → ℕ → ℕ
  walk s zero = s
  walk s (suc d) = walk (next_slot n s) d

  pub next_slot-lt : (s : ℕ) → s < n → next_slot n s < n
  unfolding next_slot
  next_slot-lt s h = ground arith

  pub walk_closed :
      (d s : ℕ) → s < n → d ≤ n → walk s d ≡ (if ltb (s + d) n then s + d else s + d - n)
  unfolding walk next_slot
  walk_closed zero s h k = ground arith
  walk_closed (suc d) s h k = ground (arith, walk_closed d (next_slot n s), next_slot-lt s h)

  -- One round visits no slot twice.
  pub walk-injective : (s d d' : ℕ) → s < n → d < n → d' < n → walk s d ≡ walk s d' → d ≡ d'
  walk-injective s d d' h p q e = ground (arith, walk_closed d s, walk_closed d' s)

  pub walk-suc : (d s : ℕ) → walk s (suc d) ≡ next_slot n (walk s d)
  unfolding walk
  walk-suc zero s = refl
  walk-suc (suc d) s = walk-suc d (next_slot n s)

  module _ {E : Type 0} where
    -- The first `d` slots from `s` on hold entries.
    abbrev pub Full : Slots E → ℕ → ℕ → Type 0
    Full t s zero = Unit
    Full t s (suc d) = (t s ≢ none) × Full t (next_slot n s) d

    pub Full-walk : (t : Slots E) (s d d' : ℕ) → Full t s d → d' < d → t (walk s d') ≢ none
    unfolding walk
    Full-walk t s zero d' f h = absurd (omega arith)
    Full-walk t s (suc d) zero f h = f.0
    Full-walk t s (suc d) (suc d') f h = Full-walk t (next_slot n s) d d' f.1 (omega arith)

    put-ne-none : (t : Slots E) (q u : ℕ) (e : E) → t u ≢ none → put t q e u ≢ none
    unfolding put
    put-ne-none t q u e h = ground arith

    pub Full-put : (t : Slots E) (q s d : ℕ) (e : E) → Full t s d → Full (put t q e) s d
    Full-put t q s zero e f = tt
    Full-put t q s (suc d) e f = (put-ne-none t q s e f.0, Full-put t q (next_slot n s) d e f.1)

    -- Where the search for an empty slot ends: at slot `q`, after `d` full ones.
    pub record Ends (t : Slots E) (s k q : ℕ) : Type 0 where
      pub steps : ℕ
      pub within : steps < k
      pub arrives : walk s steps ≡ q
      pub passes : Full t s steps
      pub empty : t q ≡ none

    pub first_empty_here : (t : Slots E) (k s : ℕ) → t s ≡ none → first_empty n (suc k) t s ≡ some s
    unfolding first_empty
    first_empty_here t k s e = rw (e, first_empty)

    pub first_empty_next :
        (t : Slots E) (k s : ℕ) (x : E)
        → t s ≡ some x
        → first_empty n (suc k) t s ≡ first_empty n k t (next_slot n s)
    unfolding first_empty
    first_empty_next t k s x e = rw (e, first_empty)

    -- The search stays in the ring.
    pub first_empty-lt : (t : Slots E) (k s q : ℕ) → s < n → first_empty n k t s ≡ some q → q < n
    unfolding first_empty
    first_empty-lt t zero s q lt h = cc
    first_empty-lt t (suc k) s q lt h = elim (Option-cases (t s)) [
      | inl e ↦ let at : s ≡ q = cc (first_empty_here t k s e) in omega arith
      | inr (x, e) ↦
          first_empty-lt t k (next_slot n s) q (next_slot-lt s lt)
            (sym (first_empty_next t k s x e) ∙ h)
    ]

    pub first_empty-Ends : (t : Slots E) (k s q : ℕ) → first_empty n k t s ≡ some q → Ends t s k q
    unfolding first_empty walk
    first_empty-Ends t zero s q h = cc
    first_empty-Ends t (suc k) s q h = elim (Option-cases (t s)) [
      | inl e ↦
          let at : s ≡ q = cc (first_empty_here t k s e) in
          record {
            steps = 0;
            within = omega arith;
            arrives = at;
            passes = tt;
            empty = subst (λ u. t u ≡ none) at e;
          }
      | inr (x, e) ↦
          let later =
            first_empty-Ends t k (next_slot n s) q (sym (first_empty_next t k s x e) ∙ h) in
          record {
            steps = suc later.steps;
            within = omega (arith, later.within);
            arrives = later.arrives;
            passes = (λ o. cc, later.passes);
            empty = later.empty;
          }
    ]

    pub first_empty-none : (t : Slots E) (k s : ℕ) → first_empty n k t s ≡ none → Full t s k
    unfolding first_empty
    first_empty-none t zero s h = tt
    first_empty-none t (suc k) s h = elim (Option-cases (t s)) [
      | inl e ↦ absurd (cc (first_empty_here t k s e))
      | inr (x, e) ↦
          (λ o. cc, first_empty-none t k (next_slot n s) (sym (first_empty_next t k s x e) ∙ h))
    ]
