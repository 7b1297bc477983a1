-- ===== src/Table/Search/Steps.antt =====
-- One step of `select`, `chain`, `put` and `fill`.
use mcdb.Base.{
  ℕ, zero, suc, ◌-◌, ◌<◌, ◌≡◌, ◌≢◌, refl, sym, ◌∙◌, ap, ap₂, inl, inr, ◌⊎◌, Option, none, some,
}
use mcdb.Base.{
  List, [], ◌∷◌, ◌++◌, Bool, true, false, ◌==◌, ==_iff, if◌then◌else◌, Bool-cases, Option-cases,
  arith,
}
use mathlib.Core.Bool.{false≢true}
use mathlib.Core.List.{append_assoc}
use mcdb.Table.{next_slot, Slots, put, select, first_empty, chain, fill}
use mcdb.Table.Ring.{walk, Full}
use mcdb.Table.Ring.{first_empty_here, first_empty_next}

pub some_eq {ℓ} : {A : Type ℓ} {a b : A} → some a ≡ some b → a ≡ b
some_eq h = cc

pub none-ne-some {ℓ} : {A : Type ℓ} {a : A} → none ≢ some a
none-ne-some h = cc

pub not_true→false : {b : Bool} → b ≢ true → b ≡ false
not_true→false {b} h = elim (Bool-cases b) [ inl e ↦ absurd (h e) | inr e ↦ e ]

pub reaches : (o : Option ℕ) (q : ℕ) → (o ≡ some q) ⊎ (o ≢ some q)
reaches none q = inr none-ne-some
reaches (some a) q = elim (Bool-cases (a == q)) [
  | inl e ↦ inl (ap some ((==_iff a q).0 e))
  | inr e ↦ inr λ h. false≢true (sym e ∙ (==_iff a q).1 (cc))
]

module _ {E : Type 0} (p : E → Bool) where
  pub select-nil : select p [] ≡ []
  unfolding select
  select-nil = refl

  pub select_skip : (x : E) (xs : List E) → p x ≡ false → select p (x ∷ xs) ≡ select p xs
  unfolding select
  select_skip x xs h = rw h

  pub select_take : (x : E) (xs : List E) → p x ≡ true → select p (x ∷ xs) ≡ x ∷ select p xs
  unfolding select
  select_take x xs h = rw h

  pub select_cons :
      (x : E) (xs : List E) → select p (x ∷ xs) ≡ (if p x then x ∷ [] else []) ++ select p xs
  unfolding select
  select_cons x xs = elim (Bool-cases (p x)) [ inl e ↦ rw e | inr e ↦ rw e ]

  pub select-append : (xs ys : List E) → select p (xs ++ ys) ≡ select p xs ++ select p ys
  select-append [] ys = unfold select in refl
  select-append (x ∷ xs) ys =
      rw (select_cons x (xs ++ ys), select_cons x xs, select-append xs ys)
        (sym (append_assoc (if p x then x ∷ [] else []) (select p xs) (select p ys)))

module _ {E : Type 0} (n : ℕ) where
  pub chain-zero : (t : Slots E) (s : ℕ) → chain n 0 t s ≡ []
  unfolding chain
  chain-zero t s = refl

  pub chain_here : (t : Slots E) (k s : ℕ) → t s ≡ none → chain n (suc k) t s ≡ []
  unfolding chain
  chain_here t k s e = rw (e, chain)

  pub chain_next :
      (t : Slots E) (k s : ℕ) (x : E)
      → t s ≡ some x
      → chain n (suc k) t s ≡ x ∷ chain n k t (next_slot n s)
  unfolding chain
  chain_next t k s x e = rw (e, chain)

  pub put_same : (t : Slots E) (q : ℕ) (e : E) → put t q e q ≡ some e
  unfolding put
  put_same t q e = ground arith

  pub put_other : (t : Slots E) (q u : ℕ) (e : E) → u ≢ q → put t q e u ≡ t u
  unfolding put
  put_other t q u e h = ground arith

  pub chain_empty : (k s : ℕ) → chain {E = E} n k (λ _. none) s ≡ []
  chain_empty zero s = unfold chain in refl
  chain_empty (suc k) s = unfold chain in refl

  -- An entry put elsewhere than where the chain ends leaves the chain as it is.
  pub chain-put_apart :
      (t : Slots E) (q : ℕ) (e : E) (k s : ℕ)
      → t q ≡ none
      → first_empty n k t s ≢ some q
      → chain n k (put t q e) s ≡ chain n k t s
  chain-put_apart t q e zero s free h = unfold chain in refl
  chain-put_apart t q e (suc k) s free h = elim (Option-cases (t s)) [
    | inl o ↦
        let away : s ≢ q = λ p. h (first_empty_here n t k s o ∙ ap some p) in
        chain_here (put t q e) k s (put_other t q s e away ∙ o) ∙ sym (chain_here t k s o)
    | inr (x, o) ↦
        let away : s ≢ q = λ p. none-ne-some (sym free ∙ ap t (sym p) ∙ o) in
        chain_next (put t q e) k s x (put_other t q s e away ∙ o)
        ∙ ap (λ c. x ∷ c)
            (chain-put_apart t q e k (next_slot n s) free
              (λ p. h (first_empty_next n t k s x o ∙ p)))
        ∙ sym (chain_next t k s x o)
  ]

  -- An entry put where the chain ends extends it by itself and by what stands behind it.
  pub chain-put_end :
      (t : Slots E) (q : ℕ) (e : E) (d k s : ℕ)
      → walk n s d ≡ q
      → Full n t s d
      → t q ≡ none
      → d < k
      → chain n k (put t q e) s
        ≡ chain n k t s ++ e ∷ chain n (k - suc d) (put t q e) (next_slot n q)
  unfolding walk
  chain-put_end t q e d zero s at full free lt = absurd (omega arith)
  chain-put_end t q e zero (suc k) s at full free lt =
      let same : put t q e s ≡ some e = ap (put t q e) at ∙ put_same t q e in
      let here : t s ≡ none = ap t at ∙ free in
      rw (chain_next (put t q e) k s e same, chain_here t k s here)
        (ap₂ (λ j u. e ∷ chain n j (put t q e) (next_slot n u)) (omega arith) at)
  chain-put_end t q e (suc d) (suc k) s at full free lt = elim (Option-cases (t s)) [
    | inl o ↦ absurd (full.0 o)
    | inr (x, o) ↦
        let away : s ≢ q = λ p. none-ne-some (sym free ∙ ap t (sym p) ∙ o) in
        let later = chain-put_end t q e d k (next_slot n s) at full.1 free (omega arith) in
        rw (chain_next (put t q e) k s x (put_other t q s e away ∙ o), chain_next t k s x o, later)
          (ap (λ j. x ∷ (chain n k t (next_slot n s) ++ e ∷ chain n j (put t q e) (next_slot n q)))
            (omega arith))
  ]

  pub fill_stuck :
      (home : E → ℕ) (e : E) (es : List E) (t : Slots E)
      → first_empty n n t (home e) ≡ none
      → fill n home (e ∷ es) t ≡ none
  unfolding fill
  fill_stuck home e es t o = rw (o, fill)

  pub fill_next :
      (home : E → ℕ) (e : E) (es : List E) (t : Slots E) (q : ℕ)
      → first_empty n n t (home e) ≡ some q
      → fill n home (e ∷ es) t ≡ fill n home es (put t q e)
  unfolding fill
  fill_next home e es t q o = rw (o, fill)
