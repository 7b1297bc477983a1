-- ===== src/Table/Search.antt =====
-- A search meets the entries that match, in the order in which they were put.
pub mod Steps
pub use Steps.*
use mcdb.Base.{
  ℕ, zero, suc, ◌+◌, ◌-◌, ◌≤◌, ◌<◌, ◌≡◌, ◌≢◌, refl, sym, ◌∙◌, ap, ap₂, subst, inl, inr, ◌⊎◌, Option,
  none, some,
}
use mcdb.Base.{
  List, [], ◌∷◌, ◌++◌, Bool, true, false, ◌==◌, ==_iff, if◌then◌else◌, Bool-cases, Option-cases,
  arith,
}
use mathlib.Core.Bool.{false≢true}
use mathlib.Core.List.{append-nil, append_assoc}
use native.Mathlib.Nat.{lt_irrefl}
use mcdb.Table.{next_slot, Slots, put, select, first_empty, chain, fill}
use mcdb.Table.Ring.{
  walk, walk-injective, walk-suc, Full, Full-walk, Full-put, Ends, first_empty-Ends,
}
use mcdb.Table.Ring.{first_empty_here, first_empty_next}

module _ {E : Type 0} (n : ℕ) where
  module _ (home : E → ℕ) where
    -- Every entry stands where a search from its home meets it.
    abbrev pub Placed : Slots E → Type 0
    Placed t =
        (u : ℕ) (x : E)
        → t u ≡ some x
        → (d : ℕ) × (d < n) × (walk n (home x) d ≡ u) × Full n t (home x) d

    pub put-Placed :
        (t : Slots E) (q : ℕ) (e : E) → Ends n t (home e) n q → Placed t → Placed (put t q e)
    put-Placed t q e end placed u x h = elim (Bool-cases (u == q)) [
      | inl same ↦
          let at : u ≡ q = (==_iff u q).0 same in
          let e-x : e ≡ x = some_eq (sym (put_same n t q e) ∙ ap (put t q e) (sym at) ∙ h) in
          subst (λ y. (d : ℕ) × (d < n) × (walk n (home y) d ≡ u) × Full n (put t q e) (home y) d)
            e-x
            (
              end.steps,
              end.within,
              end.arrives ∙ sym at,
              Full-put n t q (home e) end.steps e end.passes,
            )
      | inr other ↦
          let away : u ≢ q = λ a. false≢true (sym other ∙ (==_iff u q).1 a) in
          let (d, lt, at, full) = placed u x (sym (put_other n t q u e away) ∙ h) in
          (d, lt, at, Full-put n t q (home x) d e full)
    ]

    module _ (p : E → Bool) (s : ℕ) (s-lt : s < n)
        (at_home : (x : E) → p x ≡ true → home x ≡ s) where
      -- Nothing behind the end of the chain from `s` belongs to a search from `s`.
      select_behind :
          (t : Slots E) (q : ℕ) (e : E) (d : ℕ)
          → Placed t
          → walk n s d ≡ q
          → t q ≡ none
          → (r d' : ℕ) → d < d'
          → d' + r ≤ n
          → select p (chain n r (put t q e) (walk n s d')) ≡ []
      select_behind t q e d placed at free zero d' lt le = unfold chain select in refl
      select_behind t q e d placed at free (suc r) d' lt le =
          let u = walk n s d' in
          let away : u ≢ q = λ a. lt_irrefl d (
            subst (λ j. d < j)
              (walk-injective n s d' d s-lt (omega arith) (omega arith) (a ∙ sym at)) lt) in
          elim (Option-cases (t u)) [
            | inl o ↦
                rw (chain_here n (put t q e) r u (put_other n t q u e away ∙ o))
                  (unfold select in refl)
            | inr (x, o) ↦
                let alien : p x ≡ false = not_true→false λ yes_p.
                  let (d₁, lt₁, at₁, full) = placed u x o in
                  let same : d₁ ≡ d' =
                    walk-injective n s d₁ d' s-lt lt₁ (omega arith)
                      (subst (λ v. walk n v d₁ ≡ u) (at_home x yes_p) at₁) in
                  Full-walk n t s d₁ d (subst (λ v. Full n t v d₁) (at_home x yes_p) full)
                    (omega arith) (ap t at ∙ free) in
                rw
                  (
                    chain_next n (put t q e) r u x (put_other n t q u e away ∙ o),
                    select_skip p x _ alien,
                    ← walk-suc n d' s,
                  )
                  (select_behind t q e d placed at free r (suc d') (omega arith) (omega arith))
          ]

      select-put :
          (t : Slots E) (q : ℕ) (e : E)
          → first_empty n n t (home e) ≡ some q
          → Placed t
          → select p (chain n n (put t q e) s)
            ≡ select p (chain n n t s) ++ (if p e then e ∷ [] else [])
      select-put t q e h placed = elim (reaches (first_empty n n t s) q) [
        | inr away ↦
            let alien : p e ≡ false =
              not_true→false
                λ yes_p. away (subst (λ v. first_empty n n t v ≡ some q) (at_home e yes_p) h) in
            rw (
              chain-put_apart n t q e n s (first_empty-Ends n t n (home e) q h).empty away,
              alien,
              append-nil,
            )
        | inl here ↦
            let end = first_empty-Ends n t n s q here in
            let d = end.steps in
            let tail : select p (chain n (n - suc d) (put t q e) (next_slot n q)) ≡ [] =
              subst (λ v. select p (chain n (n - suc d) (put t q e) v) ≡ [])
                (walk-suc n d s ∙ ap (next_slot n) end.arrives)
                (select_behind t q e d placed end.arrives end.empty (n - suc d) (suc d)
                  (omega arith) (omega (arith, end.within))) in
            rw
              (
                chain-put_end n t q e d n s end.arrives end.passes end.empty end.within,
                select-append p (chain n n t s),
                select_cons p e,
                tail,
              )
              (ap (λ c. select p (chain n n t s) ++ c) (append-nil _))
      ]

      -- Filling a table appends to what a search meets exactly the entries that match.
      select-fill :
          (es : List E) (t t' : Slots E)
          → Placed t
          → fill n home es t ≡ some t'
          → (select p (chain n n t' s) ≡ select p (chain n n t s) ++ select p es) × Placed t'
      unfolding fill
      select-fill [] t t' placed h =
          let same = some_eq h in
          (
            ap (λ v. select p (chain n n v s)) (sym same)
                ∙ sym (append-nil _)
                ∙ ap (λ c. select p (chain n n t s) ++ c) (unfold select in refl),
            subst Placed same placed,
          )
      select-fill (e ∷ es) t t' placed h = elim (Option-cases (first_empty n n t (home e))) [
        | inl o ↦ absurd (none-ne-some (sym (fill_stuck n home e es t o) ∙ h))
        | inr (q, o) ↦
            let placed' = put-Placed t q e (first_empty-Ends n t n (home e) q o) placed in
            let (rest, placed'') =
              select-fill es (put t q e) t' placed' (sym (fill_next n home e es t q o) ∙ h) in
            (
              rest
                  ∙ ap (λ c. c ++ select p es) (select-put t q e o placed)
                  ∙ append_assoc (select p (chain n n t s)) (if p e then e ∷ [] else [])
                      (select p es)
                  ∙ ap (λ c. select p (chain n n t s) ++ c) (sym (select_cons p e es)),
              placed'',
            )
      ]

      -- A search from slot `s`, in a table that was filled from empty with `es`, meets the entries
      -- of `es` that match, each as often as it was put and in the order in which they were put.
      pub select-fill_empty :
          (es : List E) (t : Slots E)
          → fill n home es (λ _. none) ≡ some t
          → select p (chain n n t s) ≡ select p es
      select-fill_empty es t h =
          let none_there : Placed (λ _. none) = λ u x o. absurd (none-ne-some o) in
          (select-fill es (λ _. none) t none_there h).0
          ∙ ap (λ c. select p c ++ select p es) (chain_empty n n s)
          ∙ ap (λ c. c ++ select p es) (select-nil p)
