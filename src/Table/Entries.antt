-- ===== src/Table/Entries.antt =====
-- What stands in a filled table was put there.
use mcdb.Base.{
  ℕ, ◌≡◌, sym, ◌∙◌, ap, subst, inl, inr, some, List, [], ◌∷◌, All, ◌==◌, ==_iff, Bool-cases,
  Option-cases,
}
use mathlib.Core.Bool.{false≢true}
use mcdb.Table.{Slots, put, first_empty, fill}
use mcdb.Table.Search.{some_eq, none-ne-some, put_same, put_other, fill_next, fill_stuck}

module _ {E : Type 0} (P : E → Type 0) (n : ℕ) (home : E → ℕ) where
  abbrev pub Every : Slots E → Type 0
  Every t = (u : ℕ) (x : E) → t u ≡ some x → P x

  put-Every : (t : Slots E) (q : ℕ) (e : E) → P e → Every t → Every (put t q e)
  put-Every t q e p every u x h = elim (Bool-cases (u == q)) [
    | inl same ↦
        subst P (some_eq (sym (put_same n t q e) ∙ ap (put t q e) (sym ((==_iff u q).0 same)) ∙ h))
          p
    | inr other ↦
        every u x (sym (put_other n t q u e (λ a. false≢true (sym other ∙ (==_iff u q).1 a))) ∙ h)
  ]

  pub fill-Every :
      (es : List E) (t t' : Slots E) → All P es → Every t → fill n home es t ≡ some t' → Every t'
  fill-Every [] t t' ps every h =
      let same : t ≡ t' = some_eq (unfold fill in h) in subst Every same every
  fill-Every (e ∷ es) t t' (p, ps) every h = elim (Option-cases (first_empty n n t (home e))) [
    | inl o ↦ absurd (none-ne-some (sym (fill_stuck n home e es t o) ∙ h))
    | inr (q, o) ↦
        fill-Every es (put t q e) t' ps (put-Every t q e p every)
          (sym (fill_next n home e es t q o) ∙ h)
  ]
