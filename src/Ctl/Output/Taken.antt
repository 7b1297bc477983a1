-- ===== src/Ctl/Output/Taken.antt =====
-- writev_loop of mcdbctl.c where every call of writev takes all that it is given.
use mcdb.Base.{
  ℕ, suc, ◌+◌, ◌-◌, ◌^◌, ◌≤◌, ◌<◌, ◌≡◌, refl, sym, ap, ◌∙◌, List, [], ◌∷◌, ◌++◌, true, false,
  Option, some, inl, inr,
}
use mcdb.Base.{leb, ◌==◌, min, length, u64, arith, length-append, Bool-cases}
use mathlib.Core.List.{append-nil, append_assoc}
use mcdb.Ctl.Output.{Stdout, concat, total, writev, skip, writev_loop}
use mcdb.Ctl.Output.Whole.{writev-some, take_all, after}

pub concat-append : (xs ys : List (List ℕ)) → concat (xs ++ ys) ≡ concat xs ++ concat ys
concat-append [] ys = refl
concat-append (v ∷ xs) ys =
    ap (λ (t : List ℕ). v ++ t) (concat-append xs ys) ∙ sym (append_assoc v (concat xs) (concat ys))

-- The last piece has a byte.
abbrev pub Ends : List (List ℕ) → Type 0
Ends [] = Unit
Ends (v ∷ []) = 0 < length v
Ends (v ∷ w ∷ iov) = Ends (w ∷ iov)

pub append-Ends : (xs : List (List ℕ)) (v : List ℕ) → 0 < length v → Ends (xs ++ v ∷ [])
append-Ends [] v h = h
append-Ends (x ∷ []) v h = h
append-Ends (x ∷ y ∷ xs) v h = append-Ends (y ∷ xs) v h

Ends-pos : (v : List ℕ) (iov : List (List ℕ)) → Ends (v ∷ iov) → 0 < total (v ∷ iov)
Ends-pos v [] h = omega (arith, h, length-append {0} v [])
Ends-pos v (w ∷ iov) h = omega (arith, Ends-pos w iov h, length-append {0} v (concat (w ∷ iov)))

Ends-tail : (v : List ℕ) (iov : List (List ℕ)) → Ends (v ∷ iov) → Ends iov
Ends-tail v [] h = tt
Ends-tail v (w ∷ iov) h = h

skip-total : (iov : List (List ℕ)) → Ends iov → skip (total iov) iov ≡ []
unfolding skip
skip-total [] h = refl
skip-total (v ∷ iov) h =
    let pos = Ends-pos v iov h in
    let len = length-append {0} v (concat iov) in
    let some_left : (total (v ∷ iov) == 0) ≡ false = ground arith in
    let over : leb (length v) (total (v ∷ iov)) ≡ true = ground (arith, len) in
    let less : total (v ∷ iov) - length v ≡ total iov = omega (arith, len) in
    rw (some_left, over) (ap (λ (n : ℕ). skip n iov) less ∙ skip-total iov (Ends-tail v iov h))

-- Every call takes all it is given.
abbrev pub TakesAll : (ℕ → Option ℕ) → Type 0
TakesAll wrote = (k : ℕ) → (n : ℕ) × (wrote k ≡ some n) × (2 ^ 64 ≤ n)

-- However the size is given, all is written.
pub writev_loop-TakesAll :
    (calls : ℕ) (out : Stdout) (iov : List (List ℕ)) (sz : ℕ)
    → TakesAll out.wrote
    → Ends iov
    → total iov ≤ 2 ^ 64
    → (out' : Stdout) × (writev_loop (suc (suc calls)) out iov sz ≡ some (true, out'))
      × (out'.bytes ≡ out.bytes ++ concat iov)
      × (out'.wrote ≡ out.wrote)
unfolding writev_loop
writev_loop-TakesAll calls out [] sz takes ends low = (out, refl, sym (append-nil out.bytes), refl)
writev_loop-TakesAll calls out (v ∷ iov) sz takes ends low =
    let (n, o, big) = takes out.asked in
    let text = concat (v ∷ iov) in
    let whole : min n (total (v ∷ iov)) ≡ total (v ∷ iov) = omega arith in
    let wrote : writev out (v ∷ iov)
        ≡ (some (total (v ∷ iov)), after out (v ∷ iov) (total (v ∷ iov))) =
      writev-some out (v ∷ iov) n o ∙ ap (λ (len : ℕ). (some len, after out (v ∷ iov) len)) whole in
    let out₁ = after out (v ∷ iov) (total (v ∷ iov)) in
    let left = u64 (sz + 2 ^ 64 - total (v ∷ iov)) in
    (
      out₁,
      elim (Bool-cases (left == 0)) [
        | inl done ↦
            rw (wrote, writev_loop, done) (ap (λ (r : Option ℕ × Stdout). some (true, r.1)) wrote)
        | inr more ↦
            rw (wrote, writev_loop, more)
              (ap
                  (λ (r : Option ℕ × Stdout).
                    writev_loop (suc calls) r.1 (skip (total (v ∷ iov)) (v ∷ iov)) left)
                  wrote
                ∙ ap (λ (rest : List (List ℕ)). writev_loop (suc calls) out₁ rest left)
                    (skip-total (v ∷ iov) ends))
      ],
      ap (λ (t : List ℕ). out.bytes ++ t) (take_all (total (v ∷ iov)) text (omega arith)),
      refl,
    )
