-- ===== src/Ctl/Output/Whole.antt =====
-- writev_loop of mcdbctl.c writes its pieces whole, if it is told their size.
use mcdb.Base.{
  ℕ, zero, suc, ◌+◌, ◌-◌, ◌^◌, ◌≤◌, ◌<◌, ◌≡◌, refl, sym, ap, ◌∙◌, List, [], ◌∷◌, ◌++◌, Bool, true,
  false, Option, none, some, inl, inr,
}
use mcdb.Base.{leb, ◌==◌, min, length, take, drop, u64, arith, Bool-cases, Option-cases, ==_iff}
use mathlib.Core.List.{append-nil, append_assoc}
use mcdb.Ctl.Output.{Stdout, concat, total, writev, skip, writev_loop}

module _ {ℓ} {A : Type ℓ} where
  take-drop : (n : ℕ) (xs : List A) → take n xs ++ drop n xs ≡ xs
  take-drop zero xs = refl
  take-drop (suc n) [] = refl
  take-drop (suc n) (x ∷ xs) = ap (λ (ys : List A). x ∷ ys) (take-drop n xs)

  length-drop : (n : ℕ) (xs : List A) → length (drop n xs) ≡ length xs - n
  length-drop zero xs = omega arith
  length-drop (suc n) [] = omega arith
  length-drop (suc n) (x ∷ xs) = omega (arith, length-drop n xs)

  pub take_all : (n : ℕ) (xs : List A) → length xs ≤ n → take n xs ≡ xs
  take_all zero [] h = refl
  take_all zero (x ∷ xs) h = absurd (omega arith)
  take_all (suc n) [] h = refl
  take_all (suc n) (x ∷ xs) h = ap (λ (ys : List A). x ∷ ys) (take_all n xs (omega arith))

  drop-append_over :
      (n : ℕ) (xs ys : List A) → length xs ≤ n → drop n (xs ++ ys) ≡ drop (n - length xs) ys
  drop-append_over n [] ys h = ap (λ (n : ℕ). drop n ys) (omega arith)
  drop-append_over zero (x ∷ xs) ys h = absurd (omega arith)
  drop-append_over (suc n) (x ∷ xs) ys h =
      drop-append_over n xs ys (omega arith) ∙ ap (λ (n : ℕ). drop n ys) (omega arith)

  drop-append_in : (n : ℕ) (xs ys : List A) → n ≤ length xs → drop n (xs ++ ys) ≡ drop n xs ++ ys
  drop-append_in zero xs ys h = refl
  drop-append_in (suc n) [] ys h = absurd (omega arith)
  drop-append_in (suc n) (x ∷ xs) ys h = drop-append_in n xs ys (omega arith)

concat-skip : (n : ℕ) (iov : List (List ℕ)) → concat (skip n iov) ≡ drop n (concat iov)
unfolding skip
concat-skip zero [] = refl
concat-skip (suc n) [] = refl
concat-skip n (v ∷ iov) = elim (Bool-cases (n == 0)) [
  | inl e ↦ rw e (ap (λ (n : ℕ). drop n (v ++ concat iov)) (sym ((==_iff n 0).0 e)))
  | inr e ↦ elim (Bool-cases (leb (length v) n)) [
    | inl over ↦
        rw (e, over)
          (concat-skip (n - length v) iov ∙ sym (drop-append_over n v (concat iov) (ground arith)))
    | inr within ↦ rw (e, within) (sym (drop-append_in n v (concat iov) (ground arith)))
  ]
]

-- What a call of writev_loop did: it wrote all but `left`, which is nothing if it returns true.
pub record Wrote (out : Stdout) (text : List ℕ) (b : Bool) (out' : Stdout) : Type 0 where
  pub left : List ℕ
  pub split : out'.bytes ++ left ≡ out.bytes ++ text
  pub all : b ≡ true → left ≡ []
  pub same : out'.wrote ≡ out.wrote

-- A call that writes anything writes at least a byte.
abbrev pub Progress : (ℕ → Option ℕ) → Type 0
Progress wrote = (k n : ℕ) → wrote k ≡ some n → 0 < n

abbrev pub after : Stdout → List (List ℕ) → ℕ → Stdout
after out iov len = record out { asked = out.asked + 1; bytes = out.bytes ++ take len (concat iov) }

writev-none :
    (out : Stdout) (iov : List (List ℕ))
    → out.wrote out.asked ≡ none
    → writev out iov ≡ (none, record out { asked = out.asked + 1 })
unfolding writev
writev-none out iov e = ground arith

pub writev-some :
    (out : Stdout) (iov : List (List ℕ)) (n : ℕ)
    → out.wrote out.asked ≡ some n
    → writev out iov ≡ (some (min n (total iov)), after out iov (min n (total iov)))
unfolding writev
writev-some out iov n e = ground arith

left_after : (len sz : ℕ) → len ≤ sz → sz < 2 ^ 63 → u64 (sz + 2 ^ 64 - len) ≡ sz - len
left_after len sz le lt = omega arith

-- When writev_loop is told the size of its pieces, below 2 ^ 63, and every call of writev that
-- succeeds writes at least a byte, it comes back after at most one call more than there are
-- bytes, has written the pieces in order up to some place, and all of them if it returns true.
pub writev_loop-Wrote :
    (fuel : ℕ) (out : Stdout) (iov : List (List ℕ)) (sz : ℕ)
    → Progress out.wrote
    → sz ≡ total iov
    → sz < 2 ^ 63
    → sz < fuel
    → (b : Bool) × (out' : Stdout) × (writev_loop fuel out iov sz ≡ some (b, out'))
      × Wrote out (concat iov) b out'
unfolding writev_loop
writev_loop-Wrote zero out iov sz moves e lt enough = absurd (omega arith)
writev_loop-Wrote (suc fuel) out [] sz moves e lt enough =
    (true, out, refl, record { left = []; split = refl; all = λ b. refl; same = refl })
writev_loop-Wrote (suc fuel) out (v ∷ iov) sz moves e lt enough =
    let text = concat (v ∷ iov) in
    elim (Option-cases (out.wrote out.asked)) [
      | inl o ↦ (
        false,
        record out { asked = out.asked + 1 },
        rw (writev-none out (v ∷ iov) o, writev_loop)
            (ap (λ (r : Option ℕ × Stdout). some (false, r.1)) (writev-none out (v ∷ iov) o)),
        record { left = text; split = refl; all = λ b. cc; same = refl },
      )
      | inr (n, o) ↦
          let len = min n (total (v ∷ iov)) in
          let out₁ = after out (v ∷ iov) len in
          let pos = moves out.asked n o in
          let le : len ≤ sz = ground (arith, e) in
          let left = left_after len sz le lt in
          let rest = concat-skip len (v ∷ iov) in
          let joined : out₁.bytes ++ drop len text ≡ out.bytes ++ text =
            append_assoc out.bytes (take len text) (drop len text)
            ∙ ap (λ (t : List ℕ). out.bytes ++ t) (take-drop len text) in
          elim (Bool-cases (u64 (sz + 2 ^ 64 - len) == 0)) [
            | inl done ↦ (
              true,
              out₁,
              rw (writev-some out (v ∷ iov) n o, writev_loop, done)
                  (ap (λ (r : Option ℕ × Stdout). some (true, r.1))
                    (writev-some out (v ∷ iov) n o)),
              record {
                left = [];
                split =
                    append-nil _
                    ∙ ap (λ (t : List ℕ). out.bytes ++ t)
                        (take_all len text (ground (arith, e, left)));
                all = λ b. refl;
                same = refl;
              },
            )
            | inr more ↦
                let now : u64 (sz + 2 ^ 64 - len) ≡ total (skip len (v ∷ iov)) =
                  left
                  ∙ omega (arith, e, ap (λ (t : List ℕ). length t) rest, length-drop len text) in
                let below : u64 (sz + 2 ^ 64 - len) < sz = ground (arith, left, e) in
                let (b, out', run, w) =
                  writev_loop-Wrote fuel out₁ (skip len (v ∷ iov)) (u64 (sz + 2 ^ 64 - len)) moves
                    now (omega arith) (omega arith) in
                (
                  b,
                  out',
                  rw (writev-some out (v ∷ iov) n o, writev_loop, more)
                      (ap
                          (λ (r : Option ℕ × Stdout).
                            writev_loop fuel r.1 (skip len (v ∷ iov)) (u64 (sz + 2 ^ 64 - len)))
                          (writev-some out (v ∷ iov) n o)
                        ∙ run),
                  record {
                    left = w.left;
                    split = w.split ∙ ap (λ (t : List ℕ). out₁.bytes ++ t) rest ∙ joined;
                    all = w.all;
                    same = w.same;
                  },
                )
          ]
    ]
