-- ===== src/Base/Memory.antt =====
-- A byte-addressed memory or file, and what stands in it.
use Prim.Native.Nat.{ℕ, zero, suc, ◌+◌, ◌-◌, ◌≤◌, ◌<◌}
use mathlib.Core.Path.{◌≡◌, refl, ap, ◌∙◌, ap₂, sym, subst}
use mathlib.Core.List.{List, [], ◌∷◌, ◌++◌}
use mathlib.Core.Logic.{◌⊎◌, inl}
use mathlib.Core.Bool.{Bool, true, false, ◌&&◌}
use native.Mathlib.Omega.{arith}
use mcdb.Base.Tests.{ltb, leb, ◌==◌, if◌then◌else◌}
use mcdb.Base.Lists.{length, get_or}

abbrev pub Memory : Type 0
Memory = ℕ → ℕ

-- The `n` bytes at address `a`.
unfoldable pub load : Memory → ℕ → ℕ → List ℕ
load mem a zero = []
load mem a (suc n) = mem a ∷ load mem (a + 1) n

-- `memcpy(a, bytes, length bytes)`.
unfoldable pub store : Memory → ℕ → List ℕ → Memory
store mem a bytes i = if leb a i && ltb i (a + length bytes) then get_or bytes (i - a) 0 else mem i

pub length-load : (mem : Memory) (a n : ℕ) → length (load mem a n) ≡ n
unfolding load
length-load mem a zero = refl
length-load mem a (suc n) = ap suc (length-load mem (a + 1) n)

pub load_congr :
    (mem mem' : Memory) (a n : ℕ)
    → ((i : ℕ) → a ≤ i → i < a + n → mem i ≡ mem' i)
    → load mem a n ≡ load mem' a n
unfolding load
load_congr mem mem' a zero same = refl
load_congr mem mem' a (suc n) same =
    ap₂ ◌∷◌ (same a (omega arith) (omega arith))
      (load_congr mem mem' (a + 1) n (λ i lo hi. same i (omega arith) (omega arith)))

-- `bytes` stand in memory from address `a` on.
abbrev pub At : Memory → ℕ → List ℕ → Type 0
At mem a [] = Unit
At mem a (b ∷ bytes) = (mem a ≡ b) × At mem (a + 1) bytes

pub At-load :
    (mem : Memory) (a : ℕ) (bytes : List ℕ) → At mem a bytes → load mem a (length bytes) ≡ bytes
unfolding load
At-load mem a [] h = refl
At-load mem a (b ∷ bytes) h = ap₂ ◌∷◌ h.0 (At-load mem (a + 1) bytes h.1)

pub load-At :
    (mem : Memory) (a : ℕ) (bytes : List ℕ) → load mem a (length bytes) ≡ bytes → At mem a bytes
unfolding load
load-At mem a [] h = tt
load-At mem a (b ∷ bytes) h = (cc, load-At mem (a + 1) bytes (cc))

pub At-congr :
    (mem mem' : Memory) (a : ℕ) (bytes : List ℕ)
    → ((i : ℕ) → a ≤ i → i < a + length bytes → mem i ≡ mem' i)
    → At mem a bytes
    → At mem' a bytes
At-congr mem mem' a [] same h = tt
At-congr mem mem' a (b ∷ bytes) same h = (
  sym (same a (omega arith) (omega arith)) ∙ h.0,
  At-congr mem mem' (a + 1) bytes (λ i p q. same i (omega arith) (omega arith)) h.1,
)

pub At-append :
    (mem : Memory) (a : ℕ) (xs ys : List ℕ)
    → At mem a xs
    → At mem (a + length xs) ys
    → At mem a (xs ++ ys)
At-append mem a [] ys h k = subst (λ c. At mem c ys) (omega arith) k
At-append mem a (x ∷ xs) ys h k =
    (h.0, At-append mem (a + 1) xs ys h.1 (subst (λ c. At mem c ys) (omega arith) k))

pub append-At :
    (mem : Memory) (a : ℕ) (xs ys : List ℕ)
    → At mem a (xs ++ ys)
    → At mem a xs × At mem (a + length xs) ys
append-At mem a [] ys h = (tt, subst (λ c. At mem c ys) (omega arith) h)
append-At mem a (x ∷ xs) ys h =
    let (k, l) = append-At mem (a + 1) xs ys h.1 in
    ((h.0, k), subst (λ c. At mem c ys) (omega arith) l)

-- A store changes its own range and nothing else.
pub store_outside :
    (mem : Memory) (c i : ℕ) (bytes : List ℕ)
    → (i < c) ⊎ (c + length bytes ≤ i)
    → store mem c bytes i ≡ mem i
unfolding store
store_outside mem c i bytes h = ground arith

pub store_inside :
    (mem : Memory) (c k : ℕ) (bytes : List ℕ)
    → k < length bytes
    → store mem c bytes (c + k) ≡ get_or bytes k 0
unfolding store
store_inside mem c k bytes h =
    let e : c + k - c ≡ k = omega arith in ground (arith, ap (λ (j : ℕ). get_or bytes j 0) e)

get_or-At :
    (mem : Memory) (a : ℕ) (bytes : List ℕ)
    → ((k : ℕ) → k < length bytes → mem (a + k) ≡ get_or bytes k 0)
    → At mem a bytes
get_or-At mem a [] h = tt
get_or-At mem a (b ∷ bytes) h = (
  subst (λ c. mem c ≡ b) (omega arith) (h 0 (omega arith)),
  get_or-At mem (a + 1) bytes
      (λ k p. subst (λ c. mem c ≡ get_or bytes k 0) (omega arith) (h (suc k) (omega arith))),
)

pub At-store_self : (mem : Memory) (c : ℕ) (bytes : List ℕ) → At (store mem c bytes) c bytes
At-store_self mem c bytes = get_or-At _ c bytes (λ k p. store_inside mem c k bytes p)

pub At-store_apart :
    (mem : Memory) (c a : ℕ) (bytes there : List ℕ)
    → (a + length there ≤ c) ⊎ (c + length bytes ≤ a)
    → At mem a there
    → At (store mem c bytes) a there
At-store_apart mem c a bytes there apart =
    At-congr mem (store mem c bytes) a there
      λ i p q. sym (store_outside mem c i bytes (ground arith))

-- `memcmp` is 0
unfoldable pub same_bytes : List ℕ → List ℕ → Bool
same_bytes [] t = true
same_bytes (a ∷ s) [] = false
same_bytes (a ∷ s) (b ∷ t) = a == b && same_bytes s t

pub same_bytes_refl : (s : List ℕ) → same_bytes s s ≡ true
unfolding same_bytes
same_bytes_refl [] = refl
same_bytes_refl (a ∷ s) = ground (arith, same_bytes_refl s)

pub same_bytes→eq : (s t : List ℕ) → length s ≡ length t → same_bytes s t ≡ true → s ≡ t
unfolding same_bytes
same_bytes→eq [] [] e h = refl
same_bytes→eq [] (b ∷ t) e h = absurd (omega arith)
same_bytes→eq (a ∷ s) [] e h = absurd (omega arith)
same_bytes→eq (a ∷ s) (b ∷ t) e h = ground (arith, same_bytes→eq s t)

-- A store right behind what stands in memory extends it.
pub At-store_next :
    (mem : Memory) (a n : ℕ) (there bytes : List ℕ)
    → length there ≡ n
    → At mem a there
    → At (store mem (a + n) bytes) a (there ++ bytes)
At-store_next mem a n there bytes len at =
    At-append _ a there bytes
      (At-store_apart mem (a + n) a bytes there (inl (omega (arith, len))) at)
      (subst (λ k. At (store mem (a + n) bytes) (a + k) bytes) (sym len)
        (At-store_self mem (a + n) bytes))
