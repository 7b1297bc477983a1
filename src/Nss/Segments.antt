-- ===== src/Nss/Segments.antt =====
-- What stands at which offsets of a record's data, for the encoders and decoders of nss.
use mcdb.Base.{
  ℕ, zero, suc, ◌+◌, ◌^◌, ◌≤◌, ◌<◌, ◌≡◌, ap, ◌∙◌, subst, List, [], ◌∷◌, inl, All, get_or, take,
  drop,
}
use mcdb.Base.{arith, length}
use mcdb.Base.Memory.{
  Memory, load, store, store_outside, store_inside, At, At-load, append-At, At-store_self,
  At-store_apart, length-load,
}
use mcdb.Plasma.{be_value, be_value-be_bytes}
use mcdb.Nss.{htonl, htons, ntohl, ntohs, c_str}

-- The bytes `.1` stand at offset `.0` of the data at `a`, inside its first `n` bytes.
abbrev pub Within : Memory → ℕ → ℕ → List (ℕ × List ℕ) → Type 0
Within mem a n segs = All (λ s. (s.0 + length s.1 ≤ n) × At mem (a + s.0) s.1) segs

pub moved-At :
    (mem mem' : Memory) (a b : ℕ) (s : List ℕ)
    → ((i : ℕ) → i < length s → mem' (b + i) ≡ mem (a + i))
    → At mem a s
    → At mem' b s
moved-At mem mem' a b [] same h = tt
moved-At mem mem' a b (c ∷ s) same h =
    let same₀ : mem' b ≡ mem a =
      ap mem' (omega arith) ∙ same 0 (omega arith) ∙ ap mem (omega arith) in
    (
      same₀ ∙ h.0,
      moved-At mem mem' (a + 1) (b + 1) s
          (λ i lt. ap mem' (omega arith) ∙ same (suc i) (omega arith) ∙ ap mem (omega arith)) h.1,
    )

pub moved-Within :
    (mem mem' : Memory) (a b n : ℕ) (segs : List (ℕ × List ℕ))
    → ((i : ℕ) → i < n → mem' (b + i) ≡ mem (a + i))
    → Within mem a n segs
    → Within mem' b n segs
moved-Within mem mem' a b n [] same h = tt
moved-Within mem mem' a b n (s ∷ segs) same h = (
  (
    h.0.0,
    moved-At mem mem' (a + s.0) (b + s.0) s.1
        (λ i lt.
          let bound = h.0.0 in
          ap mem' (omega arith) ∙ same (s.0 + i) (omega (arith, lt, bound)) ∙ ap mem (omega arith))
        h.0.1,
  ),
  moved-Within mem mem' a b n segs same h.1,
)

kept-Within :
    (mem : Memory) (a n c m : ℕ) (bytes : List ℕ) (segs : List (ℕ × List ℕ))
    → a + n ≤ c
    → n ≤ m
    → Within mem a n segs
    → Within (store mem c bytes) a m segs
kept-Within mem a n c m bytes [] behind le h = tt
kept-Within mem a n c m bytes (s ∷ segs) behind le h =
    let bound = h.0.0 in
    (
      (
        omega (arith, bound),
        At-store_apart mem c (a + s.0) bytes s.1 (inl (omega (arith, bound, behind))) h.0.1,
      ),
      kept-Within mem a n c m bytes segs behind le h.1,
    )

-- memcpy of `bytes` right behind the first `n`.
pub Within-store :
    (mem : Memory) (a n c m : ℕ) (bytes : List ℕ) (segs : List (ℕ × List ℕ))
    → c ≡ a + n
    → m ≡ n + length bytes
    → Within mem a n segs
    → Within (store mem c bytes) a m ((n, bytes) ∷ segs)
Within-store mem a n c m bytes segs e size h = (
  (omega (arith, size), subst (λ p. At (store mem c bytes) p bytes) e (At-store_self mem c bytes)),
  kept-Within mem a n c m bytes segs (omega (arith, e)) (omega (arith, size)) h,
)

-- The same for a string whose final '\0' the data leave out.
pub Within-store_unended :
    (mem : Memory) (a n c : ℕ) (s : List ℕ) (segs : List (ℕ × List ℕ))
    → c ≡ a + n
    → Within mem a n segs
    → Within (store mem c (c_str s)) a (n + length s) ((n, s) ∷ segs)
Within-store_unended mem a n c s segs e h = (
  (
    omega arith,
    (append-At _ (a + n) s (0 ∷ [])
        (subst (λ p. At (store mem c (c_str s)) p (c_str s)) e (At-store_self mem c (c_str s)))).0,
  ),
  kept-Within mem a n c (n + length s) (c_str s) segs (omega (arith, e)) (omega arith) h,
)

-- A part of what stands in memory.
drop-At : (mem : Memory) (a k : ℕ) (s : List ℕ) → At mem a s → At mem (a + k) (drop k s)
drop-At mem a zero s h = subst (λ p. At mem p s) (omega arith) h
drop-At mem a (suc k) [] h = tt
drop-At mem a (suc k) (b ∷ s) h =
    subst (λ p. At mem p (drop k s)) (omega arith) (drop-At mem (a + 1) k s h.1)

take-At : (mem : Memory) (a n : ℕ) (s : List ℕ) → At mem a s → At mem a (take n s)
take-At mem a zero s h = tt
take-At mem a (suc n) [] h = tt
take-At mem a (suc n) (b ∷ s) h = (h.0, take-At mem (a + 1) n s h.1)

pub slice-At :
    (mem : Memory) (a k n : ℕ) (s : List ℕ) → At mem a s → At mem (a + k) (take n (drop k s))
slice-At mem a k n s h = take-At mem (a + k) n (drop k s) (drop-At mem a k s h)

get_or-load : (mem : Memory) (p n i : ℕ) → i < n → get_or (load mem p n) i 0 ≡ mem (p + i)
unfolding load
get_or-load mem p zero i lt = absurd (omega arith)
get_or-load mem p (suc n) zero lt = ap mem (omega arith)
get_or-load mem p (suc n) (suc i) lt =
    get_or-load mem (p + 1) n i (omega arith) ∙ ap mem (omega arith)

-- What a copy of `n` bytes and a '\0' behind them leave in the caller's buffer.
pub copied :
    (mem out : Memory) (p b n i : ℕ)
    → i < n
    → store (store out b (load mem p n)) (b + n) (0 ∷ []) (b + i) ≡ mem (p + i)
copied mem out p b n i lt =
    store_outside (store out b (load mem p n)) (b + n) (b + i) (0 ∷ []) (inl (omega arith))
    ∙ store_inside out b i (load mem p n) (omega (arith, length-load mem p n))
    ∙ get_or-load mem p n i lt

pub ntohs-At : (mem : Memory) (a u : ℕ) → u < 2 ^ 16 → At mem a (htons u) → ntohs mem a ≡ u
ntohs-At mem a u small h =
    ap (be_value 0) (At-load mem a (htons u) h) ∙ be_value-be_bytes 2 0 u ∙ omega arith

pub ntohl-At : (mem : Memory) (a u : ℕ) → u < 2 ^ 32 → At mem a (htonl u) → ntohl mem a ≡ u
ntohl-At mem a u small h =
    ap (be_value 0) (At-load mem a (htonl u) h) ∙ be_value-be_bytes 4 0 u ∙ omega arith
