-- ===== src/Nss/Grouplist/Short.antt =====
-- The decoder when the caller's array has fewer entries than there are gids with the caller's own.
use mcdb.Base.{
  ℕ, zero, suc, ◌+◌, ◌-◌, ◌*◌, ◌^◌, ◌<◌, ◌≡◌, refl, ap, ap₂, ◌∙◌, List, [], ◌∷◌, ◌++◌, Bool, true,
  false, inl, inr, length-append,
}
use mcdb.Base.{ltb, ◌==◌, if◌then◌else◌, arith, Bool-cases, length}
use mcdb.Base.Memory.{Memory}
use mcdb.Nss.{success, tryagain}
use mcdb.Nss.Grouplist.{
  gid_at, fill_loop, set_gid, Filled, Decoded, grouplist_fill, grouplist_decode,
}
use mcdb.Nss.Grouplist.Fill.{gids_at, others, others_bound}
use mcdb.Nss.Grouplist.RoundTrip.{StoredGroups, decide, decode_decides}

-- When the data hold gids, fewer than 2 ^ 32 - 1, and the caller's array has less entries than
-- the caller's gid and those that differ from it, nss_mcdb_acct_grouplist_decode returns tryagain
-- with the number of entries needed, and leaves the array alone.
pub decode_short :
    (mem : Memory) (dptr gid : ℕ) (gids : List ℕ) (gidlist : Memory) (bufsz : ℕ)
    → StoredGroups mem dptr gids
    → bufsz < 1 + length (others gid gids)
    → 1 + length gids < 2 ^ 32
    → grouplist_decode mem dptr gid gidlist bufsz ≡ record {
      status = tryagain;
      filled = record { gidlist = gidlist; num = 1 + length (others gid gids); written = 0 };
    }
decode_short mem dptr gid gids gidlist bufsz h short few =
    let none_left : ltb bufsz (1 + length gids) ≡ true =
      let b = others_bound gid gids in ground (arith, b) in
    let too_many : ltb bufsz (1 + length (others gid gids)) ≡ true = ground arith in
    decode_decides mem dptr gid gids gidlist bufsz h few ∙ rw (none_left, too_many) refl

-- The last round writes an entry behind all that were kept before, whether it keeps its own or not.
fill_loop_written :
    (mem : Memory) (gid p n : ℕ) (f : Filled)
    → (fill_loop mem gid p (suc n) f).written ≡ f.num + length (others gid (gids_at mem p n)) + 1
unfolding fill_loop
fill_loop_written mem gid p zero f = omega arith
fill_loop_written mem gid p (suc n) f =
    let next : Bool → Filled = λ b. record {
      gidlist = set_gid f.gidlist f.num (gid_at mem p);
      num = if b then f.num else f.num + 1;
      written = f.num + 1;
    } in
    let step : (b : Bool)
        → (gid_at mem p == gid) ≡ b
        → (fill_loop mem gid p (suc (suc n)) f).written
          ≡ (next b).num + length (others gid (gids_at mem (p + 4) n)) + 1 =
      λ b e.
        ap (λ (c : Bool). (fill_loop mem gid (p + 4) (suc n) (next c)).written) e
        ∙ fill_loop_written mem gid (p + 4) n (next b) in
    elim (Bool-cases (gid_at mem p == gid)) [
      | inl e ↦ step true e ∙ rw e refl
      | inr e ↦ step false e ∙ rw e (omega arith)
    ]

others_append : (gid : ℕ) (xs ys : List ℕ) → others gid (xs ++ ys) ≡ others gid xs ++ others gid ys
others_append gid [] ys = refl
others_append gid (x ∷ xs) ys = elim (Bool-cases (x == gid)) [
  | inl e ↦ rw e (others_append gid xs ys)
  | inr e ↦ rw e (ap (λ (l : List ℕ). x ∷ l) (others_append gid xs ys))
]

gids_at_prefix :
    (mem : Memory) (p : ℕ) (gids more : List ℕ)
    → gids_at mem p (length (gids ++ more)) ≡ gids ++ more
    → gids_at mem p (length gids) ≡ gids
gids_at_prefix mem p [] more e = refl
gids_at_prefix mem p (g ∷ gids) more e = ap₂ ◌∷◌ (cc) (gids_at_prefix mem (p + 4) gids more (cc))

others_last :
    (gid : ℕ) (gids : List ℕ)
    → others gid gids ≡ gids
    → length (others gid (gids ++ (gid ∷ []))) ≡ length gids
others_last gid gids apart =
    let self : (gid == gid) ≡ true = ground arith in
    let nothing : length (others gid (gid ∷ [])) ≡ 0 = rw self refl in
    ap length (others_append gid gids (gid ∷ []))
    ∙ length-append (others gid gids) (others gid (gid ∷ []))
    ∙ omega (arith, nothing, ap length apart)

decide_tight :
    (mem : Memory) (dptr gid : ℕ) (gidlist : Memory) (k bufsz n x : ℕ)
    → bufsz ≡ 1 + k
    → n ≡ suc k
    → x ≡ k
    → decide mem dptr gid gidlist bufsz (1 + n) n (1 + x)
      ≡ grouplist_fill mem gid (dptr + 4) (suc k) gidlist
decide_tight mem dptr gid gidlist k bufsz n x size len num =
    let short : ltb bufsz (1 + n) ≡ true = ground arith in
    let enough : ltb bufsz (1 + x) ≡ false = ground arith in
    let start : dptr + 4 + n * 4 - (1 + x) * 4 ≡ dptr + 4 = omega arith in
    let rounds : 1 + x ≡ suc k = omega arith in
    rw (short, enough) (ap₂ (λ (p r : ℕ). grouplist_fill mem gid p r gidlist) start rounds)

-- When the data hold gids that differ from the caller's and then the caller's, and the caller's
-- array has an entry for each of these gids, nss_mcdb_acct_grouplist_decode returns success after
-- a write one entry behind the array's end.
pub decode_overrun :
    (mem : Memory) (dptr gid : ℕ) (gids : List ℕ) (gidlist : Memory) (bufsz : ℕ)
    → StoredGroups mem dptr (gids ++ (gid ∷ []))
    → others gid gids ≡ gids
    → bufsz ≡ 1 + length gids
    → bufsz + 1 < 2 ^ 32
    → ((grouplist_decode mem dptr gid gidlist bufsz).status ≡ success)
      × ((grouplist_decode mem dptr gid gidlist bufsz).filled.written ≡ bufsz + 1)
unfolding grouplist_fill
decode_overrun mem dptr gid gids gidlist bufsz h apart size few =
    let len : length (gids ++ (gid ∷ [])) ≡ suc (length gids) =
      length-append gids (gid ∷ []) ∙ omega arith in
    let tight : decide mem dptr gid gidlist bufsz (1 + length (gids ++ (gid ∷ [])))
          (length (gids ++ (gid ∷ []))) (1 + length (others gid (gids ++ (gid ∷ []))))
        ≡ grouplist_fill mem gid (dptr + 4) (suc (length gids)) gidlist =
      decide_tight mem dptr gid gidlist (length gids) bufsz _ _ size len
        (others_last gid gids apart) in
    let e : grouplist_decode mem dptr gid gidlist bufsz
        ≡ grouplist_fill mem gid (dptr + 4) (suc (length gids)) gidlist =
      decode_decides mem dptr gid (gids ++ (gid ∷ [])) gidlist bufsz h (omega (arith, len))
      ∙ tight in
    let start : Filled = record { gidlist = set_gid gidlist 0 gid; num = 1; written = 1 } in
    let kept : length (others gid (gids_at mem (dptr + 4) (length gids))) ≡ length gids =
      ap (λ (l : List ℕ). length (others gid l))
        (gids_at_prefix mem (dptr + 4) gids (gid ∷ []) h.list)
      ∙ ap length apart in
    (
      ap (λ (d : Decoded). d.status) e,
      ap (λ (d : Decoded). d.filled.written) e
          ∙ fill_loop_written mem gid (dptr + 4) (length gids) start
          ∙ omega (arith, kept, size),
    )
