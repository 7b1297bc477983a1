-- ===== src/Nss/Grouplist/Fill.antt =====
-- What the loops over stored gids of nss_mcdb_acct_grouplist_decode compute.
use mcdb.Base.{ℕ, zero, suc, ◌+◌, ◌≤◌, ◌<◌, ◌≡◌, refl, ap₂, ◌∙◌, List, [], ◌∷◌, inl, inr}
use mcdb.Base.{◌==◌, if◌then◌else◌, arith, Bool-cases, length}
use mcdb.Base.Memory.{Memory, load}
use mcdb.Nss.Grouplist.{gid_at, count_loop, fill_loop, set_gid, Filled}

-- The gids that are stored from address `p` on.
abbrev pub gids_at : Memory → ℕ → ℕ → List ℕ
gids_at mem p zero = []
gids_at mem p (suc n) = gid_at mem p ∷ gids_at mem (p + 4) n

-- The gids other than `gid`, in their order.
abbrev pub others : ℕ → List ℕ → List ℕ
others gid [] = []
others gid (g ∷ gids) = if g == gid then others gid gids else (g ∷ others gid gids)

pub others_bound : (gid : ℕ) (gids : List ℕ) → length (others gid gids) ≤ length gids
others_bound gid [] = omega arith
others_bound gid (g ∷ gids) = ground (arith, others_bound gid gids)

pub count_loop_lem :
    (mem : Memory) (gid p n x : ℕ)
    → count_loop mem gid p n x ≡ x + length (others gid (gids_at mem p n))
unfolding count_loop
count_loop_lem mem gid p zero x = omega arith
count_loop_lem mem gid p (suc n) x = elim (Bool-cases (gid_at mem p == gid)) [
  | inl e ↦ rw e (count_loop_lem mem gid (p + 4) n x)
  | inr e ↦ rw e (omega (arith, count_loop_lem mem gid (p + 4) n (x + 1)))
]

-- From a loop's entry: how many gids it adds, which, what it leaves alone, and how far it writes.
pub record FilledBy (added : List ℕ) (n : ℕ) (f r : Filled) : Type 0 where
  pub counted : r.num ≡ f.num + length added
  pub stored : load r.gidlist f.num (length added) ≡ added
  pub kept : (i : ℕ) → i < f.num → r.gidlist i ≡ f.gidlist i
  pub extent : r.written ≤ f.written + n

abbrev write_gid : Filled → ℕ → ℕ → Filled
write_gid f gid num = record {
  gidlist = set_gid f.gidlist f.num gid;
  num = num;
  written = f.num + 1;
}

filled_same :
    (added : List ℕ) (n gid : ℕ) (f r : Filled)
    → f.num ≤ f.written
    → FilledBy added n (write_gid f gid f.num) r
    → FilledBy added (suc n) f r
filled_same added n gid f r le h = record {
  counted = h.counted;
  stored = h.stored;
  kept = λ i lt. h.kept i lt ∙ ground arith;
  extent = omega (arith, h.extent);
}

filled_other :
    (added : List ℕ) (n gid : ℕ) (f r : Filled)
    → f.num ≤ f.written
    → FilledBy added n (write_gid f gid (f.num + 1)) r
    → FilledBy (gid ∷ added) (suc n) f r
unfolding load
filled_other added n gid f r le h = record {
  counted = omega (arith, h.counted);
  stored = ap₂ ◌∷◌ (h.kept f.num (omega arith) ∙ ground arith) h.stored;
  kept = λ i lt. h.kept i (omega arith) ∙ ground arith;
  extent = omega (arith, h.extent);
}

pub fill_loop_lem :
    (mem : Memory) (gid p n : ℕ) (f : Filled)
    → f.num ≤ f.written
    → FilledBy (others gid (gids_at mem p n)) n f (fill_loop mem gid p n f)
unfolding fill_loop load
fill_loop_lem mem gid p zero f le = record {
  counted = omega arith;
  stored = refl;
  kept = λ i lt. refl;
  extent = omega arith;
}
fill_loop_lem mem gid p (suc n) f le = elim (Bool-cases (gid_at mem p == gid)) [
  | inl e ↦ rw e (
      filled_same _ n (gid_at mem p) f _ le
        (fill_loop_lem mem gid (p + 4) n (write_gid f (gid_at mem p) f.num) (omega arith)))
  | inr e ↦ rw e (
      filled_other _ n (gid_at mem p) f _ le
        (fill_loop_lem mem gid (p + 4) n (write_gid f (gid_at mem p) (f.num + 1)) (omega arith)))
]
