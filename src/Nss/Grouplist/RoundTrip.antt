-- ===== src/Nss/Grouplist/RoundTrip.antt =====
-- A user's stored groups are decoded with the caller's group in front.
use mcdb.Base.{
  ℕ, zero, suc, ◌+◌, ◌-◌, ◌*◌, ◌/◌, ◌%◌, ◌^◌, ◌≤◌, ◌<◌, ◌≡◌, refl, sym, ap, ap₂, ◌∙◌, subst, List,
  [], ◌∷◌, false, inl, All,
}
use mcdb.Base.{ltb, if◌then◌else◌, arith, length, u32}
use mcdb.Base.Memory.{Memory, load, store, store_outside}
use mcdb.Nss.{success, tryagain, htonl, ntohl}
use mcdb.Nss.Grouplist.{
  put_gids, grouplist_datastr, gid_at, count_loop, fill_loop, set_gid, Filled, Decoded,
  grouplist_fill, grouplist_decode,
}
use mcdb.Nss.Grouplist.Fill.{gids_at, others, count_loop_lem, FilledBy, fill_loop_lem}

gid_at_moved :
    (mem mem' : Memory) (p q : ℕ)
    → ((i : ℕ) → i < 4 → mem' (q + i) ≡ mem (p + i))
    → gid_at mem' q ≡ gid_at mem p
gid_at_moved mem mem' p q same =
    let here : mem' q ≡ mem p =
      ap mem' (omega arith) ∙ same 0 (omega arith) ∙ ap mem (omega arith) in
    omega (arith, here, same 1 (omega arith), same 2 (omega arith), same 3 (omega arith))

gids_at_moved :
    (mem mem' : Memory) (p q n : ℕ)
    → ((i : ℕ) → i < n * 4 → mem' (q + i) ≡ mem (p + i))
    → gids_at mem' q n ≡ gids_at mem p n
gids_at_moved mem mem' p q zero same = refl
gids_at_moved mem mem' p q (suc n) same =
    ap₂ ◌∷◌ (gid_at_moved mem mem' p q (λ i lt. same i (omega arith))) (
      gids_at_moved mem mem' (p + 4) (q + 4) n
        (λ i lt. ap mem' (omega arith) ∙ same (4 + i) (omega arith) ∙ ap mem (omega arith)))

-- The bytes that htonl leaves in memory.
store-htonl :
    (mem : Memory) (p u : ℕ)
    → let m = store mem p (htonl u) in
      ((m p ≡ u / 2 ^ 24 % 256) × (m (p + 1) ≡ u / 2 ^ 16 % 256))
      × ((m (p + 2) ≡ u / 2 ^ 8 % 256) × (m (p + 3) ≡ u % 256))
unfolding store
store-htonl mem p u = ((ground arith, ground arith), (ground arith, ground arith))

gid_at-htonl : (mem : Memory) (p gid : ℕ) → gid < 2 ^ 32 → gid_at (store mem p (htonl gid)) p ≡ gid
gid_at-htonl mem p gid small = omega (arith, store-htonl mem p gid)

put_gids_outside : (mem : Memory) (p i : ℕ) (gids : List ℕ) → i < p → put_gids mem p gids i ≡ mem i
unfolding put_gids
put_gids_outside mem p i [] lt = refl
put_gids_outside mem p i (gid ∷ gids) lt =
    put_gids_outside (store mem p (htonl gid)) (p + 4) i gids (omega arith)
    ∙ store_outside mem p i (htonl gid) (inl lt)

gids_at-put_gids :
    (mem : Memory) (p : ℕ) (gids : List ℕ)
    → All (λ g. g < 2 ^ 32) gids
    → gids_at (put_gids mem p gids) p (length gids) ≡ gids
unfolding put_gids
gids_at-put_gids mem p [] small = refl
gids_at-put_gids mem p (gid ∷ gids) small =
    let mem₁ = store mem p (htonl gid) in
    let same : (i : ℕ) → i < p + 4 → put_gids mem₁ (p + 4) gids i ≡ mem₁ i =
      λ i lt. put_gids_outside mem₁ (p + 4) i gids lt in
    ap₂ ◌∷◌
      (omega (
        arith,
        same p (omega arith),
        same (p + 1) (omega arith),
        same (p + 2) (omega arith),
        same (p + 3) (omega arith),
        gid_at-htonl mem p gid small.0,
      ))
      (gids_at-put_gids mem₁ (p + 4) gids small.1)

ntohl_lem : (mem : Memory) (a : ℕ) → ntohl mem a ≡ gid_at mem a
unfolding load
ntohl_lem mem a =
    let two : mem (a + 1 + 1) ≡ mem (a + 2) = ap mem (omega arith) in
    let three : mem (a + 1 + 1 + 1) ≡ mem (a + 3) = ap mem (omega arith) in
    omega (arith, two, three)

-- At `dptr` stand a number of gids and the gids, as nss_mcdb_acct_make_grouplist_datastr left them.
pub record StoredGroups (mem : Memory) (dptr : ℕ) (gids : List ℕ) : Type 0 where
  pub number : ntohl mem dptr ≡ length gids
  pub list : gids_at mem (dptr + 4) (length gids) ≡ gids

pub datastr-StoredGroups :
    (mem : Memory) (buf bufsz : ℕ) (gids : List ℕ)
    → 4 + length gids * 4 ≤ bufsz
    → length gids < 2 ^ 32
    → All (λ g. g < 2 ^ 32) gids
    → StoredGroups (grouplist_datastr mem buf bufsz gids).1 buf gids
unfolding grouplist_datastr load
datastr-StoredGroups mem buf bufsz gids fits few small =
    let mem₁ = store mem buf (htonl (length gids)) in
    let out : (i : ℕ) → i < buf + 4 → put_gids mem₁ (buf + 4) gids i ≡ mem₁ i =
      λ i lt. put_gids_outside mem₁ (buf + 4) i gids lt in
    let (r, mem₂) = grouplist_datastr mem buf bufsz gids in
    let there : mem₂ ≡ put_gids mem₁ (buf + 4) gids = ground arith in
    subst (λ m. StoredGroups m buf gids) (sym there)
      (record {
        number = omega (
          arith,
          ntohl_lem (put_gids mem₁ (buf + 4) gids) buf,
          out buf (omega arith),
          out (buf + 1) (omega arith),
          out (buf + 2) (omega arith),
          out (buf + 3) (omega arith),
          gid_at-htonl mem buf (length gids) few,
        );
        list = gids_at-put_gids mem₁ (buf + 4) gids small;
      })

-- A copy of the bytes holds the same groups.
moved-StoredGroups :
    (mem mem' : Memory) (p q : ℕ) (gids : List ℕ)
    → ((i : ℕ) → i < 4 + length gids * 4 → mem' (q + i) ≡ mem (p + i))
    → StoredGroups mem p gids
    → StoredGroups mem' q gids
moved-StoredGroups mem mem' p q gids same h = record {
  number =
      ntohl_lem mem' q
      ∙ gid_at_moved mem mem' p q (λ i lt. same i (omega arith))
      ∙ sym (ntohl_lem mem p)
      ∙ h.number;
  list =
      gids_at_moved mem mem' (p + 4) (q + 4) (length gids)
        (λ i lt. ap mem' (omega arith) ∙ same (4 + i) (omega arith) ∙ ap mem (omega arith))
      ∙ h.list;
}

-- The list that the decoder leaves: the caller's group, then the others, in `num` entries.
pub record Listed (gid : ℕ) (gids : List ℕ) (d : Decoded) : Type 0 where
  pub found : d.status ≡ success
  pub num : d.filled.num ≡ 1 + length (others gid gids)
  pub list : load d.filled.gidlist 0 (suc (length (others gid gids))) ≡ gid ∷ others gid gids
  pub extent : d.filled.written ≤ 1 + length gids

grouplist_fill-Listed :
    (mem : Memory) (gid p : ℕ) (gids : List ℕ) (gidlist : Memory)
    → gids_at mem p (length gids) ≡ gids
    → Listed gid gids (grouplist_fill mem gid p (length gids) gidlist)
unfolding grouplist_fill load
grouplist_fill-Listed mem gid p gids gidlist e =
    let f : Filled = record { gidlist = set_gid gidlist 0 gid; num = 1; written = 1 } in
    let h =
      subst (λ l. FilledBy (others gid l) (length gids) f (fill_loop mem gid p (length gids) f)) e
        (fill_loop_lem mem gid p (length gids) f (omega arith)) in
    record {
      found = refl;
      num = h.counted;
      list = ap₂ ◌∷◌ (h.kept 0 (omega arith)) h.stored;
      extent = h.extent;
    }

-- How the decoder goes on once it has n = 1 + ngroups, the rounds and the count of its first loop.
abbrev pub decide : Memory → ℕ → ℕ → Memory → ℕ → ℕ → ℕ → ℕ → Decoded
decide mem dptr gid gidlist bufsz n rounds x =
    if ltb bufsz n
    then (if ltb bufsz x
        then record {
          status = tryagain;
          filled = record { gidlist = gidlist; num = x; written = 0 };
        }
        else grouplist_fill mem gid (dptr + 4 + rounds * 4 - x * 4) x gidlist)
    else grouplist_fill mem gid (dptr + 4) rounds gidlist

pub decode_decides :
    (mem : Memory) (dptr gid : ℕ) (gids : List ℕ) (gidlist : Memory) (bufsz : ℕ)
    → StoredGroups mem dptr gids
    → 1 + length gids < 2 ^ 32
    → grouplist_decode mem dptr gid gidlist bufsz
      ≡ decide mem dptr gid gidlist bufsz
          (1 + length gids)
          (length gids)
          (1 + length (others gid gids))
unfolding grouplist_decode
decode_decides mem dptr gid gids gidlist bufsz h few =
    let n : u32 (1 + ntohl mem dptr) ≡ 1 + length gids = omega (arith, h.number) in
    let rounds : u32 (u32 (1 + ntohl mem dptr) + 2 ^ 32 - 1) ≡ length gids =
      omega (arith, h.number) in
    let count : count_loop mem gid (dptr + 4) (length gids) 1 ≡ 1 + length (others gid gids) =
      count_loop_lem mem gid (dptr + 4) (length gids) 1
      ∙ ap (λ (l : List ℕ). 1 + length (others gid l)) h.list in
    ap₂ (λ (k r : ℕ). decide mem dptr gid gidlist bufsz k r (count_loop mem gid (dptr + 4) r 1)) n
      rounds
    ∙ ap (λ (x : ℕ). decide mem dptr gid gidlist bufsz (1 + length gids) (length gids) x) count

datastr_size :
    (mem : Memory) (buf bufsz : ℕ) (gids : List ℕ)
    → 0 < (grouplist_datastr mem buf bufsz gids).0
    → (4 + length gids * 4 ≤ bufsz)
      × ((grouplist_datastr mem buf bufsz gids).0 ≡ 4 + length gids * 4)
unfolding grouplist_datastr
datastr_size mem buf bufsz gids ok = (ground arith, ground arith)

pub decode-Listed :
    (mem : Memory) (dptr gid : ℕ) (gids : List ℕ) (gidlist : Memory) (bufsz : ℕ)
    → StoredGroups mem dptr gids
    → 1 + length gids ≤ bufsz
    → 1 + length gids < 2 ^ 32
    → Listed gid gids (grouplist_decode mem dptr gid gidlist bufsz)
decode-Listed mem dptr gid gids gidlist bufsz h room few =
    let fits : ltb bufsz (1 + length gids) ≡ false = ground arith in
    subst (Listed gid gids) (sym (decode_decides mem dptr gid gids gidlist bufsz h few))
      (rw fits (grouplist_fill-Listed mem gid (dptr + 4) gids gidlist h.list))

-- When nss_mcdb_acct_make_grouplist_datastr encodes gids below 2 ^ 32, fewer than 2 ^ 32 - 1, its
-- bytes stand at `dptr` in the map, and the caller's array has room for one gid more,
-- nss_mcdb_acct_grouplist_decode returns success, leaves the caller's gid and then the stored
-- gids that differ from it, in their order, tells their number, and writes no entry behind the
-- room for one gid more.
pub grouplist_decode-grouplist_datastr :
    (made : Memory) (from room : ℕ) (gids : List ℕ) (mem : Memory) (dptr gid : ℕ) (gidlist : Memory)
    (bufsz : ℕ)
    → let n = (grouplist_datastr made from room gids).0 in
      let made' = (grouplist_datastr made from room gids).1 in
      0 < n
      → All (λ g. g < 2 ^ 32) gids
      → 1 + length gids < 2 ^ 32
      → ((i : ℕ) → i < n → mem (dptr + i) ≡ made' (from + i))
      → 1 + length gids ≤ bufsz
      → Listed gid gids (grouplist_decode mem dptr gid gidlist bufsz)
grouplist_decode-grouplist_datastr made from room gids mem dptr gid gidlist bufsz ok small few same
      fits =
    let (space, size) = datastr_size made from room gids ok in
    decode-Listed mem dptr gid gids gidlist bufsz
      (moved-StoredGroups (grouplist_datastr made from room gids).1 mem from dptr gids
        (λ i lt. same i (omega (arith, size, lt)))
        (datastr-StoredGroups made from room gids space (omega arith) small))
      fits few
