-- ===== src/Nss/Grouplist.antt =====
-- The groups of a user: nss_mcdb_acct_make_grouplist_datastr of nss/nss_mcdb_acct_make.c, and
-- nss_mcdb_acct_grouplist_decode and nss_mcdb_getgrouplist of nss/nss_mcdb_acct.c.
pub mod Fill
pub mod RoundTrip
pub mod Short
use mcdb.Base.{
  ℕ, zero, suc, ◌+◌, ◌-◌, ◌*◌, ◌%◌, ◌^◌, List, [], ◌∷◌, ◌++◌, Bool, true, false, Option, none, some,
}
use mcdb.Base.{ltb, leb, ◌==◌, if◌then◌else◌, u32, length}
use mcdb.Base.Memory.{Memory, store}
use mcdb.Nss.{NssStatus, success, tryagain, htonl, ntohl}

abbrev pub gl_hdrsz : ℕ
gl_hdrsz = 4

-- The loop that stores the gids at `buf`.
unfoldable pub put_gids : Memory → ℕ → List ℕ → Memory
put_gids mem buf [] = mem
put_gids mem buf (gid ∷ gidlist) = put_gids (store mem buf (htonl gid)) (buf + 4) gidlist

-- The size that is returned, 0 with ERANGE, and the memory with the buffer at `buf`.
unfoldable pub grouplist_datastr : Memory → ℕ → ℕ → List ℕ → ℕ × Memory
unfolding put_gids
grouplist_datastr mem buf bufsz gidlist =
    let sz = gl_hdrsz + length gidlist * 4 in
    if leb sz bufsz
    then (sz, put_gids (store mem buf (htonl (length gidlist))) (buf + gl_hdrsz) gidlist)
    else (0, mem)

-- (gid_t)((dptr[0]<<24)|(dptr[1]<<16)|(dptr[2]<<8)|dptr[3]), whose four bytes are apart.
abbrev pub gid_at : Memory → ℕ → ℕ
gid_at mem dptr =
    mem dptr * 2 ^ 24 + mem (dptr + 1) * 2 ^ 16 + mem (dptr + 2) * 2 ^ 8 + mem (dptr + 3)

-- for (x = 1; --n; dptr += 4), with the number of rounds.
unfoldable pub count_loop : Memory → ℕ → ℕ → ℕ → ℕ → ℕ
count_loop mem gid dptr zero x = x
count_loop mem gid dptr (suc n) x =
    count_loop mem gid (dptr + 4) n (if gid_at mem dptr == gid then x else x + 1)

-- The array of gids, their number, and how many entries of the array were written.
pub record Filled : Type 0 where
  pub gidlist : Memory
  pub num : ℕ
  pub written : ℕ

abbrev pub set_gid : Memory → ℕ → ℕ → Memory
set_gid gidlist x gid i = if i == x then gid else gidlist i

unfoldable pub fill_loop : Memory → ℕ → ℕ → ℕ → Filled → Filled
fill_loop mem gid dptr zero f = f
fill_loop mem gid dptr (suc n) f = fill_loop mem gid (dptr + 4) n (record {
  gidlist = set_gid f.gidlist f.num (gid_at mem dptr);
  num = if gid_at mem dptr == gid then f.num else f.num + 1;
  written = f.num + 1;
})

-- The status, and what is in *vstruct afterwards; the caller's array.
pub record Decoded : Type 0 where
  pub status : NssStatus
  pub filled : Filled

unfoldable pub grouplist_fill : Memory → ℕ → ℕ → ℕ → Memory → Decoded
unfolding fill_loop
grouplist_fill mem gid dptr n gidlist = record {
  status = success;
  filled =
      fill_loop mem gid dptr n (record { gidlist = set_gid gidlist 0 gid; num = 1; written = 1 });
}

-- `bufsz` counts gids. When there is no room, the number of gids is in *vstruct.
unfoldable pub grouplist_decode : Memory → ℕ → ℕ → Memory → ℕ → Decoded
unfolding count_loop
grouplist_decode mem dptr₀ gid gidlist bufsz =
    let dptr = dptr₀ + gl_hdrsz in
    let n = u32 (1 + ntohl mem dptr₀) in
    let rounds = u32 (n + 2 ^ 32 - 1) in
    let x = count_loop mem gid dptr rounds 1 in
    if ltb bufsz n
    then (if ltb bufsz x
        then record {
          status = tryagain;
          filled = record { gidlist = gidlist; num = x; written = 0 };
        }
        else grouplist_fill mem gid (dptr + rounds * 4 - x * 4) x gidlist)
    else grouplist_fill mem gid dptr rounds gidlist
