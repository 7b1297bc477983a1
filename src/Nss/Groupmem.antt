-- ===== src/Nss/Groupmem.antt =====
-- The map from a member's name to the groups of nss/nss_mcdb_acct_make.c:
-- nss_mcdb_acct_make_grouplist_add and what it allocates from.
pub mod Gids
use mcdb.Base.{
  ℕ, ◌+◌, ◌-◌, ◌*◌, ◌%◌, ◌^◌, List, [], ◌∷◌, ◌++◌, Bool, true, false, not, ◌&&◌, ◌||◌, Option, none,
  some,
}
use mcdb.Base.{ltb, leb, ◌==◌, if◌then◌else◌, length}
use mcdb.Base.Memory.{same_bytes}
use mcdb.Uint32.Hash.{hash_djb, hash_djb_init}
use mcdb.Make.{update}

abbrev pub hashmap_sz : ℕ
hashmap_sz = 2048

-- 65536 + sizeof(uintptr_t)
abbrev pub pool_block : ℕ
pool_block = 65544

-- sizeof(struct nss_mcdb_acct_make_groupmem)
abbrev pub groupmem_hdr : ℕ
groupmem_hdr = 32

-- A node that a bucket reaches; ngids is the length of the gids. The nodes of a bucket are linked by
-- their `next`, so that a node is in the map when it is in its bucket's list.
pub record Groupmem : Type 0 where
  pub name : List ℕ
  pub hash : ℕ
  pub gids : List ℕ
  pub gidlist_sz : ℕ

pub record Pool : Type 0 where
  pub sz : ℕ
  pub idx : ℕ
  pub blocks : ℕ

-- The static variables; `none` is a NULL hash map. `fails` are the answers of malloc and calloc, and
-- `size_max` is sysconf(_SC_GETGR_R_SIZE_MAX).
pub record Groupmap : Type 0 where
  pub hashmap : Option (ℕ → List Groupmem)
  pub nodes : Pool
  pub strings : Pool
  pub fails : ℕ → Bool
  pub calls : ℕ
  pub size_max : ℕ

-- An allocation of `sz` bytes from a pool: whether it succeeds, whether it calls malloc, the pool.
unfoldable pub pool_alloc : Bool → ℕ → Pool → ℕ → Bool × (Bool × Pool)
pool_alloc malloc_ok size_max pool sz =
    if leb sz pool.sz && leb pool.idx (pool.sz - sz)
    then (true, (false, record pool { idx = pool.idx + sz }))
    else if ltb size_max sz
    then (false, (false, pool))
    else if malloc_ok
    then (true, (true, record { sz = pool_block; idx = 8 + sz; blocks = pool.blocks + 1 }))
    else (false, (true, pool))

unfoldable pub groupmem_alloc : Groupmap → ℕ → Bool × Groupmap
unfolding pool_alloc
groupmem_alloc s sz =
    let (ok, (asked, pool)) = pool_alloc (not (s.fails s.calls)) s.size_max s.nodes sz in
    (ok, record s { nodes = pool; calls = s.calls + (if asked then 1 else 0) })

unfoldable pub groupmem_stralloc : Groupmap → ℕ → Bool × Groupmap
unfolding pool_alloc
groupmem_stralloc s sz =
    let (ok, (asked, pool)) = pool_alloc (not (s.fails s.calls)) s.size_max s.strings sz in
    (ok, record s { strings = pool; calls = s.calls + (if asked then 1 else 0) })

-- nss_mcdb_acct_make_grouplist_free(false); the sizes of the pools, which are static in the
-- functions that allocate, stay.
unfoldable pub grouplist_free : Bool → Groupmap → Bool × Groupmap
grouplist_free rc s = (
  rc,
  record s {
    hashmap = none;
    nodes = record s.nodes { blocks = 0 };
    strings = record s.strings { blocks = 0 };
  },
)

abbrev pub same_name : Groupmem → ℕ → List ℕ → Bool
same_name g hash name = g.hash == hash && (length g.name == length name && same_bytes g.name name)

-- The search along a bucket.
unfoldable pub find_member : List Groupmem → ℕ → List ℕ → Option Groupmem
find_member [] hash name = none
find_member (g ∷ bucket) hash name =
    if same_name g hash name then some g else find_member bucket hash name

-- groupmem->gidlist[groupmem->ngids++] = gid, for the node that the search finds.
unfoldable pub push_gid : List Groupmem → ℕ → List ℕ → ℕ → List Groupmem
push_gid [] hash name gid = []
push_gid (g ∷ bucket) hash name gid =
    if same_name g hash name
    then (record g { gids = g.gids ++ (gid ∷ []) } ∷ bucket)
    else (g ∷ push_gid bucket hash name gid)

abbrev pub buckets : Option (ℕ → List Groupmem) → ℕ → List Groupmem
buckets none i = []
buckets (some t) i = t i

abbrev pub table : Groupmap → ℕ → List Groupmem
table s = buckets s.hashmap

-- The hash map, if it is not there yet.
unfoldable pub with_hashmap : Groupmap → Bool × Groupmap
with_hashmap s = elim s.hashmap [
  | some t ↦ (true, s)
  | none ↦
      let s₁ = record s { calls = s.calls + 1 } in
      if s.fails s.calls then (false, s₁) else (true, record s₁ { hashmap = some (λ i. []) })
]

-- A node for a new name, in front of its bucket.
unfoldable pub add_member : Groupmap → ℕ → List ℕ → ℕ → Bool × Groupmap
unfolding groupmem_alloc groupmem_stralloc grouplist_free
add_member s hash name gid =
    let i = hash % hashmap_sz in
    let (got, s₁) = groupmem_alloc s (groupmem_hdr + 4 * 4) in
    let (named, s₂) = groupmem_stralloc s₁ (length name + 1) in
    let node : Groupmem = record { name = name; hash = hash; gids = gid ∷ []; gidlist_sz = 4 } in
    if not got
    then grouplist_free false s₁
    else if not named
    then grouplist_free false s₂
    else (true, record s₂ { hashmap = some (update (table s) i (node ∷ table s i)) })

-- A gid for a name that is there. A node without room is copied to a longer one, which gets the gid;
-- the bucket and the node in front of it keep their pointers to the node that was copied.
unfoldable pub add_gid : Groupmap → ℕ → List ℕ → ℕ → Groupmem → Bool × Groupmap
unfolding push_gid groupmem_alloc grouplist_free
add_gid s hash name gid node =
    let i = hash % hashmap_sz in
    let (got, s₁) = groupmem_alloc s (groupmem_hdr + 4 * node.gidlist_sz + 4 * 32) in
    if length node.gids == node.gidlist_sz
    then if got then (true, s₁) else grouplist_free false s₁
    else (
      true,
      record s { hashmap = some (update (table s) i (push_gid (table s i) hash name gid)) },
    )

unfoldable pub grouplist_add : Groupmap → List ℕ → ℕ → Bool × Groupmap
unfolding with_hashmap find_member add_member add_gid grouplist_free
grouplist_add s name gid =
    let hash = hash_djb hash_djb_init name in
    let (there, s₁) = with_hashmap s in
    if not there
    then grouplist_free false s₁
    else elim (find_member (table s₁ (hash % hashmap_sz)) hash name) [
      | none ↦ add_member s₁ hash name gid
      | some node ↦ add_gid s₁ hash name gid node
    ]
