-- ===== src/Nss/Groupmem/Gids.antt =====
-- Which groups the map has of a name.
use mcdb.Base.{
  ℕ, ◌+◌, ◌*◌, ◌%◌, ◌≡◌, refl, sym, ap, ◌∙◌, List, [], ◌∷◌, ◌++◌, Bool, true, false, not, Option,
  none, some, inl, inr,
}
use mcdb.Base.{◌==◌, if◌then◌else◌, arith, Bool-cases, Option-cases, length}
use mcdb.Base.Memory.{same_bytes_refl}
use mcdb.Uint32.Hash.{hash_djb, hash_djb_init}
use mcdb.Make.{update}
use mathlib.Core.Bool.{false≢true}
use mcdb.Table.Search.{none-ne-some}
use mcdb.Nss.Groupmem.{
  hashmap_sz, Groupmem, Groupmap, groupmem_alloc, groupmem_stralloc, grouplist_free, same_name,
  find_member, push_gid, buckets, table, with_hashmap, add_member, add_gid, grouplist_add,
}

abbrev pub name_hash : List ℕ → ℕ
name_hash name = hash_djb hash_djb_init name

-- The node of a name, if it has one.
abbrev pub node_of : Groupmap → List ℕ → Option Groupmem
node_of s name = find_member (table s (name_hash name % hashmap_sz)) (name_hash name) name

-- The gids that are stored for a name.
abbrev pub gids_of : Option Groupmem → List ℕ
gids_of none = []
gids_of (some g) = g.gids

alloc_table : (s : Groupmap) (sz : ℕ) → (groupmem_alloc s sz).1.hashmap ≡ s.hashmap
unfolding groupmem_alloc
alloc_table s sz = refl

stralloc_table : (s : Groupmap) (sz : ℕ) → (groupmem_stralloc s sz).1.hashmap ≡ s.hashmap
unfolding groupmem_stralloc
stralloc_table s sz = refl

find_here :
    (g : Groupmem) (bucket : List Groupmem) (hash : ℕ) (name : List ℕ)
    → same_name g hash name ≡ true
    → find_member (g ∷ bucket) hash name ≡ some g
unfolding find_member
find_here g bucket hash name here = rw here refl

find_away :
    (g : Groupmem) (bucket : List Groupmem) (hash : ℕ) (name : List ℕ)
    → same_name g hash name ≡ false
    → find_member (g ∷ bucket) hash name ≡ find_member bucket hash name
unfolding find_member
find_away g bucket hash name away = rw away refl

find-push_gid :
    (bucket : List Groupmem) (hash : ℕ) (name : List ℕ) (gid : ℕ) (g : Groupmem)
    → find_member bucket hash name ≡ some g
    → find_member (push_gid bucket hash name gid) hash name
      ≡ some (record g { gids = g.gids ++ (gid ∷ []) })
unfolding find_member push_gid
find-push_gid [] hash name gid g e = absurd (none-ne-some e)
find-push_gid (h ∷ bucket) hash name gid g e = elim (Bool-cases (same_name h hash name)) [
  | inl here ↦
      let it : h ≡ g =
        ap (λ (o : Option Groupmem). elim o [ none ↦ h | some k ↦ k ])
          (sym (find_here h bucket hash name here) ∙ e) in
      let grown : Groupmem = record h { gids = h.gids ++ (gid ∷ []) } in
      ap
        (λ (b : Bool).
          find_member (if b then (grown ∷ bucket) else (h ∷ push_gid bucket hash name gid)) hash
            name)
        here
      ∙ find_here grown bucket hash name here
      ∙ ap (λ (k : Groupmem). some (record k { gids = k.gids ++ (gid ∷ []) })) it
  | inr away ↦
      let grown : Groupmem = record h { gids = h.gids ++ (gid ∷ []) } in
      ap
        (λ (b : Bool).
          find_member (if b then (grown ∷ bucket) else (h ∷ push_gid bucket hash name gid)) hash
            name)
        away
      ∙ find_away h (push_gid bucket hash name gid) hash name away
      ∙ find-push_gid bucket hash name gid g (sym (find_away h bucket hash name away) ∙ e)
]

-- Whether the next gid of a name goes to a node that the bucket reaches.
abbrev pub has_room : Option Groupmem → Bool
has_room none = true
has_room (some g) = not (length g.gids == g.gidlist_sz)

-- The gids after one more.
abbrev pub gids_then : Option Groupmem → ℕ → List ℕ
gids_then node gid = if has_room node then gids_of node ++ (gid ∷ []) else gids_of node

update_here :
    (t : ℕ → List Groupmem) (i : ℕ) (bucket : List Groupmem) → update t i bucket i ≡ bucket
update_here t i bucket = ground arith

same_name_self : (g : Groupmem) → same_name g g.hash g.name ≡ true
same_name_self g = ground (arith, same_bytes_refl g.name)

add_member-gids :
    (s : Groupmap) (name : List ℕ) (gid : ℕ)
    → (add_member s (name_hash name) name gid).0 ≡ true
    → gids_of (node_of (add_member s (name_hash name) name gid).1 name) ≡ gid ∷ []
unfolding add_member grouplist_free
add_member-gids s name gid ok =
    let hash = name_hash name in
    let (got, s₁) = groupmem_alloc s (32 + 4 * 4) in
    let (named, s₂) = groupmem_stralloc s₁ (length name + 1) in
    let node : Groupmem = record { name = name; hash = hash; gids = gid ∷ []; gidlist_sz = 4 } in
    let i = hash % hashmap_sz in
    let bucket = node ∷ table s i in
    let found : find_member (update (table s) i bucket i) hash name ≡ some node =
      ap (λ (b : List Groupmem). find_member b hash name) (update_here (table s) i bucket)
      ∙ find_here node (table s i) hash name (same_name_self node) in
    elim (Bool-cases (not got)) [
      | inl e ↦ absurd (ground (arith, ok, e))
      | inr e ↦ elim (Bool-cases (not named)) [
        | inl e₂ ↦ absurd (ground (arith, ok, e, e₂))
        | inr e₂ ↦ rw (e, e₂) (ap gids_of found)
      ]
    ]

add_gid-gids :
    (s : Groupmap) (name : List ℕ) (gid : ℕ) (g : Groupmem)
    → node_of s name ≡ some g
    → (add_gid s (name_hash name) name gid g).0 ≡ true
    → gids_of (node_of (add_gid s (name_hash name) name gid g).1 name) ≡ gids_then (some g) gid
unfolding add_gid grouplist_free groupmem_alloc
add_gid-gids s name gid g there ok =
    let hash = name_hash name in
    let i = hash % hashmap_sz in
    let (got, s₁) = groupmem_alloc s (32 + 4 * g.gidlist_sz + 4 * 32) in
    let bucket = push_gid (table s i) hash name gid in
    let found : find_member (update (table s) i bucket i) hash name
        ≡ some (record g { gids = g.gids ++ (gid ∷ []) }) =
      ap (λ (b : List Groupmem). find_member b hash name) (update_here (table s) i bucket)
      ∙ find-push_gid (table s i) hash name gid g there in
    elim (Bool-cases (length g.gids == g.gidlist_sz)) [
      | inr e ↦ rw e (ap gids_of found)
      | inl e ↦ elim (Bool-cases got) [
        | inl e₂ ↦ rw (e, e₂) (ap gids_of there)
        | inr e₂ ↦ absurd (ground (arith, ok, e, e₂))
      ]
    ]

with_some : (s : Groupmap) (t : ℕ → List Groupmem) → s.hashmap ≡ some t → with_hashmap s ≡ (true, s)
unfolding with_hashmap
with_some s t e = rw e refl

with_none :
    (s : Groupmap)
    → s.hashmap ≡ none
    → (with_hashmap s).0 ≡ true
    → (with_hashmap s).1.hashmap ≡ some (λ i. [])
unfolding with_hashmap
with_none s e ok = elim (Bool-cases (s.fails s.calls)) [
  | inl f ↦ absurd (false≢true (sym (rw (e, f) refl) ∙ ok))
  | inr f ↦ rw (e, f) refl
]

-- The node of a name in what `hashmap` may be.
abbrev node_in : Option (ℕ → List Groupmem) → List ℕ → Option Groupmem
node_in map name = find_member (buckets map (name_hash name % hashmap_sz)) (name_hash name) name

with_hashmap_node :
    (s : Groupmap) (name : List ℕ)
    → (with_hashmap s).0 ≡ true
    → node_of (with_hashmap s).1 name ≡ node_of s name
with_hashmap_node s name ok = elim (Option-cases s.hashmap) [
  | inr (t, e) ↦ ap (λ (r : Bool × Groupmap). node_of r.1 name) (with_some s t e)
  | inl e ↦
      ap (λ (map : Option (ℕ → List Groupmem)). node_in map name) (with_none s e ok)
      ∙ sym (ap (λ (map : Option (ℕ → List Groupmem)). node_in map name) e)
]

add_absent :
    (s : Groupmap) (name : List ℕ) (gid : ℕ)
    → (with_hashmap s).0 ≡ true
    → node_of (with_hashmap s).1 name ≡ none
    → grouplist_add s name gid ≡ add_member (with_hashmap s).1 (name_hash name) name gid
unfolding grouplist_add
add_absent s name gid e o = rw (e, o) refl

add_present :
    (s : Groupmap) (name : List ℕ) (gid : ℕ) (g : Groupmem)
    → (with_hashmap s).0 ≡ true
    → node_of (with_hashmap s).1 name ≡ some g
    → grouplist_add s name gid ≡ add_gid (with_hashmap s).1 (name_hash name) name gid g
unfolding grouplist_add
add_present s name gid g e o = rw (e, o) refl

add_refused :
    (s : Groupmap) (name : List ℕ) (gid : ℕ)
    → (with_hashmap s).0 ≡ false
    → (grouplist_add s name gid).0 ≡ false
unfolding grouplist_add grouplist_free
add_refused s name gid e = rw e refl

-- When nss_mcdb_acct_make_grouplist_add returns true, in any state of the map, the gids that the
-- map has of the name are those from before with the new one at the end, if the name was not
-- there or its node had room; if its node was full, they are those from before.
pub grouplist_add-gids_then :
    (s : Groupmap) (name : List ℕ) (gid : ℕ)
    → (grouplist_add s name gid).0 ≡ true
    → gids_of (node_of (grouplist_add s name gid).1 name) ≡ gids_then (node_of s name) gid
grouplist_add-gids_then s name gid ok =
    let (there, s₁) = with_hashmap s in
    elim (Bool-cases there) [
      | inr e ↦ absurd (false≢true (sym (add_refused s name gid e) ∙ ok))
      | inl e ↦
          let same = with_hashmap_node s name e in
          elim (Option-cases (node_of s₁ name)) [
            | inl o ↦
                let added = add_absent s name gid e o in
                ap (λ (r : Bool × Groupmap). gids_of (node_of r.1 name)) added
                ∙ add_member-gids s₁ name gid (sym (ap (λ (r : Bool × Groupmap). r.0) added) ∙ ok)
                ∙ ap (λ (n : Option Groupmem). gids_then n gid) (sym o ∙ same)
            | inr (g, o) ↦
                let added = add_present s name gid g e o in
                ap (λ (r : Bool × Groupmap). gids_of (node_of r.1 name)) added
                ∙ add_gid-gids s₁ name gid g o (sym (ap (λ (r : Bool × Groupmap). r.0) added) ∙ ok)
                ∙ ap (λ (n : Option Groupmem). gids_then n gid) (sym o ∙ same)
          ]
    ]
