-- ===== src/Tests/Nss.antt =====
-- A user and the groups of a user, encoded and decoded.
use mcdb.Base.{ℕ, ◌+◌, ◌^◌, ◌<◌, ◌≡◌, refl, List, [], ◌∷◌, Bool, true, arith, false, some, none}
use mcdb.Base.{u32}
use mcdb.Base.Memory.{Memory, load}
use mcdb.Mcdb.{djb}
use mcdb.Make.{Make, ask, poke}
use mcdb.Make.Hplist.{mcdb_make_addend}
use mcdb.Make.Upsize.{
  upsize_offset, upsize_msz, grow_file, unmap_prior, map_window, mcdb_mmap_upsize,
}
use mcdb.Make.Add.{
  make_room, begin_hp, ensure_window, write_lens, mcdb_make_addbegin, mcdb_make_addbuf_data,
  mcdb_make_addbuf_key, mcdb_make_add,
}
use mcdb.Make.Start.{start_state, mcdb_make_start}
use mcdb.Lookup.Stored.{Holds}
use mcdb.Nss.{success, tryagain, htonl}
use mcdb.Nss.Grouplist.{grouplist_datastr, grouplist_decode}
use mcdb.Nss.Grouplist.RoundTrip.{
  StoredGroups, datastr-StoredGroups, Listed, grouplist_decode-grouplist_datastr,
}
use mcdb.Nss.Grouplist.Short.{decode_short, decode_overrun}
use mcdb.Base.Memory.{same_bytes}
use mcdb.Nss.Groupmem.{
  Groupmap, pool_alloc, groupmem_alloc, groupmem_stralloc, grouplist_free, find_member, push_gid,
  with_hashmap, add_member, add_gid, grouplist_add,
}
use mcdb.Nss.Groupmem.Gids.{node_of, gids_of, gids_then, grouplist_add-gids_then}
use mcdb.Uint32.Hash.{hash_djb, hash_djb_uchar}
use mcdb.Nss.Write.{nss_mcdb_make_mcdbctl_write}
use mcdb.Nss.Write.Joined.{is_ok, write-add}
use mcdb.Nss.Passwd.{Passwd, PasswdPtrs, passwd_datastr, passwd_decode}
use mcdb.Nss.Passwd.RoundTrip.{Reads, passwd_decode-passwd_datastr}
use mcdb.Nss.Passwd.Encode.{write_both, passwd_encode, passwd_encode-Holds}
use mcdb.Nss.Session.{Session, nss_mcdb_setent, nss_mcdb_buf_decode}
use mcdb.Nss.Session.Loop.{named}
use mcdb.Nss.Session.Walk.{Lists, setent-getent}
use mcdb.Tests.Runs.{
  bytes_first, blank, begun, begun-IsMake, begun-Few, with_two, with_two_pos, with_two-IsMake,
  with_two-Few, final, final_ok,
}
use mcdb.Tests.Found.{sys, read, read_ok, handle}
use mcdb.Tests.Ctl.{rs_two, two-Lies}

abbrev user : Passwd
user = record {
  pw_name = b'a' ∷ b'l' ∷ [];
  pw_passwd = b'x' ∷ [];
  pw_uid = 1000;
  pw_gid = 100;
  pw_gecos = [];
  pw_dir = b'/' ∷ [];
  pw_shell = b's' ∷ [];
}

abbrev unset : PasswdPtrs
unset = record { name = 0; passwd = 0; uid = 0; gid = 0; gecos = 0; dir = 0; shell = 0 }

-- The data in a buffer at 64, and the decoder's buffer at 512.
abbrev made : ℕ × Memory
made = passwd_datastr blank 64 128 user

made_some : 0 < made.0
unfolding passwd_datastr
made_some = omega arith

made_small : made.0 < 2 ^ 32
unfolding passwd_datastr
made_small = omega arith

made_fits : made.0 < 64 + 16
unfolding passwd_datastr
made_fits = omega arith

passwd_decode-passwd_datastr_example :
    let r = passwd_decode made.1 64 made.0 blank 512 64 unset in
    (r.0 ≡ success) × Reads user r.1.0 r.1.1
passwd_decode-passwd_datastr_example =
    passwd_decode-passwd_datastr blank 64 128 user made.1 64 blank 512 64 unset made_some made_small
      (λ i lt. refl) made_fits

-- Group 100 is the user's own.
abbrev gids : List ℕ
gids = 7 ∷ 100 ∷ 9 ∷ []

abbrev grouped : ℕ × Memory
grouped = grouplist_datastr blank 64 128 gids

grouped_some : 0 < grouped.0
unfolding grouplist_datastr
grouped_some = omega arith

grouplist_decode-grouplist_datastr_example :
    Listed 100 gids (grouplist_decode grouped.1 64 100 blank 4)
grouplist_decode-grouplist_datastr_example =
    grouplist_decode-grouplist_datastr blank 64 128 gids grouped.1 64 100 blank 4 grouped_some
      (omega arith, (omega arith, (omega arith, tt))) (omega arith) (λ i lt. refl) (omega arith)

grouped-StoredGroups : StoredGroups grouped.1 64 gids
grouped-StoredGroups =
    datastr-StoredGroups blank 64 128 gids (omega arith) (omega arith)
      (omega arith, (omega arith, (omega arith, tt)))

decode_short_example :
    grouplist_decode grouped.1 64 100 blank 2
    ≡ record { status = tryagain; filled = record { gidlist = blank; num = 3; written = 0 } }
decode_short_example =
    decode_short grouped.1 64 100 gids blank 2 grouped-StoredGroups (omega arith) (omega arith)

own_last : StoredGroups (grouplist_datastr blank 64 128 (7 ∷ 100 ∷ [])).1 64 (7 ∷ 100 ∷ [])
own_last =
    datastr-StoredGroups blank 64 128 (7 ∷ 100 ∷ []) (omega arith) (omega arith)
      (omega arith, (omega arith, tt))

decode_overrun_example :
    let d = grouplist_decode (grouplist_datastr blank 64 128 (7 ∷ 100 ∷ [])).1 64 100 blank 2 in
    (d.status ≡ success) × (d.filled.written ≡ 3)
decode_overrun_example = decode_overrun _ 64 100 (7 ∷ []) blank 2 own_last refl refl (omega arith)

begun_djb : begun.hash_fn ≡ djb
unfolding mcdb_make_start start_state mcdb_mmap_upsize upsize_offset upsize_msz grow_file
    unmap_prior map_window ask
begun_djb = refl

begun_low : begun.pos < 2 ^ 20
unfolding mcdb_make_start start_state mcdb_mmap_upsize upsize_offset upsize_msz grow_file
    unmap_prior map_window ask
begun_low = omega arith

write-add_example :
    let r = mcdb_make_add begun (b'=' ∷ b'a' ∷ []) (b'1' ∷ []) in
    nss_mcdb_make_mcdbctl_write begun b'=' (b'a' ∷ []) (b'1' ∷ []) ≡ (is_ok r.0, r.1)
write-add_example =
    write-add begun b'=' (b'a' ∷ []) (b'1' ∷ []) begun-IsMake.fd begun_djb
      (omega (arith, begun_low))

abbrev encoded : Bool × (Make × Memory)
encoded = passwd_encode begun blank 64 128 user

encoded_ok : encoded ≡ (true, encoded.1)
unfolding passwd_encode write_both nss_mcdb_make_mcdbctl_write passwd_datastr mcdb_make_addbegin
    make_room begin_hp ensure_window write_lens mcdb_make_addbuf_key mcdb_make_addbuf_data
    mcdb_make_addend mcdb_make_start start_state mcdb_mmap_upsize upsize_offset upsize_msz grow_file
    unmap_prior map_window ask poke load
encoded_ok = refl

passwd_encode-Holds_example :
    let data' = load encoded.1.1 64 made.0 in
    Holds encoded.1.0 (61 ∷ b'a' ∷ b'l' ∷ []) data'
    × Holds encoded.1.0 (120 ∷ htonl (u32 1000)) data'
passwd_encode-Holds_example =
    passwd_encode-Holds begun encoded.1.0 blank encoded.1.1 64 128 user begun-IsMake begun-Few
      begun_djb (omega arith, (omega arith, tt)) (omega (arith, begun_low)) encoded_ok

abbrev closed : Session
closed = record { is_open = false; st = handle }

setent-getent_example :
    let (status, s) = nss_mcdb_setent closed (some read) in
    (status ≡ success)
    × (s.is_open ≡ true)
    × Lists 3 (nss_mcdb_buf_decode blank 64 16) blank s.st (named rs_two)
setent-getent_example =
    setent-getent with_two final sys read handle rs_two 3 (nss_mcdb_buf_decode blank 64 16) blank
      with_two-IsMake with_two-Few with_two_pos two-Lies final_ok read_ok
      (omega arith, (omega arith, tt)) (omega arith)

-- Four groups of a user, added one after the other.
abbrev no_groups : Groupmap
no_groups = record {
  hashmap = none;
  nodes = record { sz = 0; idx = 0; blocks = 0 };
  strings = record { sz = 0; idx = 0; blocks = 0 };
  fails = λ k. false;
  calls = 0;
  size_max = 1024;
}

abbrev al : List ℕ
al = b'a' ∷ b'l' ∷ []

abbrev four_groups : Groupmap
four_groups =
    (grouplist_add (grouplist_add (grouplist_add (grouplist_add no_groups al 1).1 al 2).1 al 3).1 al
      4).1

fifth_ok : (grouplist_add four_groups al 5).0 ≡ true
unfolding grouplist_add with_hashmap find_member add_member add_gid push_gid grouplist_free
    groupmem_alloc groupmem_stralloc pool_alloc hash_djb hash_djb_uchar same_bytes
fifth_ok = refl

four_there : gids_then (node_of four_groups al) 5 ≡ 1 ∷ 2 ∷ 3 ∷ 4 ∷ []
unfolding grouplist_add with_hashmap find_member add_member add_gid push_gid grouplist_free
    groupmem_alloc groupmem_stralloc pool_alloc hash_djb hash_djb_uchar same_bytes
four_there = refl

grouplist_add-gids_then_example :
    gids_of (node_of (grouplist_add four_groups al 5).1 al) ≡ gids_then (node_of four_groups al) 5
grouplist_add-gids_then_example = grouplist_add-gids_then four_groups al 5 fifth_ok
