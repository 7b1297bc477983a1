-- ===== src/Nss/Passwd.antt =====
-- Users: nss_mcdb_acct_make_passwd_datastr of nss/nss_mcdb_acct_make.c and
-- nss_mcdb_acct_passwd_decode of nss/nss_mcdb_acct.c, as they are built for Linux.
pub mod RoundTrip
pub mod Encode
use mcdb.Base.{ℕ, zero, suc, ◌+◌, ◌-◌, ◌*◌, ◌^◌, List, [], ◌∷◌, ◌++◌, Bool, true, false, ◌&&◌}
use mcdb.Base.{ltb, leb, if◌then◌else◌, u32, u64, length}
use mcdb.Base.Memory.{Memory, load, store}
use mcdb.Nss.{NssStatus, success, tryagain, htonl, htons, ntohl, ntohs, c_str}

abbrev pub pw_hdrsz : ℕ
pw_hdrsz = 16

abbrev pub ushrt_max : ℕ
ushrt_max = 2 ^ 16 - 1

-- struct passwd, with its strings by their bytes.
pub record Passwd : Type 0 where
  pub pw_name : List ℕ
  pub pw_passwd : List ℕ
  pub pw_uid : ℕ
  pub pw_gid : ℕ
  pub pw_gecos : List ℕ
  pub pw_dir : List ℕ
  pub pw_shell : List ℕ

abbrev pub passwd_offset : Passwd → ℕ
passwd_offset pw = length (c_str pw.pw_name)

abbrev pub gecos_offset : Passwd → ℕ
gecos_offset pw = passwd_offset pw + length (c_str pw.pw_passwd)

abbrev pub dir_offset : Passwd → ℕ
dir_offset pw = gecos_offset pw + length (c_str pw.pw_gecos)

abbrev pub shell_offset : Passwd → ℕ
shell_offset pw = dir_offset pw + length (c_str pw.pw_dir)

abbrev pub passwd_dlen : Passwd → ℕ
passwd_dlen pw = pw_hdrsz + shell_offset pw + length (c_str pw.pw_shell)

-- hdr, in the order of NSS_PW_PASSWD, NSS_PW_GECOS, NSS_PW_DIR, NSS_PW_SHELL, NSS_PW_UID, NSS_PW_GID.
abbrev pub passwd_hdr : Passwd → List ℕ
passwd_hdr pw =
    htons (passwd_offset pw)
    ++ (htons (gecos_offset pw)
        ++ (htons (dir_offset pw)
            ++ (htons (shell_offset pw) ++ (htonl (u32 pw.pw_uid) ++ htonl (u32 pw.pw_gid)))))

-- The copies of the strings, in the order of the calls.
unfoldable pub passwd_strings : Memory → ℕ → Passwd → Memory
passwd_strings mem₁ buf pw =
    let mem₂ = store mem₁ buf (c_str pw.pw_name) in
    let mem₃ = store mem₂ (buf + passwd_offset pw) (c_str pw.pw_passwd) in
    let mem₄ = store mem₃ (buf + gecos_offset pw) (c_str pw.pw_gecos) in
    let mem₅ = store mem₄ (buf + dir_offset pw) (c_str pw.pw_dir) in
    store mem₅ (buf + shell_offset pw) (c_str pw.pw_shell)

-- The size that is returned, 0 with ERANGE, and the memory with the buffer at `buf`.
unfoldable pub passwd_datastr : Memory → ℕ → ℕ → Passwd → ℕ × Memory
passwd_datastr mem buf bufsz pw =
    if leb (passwd_dlen pw) bufsz
      && (leb (passwd_offset pw) ushrt_max
          && (leb (gecos_offset pw) ushrt_max
              && (leb (dir_offset pw) ushrt_max && leb (shell_offset pw) ushrt_max)))
    then (passwd_dlen pw - 1, passwd_strings (store mem buf (passwd_hdr pw)) (buf + pw_hdrsz) pw)
    else (0, mem)

-- struct passwd as the decoder fills it: its strings by their addresses.
pub record PasswdPtrs : Type 0 where
  pub name : ℕ
  pub passwd : ℕ
  pub uid : ℕ
  pub gid : ℕ
  pub gecos : ℕ
  pub dir : ℕ
  pub shell : ℕ

-- The copy of the strings with a final '\0', and the struct.
unfoldable pub passwd_fill : Memory → ℕ → Memory → ℕ → ℕ → Memory × PasswdPtrs
passwd_fill mem dptr out buf dlen = (
  store (store out buf (load mem (dptr + pw_hdrsz) dlen)) (buf + dlen) (0 ∷ []),
  record {
    name = buf;
    passwd = buf + ntohs mem (dptr + 0);
    uid = ntohl mem (dptr + 8);
    gid = ntohl mem (dptr + 12);
    gecos = buf + ntohs mem (dptr + 2);
    dir = buf + ntohs mem (dptr + 4);
    shell = buf + ntohs mem (dptr + 6);
  },
)

-- `mem` is the map, the data stand at `dptr` in it; `out` has the caller's buffer at `buf`.
unfoldable pub passwd_decode :
    Memory → ℕ → ℕ → Memory → ℕ → ℕ → PasswdPtrs → NssStatus × (Memory × PasswdPtrs)
unfolding passwd_fill
passwd_decode mem dptr datalen out buf bufsz pw =
    let dlen = u64 (datalen + 2 ^ 64 - pw_hdrsz) in
    if ltb dlen bufsz then (success, passwd_fill mem dptr out buf dlen) else (tryagain, (out, pw))
