-- ===== src/Nss/Passwd/RoundTrip.antt =====
-- What nss_mcdb_acct_make_passwd_datastr lays out, nss_mcdb_acct_passwd_decode finds again.
use mcdb.Base.{
  ℕ, ◌+◌, ◌-◌, ◌^◌, ◌≤◌, ◌<◌, ◌≡◌, refl, sym, ap, ◌∙◌, subst, List, [], ◌∷◌, true, length-append,
  take, drop,
}
use mcdb.Base.{ltb, u32, u64, arith, length}
use mcdb.Base.Memory.{Memory, load, store, At, At-append, At-store_self}
use mcdb.Nss.{NssStatus, success, ntohl, ntohs, c_str}
use mcdb.Nss.Segments.{
  Within, moved-Within, Within-store, Within-store_unended, moved-At, copied, ntohs-At, ntohl-At,
  slice-At,
}
use mcdb.Nss.Passwd.{
  Passwd, pw_hdrsz, passwd_offset, gecos_offset, dir_offset, shell_offset, passwd_dlen, passwd_hdr,
  passwd_strings, passwd_datastr, PasswdPtrs, passwd_fill, passwd_decode,
}

length-c_str : (s : List ℕ) → length (c_str s) ≡ length s + 1
length-c_str s = length-append s (0 ∷ [])

-- The layout of a user's data, from the last string back to the header.
abbrev pub layout_name : Passwd → List (ℕ × List ℕ)
layout_name pw = (pw_hdrsz, c_str pw.pw_name) ∷ (0, passwd_hdr pw) ∷ []

abbrev pub layout_gecos : Passwd → List (ℕ × List ℕ)
layout_gecos pw =
    (pw_hdrsz + gecos_offset pw, c_str pw.pw_gecos)
    ∷ (pw_hdrsz + passwd_offset pw, c_str pw.pw_passwd)
    ∷ layout_name pw

abbrev pub layout : Passwd → List (ℕ × List ℕ)
layout pw =
    (pw_hdrsz + shell_offset pw, pw.pw_shell)
    ∷ (pw_hdrsz + dir_offset pw, c_str pw.pw_dir)
    ∷ layout_gecos pw

-- The data of a user that the encoder made stand at `a`, in `n` bytes.
pub record StoredPasswd (mem : Memory) (a n : ℕ) (pw : Passwd) : Type 0 where
  pub size : n + 1 ≡ passwd_dlen pw
  pub offsets : shell_offset pw < 2 ^ 16
  pub laid : Within mem a n (layout pw)

pub passwd_datastr_fits :
    (mem : Memory) (buf bufsz : ℕ) (pw : Passwd)
    → 0 < (passwd_datastr mem buf bufsz pw).0
    → (passwd_dlen pw ≤ bufsz) × (shell_offset pw < 2 ^ 16)
unfolding passwd_datastr
passwd_datastr_fits mem buf bufsz pw ok = (ground arith, ground arith)

passwd_datastr_ok :
    (mem : Memory) (buf bufsz : ℕ) (pw : Passwd)
    → 0 < (passwd_datastr mem buf bufsz pw).0
    → passwd_datastr mem buf bufsz pw
      ≡ (passwd_dlen pw - 1, passwd_strings (store mem buf (passwd_hdr pw)) (buf + pw_hdrsz) pw)
unfolding passwd_datastr
passwd_datastr_ok mem buf bufsz pw ok = ground arith

hdr-Within :
    (mem : Memory) (a : ℕ) (pw : Passwd)
    → Within (store mem a (passwd_hdr pw)) a pw_hdrsz ((0, passwd_hdr pw) ∷ [])
hdr-Within mem a pw = Within-store mem a 0 a pw_hdrsz (passwd_hdr pw) [] (omega arith) refl tt

passwd_strings-Within :
    (mem : Memory) (a : ℕ) (pw : Passwd)
    → Within mem a pw_hdrsz ((0, passwd_hdr pw) ∷ [])
    → Within
        (passwd_strings mem (a + pw_hdrsz) pw)
        a
        (pw_hdrsz + shell_offset pw + length pw.pw_shell)
        (layout pw)
unfolding passwd_strings
passwd_strings-Within mem₁ a pw h₁ =
    let b : ℕ = a + pw_hdrsz in
    let mem₂ : Memory = store mem₁ b (c_str pw.pw_name) in
    let mem₃ : Memory = store mem₂ (b + passwd_offset pw) (c_str pw.pw_passwd) in
    let mem₄ : Memory = store mem₃ (b + gecos_offset pw) (c_str pw.pw_gecos) in
    let mem₅ : Memory = store mem₄ (b + dir_offset pw) (c_str pw.pw_dir) in
    let h₂ : Within mem₂ a (pw_hdrsz + passwd_offset pw) (layout_name pw) =
      Within-store mem₁ a pw_hdrsz b _ (c_str pw.pw_name) ((0, passwd_hdr pw) ∷ []) refl refl h₁ in
    let h₃ : Within mem₃ a (pw_hdrsz + gecos_offset pw)
        ((pw_hdrsz + passwd_offset pw, c_str pw.pw_passwd) ∷ layout_name pw) =
      Within-store mem₂ a (pw_hdrsz + passwd_offset pw) (b + passwd_offset pw) _
        (c_str pw.pw_passwd) (layout_name pw) (omega arith) (omega arith) h₂ in
    let h₄ : Within mem₄ a (pw_hdrsz + dir_offset pw) (layout_gecos pw) =
      Within-store mem₃ a (pw_hdrsz + gecos_offset pw) (b + gecos_offset pw) _ (c_str pw.pw_gecos)
        ((pw_hdrsz + passwd_offset pw, c_str pw.pw_passwd) ∷ layout_name pw) (omega arith)
        (omega arith) h₃ in
    let h₅ : Within mem₅ a (pw_hdrsz + shell_offset pw)
        ((pw_hdrsz + dir_offset pw, c_str pw.pw_dir) ∷ layout_gecos pw) =
      Within-store mem₄ a (pw_hdrsz + dir_offset pw) (b + dir_offset pw) _ (c_str pw.pw_dir)
        (layout_gecos pw) (omega arith) (omega arith) h₄ in
    Within-store_unended mem₅ a (pw_hdrsz + shell_offset pw) (b + shell_offset pw) pw.pw_shell
      ((pw_hdrsz + dir_offset pw, c_str pw.pw_dir) ∷ layout_gecos pw) (omega arith) h₅

pub datastr-StoredPasswd :
    (mem : Memory) (buf bufsz : ℕ) (pw : Passwd)
    → 0 < (passwd_datastr mem buf bufsz pw).0
    → StoredPasswd (passwd_datastr mem buf bufsz pw).1 buf (passwd_datastr mem buf bufsz pw).0 pw
datastr-StoredPasswd mem buf bufsz pw ok =
    let fits = passwd_datastr_fits mem buf bufsz pw ok in
    let shell : length (c_str pw.pw_shell) ≡ length pw.pw_shell + 1 = length-c_str pw.pw_shell in
    let mem₁ : Memory = store mem buf (passwd_hdr pw) in
    let done : StoredPasswd (passwd_strings mem₁ (buf + pw_hdrsz) pw) buf (passwd_dlen pw - 1) pw =
      record {
        size = omega (arith, shell);
        offsets = fits.1;
        laid =
            subst (λ n. Within (passwd_strings mem₁ (buf + pw_hdrsz) pw) buf n (layout pw))
              (omega (arith, shell)) (passwd_strings-Within mem₁ buf pw (hdr-Within mem buf pw));
      } in
    subst (λ (r : ℕ × Memory). StoredPasswd r.1 buf r.0 pw)
      (sym (passwd_datastr_ok mem buf bufsz pw ok)) done

hdr_offsets :
    (mem : Memory) (a : ℕ) (pw : Passwd)
    → shell_offset pw < 2 ^ 16
    → At mem a (passwd_hdr pw)
    → ((ntohs mem (a + 0) ≡ passwd_offset pw) × (ntohs mem (a + 2) ≡ gecos_offset pw))
      × ((ntohs mem (a + 4) ≡ dir_offset pw) × (ntohs mem (a + 6) ≡ shell_offset pw))
hdr_offsets mem a pw small h =
    let part : (k n : ℕ) → At mem (a + k) (take n (drop k (passwd_hdr pw))) =
      λ k n. slice-At mem a k n (passwd_hdr pw) h in
    (
      (
        ntohs-At mem (a + 0) (passwd_offset pw) (omega arith) (part 0 2),
        ntohs-At mem (a + 2) (gecos_offset pw) (omega arith) (part 2 2),
      ),
      (
        ntohs-At mem (a + 4) (dir_offset pw) (omega arith) (part 4 2),
        ntohs-At mem (a + 6) (shell_offset pw) small (part 6 2),
      ),
    )

hdr_ids :
    (mem : Memory) (a : ℕ) (pw : Passwd)
    → At mem a (passwd_hdr pw)
    → (ntohl mem (a + 8) ≡ u32 pw.pw_uid) × (ntohl mem (a + 12) ≡ u32 pw.pw_gid)
hdr_ids mem a pw h = (
  ntohl-At mem (a + 8) (u32 pw.pw_uid) (omega arith) (slice-At mem a 8 4 (passwd_hdr pw) h),
  ntohl-At mem (a + 12) (u32 pw.pw_gid) (omega arith) (slice-At mem a 12 4 (passwd_hdr pw) h),
)

-- The struct has the user's numbers, and its pointers lead to the user's strings.
pub record Reads (pw : Passwd) (mem : Memory) (p : PasswdPtrs) : Type 0 where
  pub reads_name : At mem p.name (c_str pw.pw_name)
  pub reads_passwd : At mem p.passwd (c_str pw.pw_passwd)
  pub reads_gecos : At mem p.gecos (c_str pw.pw_gecos)
  pub reads_dir : At mem p.dir (c_str pw.pw_dir)
  pub reads_shell : At mem p.shell (c_str pw.pw_shell)
  pub reads_uid : p.uid ≡ u32 pw.pw_uid
  pub reads_gid : p.gid ≡ u32 pw.pw_gid

fill-Reads :
    (mem : Memory) (dptr n : ℕ) (out : Memory) (buf : ℕ) (pw : Passwd)
    → StoredPasswd mem dptr n pw
    → let r = passwd_fill mem dptr out buf (shell_offset pw + length pw.pw_shell) in
      Reads pw r.0 r.1
unfolding passwd_fill
fill-Reads mem dptr n out buf pw h =
    let k : ℕ = shell_offset pw + length pw.pw_shell in
    let mem₂ : Memory = store (store out buf (load mem (dptr + pw_hdrsz) k)) (buf + k) (0 ∷ []) in
    let moved : (p off : ℕ) (s : List ℕ)
        → p ≡ off
        → off + length s ≤ k
        → At mem (dptr + (pw_hdrsz + off)) s
        → At mem₂ (buf + p) s =
      λ p off s e le at.
        moved-At mem mem₂ (dptr + (pw_hdrsz + off)) (buf + p) s
          (λ i lt.
            ap mem₂ (omega (arith, e))
            ∙ copied mem out (dptr + pw_hdrsz) buf k (off + i) (omega (arith, lt, le))
            ∙ ap mem (omega arith))
          at in
    let (shell, (dir, (gecos, (passwd, (name, (hdr, end)))))) = h.laid in
    let here : dptr + 0 ≡ dptr = omega arith in
    let hdr_at : At mem dptr (passwd_hdr pw) = subst (λ p. At mem p (passwd_hdr pw)) here hdr.1 in
    let off = hdr_offsets mem dptr pw h.offsets hdr_at in
    let ids = hdr_ids mem dptr pw hdr_at in
    let end_at : At mem₂ (buf + ntohs mem (dptr + 6) + length pw.pw_shell) (0 ∷ []) =
      subst (λ p. At mem₂ p (0 ∷ [])) (omega (arith, off.1.1))
        (At-store_self (store out buf (load mem (dptr + pw_hdrsz) k)) (buf + k) (0 ∷ [])) in
    record {
      reads_name =
          subst (λ p. At mem₂ p (c_str pw.pw_name)) (omega arith)
            (moved 0 0 (c_str pw.pw_name) refl (omega arith) name.1);
      reads_passwd = moved _ (passwd_offset pw) (c_str pw.pw_passwd) off.0.0 (omega arith) passwd.1;
      reads_gecos = moved _ (gecos_offset pw) (c_str pw.pw_gecos) off.0.1 (omega arith) gecos.1;
      reads_dir = moved _ (dir_offset pw) (c_str pw.pw_dir) off.1.0 (omega arith) dir.1;
      reads_shell =
          At-append mem₂ (buf + ntohs mem (dptr + 6)) pw.pw_shell (0 ∷ [])
            (moved _ (shell_offset pw) pw.pw_shell off.1.1 (omega arith) shell.1) end_at;
      reads_uid = ids.0;
      reads_gid = ids.1;
    }

passwd_decode_fills :
    (mem : Memory) (dptr n : ℕ) (out : Memory) (buf bufsz : ℕ) (pw : Passwd) (old : PasswdPtrs)
    → StoredPasswd mem dptr n pw
    → n < 2 ^ 32
    → n < bufsz + pw_hdrsz
    → passwd_decode mem dptr n out buf bufsz old
      ≡ (success, passwd_fill mem dptr out buf (shell_offset pw + length pw.pw_shell))
unfolding passwd_decode
passwd_decode_fills mem dptr n out buf bufsz pw old h high room =
    let shell : length (c_str pw.pw_shell) ≡ length pw.pw_shell + 1 = length-c_str pw.pw_shell in
    let size : n ≡ pw_hdrsz + shell_offset pw + length pw.pw_shell = omega (arith, h.size, shell) in
    let dlen : u64 (n + 2 ^ 64 - pw_hdrsz) ≡ shell_offset pw + length pw.pw_shell =
      omega (arith, size) in
    let fits : ltb (u64 (n + 2 ^ 64 - pw_hdrsz)) bufsz ≡ true = ground (arith, dlen, size) in
    rw fits (ap (λ (k : ℕ). (success, passwd_fill mem dptr out buf k)) dlen)

-- When nss_mcdb_acct_make_passwd_datastr encodes a user, its n bytes, with 0 < n < 2 ^ 32, stand
-- at `dptr` in the map, and n is below bufsz + 16, nss_mcdb_acct_passwd_decode returns success,
-- and the struct has the user's numbers as uint32_t and pointers to the user's strings, each with
-- a final zero byte, in the caller's buffer.
pub passwd_decode-passwd_datastr :
    (made : Memory) (from room : ℕ) (pw : Passwd) (mem : Memory) (dptr : ℕ) (out : Memory)
    (buf bufsz : ℕ) (old : PasswdPtrs)
    → let n = (passwd_datastr made from room pw).0 in
      let made' = (passwd_datastr made from room pw).1 in
      let r = passwd_decode mem dptr n out buf bufsz old in
      0 < n
      → n < 2 ^ 32
      → ((i : ℕ) → i < n → mem (dptr + i) ≡ made' (from + i))
      → n < bufsz + pw_hdrsz
      → (r.0 ≡ success) × Reads pw r.1.0 r.1.1
passwd_decode-passwd_datastr made from room pw mem dptr out buf bufsz old ok high same fits =
    let enc = datastr-StoredPasswd made from room pw ok in
    let stored : StoredPasswd mem dptr (passwd_datastr made from room pw).0 pw = record {
      size = enc.size;
      offsets = enc.offsets;
      laid = moved-Within _ mem from dptr _ (layout pw) same enc.laid;
    } in
    let e = passwd_decode_fills mem dptr _ out buf bufsz pw old stored high fits in
    subst (λ (r : NssStatus × (Memory × PasswdPtrs)). (r.0 ≡ success) × Reads pw r.1.0 r.1.1)
      (sym e) (refl, fill-Reads mem dptr _ out buf pw stored)
