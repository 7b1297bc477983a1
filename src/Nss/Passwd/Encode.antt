-- ===== src/Nss/Passwd/Encode.antt =====
-- nss_mcdb_acct_make_passwd_encode of nss/nss_mcdb_acct_make.c: a user under its name and its number.
use mcdb.Base.{
  ℕ, ◌+◌, ◌*◌, ◌^◌, ◌<◌, ◌≡◌, refl, sym, ap, ◌∙◌, subst, List, ◌∷◌, Bool, true, false, All, inl,
  inr, none,
}
use mcdb.Base.{length, ◌==◌, if◌then◌else◌, u32, arith, Bool-cases}
use mcdb.Base.Memory.{Memory, load, length-load}
use mcdb.Plasma.{Plasma, IsByte}
use mcdb.Mcdb.{djb}
use mcdb.Make.{Make}
use mcdb.Make.Valid.{IsMake, Few}
use mcdb.Make.Add.{Rc, mcdb_make_add}
use mcdb.Make.Added.{Added}
use mcdb.Make.Added.Add.{add-cases}
use mcdb.Make.Added.Keeps.{add-IsMake}
use mcdb.Lookup.Stored.{Holds, add-Holds, add_ok-Holds}
use mcdb.Nss.{htonl}
use mcdb.Nss.Write.{nss_mcdb_make_mcdbctl_write}
use mcdb.Nss.Write.Joined.{is_ok, write-add}
use mcdb.Nss.Passwd.{Passwd, passwd_datastr}
use mcdb.Nss.Passwd.RoundTrip.{datastr-StoredPasswd, passwd_datastr_fits}

module _ ⦃plasma : Plasma⦄ where
  -- The two writes of the same data, where '=' is 61 and 'x' is 120.
  unfoldable pub write_both : Make → Passwd → List ℕ → Bool × Make
  unfolding nss_mcdb_make_mcdbctl_write
  write_both m pw data' =
      let (named, m₁) = nss_mcdb_make_mcdbctl_write m 61 pw.pw_name data' in
      let numbered = nss_mcdb_make_mcdbctl_write m₁ 120 (htonl (u32 pw.pw_uid)) data' in
      if named then numbered else (false, m₁)

  -- `mem` has `w->data`, at `buf` with `datasz` bytes.
  unfoldable pub passwd_encode : Make → Memory → ℕ → ℕ → Passwd → Bool × (Make × Memory)
  unfolding passwd_datastr write_both
  passwd_encode m mem buf datasz pw =
      let (dlen, mem₁) = passwd_datastr mem buf datasz pw in
      let (ok, m₁) = write_both m pw (load mem₁ buf dlen) in
      if dlen == 0 then (false, (m, mem₁)) else (ok, (m₁, mem₁))

  write_ok :
      (m m' : Make) (tagc : ℕ) (key data' : List ℕ)
      → m.has_fd ≡ true
      → m.hash_fn ≡ djb
      → m.pos + 9 + length key + length data' < 2 ^ 63
      → nss_mcdb_make_mcdbctl_write m tagc key data' ≡ (true, m')
      → (mcdb_make_add m (tagc ∷ key) data' ≡ (none, m')) × Added m (tagc ∷ key) data' m'
  write_ok m m' tagc key data' fd fn low run =
      let e : (is_ok (mcdb_make_add m (tagc ∷ key) data').0, (mcdb_make_add m (tagc ∷ key) data').1)
          ≡ (true, m') =
        sym (write-add m tagc key data' fd fn low) ∙ run in
      elim (add-cases m (tagc ∷ key) data' fd (omega arith)) [
        | inl (m₁, ran, added) ↦
            let end : m₁ ≡ m' = ap (λ (r : Rc). r.1) (sym ran) ∙ ap (λ (r : Bool × Make). r.1) e in
            (
              ran ∙ ap (λ (k : Make). (none, k)) end,
              subst (λ (k : Make). Added m (tagc ∷ key) data' k) end added,
            )
        | inr (er, m₁, ran, same) ↦
            let wrong : false ≡ true =
              ap (λ (r : Rc). is_ok r.0) (sym ran) ∙ ap (λ (r : Bool × Make). r.0) e in
            absurd (ground (arith, wrong))
      ]

  both_named :
      (m : Make) (pw : Passwd) (data' : List ℕ)
      → let w = nss_mcdb_make_mcdbctl_write m 61 pw.pw_name data' in
        w.0 ≡ true
        → write_both m pw data' ≡ nss_mcdb_make_mcdbctl_write w.1 120 (htonl (u32 pw.pw_uid)) data'
  unfolding write_both
  both_named m pw data' named = rw named refl

  both_unnamed :
      (m : Make) (pw : Passwd) (data' : List ℕ)
      → (nss_mcdb_make_mcdbctl_write m 61 pw.pw_name data').0 ≡ false
      → (write_both m pw data').0 ≡ false
  unfolding write_both
  both_unnamed m pw data' unnamed = rw unnamed refl

  pub write_both-Holds :
      (m m' : Make) (pw : Passwd) (data' : List ℕ)
      → IsMake m
      → Few m
      → m.hash_fn ≡ djb
      → All IsByte pw.pw_name
      → m.pos + 22 + length pw.pw_name + 2 * length data' < 2 ^ 63
      → write_both m pw data' ≡ (true, m')
      → Holds m' (61 ∷ pw.pw_name) data' × Holds m' (120 ∷ htonl (u32 pw.pw_uid)) data'
  write_both-Holds m m' pw data' valid few fn bytes low run =
      let w = nss_mcdb_make_mcdbctl_write m 61 pw.pw_name data' in
      elim (Bool-cases w.0) [
        | inr unnamed ↦
            let wrong : false ≡ true =
              sym (both_unnamed m pw data' unnamed) ∙ ap (λ (r : Bool × Make). r.0) run in
            absurd (ground (arith, wrong))
        | inl named ↦
            let m₁ : Make = w.1 in
            let (add₁, a₁) =
              write_ok m m₁ 61 pw.pw_name data' valid.fd fn (omega arith)
                (ap (λ (b : Bool). (b, m₁)) named) in
            let valid₁ : IsMake m₁ =
              subst (λ (r : Rc). IsMake r.1) add₁
                (add-IsMake m (61 ∷ pw.pw_name) data' valid few (omega arith, bytes)
                  (omega arith)) in
            let (add₂, a₂) =
              write_ok m₁ m' 120 (htonl (u32 pw.pw_uid)) data' valid₁.fd (a₁.hash_fn ∙ fn)
                (omega (arith, a₁.pos)) (sym (both_named m pw data' named) ∙ run) in
            (
              subst (λ (r : Rc). Holds r.1 (61 ∷ pw.pw_name) data') add₂
                  (add-Holds m₁ (120 ∷ htonl (u32 pw.pw_uid)) data' (61 ∷ pw.pw_name) data'
                    valid₁.fd (omega (arith, a₁.pos))
                    (add_ok-Holds m m₁ (61 ∷ pw.pw_name) data' valid (omega arith) add₁)),
              add_ok-Holds m₁ m' (120 ∷ htonl (u32 pw.pw_uid)) data' valid₁ (omega (arith, a₁.pos))
                  add₂,
            )
      ]

  encode_empty :
      (m : Make) (mem : Memory) (buf datasz : ℕ) (pw : Passwd)
      → ((passwd_datastr mem buf datasz pw).0 == 0) ≡ true
      → (passwd_encode m mem buf datasz pw).0 ≡ false
  unfolding passwd_encode
  encode_empty m mem buf datasz pw e = rw e refl

  encode_some :
      (m : Make) (mem : Memory) (buf datasz : ℕ) (pw : Passwd)
      → ((passwd_datastr mem buf datasz pw).0 == 0) ≡ false
      → let made = passwd_datastr mem buf datasz pw in
        let written = write_both m pw (load made.1 buf made.0) in
        passwd_encode m mem buf datasz pw ≡ (written.0, (written.1, made.1))
  unfolding passwd_encode
  encode_some m mem buf datasz pw e = rw e refl

  encode_writes :
      (m m' : Make) (mem mem' : Memory) (buf datasz : ℕ) (pw : Passwd)
      → passwd_encode m mem buf datasz pw ≡ (true, (m', mem'))
      → (0 < (passwd_datastr mem buf datasz pw).0)
        × (mem' ≡ (passwd_datastr mem buf datasz pw).1)
        × (write_both m pw (load mem' buf (passwd_datastr mem buf datasz pw).0) ≡ (true, m'))
  unfolding passwd_encode
  encode_writes m m' mem mem' buf datasz pw run =
      let made = passwd_datastr mem buf datasz pw in
      let written = write_both m pw (load made.1 buf made.0) in
      elim (Bool-cases (made.0 == 0)) [
        | inl zero_size ↦
            let wrong : false ≡ true =
              sym (encode_empty m mem buf datasz pw zero_size)
              ∙ ap (λ (r : Bool × (Make × Memory)). r.0) run in
            absurd (ground (arith, wrong))
        | inr some_size ↦
            let e : (written.0, (written.1, made.1)) ≡ (true, (m', mem')) =
              sym (encode_some m mem buf datasz pw some_size) ∙ run in
            let out : mem' ≡ made.1 = sym (ap (λ (r : Bool × (Make × Memory)). r.1.1) e) in
            (
              ground (arith, some_size),
              out,
              ap (λ (k : Memory). write_both m pw (load k buf made.0)) out
                  ∙ ap (λ (r : Bool × (Make × Memory)). (r.0, r.1.0)) e,
            )
      ]

  -- Let the writer's state be in order, with less than 2 ^ 31 records in each slot, the built-in
  -- hash, and room below 2 ^ 63 for two records of `datasz` bytes. When
  -- nss_mcdb_acct_make_passwd_encode returns true, the writer holds the encoded data under '='
  -- and the user's name, and under 'x' and the four bytes of the user's number.
  pub passwd_encode-Holds :
      (m m' : Make) (mem mem' : Memory) (buf datasz : ℕ) (pw : Passwd)
      → IsMake m
      → Few m
      → m.hash_fn ≡ djb
      → All IsByte pw.pw_name
      → m.pos + 22 + length pw.pw_name + 2 * datasz < 2 ^ 63
      → passwd_encode m mem buf datasz pw ≡ (true, (m', mem'))
      → let data' = load mem' buf (passwd_datastr mem buf datasz pw).0 in
        Holds m' (61 ∷ pw.pw_name) data' × Holds m' (120 ∷ htonl (u32 pw.pw_uid)) data'
  passwd_encode-Holds m m' mem mem' buf datasz pw valid few fn bytes low run =
      let (ok, out, written) = encode_writes m m' mem mem' buf datasz pw run in
      let n : ℕ = (passwd_datastr mem buf datasz pw).0 in
      let size = (datastr-StoredPasswd mem buf datasz pw ok).size in
      let fits = passwd_datastr_fits mem buf datasz pw ok in
      let len : length (load mem' buf n) ≡ n = length-load mem' buf n in
      write_both-Holds m m' pw (load mem' buf n) valid few fn bytes
        (omega (arith, len, size, fits.0, low)) written
