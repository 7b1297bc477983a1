-- ===== src/Nss/Write/Joined.antt =====
-- A key that is added in two parts is the key added at once, as the built-in hash goes on from part
-- to part.
use mcdb.Base.{
  ℕ, suc, ◌+◌, ◌-◌, ◌^◌, ◌≤◌, ◌<◌, ◌≡◌, refl, sym, ap, ap₂, ◌∙◌, List, [], ◌∷◌, Bool, true, false,
  Option, none, some, inl, inr, fun_ext, get_or,
}
use mcdb.Base.{length, u64, arith}
use mcdb.Base.Memory.{Memory, store}
use mcdb.Plasma.{Plasma}
use mcdb.Uint32.Hash.{hash_djb-append}
use mcdb.Mcdb.{djb, run_hash}
use mcdb.Make.{Make, Errno, poke}
use mcdb.Make.Hplist.{mcdb_make_addend}
use mcdb.Make.Add.{
  Rc, write_lens, mcdb_make_addbegin, mcdb_make_addbuf_key, mcdb_make_addbuf_data, mcdb_make_add,
}
use mcdb.Make.Added.Begin.{begun, begun-Same, addbegin-cases}
use mcdb.Make.Added.Add.{add_goes, add_fails}
use mcdb.Nss.Write.{nss_mcdb_make_mcdbctl_write}

-- Two stores side by side.
store_joined :
    (mem : Memory) (p c b : ℕ) (s : List ℕ)
    → c ≡ p + 1
    → store (store mem p (b ∷ [])) c s ≡ store mem p (b ∷ s)
unfolding store
store_joined mem p c b s e = fun_ext λ i.
    let zeroth : i ≡ p → i - p ≡ 0 = λ here. omega (arith, here) in
    let first : i ≡ p → get_or (b ∷ s) (i - p) 0 ≡ b =
      λ here. ap (λ (j : ℕ). get_or (b ∷ s) j 0) (zeroth here) in
    let alone : i ≡ p → get_or (b ∷ []) (i - p) 0 ≡ b =
      λ here. ap (λ (j : ℕ). get_or (b ∷ []) j 0) (zeroth here) in
    let next : c ≤ i → i - p ≡ suc (i - c) = λ le. omega (arith, le, e) in
    let later : c ≤ i → get_or (b ∷ s) (i - p) 0 ≡ get_or s (i - c) 0 =
      λ le. ap (λ (j : ℕ). get_or (b ∷ s) j 0) (next le) in
    ground (arith, first, alone, later)

hash_joined :
    (h b : ℕ) (key : List ℕ) → run_hash djb (run_hash djb h (b ∷ [])) key ≡ run_hash djb h (b ∷ key)
unfolding run_hash
hash_joined h b key = sym (hash_djb-append h (b ∷ []) key)

module _ ⦃plasma : Plasma⦄ where
  addbuf_key_joined :
      (m : Make) (b : ℕ) (key : List ℕ)
      → m.hash_fn ≡ djb
      → m.pos + 1 + length key < 2 ^ 64
      → mcdb_make_addbuf_key (mcdb_make_addbuf_key m (b ∷ [])) key
        ≡ mcdb_make_addbuf_key m (b ∷ key)
  unfolding mcdb_make_addbuf_key mcdb_make_addbuf_data poke
  addbuf_key_joined m b key fn low =
      let fill : ℕ → Memory → ℕ → Bool → Make = λ pos file h faulted. record m {
        pos = pos;
        file = file;
        hp = record m.hp { h = h };
        faulted = faulted;
      } in
      let next : u64 (m.pos + 1) ≡ m.pos + 1 = omega arith in
      let pos : u64 (u64 (m.pos + 1) + length key) ≡ u64 (m.pos + suc (length key)) = omega arith in
      let hash : run_hash m.hash_fn (run_hash m.hash_fn m.hp.h (b ∷ [])) key
          ≡ run_hash m.hash_fn m.hp.h (b ∷ key) =
        rw fn (hash_joined m.hp.h b key) in
      let faulted : (mcdb_make_addbuf_key (mcdb_make_addbuf_key m (b ∷ [])) key).faulted
          ≡ (mcdb_make_addbuf_key m (b ∷ key)).faulted =
        ground (arith, next) in
      let h₁ : ℕ = run_hash m.hash_fn (run_hash m.hash_fn m.hp.h (b ∷ [])) key in
      let f₁ : Bool = (mcdb_make_addbuf_key (mcdb_make_addbuf_key m (b ∷ [])) key).faulted in
      ap₂ (λ (pos : ℕ) (file : Memory). fill pos file h₁ f₁) pos
        (store_joined m.file m.pos (u64 (m.pos + 1)) b key next)
      ∙ ap₂
          (λ (h : ℕ) (f : Bool).
            fill (u64 (m.pos + suc (length key))) (store m.file m.pos (b ∷ key)) h f)
          hash faulted

  abbrev pub is_ok : Option Errno → Bool
  is_ok rc = elim rc [ none ↦ true | some e ↦ false ]

  lens_fn : (m : Make) (k d : ℕ) → (write_lens m k d).hash_fn ≡ m.hash_fn
  unfolding write_lens poke
  lens_fn m k d = refl

  lens_pos : (m : Make) (k d : ℕ) → (write_lens m k d).pos ≡ u64 (m.pos + 8)
  unfolding write_lens poke
  lens_pos m k d = refl

  -- What the call does behind mcdb_make_addbegin.
  abbrev goes_on : ℕ → List ℕ → List ℕ → Rc → Bool × Make
  goes_on tagc key data' r = elim r.0 [
    | some e ↦ (false, r.1)
    | none ↦
        let m₂ = mcdb_make_addbuf_key (mcdb_make_addbuf_key r.1 (tagc ∷ [])) key in
        (true, mcdb_make_addend (mcdb_make_addbuf_data m₂ data'))
  ]

  write_goes :
      (m : Make) (tagc : ℕ) (key data' : List ℕ)
      → nss_mcdb_make_mcdbctl_write m tagc key data'
        ≡ goes_on tagc key data' (mcdb_make_addbegin m (suc (length key)) (length data'))
  unfolding nss_mcdb_make_mcdbctl_write
  write_goes m tagc key data' =
      let klen : length key + 1 ≡ suc (length key) = omega arith in
      ap (λ (k : ℕ). goes_on tagc key data' (mcdb_make_addbegin m k (length data'))) klen

  -- With a file, the built-in hash and room below 2 ^ 63, nss_mcdb_make_mcdbctl_write, which adds
  -- the tag and the key in two parts, does what mcdb_make_add of the key behind its tag does, and
  -- returns true exactly if that returns 0.
  pub write-add :
      (m : Make) (tagc : ℕ) (key data' : List ℕ)
      → m.has_fd ≡ true
      → m.hash_fn ≡ djb
      → m.pos + 9 + length key + length data' < 2 ^ 63
      → nss_mcdb_make_mcdbctl_write m tagc key data'
        ≡ (is_ok (mcdb_make_add m (tagc ∷ key) data').0, (mcdb_make_add m (tagc ∷ key) data').1)
  write-add m tagc key data' fd fn low =
      let shown : Rc → Bool × Make = λ r. (is_ok r.0, r.1) in
      elim (addbegin-cases m (suc (length key)) (length data') fd) [
        | inr (e, m', run, same) ↦
            write_goes m tagc key data'
            ∙ ap (goes_on tagc key data') run
            ∙ sym (ap shown (add_fails m (tagc ∷ key) data' e m' run))
        | inl (run, small, small') ↦
            let k : ℕ = suc (length key) in
            let m₀ : Make = begun m k (length data') in
            let m₁ : Make = write_lens m₀ k (length data') in
            let same = begun-Same m (suc (length key)) (length data') fd in
            write_goes m tagc key data'
            ∙ ap (goes_on tagc key data') run
            ∙ ap (λ (k : Make). (true, mcdb_make_addend (mcdb_make_addbuf_data k data')))
                (addbuf_key_joined m₁ tagc key (lens_fn m₀ k (length data') ∙ same.hash_fn ∙ fn)
                  (omega (arith, lens_pos m₀ k (length data'), same.pos)))
            ∙ sym (ap shown (add_goes m (tagc ∷ key) data' m₁ run))
      ]
