-- ===== src/Lookup/Round/Eight.antt =====
-- A round over 8-byte entries.
use mcdb.Base.{
  ℕ, ◌+◌, ◌*◌, ◌^◌, ◌<◌, ◌≡◌, sym, ◌∙◌, ap, ap₂, subst, inl, inr, List, true, false, ◌&&◌,
}
use mcdb.Base.{◌==◌, if◌then◌else◌, Bool-cases, Option-cases, length, u64, arith}
use mcdb.Base.Memory.{At}
use mcdb.Plasma.{Plasma}
use mcdb.Uint32.{strunpack32, strunpack32-At}
use mcdb.Mcdb.{Mmap, Mcdb}
use mcdb.Mcdb.Find.{stop, next, found, round_8, next_kpos, tag_len, key_matches}
use mcdb.Table.{next_slot}
use mcdb.Table.Ring.{next_slot-lt}
use mcdb.Make.{Hp}
use mcdb.Make.Finish.{is_zero}
use mcdb.Make.Finish.Fill.{ShowsSlot, IsEntry, entry_bytes, At-entry_3}
use mcdb.Lookup.{Searched, area, AtSlot, hits, IsSearched}
use mcdb.Lookup.Round.{
  Found, RoundAt, strunpack32-zero, ==-false, read_at, tests, after_miss, after_same, hits_other,
}

next_kpos_8 :
    (m : Mcdb) (base len u : ℕ)
    → m.map.b ≡ 3
    → m.hpos ≡ base
    → m.hslots ≡ len
    → m.kpos ≡ base + u * 8
    → u < len
    → base + len * 8 < 2 ^ 63
    → next_kpos m 8 ≡ base + next_slot len u * 8
unfolding next_kpos next_slot
next_kpos_8 m base len u b3 hp hs k lt fits = rw (b3, hp, hs, k) (ground arith)

module _ ⦃plasma : Plasma⦄ where
  module _ (m : Mcdb) (key : List ℕ) (tagc : ℕ) where
    -- The states of a round that goes on: without and with the record's lengths.
    moved : ℕ → Mcdb
    moved stride = record m { kpos = next_kpos m stride; loop = m.loop + 1 }

    read_8 : ℕ → Mcdb
    read_8 p = record m {
      kpos = next_kpos m 8;
      loop = m.loop + 1;
      klen = strunpack32 m.map.mem p;
      dlen = strunpack32 m.map.mem (p + 4);
      dpos = u64 (p + 8 + strunpack32 m.map.mem p);
    }

    round_8-zero :
        strunpack32 m.map.mem (m.kpos + 4) ≡ 0
        → round_8 m key tagc ≡ stop (record m { kpos = next_kpos m 8 })
    unfolding round_8
    round_8-zero v = rw v

    round_8_other :
        (h p : ℕ)
        → strunpack32 m.map.mem m.kpos ≡ h
        → strunpack32 m.map.mem (m.kpos + 4) ≡ p
        → 0 < p
        → (h == m.khash) ≡ false
        → round_8 m key tagc ≡ next (moved 8)
    unfolding round_8 moved
    round_8_other h p rh rp pos other = rw (rp, rh, other, ==-false p pos)

    round_8_same :
        (h p : ℕ)
        → strunpack32 m.map.mem m.kpos ≡ h
        → strunpack32 m.map.mem (m.kpos + 4) ≡ p
        → 0 < p
        → (h == m.khash) ≡ true
        → round_8 m key tagc ≡ (
            if (strunpack32 m.map.mem p == length key + tag_len tagc)
              && key_matches m.map.mem (p + 8) key tagc
            then found (read_8 p)
            else next (read_8 p))
    unfolding round_8 read_8
    round_8_same h p rh rp pos same = rw (rp, rh, same, ==-false p pos)

  module _ (c : Searched) (khash : ℕ) (key : List ℕ) (tagc : ℕ) (m : Mcdb) (u j : ℕ) where
    moved_8-AtSlot :
        c.map.b ≡ 3
        → AtSlot c khash u j m
        → next_kpos m 8 ≡ c.base + next_slot c.len u * 8
        → AtSlot c khash (next_slot c.len u) (j + 1) (moved m key tagc 8)
    unfolding moved
    moved_8-AtSlot b3 at on = record {
      map = at.map;
      hpos = at.hpos;
      hslots = at.hslots;
      same_hash = at.same_hash;
      kpos = on ∙ ap (λ (b : ℕ). c.base + next_slot c.len u * 2 ^ b) (sym b3);
      loop = ap (λ (i : ℕ). i + 1) at.loop;
      inside = next_slot-lt c.len u at.inside;
    }

    read_8-AtSlot :
        (p : ℕ)
        → c.map.b ≡ 3
        → AtSlot c khash u j m
        → next_kpos m 8 ≡ c.base + next_slot c.len u * 8
        → AtSlot c khash (next_slot c.len u) (j + 1) (read_8 m key tagc p)
    unfolding read_8
    read_8-AtSlot p b3 at on = record {
      map = at.map;
      hpos = at.hpos;
      hslots = at.hslots;
      same_hash = at.same_hash;
      kpos = on ∙ ap (λ (b : ℕ). c.base + next_slot c.len u * 2 ^ b) (sym b3);
      loop = ap (λ (i : ℕ). i + 1) at.loop;
      inside = next_slot-lt c.len u at.inside;
    }

    read_8-Found :
        (hp : Hp)
        → AtSlot c khash u j m
        → hp.l < 2 ^ 32
        → hp.p < 2 ^ 63
        → strunpack32 c.map.mem hp.p ≡ hp.l
        → Found c.map hp (read_8 m key tagc hp.p)
    unfolding read_8
    read_8-Found hp at len low lens =
        let klen = ap (λ (mp : Mmap). strunpack32 mp.mem hp.p) at.map ∙ lens in
        record {
          map = at.map;
          klen = klen;
          dpos = omega (arith, klen);
          dlen = ap (λ (mp : Mmap). strunpack32 mp.mem (hp.p + 4)) at.map;
        }

  module _ (c : Searched) (valid : IsSearched c) (khash : ℕ) (key : List ℕ) (tagc : ℕ) where
    pub round_8-RoundAt :
        (m : Mcdb) (u j : ℕ)
        → c.map.b ≡ 3
        → AtSlot c khash u j m
        → RoundAt c khash u j (hits c.map.mem khash key tagc) (c.entries u) (round_8 m key tagc)
    unfolding tests
    round_8-RoundAt m u j b3 at =
        let k8 : m.kpos ≡ c.base + u * 8 = at.kpos ∙ ap (λ (b : ℕ). c.base + u * 2 ^ b) b3 in
        let on =
          next_kpos_8 m c.base c.len u (ap (λ (mp : Mmap). mp.b) at.map ∙ b3) at.hpos at.hslots k8
            at.inside (subst (λ (b : ℕ). c.base + c.len * 2 ^ b < 2 ^ 63) b3 valid.ends) in
        elim (Option-cases (c.entries u)) [
          | inl o ↦
              let empty : is_zero c.map.mem (c.base + u * 8 + 4) 4 ≡ true =
                subst
                  (λ (b : ℕ).
                    is_zero c.map.mem (c.base + u * 2 ^ b + (if b == 3 then 4 else 8))
                      (if b == 3 then 4 else 8)
                    ≡ true)
                  b3 (subst (ShowsSlot (area c) c.map.mem u) o (valid.shows u at.inside)) in
              rw o (
                record m { kpos = next_kpos m 8 },
                round_8-zero m key tagc (
                    read_at c khash key tagc m u j at 4 _ 0 k8
                      (strunpack32-zero c.map.mem _ empty)),
              )
          | inr (hp, o) ↦
              let (e, there) = subst (ShowsSlot (area c) c.map.mem u) o (valid.shows u at.inside) in
              let e3 = subst (λ (b : ℕ). IsEntry b hp) b3 e in
              let there3 : At c.map.mem (c.base + u * 8) (entry_bytes 3 hp) =
                subst (λ (b : ℕ). At c.map.mem (c.base + u * 2 ^ b) (entry_bytes b hp)) b3 there in
              let (rh, rp) = At-entry_3 c.map.mem (c.base + u * 8) hp e3 there3 in
              let (low, lens) = valid.lens u hp o in
              let hash_read =
                ap₂ (λ (mp : Mmap) (i : ℕ). strunpack32 mp.mem i) at.map k8
                ∙ strunpack32-At c.map.mem _ hp.h e3.hash rh in
              let pos_read =
                read_at c khash key tagc m u j at 4 _ hp.p k8
                  (strunpack32-At c.map.mem _ hp.p e3.near rp) in
              rw o (elim (Bool-cases (hp.h == khash)) [
                | inr other ↦
                    after_miss c khash key tagc m u j at hp (moved m key tagc 8) _
                      (hits_other c khash key tagc m u j at hp other)
                      (round_8_other m key tagc hp.h hp.p hash_read pos_read e3.present
                        (ap (λ (k : ℕ). hp.h == k) at.same_hash ∙ other))
                      (moved_8-AtSlot c khash key tagc m u j b3 at on)
                | inl same ↦
                    after_same c khash key tagc m u j at hp (read_8 m key tagc hp.p) _ same
                      (round_8_same m key tagc hp.h hp.p hash_read pos_read e3.present
                        (ap (λ (k : ℕ). hp.h == k) at.same_hash ∙ same))
                      (read_8-AtSlot c khash key tagc m u j hp.p b3 at on)
                      (read_8-Found c khash key tagc m u j hp at e3.len low lens)
              ])
        ]
