-- ===== src/Lookup/Round/Sixteen.antt =====
-- A round over 16-byte entries.
use mcdb.Base.{
  ℕ, ◌+◌, ◌*◌, ◌^◌, ◌<◌, ◌≡◌, sym, refl, ◌∙◌, ap, ap₂, subst, inl, inr, List, true, false, ◌&&◌,
}
use mcdb.Base.{◌==◌, if◌then◌else◌, Bool-cases, Option-cases, length, u64, arith}
use mcdb.Base.Memory.{At}
use mcdb.Plasma.{Plasma}
use mcdb.Uint32.{strunpack32, strunpack64, strunpack32-At, strunpack64-At}
use mcdb.Mcdb.{Mmap, Mcdb}
use mcdb.Mcdb.Find.{stop, next, found, round_16, next_kpos, tag_len, key_matches}
use mcdb.Table.{next_slot}
use mcdb.Table.Ring.{next_slot-lt}
use mcdb.Make.{Hp}
use mcdb.Make.Finish.{is_zero}
use mcdb.Make.Finish.Fill.{ShowsSlot, IsEntry, entry_bytes, At-entry_4}
use mcdb.Lookup.{Searched, area, AtSlot, hits, IsSearched}
use mcdb.Lookup.Round.{
  Found, RoundAt, strunpack64-zero, ==-false, read_at, tests, after_miss, after_same, hits_other,
  hits_longer,
}

next_kpos_16 :
    (m : Mcdb) (base len u : ℕ)
    → m.map.b ≡ 4
    → m.hpos ≡ base
    → m.hslots ≡ len
    → m.kpos ≡ base + u * 16
    → u < len
    → base + len * 16 < 2 ^ 63
    → next_kpos m 16 ≡ base + next_slot len u * 16
unfolding next_kpos next_slot
next_kpos_16 m base len u b4 hp hs k lt fits = rw (b4, hp, hs, k) (ground arith)

u64_id : (a : ℕ) → a < 2 ^ 64 → u64 a ≡ a
u64_id a h = omega arith

module _ ⦃plasma : Plasma⦄ where
  module _ (m : Mcdb) (key : List ℕ) (tagc : ℕ) where
    -- The states of a round that goes on: with the key's length, and with the data's as well.
    moved : ℕ → Mcdb
    moved l = record m { kpos = next_kpos m 16; klen = l; loop = m.loop + 1 }

    read_16 : ℕ → ℕ → Mcdb
    read_16 l p = record m {
      kpos = next_kpos m 16;
      klen = l;
      loop = m.loop + 1;
      dpos = u64 (p + 8 + l);
      dlen = strunpack32 m.map.mem (p + 4);
    }

    round_16-zero :
        strunpack64 m.map.mem (m.kpos + 8) ≡ 0
        → round_16 m key tagc
          ≡ stop (record m { kpos = next_kpos m 16; klen = strunpack32 m.map.mem (m.kpos + 4) })
    unfolding round_16
    round_16-zero v = rw v

    module _ (h l p : ℕ) (rh : strunpack32 m.map.mem m.kpos ≡ h)
        (rl : strunpack32 m.map.mem (m.kpos + 4) ≡ l) (rp : strunpack64 m.map.mem (m.kpos + 8) ≡ p)
        (pos : 0 < p) where
      round_16_other : (h == m.khash) ≡ false → round_16 m key tagc ≡ next (moved l)
      unfolding round_16 moved
      round_16_other other = rw (rp, rh, rl, other, ==-false p pos)

      round_16_longer :
          (h == m.khash) ≡ true
          → (l == length key + tag_len tagc) ≡ false
          → round_16 m key tagc ≡ next (moved l)
      unfolding round_16 moved
      round_16_longer same len = rw (rp, rh, rl, same, len, ==-false p pos)

      round_16_same :
          p < 2 ^ 63
          → strunpack32 m.map.mem p ≡ l
          → (h == m.khash) ≡ true
          → (l == length key + tag_len tagc) ≡ true
          → round_16 m key tagc ≡ (
              if (strunpack32 m.map.mem p == length key + tag_len tagc)
                && key_matches m.map.mem (p + 8) key tagc
              then found (read_16 l p)
              else next (read_16 l p))
      unfolding round_16 read_16
      round_16_same low lens same len = rw (
        rp,
        rh,
        rl,
        same,
        lens,
        len,
        ==-false p pos,
        u64_id (p + 8) (omega arith),
        u64_id (p + 4) (omega arith),
      )

  module _ (c : Searched) (khash : ℕ) (key : List ℕ) (tagc : ℕ) (m : Mcdb) (u j : ℕ) where
    moved-AtSlot :
        (l : ℕ)
        → c.map.b ≡ 4
        → AtSlot c khash u j m
        → next_kpos m 16 ≡ c.base + next_slot c.len u * 16
        → AtSlot c khash (next_slot c.len u) (j + 1) (moved m key tagc l)
    unfolding moved
    moved-AtSlot l b4 at on = record {
      map = at.map;
      hpos = at.hpos;
      hslots = at.hslots;
      same_hash = at.same_hash;
      kpos = on ∙ ap (λ (b : ℕ). c.base + next_slot c.len u * 2 ^ b) (sym b4);
      loop = ap (λ (i : ℕ). i + 1) at.loop;
      inside = next_slot-lt c.len u at.inside;
    }

    read_16-AtSlot :
        (l p : ℕ)
        → c.map.b ≡ 4
        → AtSlot c khash u j m
        → next_kpos m 16 ≡ c.base + next_slot c.len u * 16
        → AtSlot c khash (next_slot c.len u) (j + 1) (read_16 m key tagc l p)
    unfolding read_16
    read_16-AtSlot l p b4 at on = record {
      map = at.map;
      hpos = at.hpos;
      hslots = at.hslots;
      same_hash = at.same_hash;
      kpos = on ∙ ap (λ (b : ℕ). c.base + next_slot c.len u * 2 ^ b) (sym b4);
      loop = ap (λ (i : ℕ). i + 1) at.loop;
      inside = next_slot-lt c.len u at.inside;
    }

    read_16-Found :
        (hp : Hp)
        → AtSlot c khash u j m
        → hp.l < 2 ^ 32
        → hp.p < 2 ^ 63
        → Found c.map hp (read_16 m key tagc hp.l hp.p)
    unfolding read_16
    read_16-Found hp at len low = record {
      map = at.map;
      klen = refl;
      dpos = omega arith;
      dlen = ap (λ (mp : Mmap). strunpack32 mp.mem (hp.p + 4)) at.map;
    }

  module _ (c : Searched) (valid : IsSearched c) (khash : ℕ) (key : List ℕ) (tagc : ℕ) where
    pub round_16-RoundAt :
        (m : Mcdb) (u j : ℕ)
        → c.map.b ≡ 4
        → AtSlot c khash u j m
        → RoundAt c khash u j (hits c.map.mem khash key tagc) (c.entries u) (round_16 m key tagc)
    unfolding tests
    round_16-RoundAt m u j b4 at =
        let k16 : m.kpos ≡ c.base + u * 16 = at.kpos ∙ ap (λ (b : ℕ). c.base + u * 2 ^ b) b4 in
        let on =
          next_kpos_16 m c.base c.len u (ap (λ (mp : Mmap). mp.b) at.map ∙ b4) at.hpos at.hslots k16
            at.inside (subst (λ (b : ℕ). c.base + c.len * 2 ^ b < 2 ^ 63) b4 valid.ends) in
        elim (Option-cases (c.entries u)) [
          | inl o ↦
              let empty : is_zero c.map.mem (c.base + u * 16 + 8) 8 ≡ true =
                subst
                  (λ (b : ℕ).
                    is_zero c.map.mem (c.base + u * 2 ^ b + (if b == 3 then 4 else 8))
                      (if b == 3 then 4 else 8)
                    ≡ true)
                  b4 (subst (ShowsSlot (area c) c.map.mem u) o (valid.shows u at.inside)) in
              rw o (
                record m { kpos = next_kpos m 16; klen = strunpack32 m.map.mem (m.kpos + 4) },
                round_16-zero m key tagc (
                    ap₂ (λ (mp : Mmap) (i : ℕ). strunpack64 mp.mem (i + 8)) at.map k16
                    ∙ strunpack64-zero c.map.mem _ empty),
              )
          | inr (hp, o) ↦
              let (e, there) = subst (ShowsSlot (area c) c.map.mem u) o (valid.shows u at.inside) in
              let e4 = subst (λ (b : ℕ). IsEntry b hp) b4 e in
              let there4 : At c.map.mem (c.base + u * 16) (entry_bytes 4 hp) =
                subst (λ (b : ℕ). At c.map.mem (c.base + u * 2 ^ b) (entry_bytes b hp)) b4 there in
              let (rh, rl, rp) = At-entry_4 c.map.mem (c.base + u * 16) hp e4 there4 in
              let (low, lens) = valid.lens u hp o in
              let hash_read : strunpack32 m.map.mem m.kpos ≡ hp.h =
                ap₂ (λ (mp : Mmap) (i : ℕ). strunpack32 mp.mem i) at.map k16
                ∙ strunpack32-At c.map.mem _ hp.h e4.hash rh in
              let len_read : strunpack32 m.map.mem (m.kpos + 4) ≡ hp.l =
                read_at c khash key tagc m u j at 4 _ hp.l k16
                  (strunpack32-At c.map.mem _ hp.l e4.len rl) in
              let pos_read : strunpack64 m.map.mem (m.kpos + 8) ≡ hp.p =
                ap₂ (λ (mp : Mmap) (i : ℕ). strunpack64 mp.mem (i + 8)) at.map k16
                ∙ strunpack64-At c.map.mem _ hp.p e4.near rp in
              let here = ap (λ (k : ℕ). hp.h == k) at.same_hash in
              rw o (elim (Bool-cases (hp.h == khash)) [
                | inr other ↦
                    after_miss c khash key tagc m u j at hp (moved m key tagc hp.l) _
                      (hits_other c khash key tagc m u j at hp other)
                      (round_16_other m key tagc hp.h hp.l hp.p hash_read len_read pos_read
                        e4.present (here ∙ other))
                      (moved-AtSlot c khash key tagc m u j hp.l b4 at on)
                | inl same ↦ elim (Bool-cases (hp.l == length key + tag_len tagc)) [
                  | inr longer ↦
                      after_miss c khash key tagc m u j at hp (moved m key tagc hp.l) _
                        (hits_longer c khash key tagc m u j at hp same
                          (ap (λ (n : ℕ). n == length key + tag_len tagc) lens ∙ longer))
                        (round_16_longer m key tagc hp.h hp.l hp.p hash_read len_read pos_read
                          e4.present (here ∙ same) longer)
                        (moved-AtSlot c khash key tagc m u j hp.l b4 at on)
                  | inl equal ↦
                      after_same c khash key tagc m u j at hp (read_16 m key tagc hp.l hp.p) _ same
                        (round_16_same m key tagc hp.h hp.l hp.p hash_read len_read pos_read
                          e4.present low (ap (λ (mp : Mmap). strunpack32 mp.mem hp.p) at.map ∙ lens)
                          (here ∙ same) equal)
                        (read_16-AtSlot c khash key tagc m u j hp.l hp.p b4 at on)
                        (read_16-Found c khash key tagc m u j hp at e4.len low)
                ]
              ])
        ]
