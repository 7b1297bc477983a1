-- ===== src/Ctl/Dump/Bounds.antt =====
-- mcdbctl_dump of mcdbctl.c fills its arrays within their bounds and loses no text between batches.
use mcdb.Base.{
  ℕ, suc, ◌+◌, ◌*◌, ◌^◌, ◌≤◌, ◌<◌, ◌≡◌, refl, sym, ap, ap₂, ◌∙◌, subst, List, [], ◌∷◌, ◌++◌, Bool,
  true, false, some, inl, inr, ◌⊎◌,
}
use mcdb.Base.{ltb, leb, ◌||◌, length, u64, arith, length-append}
use mathlib.Core.List.{append-nil, append_assoc}
use mcdb.Uint32.Decimal.Digits.{uint32_to_ascii_base10-Prints}
use mcdb.Ctl.Output.{concat, total}
use mcdb.Ctl.Output.Taken.{Ends, append-Ends, TakesAll, concat-append, writev_loop-TakesAll}
use mcdb.Ctl.Dump.{Batch, digits, ssize_max, flush_if, put_key, put_data, dump_record}

digits-few : (x : ℕ) → x < 2 ^ 32 → length (digits x) ≤ 10
unfolding digits
digits-few x h =
    let (s, run, prints) = uint32_to_ascii_base10-Prints x h in
    let here : digits x ≡ s = rw (run, digits) refl in rw here prints.few

-- A batch with room for `spare` more pieces, the last record of which lacks `due` of its nine: the
-- pieces are as long as iovlen and buflen say, each record has at most 20 bytes of numbers, and the
-- last piece has a byte.
pub record IsBatch (iovnum spare due : ℕ) (b : Batch) : Type 0 where
  pub sized : total b.iov ≡ b.iovlen + b.buflen
  pub numbers : 9 * b.buflen ≤ 20 * (length b.iov + due)
  pub pieces : length b.iov + spare ≤ iovnum
  pub low : b.iovlen ≤ ssize_max
  pub ends : Ends b.iov

-- What was written and what waits.
abbrev pub view : Batch → List ℕ
view b = b.out.bytes ++ concat b.iov

-- After flush_if: a new batch, or the same one.
pub record Flushed (test : Bool) (b b' : Batch) : Type 0 where
  pub kept : view b' ≡ view b
  pub same : b'.out.wrote ≡ b.out.wrote
  pub new_or_old : ((b'.iov ≡ []) × (b'.iovlen ≡ 0) × (b'.buflen ≡ 0)) ⊎ ((test ≡ false) × (b' ≡ b))

flush_if-Flushed :
    (iovnum spare due calls : ℕ) (test : Bool) (b : Batch)
    → iovnum < 2 ^ 32
    → due ≤ 9
    → IsBatch iovnum spare due b
    → TakesAll b.out.wrote
    → (b' : Batch) × (flush_if (suc (suc calls)) test b ≡ some (true, b')) × Flushed test b b'
unfolding flush_if
flush_if-Flushed iovnum spare due calls false b big few v takes =
    (b, refl, record { kept = refl; same = refl; new_or_old = inr (refl, refl) })
flush_if-Flushed iovnum spare due calls true b big few v takes =
    let small : total b.iov ≤ 2 ^ 64 = omega (arith, v.sized, v.numbers, v.pieces, v.low) in
    let (out, run, bytes, same) =
      writev_loop-TakesAll calls b.out b.iov b.iovlen takes v.ends small in
    (
      record { iov = []; iovlen = 0; buflen = 0; out = out },
      rw (run, flush_if) refl,
      record {
        kept = append-nil out.bytes ∙ bytes;
        same = same;
        new_or_old = inl (refl, refl, refl);
      },
    )

Flushed-IsBatch :
    (iovnum old_spare spare due : ℕ) (test : Bool) (b b' : Batch)
    → IsBatch iovnum old_spare due b
    → spare ≤ iovnum
    → (test ≡ false → length b.iov + spare ≤ iovnum)
    → Flushed test b b'
    → IsBatch iovnum spare due b'
Flushed-IsBatch iovnum old_spare spare due test b b' v fits room f = elim f.new_or_old [
  | inl new ↦ record {
    sized = ap total new.0 ∙ omega (arith, new.1, new.2);
    numbers = omega (arith, new.2);
    pieces = omega (arith, ap (λ (t : List (List ℕ)). length t) new.0);
    low = omega (arith, new.1);
    ends = subst Ends (sym new.0) tt;
  }
  | inr old ↦ subst (IsBatch iovnum spare due) (sym old.1) (record {
    sized = v.sized;
    numbers = v.numbers;
    pieces = room old.0;
    low = v.low;
    ends = v.ends;
  })
]

-- The pieces of a record's first part.
abbrev key_pieces : ℕ → ℕ → List ℕ → List (List ℕ)
key_pieces klen dlen key =
    (b'+' ∷ []) ∷ digits klen ∷ (b',' ∷ []) ∷ digits dlen ∷ (b':' ∷ []) ∷ key ∷ []

abbrev pub record_text : ℕ → ℕ → List ℕ → List ℕ → List ℕ
record_text klen dlen key value =
    b'+'
    ∷ (digits klen ++ b',' ∷ (digits dlen ++ b':' ∷ (key ++ b'-' ∷ b'>' ∷ (value ++ 0x0a ∷ []))))

key_size :
    (klen dlen : ℕ) (key : List ℕ)
    → total (key_pieces klen dlen key ++ (b'-' ∷ b'>' ∷ []) ∷ [])
      ≡ length key + 5 + (length (digits klen) + length (digits dlen))
key_size klen dlen key =
    let last : List ℕ = b'-' ∷ b'>' ∷ [] in
    omega (
      arith,
      length-append {0} (digits klen) (b',' ∷ (digits dlen ++ b':' ∷ (key ++ last))),
      length-append {0} (digits dlen) (b':' ∷ (key ++ last)),
      length-append {0} key last,
    )

put_key-IsBatch :
    (iovnum klen dlen : ℕ) (key : List ℕ) (b : Batch)
    → klen < 2 ^ 31
    → dlen < 2 ^ 32
    → length key ≡ klen
    → IsBatch iovnum 9 0 b
    → b.iovlen + klen + 5 ≤ ssize_max
    → IsBatch iovnum 2 2 (put_key b klen dlen key)
unfolding put_key
put_key-IsBatch iovnum klen dlen key b k d e v low =
    let pieces = key_pieces klen dlen key ++ (b'-' ∷ b'>' ∷ []) ∷ [] in
    let k10 = digits-few klen (omega arith) in
    let d10 = digits-few dlen d in
    let grown : length (b.iov ++ pieces) ≡ length b.iov + 7 = length-append {0} b.iov pieces in
    let size =
      ap (λ (t : List ℕ). length t) (concat-append b.iov pieces)
      ∙ length-append {0} (concat b.iov) (concat pieces) in
    record {
      sized = omega (arith, size, key_size klen dlen key, v.sized);
      numbers = omega (arith, v.numbers, grown);
      pieces = omega (arith, v.pieces, grown);
      low = omega arith;
      ends =
          subst Ends (append_assoc b.iov (key_pieces klen dlen key) ((b'-' ∷ b'>' ∷ []) ∷ []))
            (append-Ends (b.iov ++ key_pieces klen dlen key) (b'-' ∷ b'>' ∷ []) (omega arith));
    }

put_data-IsBatch :
    (iovnum dlen : ℕ) (value : List ℕ) (b : Batch)
    → length value ≡ dlen
    → dlen < 2 ^ 32
    → IsBatch iovnum 2 2 b
    → b.iovlen + dlen + 1 ≤ ssize_max
    → IsBatch iovnum 0 0 (put_data b dlen value)
unfolding put_data
put_data-IsBatch iovnum dlen value b e d v low =
    let pieces = value ∷ (0x0a ∷ []) ∷ [] in
    let grown : length (b.iov ++ pieces) ≡ length b.iov + 2 = length-append {0} b.iov pieces in
    let size =
      ap (λ (t : List ℕ). length t) (concat-append b.iov pieces)
      ∙ length-append {0} (concat b.iov) (concat pieces) in
    record {
      sized = omega (arith, size, length-append {0} value (0x0a ∷ []), v.sized);
      numbers = omega (arith, v.numbers, grown);
      pieces = omega (arith, v.pieces, grown);
      low = omega arith;
      ends =
          subst Ends (append_assoc b.iov (value ∷ []) ((0x0a ∷ []) ∷ []))
            (append-Ends (b.iov ++ value ∷ []) (0x0a ∷ []) (omega arith));
    }

put_key-view :
    (b : Batch) (klen dlen : ℕ) (key : List ℕ)
    → view (put_key b klen dlen key)
      ≡ view b ++ concat (key_pieces klen dlen key ++ (b'-' ∷ b'>' ∷ []) ∷ [])
unfolding put_key
put_key-view b klen dlen key =
    ap (λ (t : List ℕ). b.out.bytes ++ t) (concat-append b.iov _)
    ∙ sym (append_assoc b.out.bytes _ _)

put_data-view :
    (b : Batch) (dlen : ℕ) (value : List ℕ)
    → view (put_data b dlen value) ≡ view b ++ value ++ 0x0a ∷ []
unfolding put_data
put_data-view b dlen value =
    ap (λ (t : List ℕ). b.out.bytes ++ t) (concat-append b.iov _)
    ∙ sym (append_assoc b.out.bytes _ _)
    ∙ sym (append_assoc (view b) value (0x0a ∷ []))

record_text-pieces :
    (klen dlen : ℕ) (key value : List ℕ)
    → concat (key_pieces klen dlen key ++ (b'-' ∷ b'>' ∷ []) ∷ []) ++ (value ++ 0x0a ∷ [])
      ≡ record_text klen dlen key value
record_text-pieces klen dlen key value = simp append_assoc

no_overflow :
    (x k c : ℕ)
    → x ≤ ssize_max
    → k < 2 ^ 32
    → c < 8
    → ltb ssize_max (u64 (x + k + c)) ≡ false
    → x + k + c ≤ ssize_max
no_overflow x k c low small few test = ground arith

Flushed-low :
    (test : Bool) (b b' : Batch) (k c : ℕ)
    → b.iovlen ≤ ssize_max
    → k < 2 ^ 32
    → c < 8
    → (test ≡ false → ltb ssize_max (u64 (b.iovlen + k + c)) ≡ false)
    → Flushed test b b'
    → b'.iovlen + k + c ≤ ssize_max
Flushed-low test b b' k c low small few room f = elim f.new_or_old [
  | inl new ↦ omega (arith, new.1)
  | inr old ↦
      subst (λ (b : Batch). b.iovlen + k + c ≤ ssize_max) (sym old.1)
        (no_overflow b.iovlen k c low small few (room old.0))
]

or_left : (a b : Bool) → (a || b) ≡ false → a ≡ false
or_left a b h = ground arith

-- A record whose key is shorter than 2 ^ 31 and whose value is shorter than 2 ^ 32 goes through a
-- batch with IOV_MAX between 9 and 2 ^ 32, where every call of writev takes all it is given: the
-- pieces stay within IOV_MAX and the numbers within 20 bytes for each 9 pieces, iovlen and buflen
-- add up to the pieces' size, and what was written and what waits grow by the record's text.
pub dump_record-view :
    (iovnum calls klen dlen : ℕ) (key value : List ℕ) (b : Batch)
    → iovnum < 2 ^ 32
    → 9 ≤ iovnum
    → klen < 2 ^ 31
    → dlen < 2 ^ 32
    → length key ≡ klen
    → length value ≡ dlen
    → IsBatch iovnum 0 0 b
    → TakesAll b.out.wrote
    → (b' : Batch) × (dump_record iovnum (suc (suc calls)) b klen dlen key value ≡ some (true, b'))
      × IsBatch iovnum 0 0 b'
      × (view b' ≡ view b ++ record_text klen dlen key value)
      × (b'.out.wrote ≡ b.out.wrote)
unfolding dump_record
dump_record-view iovnum calls klen dlen key value b big nine k d kl dl v takes =
    let full = ltb ssize_max (u64 (b.iovlen + klen + 5)) || leb iovnum (length b.iov + 8) in
    let (b₁, run₁, f₁) = flush_if-Flushed iovnum 0 0 calls full b big (omega arith) v takes in
    let room : full ≡ false → length b.iov + 9 ≤ iovnum = λ e. ground arith in
    let v₁ = Flushed-IsBatch iovnum 0 9 0 full b b₁ v nine room f₁ in
    let low₁ : b₁.iovlen + klen + 5 ≤ ssize_max =
      Flushed-low full b b₁ klen 5 v.low (omega arith) (omega arith) (or_left _ _) f₁ in
    let b₂ = put_key b₁ klen dlen key in
    let v₂ = put_key-IsBatch iovnum klen dlen key b₁ k d kl v₁ low₁ in
    let over = ltb ssize_max (u64 (b₂.iovlen + dlen + 1)) in
    let (b₃, run₃, f₃) =
      flush_if-Flushed iovnum 2 2 calls over b₂ big (omega arith) v₂
        (subst TakesAll (sym f₁.same) takes) in
    let v₃ = Flushed-IsBatch iovnum 2 2 2 over b₂ b₃ v₂ (omega arith) (λ e. v₂.pieces) f₃ in
    let low₃ : b₃.iovlen + dlen + 1 ≤ ssize_max =
      Flushed-low over b₂ b₃ dlen 1 v₂.low d (omega arith) (λ e. e) f₃ in
    (
      put_data b₃ dlen value,
      rw (run₁, dump_record) (rw run₃ refl),
      put_data-IsBatch iovnum dlen value b₃ dl d v₃ low₃,
      put_data-view b₃ dlen value
          ∙ ap (λ (t : List ℕ). t ++ value ++ 0x0a ∷ []) (f₃.kept ∙ put_key-view b₁ klen dlen key)
          ∙ append_assoc (view b₁ ++ _) value (0x0a ∷ [])
          ∙ append_assoc (view b₁) _ (value ++ 0x0a ∷ [])
          ∙ ap₂ (λ (s t : List ℕ). s ++ t) f₁.kept (record_text-pieces klen dlen key value),
      f₃.same ∙ f₁.same,
    )
