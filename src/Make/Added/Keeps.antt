-- ===== src/Make/Added/Keeps.antt =====
-- mcdb_make_add keeps the writer's state in order.
use mcdb.Base.{
  ℕ, ◌+◌, ◌^◌, ◌<◌, ◌≤◌, ◌≡◌, ◌≢◌, refl, sym, ◌∙◌, ap, subst, List, [], ◌∷◌, ◌++◌, false,
}
use mcdb.Base.{◌==◌, Bool-cases, ==_iff, inl, inr, arith, length, All, length-append}
use mcdb.Base.Memory.{Memory}
use mathlib.Core.Bool.{false≢true}
use mcdb.Plasma.{Plasma, IsByte}
use mcdb.Uint32.{strunpack32-At, strunpack32_congr}
use mcdb.Mcdb.{HashFn, slots, run_hash}
use mcdb.Make.{Make, Hp}
use mcdb.Make.Add.{Rc, mcdb_make_add}
use mcdb.Make.Finish.{slot_hps}
use mcdb.Make.Valid.{IsRecord, IsMake, Few}
use mcdb.Make.Added.{Same, Added, key_slot, new_hp}
use mcdb.Make.Added.Add.{add-cases}

All-map {ℓ κ κ'} :
    {A : Type ℓ} (P : A → Type κ) (Q : A → Type κ')
    → ((a : A) → P a → Q a)
    → (xs : List A) → All P xs
    → All Q xs
All-map P Q f [] ps = tt
All-map P Q f (x ∷ xs) (p, ps) = (f x p, All-map P Q f xs ps)

All-insert {ℓ κ} :
    {A : Type ℓ} (P : A → Type κ) (xs ys : List A) (a : A)
    → P a
    → All P (xs ++ ys)
    → All P (xs ++ a ∷ ys)
All-insert P [] ys a p ps = (p, ps)
All-insert P (x ∷ xs) ys a p (q, ps) = (q, All-insert P xs ys a p ps)

module _ ⦃plasma : Plasma⦄ where
  Same-IsMake : (m m' : Make) → Same m m' → IsMake m → IsMake m'
  Same-IsMake m m' same valid = record {
    fd = same.fd ∙ valid.fd;
    begins = omega (arith, same.pos, valid.begins);
    hashes = λ h buf lt bytes.
        subst (λ (f : HashFn). run_hash f h buf < 2 ^ 32) (sym same.hash_fn)
          (valid.hashes h buf lt bytes);
    hash_init = omega (arith, same.hash_init, valid.hash_init);
    counted = λ j lt.
        ap (λ (c : ℕ → ℕ). c j) same.count ∙ valid.counted j lt ∙ ap length (sym (same.lists j));
    records = λ j lt.
        subst (λ (hps : List Hp). All (IsRecord m'.file m'.pos j) hps) (sym (same.lists j))
          (subst (λ (mem : Memory). All (IsRecord mem m'.pos j) (slot_hps (m.head j).lists))
            (sym same.file)
            (subst (λ (p : ℕ). All (IsRecord m.file p j) (slot_hps (m.head j).lists)) (sym same.pos)
              (valid.records j lt)));
  }

  -- A record stays one when the file grows behind it.
  IsRecord-grow :
      (mem mem' : Memory) (pos pos' j : ℕ)
      → pos ≤ pos'
      → ((a : ℕ) → a < pos → mem' a ≡ mem a)
      → (hp : Hp) → IsRecord mem pos j hp
      → IsRecord mem' pos' j hp
  IsRecord-grow mem mem' pos pos' j le same hp rec = record {
    hash = rec.hash;
    slot = rec.slot;
    len = rec.len;
    begins = rec.begins;
    ends = omega (arith, rec.ends);
    lens = strunpack32_congr mem' mem hp.p (λ i lo hi. same i (omega (arith, rec.ends))) ∙ rec.lens;
  }

  module _ (m : Make) (key data' : List ℕ) (m' : Make) (bytes : All IsByte key) (few : Few m)
      (a : Added m key data' m') (valid : IsMake m) where
    abbrev i : ℕ
    i = key_slot m key

    counted_here : m'.count i ≡ length (slot_hps (m'.head i).lists)
    counted_here =
        let more = ap length a.filed in
        let before = ap length a.split in
        omega (
          arith,
          a.counted,
          valid.counted i (omega arith),
          few i (omega arith),
          more,
          before,
          length-append a.front (new_hp m key ∷ a.back),
          length-append a.front a.back,
        )

    new_hp-IsRecord : IsRecord m'.file m'.pos i (new_hp m key)
    new_hp-IsRecord = record {
      hash = valid.hashes m.hash_init key valid.hash_init bytes;
      slot = refl;
      len = omega (arith, a.small);
      begins = valid.begins;
      ends = omega (arith, a.pos);
      lens = strunpack32-At m'.file m.pos (length key) (omega (arith, a.small)) a.key_len;
    }

    old_records : (j : ℕ) → j < slots → All (IsRecord m'.file m'.pos j) (slot_hps (m.head j).lists)
    old_records j lt =
        All-map (IsRecord m.file m.pos j) (IsRecord m'.file m'.pos j)
          (IsRecord-grow m.file m'.file m.pos m'.pos j (omega (arith, a.pos)) a.before)
          (slot_hps (m.head j).lists) (valid.records j lt)

    records_here : All (IsRecord m'.file m'.pos i) (slot_hps (m'.head i).lists)
    records_here = subst (All (IsRecord m'.file m'.pos i)) (sym a.filed) (
        All-insert (IsRecord m'.file m'.pos i) a.front a.back (new_hp m key) new_hp-IsRecord
          (subst (All (IsRecord m'.file m'.pos i)) a.split (old_records i (omega arith))))

    apart : (j : ℕ) → (j == i) ≡ false → j ≢ i
    apart j e h = false≢true (sym e ∙ (==_iff j i).1 h)

    Added-IsMake : IsMake m'
    Added-IsMake = record {
      fd = a.fd ∙ valid.fd;
      begins = omega (arith, a.pos, valid.begins);
      hashes = λ h buf lt bytes.
          subst (λ (f : HashFn). run_hash f h buf < 2 ^ 32) (sym a.hash_fn)
            (valid.hashes h buf lt bytes);
      hash_init = omega (arith, a.hash_init, valid.hash_init);
      counted = λ j lt. elim (Bool-cases (j == i)) [
        | inl here ↦
            subst (λ (j : ℕ). m'.count j ≡ length (slot_hps (m'.head j).lists))
              (sym ((==_iff j i).0 here)) counted_here
        | inr away ↦
            let (count, lists) = a.others j (apart j away) in
            count ∙ valid.counted j lt ∙ ap length (sym lists)
      ];
      records = λ j lt. elim (Bool-cases (j == i)) [
        | inl here ↦
            subst (λ (j : ℕ). All (IsRecord m'.file m'.pos j) (slot_hps (m'.head j).lists))
              (sym ((==_iff j i).0 here)) records_here
        | inr away ↦
            subst (All (IsRecord m'.file m'.pos j)) (sym (a.others j (apart j away)).1)
              (old_records j lt)
      ];
    }

  -- mcdb_make_add of a key of bytes keeps the writer's state in order, on success and on every
  -- failure, while each slot has less than 2 ^ 31 records and the record ends below 2 ^ 63.
  pub add-IsMake :
      (m : Make) (key data' : List ℕ)
      → IsMake m
      → Few m
      → All IsByte key
      → m.pos + 8 + length key + length data' < 2 ^ 63
      → IsMake (mcdb_make_add m key data').1
  add-IsMake m key data' valid few bytes low = elim (add-cases m key data' valid.fd low) [
    | inl (m', run, a) ↦
        subst (λ (r : Rc). IsMake r.1) (sym run) (Added-IsMake m key data' m' bytes few a valid)
    | inr (e, m', run, same) ↦
        subst (λ (r : Rc). IsMake r.1) (sym run) (Same-IsMake m m' same valid)
  ]
