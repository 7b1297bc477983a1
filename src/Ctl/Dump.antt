-- ===== src/Ctl/Dump.antt =====
-- mcdbctl_dump: the records as text, through batches of pieces for writev.
pub mod Bounds
pub mod Short
pub mod Text
pub mod Written
use mcdb.Base.{
  ℕ, zero, suc, ◌+◌, ◌-◌, ◌*◌, ◌^◌, List, [], ◌∷◌, ◌++◌, Bool, true, false, ◌||◌, Option, none,
  some,
}
use mcdb.Base.{leb, ltb, ◌==◌, if◌then◌else◌, length, u64}
use mcdb.Base.Memory.{load}
use mcdb.Plasma.{Plasma}
use mcdb.Uint32.Decimal.{uint32_to_ascii_base10}
use mcdb.Mcdb.{Mcdb}
use mcdb.Mcdb.Iter.{McdbIter, mcdb_iter_init, mcdb_iter, iter_keyptr, iter_dataptr}
use mcdb.Makefmt.Records.{success, error_write}
use mcdb.Report.{Rv, status}
use mcdb.Ctl.Output.{Stdout, writev, writev_loop}

abbrev pub ssize_max : ℕ
ssize_max = 2 ^ 63 - 1

-- The text of a number; uint32_to_ascii_base10 always gives one.
unfoldable pub digits : ℕ → List ℕ
digits x = elim (uint32_to_ascii_base10 x) [ none ↦ [] | some text ↦ text ]

-- iov[0 .. iovcnt - 1], iovlen, and how much of `buf` is in use.
pub record Batch : Type 0 where
  pub iov : List (List ℕ)
  pub iovlen : ℕ
  pub buflen : ℕ
  pub out : Stdout

-- Where `test` holds, the pieces are written and a new batch begins. The result is whether the call
-- of writev_loop returned true; `calls` bounds its calls of writev.
unfoldable pub flush_if : ℕ → Bool → Batch → Option (Bool × Batch)
flush_if calls test b = elim test [
  | false ↦ some (true, b)
  | true ↦ elim (writev_loop calls b.out b.iov b.iovlen) [
    | none ↦ none
    | some (done, out) ↦ some (done, record { iov = []; iovlen = 0; buflen = 0; out = out })
  ]
]

-- "+klen,dlen:key->", in seven pieces.
unfoldable pub put_key : Batch → ℕ → ℕ → List ℕ → Batch
put_key b klen dlen key = record b {
  iov =
      b.iov
      ++ (b'+' ∷ [])
        ∷ digits klen
        ∷ (b',' ∷ [])
        ∷ digits dlen
        ∷ (b':' ∷ [])
        ∷ key
        ∷ (b'-' ∷ b'>' ∷ [])
        ∷ [];
  iovlen = u64 (b.iovlen + klen + 5);
  buflen = b.buflen + length (digits klen) + length (digits dlen);
}

unfoldable pub put_data : Batch → ℕ → List ℕ → Batch
put_data b dlen value = record b {
  iov = b.iov ++ value ∷ (0x0a ∷ []) ∷ [];
  iovlen = u64 (b.iovlen + dlen + 1);
}

-- The body of the loop for one record. `iovnum` is IOV_MAX.
unfoldable pub dump_record : ℕ → ℕ → Batch → ℕ → ℕ → List ℕ → List ℕ → Option (Bool × Batch)
unfolding flush_if put_key put_data
dump_record iovnum calls b klen dlen key value =
    let full = ltb ssize_max (u64 (b.iovlen + klen + 5)) || leb iovnum (length b.iov + 8) in
    elim (flush_if calls full b) [
      | none ↦ none
      | some (done, b₁) ↦
          let b₂ = put_key b₁ klen dlen key in
          elim done [
            | false ↦ some (false, b₁)
            | true ↦ elim (flush_if calls (ltb ssize_max (u64 (b₂.iovlen + dlen + 1))) b₂) [
              | none ↦ none
              | some (done₂, b₃) ↦ elim done₂ [
                | false ↦ some (false, b₃)
                | true ↦ some (true, put_data b₃ dlen value)
              ]
            ]
          ]
    ]

abbrev pub iter_key : McdbIter → List ℕ
iter_key iter = load iter.map.mem (iter_keyptr iter) iter.klen

abbrev pub iter_data : McdbIter → List ℕ
iter_data iter = load iter.map.mem (iter_dataptr iter) iter.dlen

module _ ⦃plasma : Plasma⦄ where
  -- while (mcdb_iter(&iter)) …, at most `fuel` records.
  unfoldable pub dump_loop : ℕ → ℕ → ℕ → Batch → McdbIter → Option (Bool × Batch)
  unfolding dump_record
  dump_loop zero iovnum calls b iter = none
  dump_loop (suc fuel) iovnum calls b iter =
      let (more, it) = mcdb_iter iter in
      elim more [
        | false ↦ some (true, b)
        | true ↦ elim (dump_record iovnum calls b it.klen it.dlen (iter_key it) (iter_data it)) [
          | none ↦ none
          | some (done, b₁) ↦ elim done [
            | false ↦ some (false, b₁)
            | true ↦ dump_loop fuel iovnum calls b₁ it
          ]
        ]
      ]

  -- What follows the loop: the last batch, and an empty line.
  unfoldable pub dump_end : ℕ → Batch → Option (Rv × Stdout)
  dump_end calls b = elim (writev_loop calls b.out b.iov b.iovlen) [
    | none ↦ none
    | some (done, out) ↦
        let (got, out₁) = writev out ((0x0a ∷ []) ∷ []) in
        elim done [
          | false ↦ some (status error_write, out)
          | true ↦ elim got [
            | none ↦ some (status error_write, out₁)
            | some n ↦ some ((if n == 1 then status success else status error_write), out₁)
          ]
        ]
  ]

  unfoldable pub mcdbctl_dump : ℕ → ℕ → ℕ → Stdout → Mcdb → Option (Rv × Stdout)
  unfolding dump_loop dump_end
  mcdbctl_dump fuel iovnum calls out m =
      let b : Batch = record { iov = []; iovlen = 0; buflen = 0; out = out } in
      elim (dump_loop fuel iovnum calls b (mcdb_iter_init m)) [
        | none ↦ none
        | some (done, b₁) ↦ elim done [
          | false ↦ some (status error_write, b₁.out)
          | true ↦ dump_end calls b₁
        ]
      ]
