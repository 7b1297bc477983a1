-- ===== src/Makefmt/Records.antt =====
-- The records of the text, handed to the writer: mcdb_bufread_rec and mcdb_makefmt_fdintofd.
use mcdb.Base.{
  ℕ, zero, suc, ◌+◌, ◌-◌, List, Bool, true, false, not, ◌&&◌, Option, none, some, ltb, leb, ◌==◌,
  if◌then◌else◌, min,
}
use mcdb.Base.Memory.{Memory, load}
use mcdb.Plasma.{Plasma}
use mcdb.Make.{Make}
use mcdb.Make.Hplist.{mcdb_make_addend}
use mcdb.Make.Add.{mcdb_make_addbegin, mcdb_make_addbuf_key, mcdb_make_addbuf_data, mcdb_make_add}
use mcdb.Make.Start.{mcdb_make_start, mcdb_make_destroy}
use mcdb.Make.Finish.{mcdb_make_finish}
use mcdb.Makefmt.{
  Input, mcdb_bufread_fd, mcdb_bufread_preamble, finished, bad_format, bad_read, lengths,
}

abbrev got_some : Option ℕ → Bool
got_some none = false
got_some (some n) = ltb 0 n

-- `add` is `fn_addbuf`. Every round but the first has read a byte, so `len + 1` rounds are enough.
unfoldable pub bufread_str_loop :
    ℕ → (Make → List ℕ → Make) → Input → ℕ → Make → Bool × Make × Input
unfolding mcdb_bufread_fd
bufread_str_loop zero add b len m = (len == 0, m, b)
bufread_str_loop (suc fuel) add b len m =
    let u = min (b.datasz - b.pos) len in
    let m₁ = add m (load b.buf b.pos u) in
    let b₁ = record b { pos = b.pos + u } in
    let (got, b₂) = mcdb_bufread_fd b₁ in
    elim (len - u == 0) [
      | true ↦ (true, m₁, b₁)
      | false ↦ elim (got_some got) [
        | true ↦ bufread_str_loop fuel add b₂ (len - u) m₁
        | false ↦ (false, m₁, b₂)
      ]
    ]

unfoldable pub mcdb_bufread_str : (Make → List ℕ → Make) → Input → ℕ → Make → Bool × Make × Input
unfolding bufread_str_loop
mcdb_bufread_str add b len m = bufread_str_loop (len + 1) add b len m

unfoldable pub bufread_xchars_loop : ℕ → Input → ℕ → Input
unfolding mcdb_bufread_fd
bufread_xchars_loop zero b len = b
bufread_xchars_loop (suc fuel) b len =
    let (got, b₁) = mcdb_bufread_fd b in
    elim (ltb (b.datasz - b.pos) len) [
      | false ↦ b
      | true ↦ elim (got_some got) [ true ↦ bufread_xchars_loop fuel b₁ len | false ↦ b₁ ]
    ]

-- Each round that goes on has read a byte, so `len + 1` rounds are enough.
unfoldable pub mcdb_bufread_xchars : Input → ℕ → Bool × Input
unfolding bufread_xchars_loop
mcdb_bufread_xchars b len =
    let b₁ = bufread_xchars_loop (len + 1) b len in (leb len (b₁.datasz - b₁.pos), b₁)

-- b->buf[b->pos++] == c
abbrev next_is : Input → ℕ → Bool × Input
next_is b c = (b.buf b.pos == c, record b { pos = b.pos + 1 })

-- The values that mcdb_makefmt_fdintofd returns.
pub data Status : Type 0 where
  success : Status
  error_readformat : Status
  error_read : Status
  error_write : Status
  error_malloc : Status

module _ ⦃plasma : Plasma⦄ where
  -- The key, "->", the data and the line's end, as far as they are as expected.
  unfoldable pub mcdb_bufread_rec : Make → ℕ → ℕ → Input → Bool × Make × Input
  unfolding mcdb_bufread_str mcdb_bufread_xchars
  mcdb_bufread_rec m klen dlen b =
      let (key, m₁, b₁) = mcdb_bufread_str mcdb_make_addbuf_key b klen m in
      let (two, b₂) = mcdb_bufread_xchars b₁ 2 in
      let (dash, b₃) = next_is b₂ b'-' in
      let (arrow, b₄) = next_is b₃ b'>' in
      let (value, m₂, b₅) = mcdb_bufread_str mcdb_make_addbuf_data b₄ dlen m₁ in
      let (one, b₆) = mcdb_bufread_xchars b₅ 1 in
      let (newline, b₇) = next_is b₆ 0x0a in
      if not key
      then (false, m₁, b₁)
      else if not two
      then (false, m₁, b₂)
      else if not dash
      then (false, m₁, b₃)
      else if not arrow
      then (false, m₁, b₄)
      else if not value
      then (false, m₂, b₅)
      else if not one
      then (false, m₂, b₆)
      else (newline, m₂, b₇)

  abbrev give_back : Status → Make → Option (Status × Make)
  give_back s m = some (s, (mcdb_make_destroy m).1)

  -- The loop over the records, at most `fuel` of them, and what follows it; `none` is input that goes
  -- on, or a search for an empty slot without end.
  unfoldable pub records_loop : ℕ → Make → Input → Option (Status × Make)
  unfolding mcdb_bufread_preamble mcdb_bufread_rec
  records_loop zero m b = none
  records_loop (suc fuel) m b =
      let (p, b₁) = mcdb_bufread_preamble b in
      elim p [
        | finished ↦ elim (mcdb_make_finish m) [
          | none ↦ none
          | some (rc, m₁) ↦ elim rc [ none ↦ some (success, m₁) | some e ↦ some (error_write, m₁) ]
        ]
        | bad_format ↦ give_back error_readformat m
        | bad_read ↦ give_back error_read m
        | lengths klen dlen ↦
            let at = b₁.pos in
            let whole =
              b₁.buf (at + klen) == b'-'
              && (b₁.buf (at + klen + 1) == b'>' && b₁.buf (at + klen + 2 + dlen) == 0x0a) in
            let (rc, m₁) =
              mcdb_make_add m (load b₁.buf at klen) (load b₁.buf (at + klen + 2) dlen) in
            let (begin_rc, m₂) = mcdb_make_addbegin m klen dlen in
            let (read, m₃, b₂) = mcdb_bufread_rec m₂ klen dlen b₁ in
            elim (leb (klen + dlen + 3) (b₁.datasz - b₁.pos)) [
              | true ↦ elim whole [
                | false ↦ give_back error_readformat m
                | true ↦ elim rc [
                  | none ↦ records_loop fuel m₁ (record b₁ { pos = at + (klen + dlen + 3) })
                  | some e ↦ give_back error_write m₁
                ]
              ]
              | false ↦ elim begin_rc [
                | some e ↦ give_back error_write m₂
                | none ↦ elim read [
                  | false ↦ give_back error_readformat m₃
                  | true ↦ records_loop fuel (mcdb_make_addend m₃) b₂
                ]
              ]
            ]
      ]

  -- `buf` and `bufsz` are the buffer, or, without `inputfd`, the mapped text.
  unfoldable pub mcdb_makefmt_fdintofd :
      ℕ
      → Bool
      → (ℕ → Option (List ℕ))
      → Memory
      → ℕ
      → Memory
      → ℕ
      → (ℕ → Bool)
      → Option (Status × Make)
  unfolding records_loop
  mcdb_makefmt_fdintofd fuel has_fd reads buf bufsz file pagesize fails =
      let (rc, m) = mcdb_make_start file true pagesize fails in
      let b : Input = record {
        buf = buf;
        pos = 0;
        datasz = if has_fd then 0 else bufsz;
        bufsz = bufsz;
        has_fd = has_fd;
        reads = reads;
        asked = 0;
        failed = false;
      } in
      elim rc [ some e ↦ some (error_write, m) | none ↦ records_loop fuel m b ]
