-- ===== src/Makefmt.antt =====
-- mcdb_makefmt.c: records as text, "+klen,dlen:key->data\n", read through a buffer or from a map, and
-- given to the writer; an empty line ends the input.
pub mod Files
pub mod Number
pub mod Records
use mcdb.Base.{
  ℕ, zero, suc, ◌+◌, ◌-◌, ◌*◌, ◌^◌, List, [], ◌∷◌, Bool, true, false, not, ◌&&◌, ◌||◌, Option, none,
  some, ltb, leb,
}
use mcdb.Base.{◌==◌, if◌then◌else◌, length, take, u32, min}
use mcdb.Base.Memory.{Memory, load, store}
use mcdb.Plasma.{Plasma}
use mcdb.Make.{Make}
use mcdb.Make.Add.{mcdb_make_addbegin, mcdb_make_addbuf_key, mcdb_make_addbuf_data, mcdb_make_add}
use mcdb.Make.Hplist.{mcdb_make_addend}

-- struct mcdb_input. `reads k` is what the `k`-th call of read gives, `none` for -1; `asked` counts
-- them, and `failed` says whether one of them failed, which leaves errno other than 0.
pub record Input : Type 0 where
  pub buf : Memory
  pub pos : ℕ
  pub datasz : ℕ
  pub bufsz : ℕ
  pub has_fd : Bool
  pub reads : ℕ → Option (List ℕ)
  pub asked : ℕ
  pub failed : Bool

-- What is left in the buffer moves to its begin when it is short.
unfoldable pub move_down : Input → Input
move_down b =
    if ltb (b.datasz - b.pos) 128 && not (b.pos == 0)
    then record b {
      buf = store b.buf 0 (load b.buf b.pos (b.datasz - b.pos));
      datasz = b.datasz - b.pos;
      pos = 0;
    }
    else b

-- The number of bytes read, or `none` for -1.
unfoldable pub mcdb_bufread_fd : Input → Option ℕ × Input
unfolding move_down
mcdb_bufread_fd b =
    let b₁ = move_down b in
    let b₂ = record b₁ { asked = b.asked + 1 } in
    if not b.has_fd then (none, b) else elim (b.reads b.asked) [
      | none ↦ (none, record b₂ { failed = true })
      | some bytes ↦
          let got = take (b₁.bufsz - b₁.datasz) bytes in
          (
            some (length got),
            record b₂ { buf = store b₁.buf b₁.datasz got; datasz = b₁.datasz + length got },
          )
    ]

-- memchr(…) != NULL
unfoldable pub has_char : Memory → ℕ → ℕ → ℕ → Bool
has_char buf a zero c = false
has_char buf a (suc n) c = buf a == c || has_char buf (a + 1) n c

-- The loop that reads on until a ':' is there; each round that goes on has read a byte.
unfoldable pub mcdb_bufread_preamble_fill : ℕ → Input → ℕ → Option ℕ × Input
unfolding has_char mcdb_bufread_fd
mcdb_bufread_preamble_fill zero b r = (some r, b)
mcdb_bufread_preamble_fill (suc fuel) b r =
    let (got, b₁) = mcdb_bufread_fd b in
    elim (not (has_char b.buf (b.datasz - r) r b':') && (r == 0 || not (b.buf b.pos == 0x0a))) [
      | false ↦ (some r, b)
      | true ↦ elim got [
        | none ↦ (none, b₁)
        | some n ↦ elim (ltb 0 n && ltb (b₁.datasz - b₁.pos) 23) [
          | false ↦ (some n, b₁)
          | true ↦ mcdb_bufread_preamble_fill fuel b₁ n
        ]
      ]
    ]

-- (uint32_t)(c - '0') <= 9u
unfoldable pub is_digit : ℕ → Bool
is_digit c = leb (u32 (c + 2 ^ 32 - b'0')) 9

-- The loop of mcdb_bufread_number: the number and the position behind it.
unfoldable pub number_loop : ℕ → Memory → ℕ → ℕ → ℕ → ℕ × ℕ
unfolding is_digit
number_loop zero buf datasz pos num = (num, pos)
number_loop (suc fuel) buf datasz pos num =
    let rest = number_loop fuel buf datasz (pos + 1) (num * 10 + (buf pos - b'0')) in
    if not (datasz == pos) && (is_digit (buf pos) && leb num 214748363) then rest else (num, pos)

-- Whether a number was read, the number, and the input behind it.
unfoldable pub mcdb_bufread_number : Input → Bool × ℕ × Input
unfolding number_loop
mcdb_bufread_number b =
    let (num, pos) = number_loop (b.datasz - b.pos) b.buf b.datasz b.pos 0 in
    if not (b.pos == pos) && (b.datasz == pos || not (is_digit (b.buf pos)))
    then (true, num, record b { pos = pos })
    else (false, num, b)

-- The answers of mcdb_bufread_preamble: EXIT_SUCCESS, the two errors, and the lengths of a record.
pub data Preamble : Type 0 where
  finished : Preamble
  bad_format : Preamble
  bad_read : Preamble
  lengths : ℕ → ℕ → Preamble

-- b->datasz - b->pos != 0 && b->buf[b->pos++] == c
unfoldable pub expect : Input → ℕ → Bool × Input
expect b c =
    if b.datasz - b.pos == 0 then (false, b) else (b.buf b.pos == c, record b { pos = b.pos + 1 })

-- The part of a preamble behind its '+'.
unfoldable pub read_lengths : Input → Preamble × Input
unfolding mcdb_bufread_number expect
read_lengths b =
    let (ok₁, klen, b₁) = mcdb_bufread_number b in
    let (ok₂, b₂) = expect b₁ b',' in
    let (ok₃, dlen, b₃) = mcdb_bufread_number b₂ in
    let (ok₄, b₄) = expect b₃ b':' in
    if not ok₁
    then (bad_format, b₁)
    else if not ok₂
    then (bad_format, b₂)
    else if not ok₃
    then (bad_format, b₃)
    else if ok₄
    then (lengths klen dlen, b₄)
    else (bad_format, b₄)

unfoldable pub mcdb_bufread_preamble : Input → Preamble × Input
unfolding mcdb_bufread_preamble_fill read_lengths
mcdb_bufread_preamble b =
    let short = ltb (b.datasz - b.pos) 23 in
    let (filled, b₁) =
      (let as_it_is : Option ℕ × Input = (some 1, b) in
        if short then mcdb_bufread_preamble_fill 24 b (b.datasz - b.pos) else as_it_is) in
    let c = b₁.buf b₁.pos in
    let b₂ = record b₁ { pos = b₁.pos + 1 } in
    let empty : Bool = elim filled [ none ↦ true | some n ↦ n == 0 ] in
    if empty
    then (if b₁.failed then (bad_read, b₁) else (bad_format, b₁))
    else if c == b'+'
    then read_lengths b₂
    else if c == 0x0a
    then (finished, b₂)
    else (bad_format, b₂)
