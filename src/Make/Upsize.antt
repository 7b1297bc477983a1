-- ===== src/Make/Upsize.antt =====
-- mcdb_mmap_upsize: a mapping that reaches from `pos` to `sz`, in a file that is large enough.
use mcdb.Base.{
  ℕ, ◌+◌, ◌-◌, ◌^◌, bit_and, Bool, true, false, not, ◌&&◌, ◌||◌, ltb, ◌==◌, u64, if◌then◌else◌,
}
use mcdb.Base.Memory.{Memory}
use mcdb.Mcdb.{mmap_sz, block_sz}
use mcdb.Make.{Make, ask}

-- ~x of a `size_t`
abbrev pub not64 : ℕ → ℕ
not64 x = 2 ^ 64 - 1 - x

-- (n + (unit - 1)) & ~(unit - 1)
unfoldable pub round_up : ℕ → ℕ → ℕ
round_up n unit = bit_and (u64 (n + (unit - 1))) (not64 (unit - 1))

unfoldable pub upsize_offset : Make → ℕ
upsize_offset m = bit_and m.pos m.pgalign

unfoldable pub upsize_msz : Make → ℕ → ℕ
unfolding upsize_offset
upsize_msz m sz =
    let need = u64 (sz + 2 ^ 64 - upsize_offset m) in
    if ltb need mmap_sz then mmap_sz else bit_and (u64 (need + not64 m.pgalign)) m.pgalign

-- Grow the file, unless it reaches to `size` already.
unfoldable pub grow_file : Make → ℕ → Bool × Make
unfolding round_up ask
grow_file m size =
    let fsz = round_up size (if not (m.offset == 0) then block_sz else mmap_sz) in
    let (done, m₁) = ask (record m { fsz = fsz }) in
    if m.has_fd && ltb m.fsz size
    then if done then (true, record m₁ { osz = fsz }) else (false, m₁)
    else (true, m)

-- Flush and drop the previous mapping.
unfoldable pub unmap_prior : Make → Bool × Make
unfolding ask
unmap_prior m =
    let (synced, m₁) =
      (let none_due : Bool × Make = (true, m) in
        if not m.has_fd || m.pos == m.offset then none_due else ask m) in
    let (unmapped, m₂) = ask m₁ in
    if not m.mapped
    then (true, m)
    else if not synced
    then (false, m₁)
    else if unmapped
    then (true, record m₂ { mapped = false })
    else (false, m₂)

-- A new mapping: of the file, or, with no file, of zeroes.
unfoldable pub map_window : Make → ℕ → ℕ → Bool × Make
unfolding ask
map_window m offset msz =
    let (done, m₁) = ask m in
    let zeroes : Memory = λ a. 0 in
    if done
    then (
      true,
      record m₁ {
        mapped = true;
        offset = offset;
        msz = msz;
        file = if m.has_fd then m.file else zeroes;
      },
    )
    else (false, m₁)

unfoldable pub mcdb_mmap_upsize : Make → ℕ → Bool × Make
unfolding upsize_offset upsize_msz grow_file unmap_prior map_window
mcdb_mmap_upsize m sz =
    let offset = upsize_offset m in
    let msz = upsize_msz m sz in
    let (grown, m₁) = grow_file m (u64 (offset + msz)) in
    let (dropped, m₂) = unmap_prior m₁ in
    if not grown then (false, m₁) else if not dropped then (false, m₂) else map_window m₂ offset msz
