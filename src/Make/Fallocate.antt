-- ===== src/Make/Fallocate.antt =====
-- mcdb_make_fallocate: room for a file where posix_fallocate is missing, by touching its blocks.
use mcdb.Base.{
  ℕ, zero, suc, ◌+◌, ◌-◌, ◌^◌, Bool, true, false, not, ◌&&◌, ◌||◌, bit_and, ltb, leb, ◌==◌,
  if◌then◌else◌,
}
use mcdb.Base.{min}
use mcdb.Make.Upsize.{not64}

-- while (offset < end && touch(offset)) offset += block
unfoldable pub touch_blocks : ℕ → (ℕ → Bool) → ℕ → ℕ → ℕ → ℕ
touch_blocks zero touch block end offset = offset
touch_blocks (suc fuel) touch block end offset = elim (ltb offset end && touch offset) [
  | true ↦ touch_blocks fuel touch block end (offset + block)
  | false ↦ offset
]

-- From the end of the file on, the blocks up to `end` get a zero byte each; the block that the file
-- ends in keeps its bytes. The result is whether 0 is returned.
unfoldable pub extend_file : (ℕ → Bool) → ℕ → ℕ → ℕ → ℕ → Bool
unfolding touch_blocks
extend_file put_zero block old end offset =
    let inside = ltb offset end && (offset == old && not (bit_and offset (block - 1) == 0)) in
    let from = if inside then offset + block else offset in
    let at = bit_and from (not64 (block - 1)) in
    if inside && not (put_zero offset)
    then false
    else leb end (touch_blocks end put_zero block end at)

-- `block` and `size` are what fstatvfs and fstat give; `copy o` and `put_zero o` say whether the
-- calls at position `o` succeed. The loops touch one position of each block up to the end, so that
-- as many rounds as positions are enough.
unfoldable pub mcdb_make_fallocate : ℕ → ℕ → Bool → ℕ → ℕ → (ℕ → Bool) → Bool → (ℕ → Bool) → Bool
unfolding touch_blocks extend_file
mcdb_make_fallocate offset len stat_ok block size copy truncated put_zero =
    let fits =
      leb len (2 ^ 63 - 1 - (block - 1))
      && leb (bit_and (len + block - 1) (not64 (block - 1))) (2 ^ 63 - 1 - offset) in
    let end = len + offset in
    let old = min size end in
    let at = touch_blocks old copy block old offset in
    if len == 0 || not stat_ok
    then false
    else if not fits
    then false
    else if ltb at old || (not (size == end) && not truncated)
    then false
    else extend_file put_zero block old end at
