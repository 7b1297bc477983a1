-- ===== src/Tests/Numbers.antt =====
-- The theorems on numbers, hashes and mappings at concrete inputs.
use mcdb.Base.{ℕ, ◌+◌, ◌≤◌, ◌≡◌, refl, List, [], ◌∷◌, ◌++◌, true, some, arith}
use mcdb.Base.Memory.{store, At-store_self}
use mcdb.Plasma.{be_bytes}
use mcdb.Uint32.Hex.{uint32_to_ascii8uphex, uint32_from_ascii8uphex, uint32_from_ascii8hex}
use mcdb.Uint32.Hex.RoundTrip.{from_ascii8hex-to_ascii8uphex, from_ascii8hex-hex_number, hex_number}
use mcdb.Uint32.Decimal.{uint32_to_ascii_base10, int32_to_ascii_base10}
use mcdb.Uint32.Decimal.Digits.{
  Prints, uint32_to_ascii_base10-Prints, int32_to_ascii_base10-Prints, sign, magnitude,
}
use mcdb.Mcdb.Open.{entry_shift}
use mcdb.Lookup.Finished.{entry_shift-finish}
use mcdb.Make.{ask}
use mcdb.Make.Finish.Done.{shift_of}
use mcdb.Make.Start.{mcdb_make_start, start_state}
use mcdb.Make.Upsize.{
  upsize_offset, upsize_msz, grow_file, unmap_prior, map_window, mcdb_mmap_upsize,
}
use mcdb.Make.Window.{Pages, upsize-covers}
use mcdb.Tests.Runs.{bytes_first, begun}

from_ascii8hex-to_ascii8uphex_example :
    (uint32_from_ascii8uphex (uint32_to_ascii8uphex 0xdeadbeef) ≡ 0xdeadbeef)
    × (uint32_from_ascii8hex (uint32_to_ascii8uphex 0xdeadbeef) ≡ 0xdeadbeef)
from_ascii8hex-to_ascii8uphex_example = from_ascii8hex-to_ascii8uphex 0xdeadbeef (omega arith)

from_ascii8hex-hex_number_example :
    uint32_from_ascii8hex (b'0' ∷ b'0' ∷ b'0' ∷ b'0' ∷ b'c' ∷ b'a' ∷ b'F' ∷ b'E' ∷ [])
    ≡ hex_number 0 (b'0' ∷ b'0' ∷ b'0' ∷ b'0' ∷ b'c' ∷ b'a' ∷ b'F' ∷ b'E' ∷ [])
from_ascii8hex-hex_number_example =
    from_ascii8hex-hex_number b'0' b'0' b'0' b'0' b'c' b'a' b'F' b'E'
      (refl, (refl, (refl, (refl, (refl, (refl, (refl, (refl, tt))))))))

entry_shift-finish_example : entry_shift (store (λ a. 0) 0 (be_bytes 8 4112)) 8192 ≡ shift_of 4110
entry_shift-finish_example =
    entry_shift-finish (store (λ a. 0) 0 (be_bytes 8 4112)) 8192 4110 (omega arith) (omega arith)
      (At-store_self (λ a. 0) 0 (be_bytes 8 4112))

begun-Pages : Pages begun 52 12
unfolding mcdb_make_start start_state mcdb_mmap_upsize upsize_offset upsize_msz grow_file
    unmap_prior map_window ask
begun-Pages = record { bits = refl; small = omega arith; mask = refl }

upsize-covers_example :
    ((mcdb_mmap_upsize begun 1000000).1.mapped ≡ true)
    × ((mcdb_mmap_upsize begun 1000000).1.offset ≤ begun.pos)
    × (1000000 ≤ (mcdb_mmap_upsize begun 1000000).1.offset + (mcdb_mmap_upsize begun 1000000).1.msz)
unfolding mcdb_make_start start_state mcdb_mmap_upsize upsize_offset upsize_msz grow_file
    unmap_prior map_window ask
upsize-covers_example =
    upsize-covers begun 52 12 begun-Pages 1000000 (omega arith) (omega arith) refl

uint32_to_ascii_base10-Prints_example :
    (s : List ℕ) × (uint32_to_ascii_base10 4294967295 ≡ some s) × Prints 4294967295 10 s
uint32_to_ascii_base10-Prints_example = uint32_to_ascii_base10-Prints 4294967295 (omega arith)

int32_to_ascii_base10-Prints_example :
    (s : List ℕ) × (int32_to_ascii_base10 0x8000_0000 ≡ some (sign 0x8000_0000 ++ s))
    × Prints (magnitude 0x8000_0000) 10 s
int32_to_ascii_base10-Prints_example = int32_to_ascii_base10-Prints 0x8000_0000 (omega arith)
