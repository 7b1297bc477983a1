-- ===== src/Tests/Text.antt =====
-- Text input, read from a map, and a map that cannot be opened.
use mcdb.Base.{
  ℕ, ◌≡◌, refl, ◌&&◌, List, [], ◌∷◌, true, false, Option, none, some, arith, get_or, if◌then◌else◌,
}
use mcdb.Base.Memory.{Memory}
use mcdb.Make.{Make}
use mcdb.Makefmt.{Input, is_digit, mcdb_bufread_number}
use mcdb.Makefn.{
  regular, mcdb_makefn_start, mcdb_makefn_finish, mcdb_makefn_cleanup, finish-cleanup,
}
use mcdb.Makefmt.Files.{Answers, is_success, into_file, into_file-replaced}
use mcdb.Mcdb.Life.{Answer, mcdb_mmap_create, mcdb_mmap_destroy, create-destroy}
use mcdb.Makefmt.Number.{bufread_number-decimal}
use mcdb.Makefmt.Records.{Status, success, mcdb_makefmt_fdintofd}
use mcdb.Tests.Runs.{bytes_first}

abbrev text : List ℕ
text = b'+' ∷ b'3' ∷ b',' ∷ b'1' ∷ b':' ∷ b'o' ∷ b'n' ∷ b'e' ∷ b'-' ∷ b'>' ∷ b'1' ∷ 0x0a ∷ 0x0a ∷ []

abbrev text_at : Memory
text_at i = get_or text i 0

abbrev input : Input
input = record {
  buf = text_at;
  pos = 1;
  datasz = 13;
  bufsz = 13;
  has_fd = false;
  reads = λ k. none;
  asked = 0;
  failed = false;
}

bufread_number-decimal_example : mcdb_bufread_number input ≡ (true, 3, record input { pos = 2 })
unfolding is_digit
bufread_number-decimal_example =
    bufread_number-decimal input (b'3' ∷ []) (refl, tt) (omega arith, tt) (omega arith)
      (omega arith) (omega arith) refl

from_map : Option (Status × Make)
from_map = mcdb_makefmt_fdintofd 9 false (λ k. none) text_at 13 (λ a. 0) 4096 (λ k. false)

from_map_run : Option (Status × ℕ × ℕ)
from_map_run = elim from_map [ none ↦ none | some (s, m) ↦ some (s, m.pos, m.count 193) ]

abbrev answer : Answer
answer = record {
  opened = true;
  sys = record { stat = true; shared = false; einval = false; private = false };
  mem = λ a. 0;
  size = 8192;
  time = 7;
}

create-destroy_example :
    let r = mcdb_mmap_create false true (some (some 5)) true true answer in
    let left = if r.0 then mcdb_mmap_destroy r.1 else r.1 in
    (left.arrays ≡ 0) × (left.fds ≡ 0) × (left.maps ≡ 0)
create-destroy_example = create-destroy false true (some (some 5)) true true answer

finish-cleanup_example :
    let s = mcdb_makefn_start regular true true in
    let f = mcdb_makefn_finish s.1 true true true true false in
    let whole = s.0 && f.0 in
    let left = mcdb_makefn_cleanup (if s.0 then f.1 else s.1) in
    (left.arrays ≡ 0) × (left.fds ≡ 0) × (left.temporary ≡ false) × (left.replaced ≡ whole)
finish-cleanup_example = finish-cleanup regular true true true true true true false

abbrev answers : Answers
answers = record {
  stat = regular;
  got = true;
  made = true;
  chmod_ok = true;
  sync_ok = true;
  close_ok = true;
  rename_ok = true;
}

into_file-replaced_example :
    let (s, m) = into_file answers success in
    (m.replaced ≡ is_success s) × (m.temporary ≡ false) × (m.arrays ≡ 0) × (m.fds ≡ 0)
into_file-replaced_example = into_file-replaced answers success
