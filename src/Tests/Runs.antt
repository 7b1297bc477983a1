-- ===== src/Tests/Runs.antt =====
-- A writer started, two records added, the file finished and opened.
use mcdb.Base.{
  ℕ, ◌+◌, ◌^◌, ◌<◌, ◌≡◌, refl, List, [], ◌∷◌, Bool, true, false, Option, none, some, All, arith,
}
use mcdb.Base.Memory.{Memory, load, store}
use mcdb.Plasma.{Plasma, big_endian, IsByte}
use mcdb.Uint32.Hash.{hash_djb, hash_djb_uchar, hash_djb_init}
use mcdb.Mcdb.{djb, run_hash}
use mcdb.Make.{Make, ask, poke}
use mcdb.Make.Hplist.{sum_count, push_hp, mcdb_make_addend, free_lists}
use mcdb.Make.Upsize.{
  upsize_offset, upsize_msz, grow_file, unmap_prior, map_window, mcdb_mmap_upsize,
}
use mathlib.Core.Bool.{false≢true}
use mcdb.Make.Add.{
  Rc, make_room, begin_hp, ensure_window, write_lens, mcdb_make_addbegin, mcdb_make_addbuf_data,
  mcdb_make_addbuf_key, mcdb_make_add,
}
use mcdb.Make.Start.{start_state, mcdb_make_start, mcdb_make_destroy}
use mcdb.Make.Finish.{
  slot_hps, is_zero, find_empty, write_entry, insert_hp, insert_hps, header_entry, write_slots,
  mcdb_mmap_commit, close_up, finish_tables, mcdb_make_finish,
}
use mcdb.Make.Valid.{IsMake, Few}
use mcdb.Make.Finish.Done.{Unwrapped}
use mcdb.Make.Started.{start-IsMake}
use mcdb.Make.Added.Keeps.{add-IsMake}

instance abbrev pub bytes_first : Plasma
bytes_first = big_endian

abbrev pub key_one : List ℕ
key_one = b'o' ∷ b'n' ∷ b'e' ∷ []

abbrev pub key_two : List ℕ
key_two = b'=' ∷ b'w' ∷ b'o' ∷ []

abbrev pub blank : Memory
blank = λ a. 0

abbrev pub begun : Make
begun = (mcdb_make_start blank true 4096 (λ k. false)).1

abbrev pub with_one : Make
with_one = (mcdb_make_add begun key_one (b'1' ∷ [])).1

abbrev pub with_two : Make
with_two = (mcdb_make_add with_one key_two (b'2' ∷ b'2' ∷ [])).1

start-IsMake_example : IsMake begun
unfolding mcdb_make_start start_state mcdb_mmap_upsize upsize_offset upsize_msz grow_file
    unmap_prior map_window ask
start-IsMake_example = start-IsMake blank 4096 (λ k. false) begun refl

pub key_one-bytes : All IsByte key_one
key_one-bytes = (omega arith, (omega arith, (omega arith, tt)))

pub key_two-bytes : All IsByte key_two
key_two-bytes = (omega arith, (omega arith, (omega arith, tt)))

pub begun_ok : mcdb_make_start blank true 4096 (λ k. false) ≡ (none, begun)
unfolding mcdb_make_start start_state mcdb_mmap_upsize upsize_offset upsize_msz grow_file
    unmap_prior map_window ask
begun_ok = refl

pub begun-IsMake : IsMake begun
begun-IsMake = start-IsMake blank 4096 (λ k. false) begun begun_ok

pub begun-Few : Few begun
unfolding mcdb_make_start start_state mcdb_mmap_upsize upsize_offset upsize_msz grow_file
    unmap_prior map_window ask
begun-Few j lt = omega arith

pub with_one-IsMake : IsMake with_one
unfolding mcdb_make_start start_state mcdb_mmap_upsize upsize_offset upsize_msz grow_file
    unmap_prior map_window ask
with_one-IsMake =
    add-IsMake begun key_one (b'1' ∷ []) begun-IsMake begun-Few key_one-bytes (omega arith)

pub with_one-Few : Few with_one
unfolding mcdb_make_start start_state mcdb_mmap_upsize upsize_offset upsize_msz grow_file
    unmap_prior map_window ask mcdb_make_add mcdb_make_addbegin make_room begin_hp ensure_window
    write_lens mcdb_make_addbuf_key mcdb_make_addbuf_data mcdb_make_addend poke run_hash hash_djb
    hash_djb_uchar
with_one-Few j lt = ground arith

pub with_two-IsMake : IsMake with_two
unfolding mcdb_make_start start_state mcdb_mmap_upsize upsize_offset upsize_msz grow_file
    unmap_prior map_window ask mcdb_make_add mcdb_make_addbegin make_room begin_hp ensure_window
    write_lens mcdb_make_addbuf_key mcdb_make_addbuf_data mcdb_make_addend poke run_hash hash_djb
    hash_djb_uchar
with_two-IsMake =
    add-IsMake with_one key_two (b'2' ∷ b'2' ∷ []) with_one-IsMake with_one-Few key_two-bytes
      (omega arith)

pub with_two-Few : Few with_two
unfolding mcdb_make_start start_state mcdb_mmap_upsize upsize_offset upsize_msz grow_file
    unmap_prior map_window ask mcdb_make_add mcdb_make_addbegin make_room begin_hp ensure_window
    write_lens mcdb_make_addbuf_key mcdb_make_addbuf_data mcdb_make_addend poke run_hash hash_djb
    hash_djb_uchar
with_two-Few j lt = ground arith

pub with_two-Unwrapped : Unwrapped with_two
unfolding mcdb_make_start start_state mcdb_mmap_upsize upsize_offset upsize_msz grow_file
    unmap_prior map_window ask mcdb_make_add mcdb_make_addbegin make_room begin_hp ensure_window
    write_lens mcdb_make_addbuf_key mcdb_make_addbuf_data mcdb_make_addend poke run_hash hash_djb
    hash_djb_uchar
with_two-Unwrapped j lt = ground arith

abbrev ok_rc : Option Rc → Bool
ok_rc none = false
ok_rc (some (none, m)) = true
ok_rc (some (some e, m)) = false

abbrev state_of : Option Rc → Make
state_of none = with_two
state_of (some (e, m)) = m

rc_ok : (o : Option Rc) → ok_rc o ≡ true → o ≡ some (none, state_of o)
rc_ok none h = absurd (false≢true h)
rc_ok (some (none, m)) h = refl
rc_ok (some (some e, m)) h = absurd (false≢true h)

abbrev pub final : Make
final = state_of (mcdb_make_finish with_two)

finish_answers : ok_rc (mcdb_make_finish with_two) ≡ true
unfolding mcdb_make_start start_state mcdb_mmap_upsize upsize_offset upsize_msz grow_file
    unmap_prior map_window ask mcdb_make_add mcdb_make_addbegin make_room begin_hp ensure_window
    write_lens mcdb_make_addbuf_key mcdb_make_addbuf_data mcdb_make_addend poke run_hash hash_djb
    hash_djb_uchar mcdb_make_finish sum_count finish_tables write_slots slot_hps push_hp insert_hps
    insert_hp find_empty is_zero write_entry header_entry mcdb_mmap_commit close_up
    mcdb_make_destroy free_lists store load
finish_answers = refl

pub final_ok : mcdb_make_finish with_two ≡ some (none, final)
final_ok = rc_ok (mcdb_make_finish with_two) finish_answers

pub begun_pos : begun.pos + 8 + 3 + 1 < 2 ^ 63
unfolding mcdb_make_start start_state mcdb_mmap_upsize upsize_offset upsize_msz grow_file
    unmap_prior map_window ask
begun_pos = omega arith

pub with_one_ok : mcdb_make_add begun key_one (b'1' ∷ []) ≡ (none, with_one)
unfolding mcdb_make_start start_state mcdb_mmap_upsize upsize_offset upsize_msz grow_file
    unmap_prior map_window ask mcdb_make_add mcdb_make_addbegin make_room begin_hp ensure_window
    write_lens mcdb_make_addbuf_key mcdb_make_addbuf_data mcdb_make_addend poke run_hash hash_djb
    hash_djb_uchar
with_one_ok = refl

pub with_two_ok : mcdb_make_add with_one key_two (b'2' ∷ b'2' ∷ []) ≡ (none, with_two)
unfolding mcdb_make_start start_state mcdb_mmap_upsize upsize_offset upsize_msz grow_file
    unmap_prior map_window ask mcdb_make_add mcdb_make_addbegin make_room begin_hp ensure_window
    write_lens mcdb_make_addbuf_key mcdb_make_addbuf_data mcdb_make_addend poke run_hash hash_djb
    hash_djb_uchar
with_two_ok = refl

pub with_one_pos : with_one.pos + 8 + 3 + 2 < 2 ^ 63
unfolding mcdb_make_start start_state mcdb_mmap_upsize upsize_offset upsize_msz grow_file
    unmap_prior map_window ask mcdb_make_add mcdb_make_addbegin make_room begin_hp ensure_window
    write_lens mcdb_make_addbuf_key mcdb_make_addbuf_data mcdb_make_addend poke run_hash hash_djb
    hash_djb_uchar
with_one_pos = omega arith

pub with_two_pos : with_two.pos < 2 ^ 62
unfolding mcdb_make_start start_state mcdb_mmap_upsize upsize_offset upsize_msz grow_file
    unmap_prior map_window ask mcdb_make_add mcdb_make_addbegin make_room begin_hp ensure_window
    write_lens mcdb_make_addbuf_key mcdb_make_addbuf_data mcdb_make_addend poke run_hash hash_djb
    hash_djb_uchar
with_two_pos = omega arith

pub with_two-hash : (with_two.hash_fn ≡ djb) × (with_two.hash_init ≡ hash_djb_init)
unfolding mcdb_make_start start_state mcdb_mmap_upsize upsize_offset upsize_msz grow_file
    unmap_prior map_window ask mcdb_make_add mcdb_make_addbegin make_room begin_hp ensure_window
    write_lens mcdb_make_addbuf_key mcdb_make_addbuf_data mcdb_make_addend poke run_hash hash_djb
    hash_djb_uchar
with_two-hash = (refl, refl)
