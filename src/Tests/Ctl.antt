-- ===== src/Tests/Ctl.antt =====
-- The command line on the file of Tests/Runs.
use mcdb.Base.{
  ℕ, ◌+◌, ◌^◌, ◌≤◌, ◌≡◌, refl, subst, List, [], ◌∷◌, ◌++◌, Bool, true, false, Option, none, some,
  take, length, arith, if◌then◌else◌, ◌==◌,
}
use mcdb.Base.Memory.{Memory}
use mcdb.Uint32.{strunpack32}
use mcdb.Base.{map, All}
use mcdb.Base.Memory.{store, same_bytes}
use mcdb.Uint32.Hash.{hash_djb, hash_djb_uchar}
use mcdb.Mcdb.{run_hash}
use mcdb.Mcdb.Open.{mcdb_mmap_init}
use mcdb.Mcdb.Find.{key_matches, key_hash, key_hash_by}
use mcdb.Make.{ask, poke}
use mcdb.Make.Hplist.{sum_count, push_hp, mcdb_make_addend, free_lists}
use mcdb.Make.Upsize.{
  upsize_offset, upsize_msz, grow_file, unmap_prior, map_window, mcdb_mmap_upsize,
}
use mcdb.Make.Add.{
  make_room, begin_hp, ensure_window, write_lens, mcdb_make_addbegin, mcdb_make_addbuf_data,
  mcdb_make_addbuf_key,
}
use mcdb.Make.Start.{start_state, mcdb_make_start, mcdb_make_destroy}
use mcdb.Make.Finish.{
  slot_hps, is_zero, find_empty, write_entry, insert_hp, insert_hps, header_entry, write_slots,
  mcdb_mmap_commit, close_up, finish_tables, mcdb_make_finish,
}
use mcdb.Mcdb.{Mcdb}
use mcdb.Mcdb.Iter.{mcdb_iter_init}
use mcdb.Make.{Hp}
use mcdb.Make.Add.{mcdb_make_add}
use mcdb.Lookup.Walk.{Walks}
use mcdb.Lookup.Sequence.{Lies}
use mcdb.Lookup.Sequence.Written.{AddLies, start-Lies, add-Lies, finish-Walks}
use mcdb.Makefmt.Records.{success}
use mcdb.Report.{status}
use mcdb.Ctl.Output.{Stdout, concat, total, writev_loop}
use mcdb.Ctl.Output.Whole.{Wrote, Progress, writev_loop-Wrote}
use mcdb.Ctl.Output.Taken.{TakesAll}
use mcdb.Ctl.Dump.{Batch, dump_end, mcdbctl_dump}
use mcdb.Ctl.Dump.{dump_record}
use mcdb.Ctl.Dump.Bounds.{IsBatch, view, record_text, dump_record-view}
use mcdb.Ctl.Dump.Short.{dump_end-short}
use mcdb.Ctl.Dump.Text.{texts}
use mcdb.Ctl.Dump.Written.{dump-Lies}
use mcdb.Ctl.Get.{answer, write_status, mcdbctl_getseq}
use mcdb.Ctl.Get.Stored.{getseq-Holds}
use mcdb.Tests.Runs.{
  blank, bytes_first, key_one, key_two, begun, begun_ok, begun_pos, begun-IsMake, with_one,
  with_one_ok, with_one_pos, with_one-IsMake, with_two, with_two_ok, with_two_pos, with_two-IsMake,
  with_two-Few, with_two-Unwrapped, final, final_ok,
}
use mcdb.Base.{◌%◌}
use mcdb.Base.Memory.{load}
use mcdb.Uint32.{strunpack64}
use mcdb.Mcdb.{djb}
use mcdb.Mcdb.Slots.{walk_slots, mcdb_validate_slots}
use mcdb.Makefn.{regular, unopened, mcdb_makefn_start, mcdb_makefn_cleanup}
use mcdb.Makefmt.Records.{error_write}
use mcdb.Makefmt.Files.{Answers, is_success}
use mcdb.Ctl.Main.{handle_of}
use mcdb.Ctl.Unique.{mcdbctl_make_unique_keys, make_unique_keys-replaced}
use mcdb.Table.{select}
use mcdb.Lookup.{hits}
use mcdb.Lookup.Finished.{slot_of, finish-search}
use mcdb.Ctl.Get.{mcdbctl_getall}
use mcdb.Ctl.Get.Laws.{Fits, PrintedAll, getall-Follows}
use mcdb.Tests.Found.{khash, sys, read, read_ok, handle, held_still, same_hash}

-- Three bytes at each call.
abbrev slow : Stdout
slow = record { bytes = []; asked = 0; wrote = λ k. some 3 }

slow_moves : Progress slow.wrote
slow_moves k n e = ground arith

abbrev pieces : List (List ℕ)
pieces = (b'o' ∷ b'n' ∷ []) ∷ (b'e' ∷ b'-' ∷ b'>' ∷ []) ∷ []

writev_loop-Wrote_example :
    (b : Bool) × (out' : Stdout) × (writev_loop 6 slow pieces 5 ≡ some (b, out'))
    × Wrote slow (concat pieces) b out'
writev_loop-Wrote_example =
    writev_loop-Wrote 6 slow pieces 5 slow_moves (omega arith) (omega arith) (omega arith)

getseq-Holds_example :
    (seq : ℕ) × (b : Bool) × (out' : Stdout) × (mcdbctl_getseq 9 slow handle key_one seq
      ≡ some (answer (write_status b), out'))
    × Wrote slow (b'1' ∷ 0x0a ∷ []) b out'
getseq-Holds_example =
    getseq-Holds with_two final sys read handle key_one (b'1' ∷ []) 9 slow with_two-IsMake
      with_two-Unwrapped with_two_pos held_still final_ok read_ok same_hash slow_moves (omega arith)
      (omega arith)

abbrev rs_one : List (List ℕ × List ℕ)
rs_one = (key_one, b'1' ∷ []) ∷ []

abbrev pub rs_two : List (List ℕ × List ℕ)
rs_two = (key_one, b'1' ∷ []) ∷ (key_two, b'2' ∷ b'2' ∷ []) ∷ []

add-Lies_example : AddLies [] key_one (b'1' ∷ []) (mcdb_make_add begun key_one (b'1' ∷ []))
add-Lies_example =
    add-Lies begun key_one (b'1' ∷ []) [] begun-IsMake.fd begun_pos
      (start-Lies blank 4096 (λ k. false) begun begun_ok)

one-Lies : Lies with_one rs_one
one-Lies = subst (AddLies [] key_one (b'1' ∷ [])) with_one_ok (
    add-Lies begun key_one (b'1' ∷ []) [] begun-IsMake.fd begun_pos
      (start-Lies blank 4096 (λ k. false) begun begun_ok))

pub two-Lies : Lies with_two rs_two
two-Lies =
    subst (AddLies rs_one key_two (b'2' ∷ b'2' ∷ [])) with_two_ok
      (add-Lies with_one key_two (b'2' ∷ b'2' ∷ []) rs_one with_one-IsMake.fd with_one_pos one-Lies)

finish-Walks_example : Walks (mcdb_iter_init handle) rs_two
finish-Walks_example =
    finish-Walks with_two final sys read handle rs_two with_two-IsMake with_two-Few with_two_pos
      two-Lies final_ok read_ok

-- Every call takes all.
abbrev fast : Stdout
fast = record { bytes = []; asked = 0; wrote = λ k. some (2 ^ 64) }

fast_takes : TakesAll fast.wrote
fast_takes k = (2 ^ 64, refl, omega arith)

dump-Lies_example :
    (out' : Stdout) × (mcdbctl_dump 3 16 2 fast handle ≡ some (status success, out'))
    × (out'.bytes ≡ texts rs_two ++ 0x0a ∷ [])
dump-Lies_example =
    dump-Lies with_two final sys read handle rs_two 3 16 0 fast with_two-IsMake with_two-Few
      with_two_pos two-Lies final_ok read_ok (omega arith) (omega arith) fast_takes (omega arith)

-- A batch with one record "+1,1:a->b", and a call that takes its first 8 bytes.
abbrev short_of : ℕ → Option ℕ
short_of k = if k == 0 then some 8 else some 1

abbrev batch : Batch
batch = record {
  iov =
      (b'+' ∷ [])
      ∷ (b'1' ∷ [])
      ∷ (b',' ∷ [])
      ∷ (b'1' ∷ [])
      ∷ (b':' ∷ [])
      ∷ (b'a' ∷ [])
      ∷ (b'-' ∷ b'>' ∷ [])
      ∷ (b'b' ∷ [])
      ∷ (0x0a ∷ [])
      ∷ [];
  iovlen = 8;
  buflen = 2;
  out = record { bytes = []; asked = 0; wrote = short_of };
}

dump_end-short_example :
    (out' : Stdout) × (dump_end 2 batch ≡ some (status success, out'))
    × (out'.bytes ≡ take 8 (concat batch.iov) ++ 0x0a ∷ [])
    × (8 + 2 ≡ total batch.iov)
dump_end-short_example =
    dump_end-short 1 16 0 0 batch
      (record {
        sized = omega arith;
        numbers = omega arith;
        pieces = omega arith;
        low = omega arith;
        ends = omega arith;
      })
      (omega arith) (omega arith) refl refl

abbrev twos : List Hp
twos = select (hits read.mem khash key_two 0) (slot_of with_two khash)

twos_lens : map (λ hp. strunpack32 read.mem (hp.p + 4)) twos ≡ 2 ∷ []
unfolding mcdb_make_start start_state mcdb_mmap_upsize upsize_offset upsize_msz grow_file
    unmap_prior map_window ask mcdb_make_add mcdb_make_addbegin make_room begin_hp ensure_window
    write_lens mcdb_make_addbuf_key mcdb_make_addbuf_data mcdb_make_addend poke run_hash hash_djb
    hash_djb_uchar mcdb_make_finish sum_count finish_tables write_slots slot_hps push_hp insert_hps
    insert_hp find_empty is_zero write_entry header_entry mcdb_mmap_commit close_up
    mcdb_make_destroy free_lists store load select hits key_matches same_bytes strunpack32 key_hash
    key_hash_by mcdb_mmap_init
twos_lens = refl

one-Fits :
    (hps : List Hp)
    → map (λ hp. strunpack32 read.mem (hp.p + 4)) hps ≡ 2 ∷ []
    → All (Fits 9 read) hps × (length hps ≤ 3)
one-Fits [] e = absurd (ground arith)
one-Fits (hp ∷ []) e = ((ground arith, tt), omega arith)
one-Fits (hp ∷ hp₂ ∷ hps) e = absurd (ground arith)

getall-Follows_example :
    PrintedAll read slow
      (select (hits read.mem khash key_two 0) (slot_of with_two khash))
      (mcdbctl_getall 4 9 slow handle key_two)
getall-Follows_example =
    getall-Follows 3 9 slow handle key_two twos (omega arith) slow_moves (one-Fits twos twos_lens).0
      (finish-search with_two final sys read handle key_two 0 khash with_two-IsMake
        with_two-Unwrapped with_two_pos final_ok read_ok refl)
      (one-Fits twos twos_lens).1

-- A file with a header of 4096 bytes only, whose tables are empty.
abbrev empty_mem : Memory
empty_mem a = if a % 16 == 6 then 16 else 0

abbrev empty_db : Mcdb
empty_db =
    handle_of
      (record { mem = empty_mem; b = 3; n = 0; hash_init = 5381; hash_fn = djb; size = 4096 })

abbrev no_temp : Answers
no_temp = record {
  stat = regular;
  got = true;
  made = false;
  chmod_ok = true;
  sync_ok = true;
  close_ok = true;
  rename_ok = true;
}

no_temp_run :
    mcdbctl_make_unique_keys 9 9 no_temp blank 4096 (λ k. false) true empty_db
    ≡ some (error_write, unopened, none)
unfolding mcdbctl_make_unique_keys mcdb_validate_slots walk_slots strunpack32 strunpack64
    mcdb_makefn_start mcdb_makefn_cleanup load
no_temp_run = refl

make_unique_keys-replaced_example :
    (unopened.replaced ≡ is_success error_write)
    × (unopened.temporary ≡ false)
    × (unopened.arrays ≡ 0)
    × (unopened.fds ≡ 0)
make_unique_keys-replaced_example =
    make_unique_keys-replaced 9 9 no_temp blank 4096 (λ k. false) true empty_db error_write unopened
      none no_temp_run

abbrev empty_batch : Batch
empty_batch = record { iov = []; iovlen = 0; buflen = 0; out = fast }

dump_record-view_example :
    (b' : Batch) × (dump_record 16 2 empty_batch 1 1 (b'a' ∷ []) (b'b' ∷ []) ≡ some (true, b'))
    × IsBatch 16 0 0 b'
    × (view b' ≡ record_text 1 1 (b'a' ∷ []) (b'b' ∷ []))
    × (b'.out.wrote ≡ fast.wrote)
dump_record-view_example =
    dump_record-view 16 0 1 1 (b'a' ∷ []) (b'b' ∷ []) empty_batch (omega arith) (omega arith)
      (omega arith) (omega arith) refl refl
      (record {
        sized = omega arith;
        numbers = omega arith;
        pieces = omega arith;
        low = omega arith;
        ends = tt;
      })
      fast_takes
