-- ===== src/Ctl/Main.antt =====
-- main of mcdbctl.c: the subcommands make, uniq, get, dump and stats.
use mcdb.Base.{ℕ, List, [], ◌∷◌, Bool, true, false, Option, none, some}
use mcdb.Base.{if◌then◌else◌}
use mcdb.Base.Memory.{Memory}
use mcdb.Plasma.{Plasma}
use mcdb.Mcdb.{Mmap, Mcdb}
use mcdb.Mcdb.Open.{mcdb_mmap_init}
use mcdb.Mcdb.Life.{Answer, Handle, mcdb_mmap_create, mcdb_mmap_destroy}
use mcdb.Makefn.{Makefn}
use mcdb.Makefmt.Files.{Answers, InputFile, mcdb_makefmt_fdintofile, mcdb_makefmt_fileintofile}
use mcdb.Makefmt.Records.{Status, success, error_readformat, error_read, error_malloc}
use mcdb.Report.{Message, nothing, status, error_usage, mcdb_error}
use mcdb.Ctl.Args.{
  QueryType, get, getall, dump, stats, query_type, str_eq, make_word, uniq_word, first_word,
  last_word,
}
use mcdb.Ctl.Output.{Stdout}
use mcdb.Ctl.Dump.{mcdbctl_dump}
use mcdb.Ctl.Get.{Reply, not_found, answer, mcdbctl_getseq, mcdbctl_getall}
use mcdb.Ctl.Stats.{Stats, mcdbctl_stats}
use mcdb.Ctl.Unique.{
  unique, repeated, bad_format, mcdbctl_has_unique_keys, mcdbctl_make_unique_keys,
}

-- What a run of the program has from the system: the bounds on its loops over records, over the
-- records of one key and over the calls of writev, IOV_MAX and the page size, standard input, the
-- database, the text, the temporary file and the calls on it, and malloc's success for the buffer.
pub record System : Type 0 where
  pub records : ℕ
  pub tries : ℕ
  pub calls : ℕ
  pub iovnum : ℕ
  pub pagesize : ℕ
  pub reads : ℕ → Option (List ℕ)
  pub buffer : Bool
  pub struct_got : Bool
  pub name_long : Bool
  pub name_got : Bool
  pub database : Answer
  pub text : InputFile
  pub text_mem : Memory
  pub text_size : ℕ
  pub temp : Answers
  pub temp_mem : Memory
  pub fails : ℕ → Bool

-- What a run leaves: the return value, standard output, the counts that stats prints, and the
-- temporary file and the map that mcdb_mmap_create opened, if there were any. The map of a query is
-- a local variable, of which mcdb_mmap_free only gives the mapping back.
pub record Done : Type 0 where
  pub reply : Reply
  pub out : Stdout
  pub counts : Option Stats
  pub file : Option Makefn
  pub handle : Option Handle

abbrev replies : Reply → Stdout → Done
replies r out = record { reply = r; out = out; counts = none; file = none; handle = none }

abbrev fails_with : Status → Stdout → Done
fails_with s out = replies (answer (status s)) out

-- memset(&m, 0, sizeof(m)); m.map = &map
abbrev pub handle_of : Mmap → Mcdb
handle_of map = record {
  map = map;
  loop = 0;
  hslots = 0;
  kpos = 0;
  hpos = 0;
  dpos = 0;
  dlen = 0;
  klen = 0;
  khash = 0;
}

module _ ⦃plasma : Plasma⦄ where
  -- switch (query_type)
  unfoldable pub run_query : System → Stdout → Mcdb → QueryType → Option Done
  run_query sys out m (get key seq) = elim (mcdbctl_getseq sys.calls out m key seq) [
    | none ↦ none
    | some (r, out₁) ↦ some (replies r out₁)
  ]
  run_query sys out m (getall key) = elim (mcdbctl_getall sys.tries sys.calls out m key) [
    | none ↦ none
    | some (r, out₁) ↦ some (replies r out₁)
  ]
  run_query sys out m dump = elim (mcdbctl_dump sys.records sys.iovnum sys.calls out m) [
    | none ↦ none
    | some (rv, out₁) ↦ some (replies (answer rv) out₁)
  ]
  run_query sys out m stats = elim (mcdbctl_stats sys.records sys.tries m) [
    | none ↦ none
    | some counts ↦ elim counts [
      | none ↦ some (fails_with error_readformat out)
      | some c ↦ some (record (fails_with success out) { counts = some c })
    ]
  ]

  unfoldable pub mcdbctl_query : System → Stdout → List (List ℕ) → Option Done
  unfolding run_query query_type
  mcdbctl_query sys out args =
      let a = sys.database in
      elim (query_type args) [
        | none ↦ some (replies (answer error_usage) out)
        | some q ↦ elim a.opened [
          | false ↦ some (fails_with error_read out)
          | true ↦ elim (mcdb_mmap_init a.sys a.mem a.size) [
            | none ↦ some (fails_with error_read out)
            | some map ↦ run_query sys out (handle_of map) q
          ]
        ]
      ]

  -- The text of the argument, or standard input for "-", through a buffer of 64 KB.
  unfoldable pub mcdbctl_make : System → Stdout → List ℕ → Option Done
  unfolding str_eq
  mcdbctl_make sys out input =
      let from_input =
        mcdb_makefmt_fdintofile sys.temp sys.records true sys.reads (λ i. 0) 65536 sys.temp_mem
          sys.pagesize sys.fails in
      let from_text = mcdb_makefmt_fileintofile sys.text (
        mcdb_makefmt_fdintofile sys.temp sys.records false (λ k. none) sys.text_mem sys.text_size
          sys.temp_mem sys.pagesize sys.fails) in
      elim (str_eq input (b'-' ∷ [])) [
        | true ↦ elim sys.buffer [
          | false ↦ some (fails_with error_malloc out)
          | true ↦ elim from_input [
            | none ↦ none
            | some (s, mf) ↦ some (record (fails_with s out) { file = some mf })
          ]
        ]
        | false ↦ elim from_text [
          | none ↦ none
          | some (s, mf, maps, fds) ↦ some (record (fails_with s out) { file = mf })
        ]
      ]

  -- mcdbctl_uniq, where `first` is what argv[3] says.
  unfoldable pub uniq_keys : System → Stdout → Bool → Mcdb → Option Done
  uniq_keys sys out first m = elim (mcdbctl_has_unique_keys sys.records m) [
    | none ↦ none
    | some u ↦ elim u [
      | unique ↦ some (fails_with success out)
      | bad_format ↦ some (fails_with error_readformat out)
      | repeated ↦
          elim (mcdbctl_make_unique_keys sys.records sys.tries sys.temp sys.temp_mem sys.pagesize
            sys.fails first m) [
              | none ↦ none
              | some (s, mf, mk) ↦ some (record (fails_with s out) { file = some mf })
            ]
    ]
  ]

  unfoldable pub mcdbctl_uniq : System → Stdout → Option (List ℕ) → Option Done
  unfolding uniq_keys str_eq
  mcdbctl_uniq sys out order =
      let first : Option Bool = elim order [
        | none ↦ some true
        | some word ↦
            if str_eq word first_word
            then some true
            else if str_eq word last_word
            then some false
            else none
      ] in
      let (created, h) =
        mcdb_mmap_create false sys.struct_got none sys.name_long sys.name_got sys.database in
      elim first [
        | none ↦ some (replies (answer error_usage) out)
        | some f ↦ elim created [
          | false ↦ some (fails_with error_read out)
          | true ↦ elim h.map [
            | none ↦ some (fails_with error_read out)
            | some map ↦ elim (uniq_keys sys out f (handle_of map)) [
              | none ↦ none
              | some done ↦ some (record done { handle = some (mcdb_mmap_destroy h) })
            ]
          ]
        ]
      ]

  -- The subcommand, by argv[1] and on.
  unfoldable pub run_args : System → Stdout → List (List ℕ) → Option Done
  unfolding mcdbctl_make mcdbctl_uniq mcdbctl_query
  run_args sys out (word ∷ fname ∷ third ∷ []) =
      if str_eq word make_word
      then mcdbctl_make sys out third
      else if str_eq word uniq_word
      then mcdbctl_uniq sys out (some third)
      else mcdbctl_query sys out (word ∷ fname ∷ third ∷ [])
  run_args sys out (word ∷ fname ∷ []) =
      if str_eq word uniq_word
      then mcdbctl_uniq sys out none
      else mcdbctl_query sys out (word ∷ fname ∷ [])
  run_args sys out args = mcdbctl_query sys out args

  -- The message and the exit status; a key that is not found exits with 100 and no message.
  abbrev exit_of : Reply → Message × ℕ
  exit_of r = elim r [ not_found ↦ (nothing, 100) | answer rv ↦ mcdb_error rv ]

  unfoldable pub main : System → Stdout → List (List ℕ) → Option (Message × ℕ × Done)
  unfolding run_args
  main sys out args = elim (run_args sys out args) [
    | none ↦ none
    | some done ↦ let (message, code) = exit_of done.reply in some (message, code, done)
  ]
