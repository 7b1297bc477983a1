-- ===== src/Lib.antt =====
-- mcdb: a constant database, written once and then looked up through a memory map.
--
-- A file has a header of 256 entries, the records (two lengths, key, data), padding to a multiple of
-- 16 that is filled with ones, and for each of the 256 values of the low byte of a key's hash a hash
-- table with open addressing, which the header's entry locates. The writer (mcdb_make.c) appends
-- records through a window of the file that it maps, and keeps for each slot lists of where its
-- records begin; mcdb_make_finish then writes the tables and the header. The reader (mcdb.c) maps
-- the file, and a search walks the table of the key's slot from the home of the hash on. uint32.h and
-- uint32.c have the hash, the byte order and the number texts that both use.
--
-- Which file models what (definitions keep the names of the source):
--   Base                  numbers of a width, lists, bits, masks, a memory of bytes
--   Plasma                the byte-order macros of the plasma submodule: a parameter, with laws
--   Uint32                uint32.h, uint32.c: unpacking, djb hash, hexadecimal and decimal texts
--   Mcdb                  mcdb.h, mcdb.c: struct mcdb_mmap and struct mcdb; Mcdb.Open mcdb_mmap_init,
--                         Mcdb.Life mcdb_mmap_create to mcdb_mmap_destroy,
--                         Mcdb.Find mcdb_findtagstart and mcdb_findtagnext, Mcdb.Iter mcdb_iter,
--                         Mcdb.Slots mcdb_numrecs and mcdb_validate_slots, Mcdb.Registry
--                         mcdb_mmap_thread_registration and mcdb_mmap_reopen_threadsafe
--   Make                  mcdb_make.h, mcdb_make.c: struct mcdb_make; Make.Hplist the lists,
--                         Make.Upsize mcdb_mmap_upsize, Make.Fallocate mcdb_make_fallocate,
--                         Make.Add the calls that add a record,
--                         Make.Start mcdb_make_start and mcdb_make_destroy, Make.Finish
--                         mcdb_make_finish and mcdb_mmap_commit
--   Makefmt               mcdb_makefmt.c: numbers, preambles and records as text; Makefmt.Files
--                         mcdb_makefmt_fdintofile and mcdb_makefmt_fileintofile
--   Makefn                mcdb_makefn.c: the temporary file that takes the database's place
--   Nointr                nointr.c: nointr_write
--   Ctl                   mcdbctl.c: Ctl.Output writev_loop, Ctl.Dump, Ctl.Get, Ctl.Stats and
--                         Ctl.Unique the subcommands, Ctl.Args the arguments, Ctl.Main main
--   Nss                   nss: Nss.Passwd users and Nss.Grouplist the groups of a user, as
--                         nss_mcdb_acct_make.c encodes and nss_mcdb_acct.c decodes them,
--                         Nss.Groupmem the groups of each member, Nss.Write
--                         nss_mcdb_make_mcdbctl_write of nss_mcdb_make.c, Nss.Session the
--                         sessions and queries of nss_mcdb.c
--   Report                mcdb_error.c: messages and the exit status
--   Table                 open addressing over any entries: the specification that the loops of
--                         mcdb_make_finish and mcdb_findtagnext refine
--   Make.Valid and below  when the writer's state is in order, and what the calls do to it
--   Lookup                the reader over the writer's file: searches, and Lookup.Sequence the
--                         records in order
--   Tests                 runs on small inputs
--
-- Numbers are those of a 64-bit build, with their wrap-around written out. A pointer into the map is
-- a position in the file; the file is a function from positions to bytes. A call of the system
-- (mmap, msync, fallocate, ftruncate, write, malloc) takes its success from a sequence that is an
-- argument of the model, so that every theorem holds for every pattern of failures; errno keeps the
-- values that the code sets itself. A write outside the mapping is recorded in `faulted`, and so is
-- the read of lists that nothing has set, when mcdb_make_start gives up after malloc.
--
-- Loops: mcdb_findtagnext gets fuel hslots + 1, enough since each round but the last counts `loop`
-- up to hslots; the search for an empty slot gets the table's length, enough since a table has
-- twice as many slots as records and, up to 2 ^ 32 bytes (`Unwrapped`), every store goes where the
-- search ended: in a larger table the code's `u<<3` and `u<<4` wrap at 32 bits, and so do the
-- model's. The loops over the lines of a text input and over the calls of nointr_write, over
-- records and output in mcdbctl.c, and the loop of nss_mcdb_getent get their fuel as an argument.
--
-- Not modelled: the names and modes of files
-- (mcdb_makefn.c), the hints on memory pages and the usage text of mcdbctl.c, the text of messages
-- (mcdb_error.c), the restarted calls of nointr.c that a macro of the plasma submodule makes, what is
-- left of the nss modules, bindings and test programs.

pub mod Base
pub mod Plasma
pub mod Uint32
pub mod Mcdb
pub mod Table
pub mod Make
pub mod Makefmt
pub mod Makefn
pub mod Nointr
pub mod Nss
pub mod Report
pub mod Lookup
pub mod Ctl
mod Tests
