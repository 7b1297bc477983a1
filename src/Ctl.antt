-- ===== src/Ctl.antt =====
-- mcdbctl.c: the command line over the reader and the writer. Standard output is a list of bytes, and
-- the calls that write take their results from a sequence.
pub mod Output
pub mod Dump
pub mod Get
pub mod Stats
pub mod Unique
pub mod Args
pub mod Main
