-- ===== src/Parse.antt =====
-- src/parse.h and src/parse.c: the lines of one source file, from the query's matches.
pub mod Text
pub mod Match
pub mod File
