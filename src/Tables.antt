-- ===== src/Tables.antt =====
-- tables.h and tables_parser.c: the tables of an MPEG-2 transport stream.
pub mod Code
pub mod Pat
pub mod Pmt
pub mod Tdt
pub mod Tot
pub mod Zeroed
pub mod Print
