-- ===== src/Tables/Tdt/Typed.antt =====
-- What parseTdtTable stores lies in the ranges of its fields, on any buffer (tables_parser.c).
use ppu_tvi_os.Common.{ℕ, ◌<◌, ◌≤◌, Option, none, some, arith}
use ppu_tvi_os.Common.Words.{low_bits, all_16_bits}
use ppu_tvi_os.Common.Outcome.{Pointer, read}
use ppu_tvi_os.Common.Always.{Always, >>=-Always, >>=-Always_any, read-Always, Holds}
use ppu_tvi_os.Tables.Code.{Out}
use ppu_tvi_os.Tables.Tdt.{
  TdtTable, carry_of, estimate_year, estimate_month, finish_date, convert_date, fill_tdt_table,
  parse_tdt_table,
}

pub record IsTyped (t : TdtTable) : Type 0 where
  pub table_id : t.table_id < 256
  pub section_syntax_indicator : t.section_syntax_indicator < 256
  pub section_length : t.section_length < 4096
  pub mjd : t.mjd < 65536
  pub tmp_year : t.tmp_year < 65536
  pub year : t.year < 65536
  pub tmp_month : t.tmp_month < 65536
  pub day : t.day < 65536
  pub k : t.k ≤ 1

carry-le : (month : ℕ) → carry_of month ≤ 1
unfolding carry_of
carry-le month = ground arith

convert_date-IsTyped :
    (t : TdtTable)
    → t.table_id < 256
    → t.section_syntax_indicator < 256
    → t.section_length < 4096
    → t.mjd < 65536
    → IsTyped (convert_date t)
unfolding convert_date finish_date
convert_date-IsTyped t id syntax len day = record {
  table_id = id;
  section_syntax_indicator = syntax;
  section_length = len;
  mjd = day;
  tmp_year = omega arith;
  year = omega arith;
  tmp_month = omega arith;
  day = omega arith;
  k = carry-le (estimate_month t.mjd (estimate_year t.mjd));
}

-- Whatever the buffer holds, if parseTdtTable returns, the table has every field in its range.
pub parse_tdt_table-IsTyped :
    (p : Option Pointer) (o : Option TdtTable)
    → Holds IsTyped o
    → Always (Out IsTyped) (parse_tdt_table p o)
unfolding parse_tdt_table fill_tdt_table
parse_tdt_table-IsTyped none none v = tt
parse_tdt_table-IsTyped none (some t) v = v
parse_tdt_table-IsTyped (some p) none v = tt
parse_tdt_table-IsTyped (some p) (some t) v =
    >>=-Always (λ b. b < 256) (Out IsTyped) (read p 0) _ (read-Always p 0)
      λ b0 byte0. >>=-Always_any (Out IsTyped) (read p 1) _ λ b1.
        >>=-Always_any (Out IsTyped) (read p 2) _ λ b2.
          >>=-Always_any (Out IsTyped) (read p 3) _ λ b3.
            >>=-Always_any (Out IsTyped) (read p 4) _ λ b4.
              convert_date-IsTyped
                (record t {
                  table_id = b0;
                  section_length = low_bits (all_16_bits b1 b2) 12;
                  mjd = all_16_bits b3 b4;
                })
                byte0 v.section_syntax_indicator (omega arith) (omega arith)
