-- ===== src/Tables/Tdt.antt =====
-- The time and date table: `TdtTable` of tables.h and parseTdtTable of tables_parser.c.
-- The source computes the date in doubles. The model scales each quotient to integers; at every
-- 16-bit MJD the doubles truncate to the same integers.
pub mod Typed
pub mod Dates
pub mod Calendar
pub mod Tests
use ppu_tvi_os.Common.{
  ℕ, ◌+◌, ◌-◌, ◌*◌, ◌/◌, ◌%◌, ◌^◌, Option, none, some, Bool, ◌||◌, leb, ◌==◌, if◌then◌else◌,
}
use ppu_tvi_os.Common.Words.{u8, u16, low_bits, all_16_bits}
use ppu_tvi_os.Common.Outcome.{Outcome, done, fault, out_of_fuel, ◌>>=◌, Pointer, read}
use ppu_tvi_os.Tables.Code.{ParseErrorCode, tables_parse_error, tables_parse_ok}

pub record TdtTable : Type 0 where
  pub table_id : ℕ  -- uint8_t
  pub section_syntax_indicator : ℕ  -- uint8_t
  pub section_length : ℕ  -- uint16_t
  pub mjd : ℕ  -- uint64_t
  pub tmp_year : ℕ  -- uint16_t
  pub year : ℕ  -- uint16_t
  pub tmp_month : ℕ  -- uint16_t
  pub day : ℕ  -- uint16_t
  pub k : ℕ  -- uint8_t

-- `(uint16_t) (int) ((a - b) / d)` of doubles, at a common scale: the conversion to int truncates
-- towards zero, the one to uint16_t wraps.
unfoldable pub truncate_16 : ℕ → ℕ → ℕ → ℕ
truncate_16 a b d = if leb b a then u16 ((a - b) / d) else (65536 - u16 ((b - a) / d)) % 65536

-- `(int) (years * 365.25)` and `(int) (months * 30.6001)`
abbrev pub days_of_years : ℕ → ℕ
days_of_years years = years * 36525 / 100

abbrev pub days_of_months : ℕ → ℕ
days_of_months months = months * 306001 / 10000

-- The first assignments to tmpYear and tmpMonth.
unfoldable pub estimate_year : ℕ → ℕ
unfolding truncate_16
estimate_year mjd = truncate_16 (100 * mjd) 1507820 36525

unfoldable pub estimate_month : ℕ → ℕ → ℕ
unfolding truncate_16
estimate_month mjd year = truncate_16 (10000 * mjd) (149561000 + 10000 * days_of_years year) 306001

unfoldable pub carry_of : ℕ → ℕ
carry_of month = if month == 14 || month == 15 then 1 else 0

-- The rest of parseTdtTable, from the test for months 14 and 15 on.
unfoldable pub finish_date : TdtTable → ℕ → ℕ → TdtTable
unfolding carry_of
finish_date t year0 month0 =
    let carry = carry_of month0 in
    let year1 = u16 (year0 + carry) in
    let month1 = u16 (month0 + 65536 - 1 - carry * 12) in
    let day1 =
      u16 ((t.mjd + 2 ^ 64 - 14987 - days_of_years year1 - days_of_months month1) % 2 ^ 64) in
    record t {
      tmp_year = year1;
      tmp_month = month1;
      k = carry;
      day = day1;
      year = u16 (year1 + 1900);
    }

-- From the first assignment of tmpYear to the end: `t` holds the MJD already.
unfoldable pub convert_date : TdtTable → TdtTable
unfolding estimate_year estimate_month finish_date
convert_date t = let year0 = estimate_year t.mjd in finish_date t year0 (estimate_month t.mjd year0)

-- parseTdtTable behind its test for NULL.
unfoldable pub fill_tdt_table : Pointer → TdtTable → Outcome (ParseErrorCode × Option TdtTable)
unfolding convert_date
fill_tdt_table p t = do
  b0 ← read p 0
  b1 ← read p 1
  b2 ← read p 2
  b3 ← read p 3
  b4 ← read p 4
  done (
    tables_parse_ok,
    some (
        convert_date (record t {
          table_id = b0;
          section_length = low_bits (all_16_bits b1 b2) 12;
          mjd = all_16_bits b3 b4;
        })),
  )

unfoldable pub parse_tdt_table :
    Option Pointer → Option TdtTable → Outcome (ParseErrorCode × Option TdtTable)
unfolding fill_tdt_table
parse_tdt_table (some p) (some t) = fill_tdt_table p t
parse_tdt_table _ t = done (tables_parse_error, t)
