-- ===== src/Tables/Print.antt =====
-- printPatTable, printPmtTable, printTdtTable and printTotTable of tables_parser.c. What a call of
-- printf prints is its format and its arguments; a run gives them in order.
pub mod Offsets
pub mod Rows
pub mod Services
pub mod Elements
mod Tests
use ppu_tvi_os.Common.{
  ℕ, zero, suc, ◌+◌, ◌==◌, if◌then◌else◌, Option, none, some, List, [], ◌∷◌, ◌++◌, codes,
}
use ppu_tvi_os.Common.Outcome.{Outcome, done, ◌>>=◌, element}
use ppu_tvi_os.Tables.Code.{ParseErrorCode, tables_parse_error, tables_parse_ok}
use ppu_tvi_os.Tables.Pat.{PatHeader, PatServiceInfo, PatTable}
use ppu_tvi_os.Tables.Pmt.{PmtTableHeader, PmtElementaryInfo, PmtTable}
use ppu_tvi_os.Tables.Tdt.{TdtTable}
use ppu_tvi_os.Tables.Tot.{LtoDescriptorInfo, LocalTimeOffsetDescriptor, TotTable}

pub record Line : Type 0 where
  pub format : List ℕ
  pub arguments : List ℕ

-- `for (i = …; left > 0; i++)`: what each element prints, in order; an access behind the array is a
-- fault.
unfoldable pub print_rows {ℓ} :
    {A : Type ℓ} → (ℕ → A → Outcome (List Line)) → ℕ → ℕ → List A → Outcome (List Line)
print_rows row zero i array = done []
print_rows row (suc left) i array = do
  x ← element array i
  lines ← row i x
  rest ← print_rows row left (suc i) array
  done (lines ++ rest)

abbrev pub no_table : List Line
no_table =
    record { format = codes "\n%s : ERROR received parameter is not ok\n"; arguments = [] } ∷ []

abbrev pub pat_title : List Line
pat_title =
    record {
      format = codes "\n********************PAT TABLE SECTION********************\n";
      arguments = [];
    }
    ∷ []

abbrev pub pat_header_lines : PatHeader → List Line
pat_header_lines h =
    record { format = codes "table_id                 |      %d\n"; arguments = h.table_id ∷ [] }
    ∷ record {
      format = codes "section_length           |      %d\n";
      arguments = h.section_length ∷ [];
    }
    ∷ record {
      format = codes "transport_stream_id      |      %d\n";
      arguments = h.transport_stream_id ∷ [];
    }
    ∷ record {
      format = codes "section_number           |      %d\n";
      arguments = h.section_number ∷ [];
    }
    ∷ record {
      format = codes "last_section_number      |      %d\n";
      arguments = h.last_section_number ∷ [];
    }
    ∷ []

abbrev pub rule : Line
rule = record { format = codes "-----------------------------------------\n"; arguments = [] }

abbrev pub service_lines : PatServiceInfo → List Line
service_lines s =
    rule
    ∷ record {
      format = codes "program_number           |      %d\n";
      arguments = s.program_number ∷ [];
    }
    ∷ record { format = codes "pid                      |      %d\n"; arguments = s.pid ∷ [] }
    ∷ []

unfoldable pub print_pat_table : Option PatTable → Outcome (ParseErrorCode × List Line)
unfolding print_rows
print_pat_table none = done (tables_parse_error, no_table)
print_pat_table (some t) = do
  rows ← print_rows (λ i s. done (service_lines s)) t.service_info_count 0 t.pat_service_info_array
  done (tables_parse_ok, pat_title ++ pat_header_lines t.pat_header ++ rows ++ pat_title)

abbrev pub pmt_title : List Line
pmt_title =
    record {
      format = codes "\n********************PMT TABLE SECTION********************\n";
      arguments = [];
    }
    ∷ []

abbrev pub pmt_header_lines : PmtTableHeader → List Line
pmt_header_lines h =
    record { format = codes "table_id                 |      %d\n"; arguments = h.table_id ∷ [] }
    ∷ record {
      format = codes "section_length           |      %d\n";
      arguments = h.section_length ∷ [];
    }
    ∷ record {
      format = codes "program_number           |      %d\n";
      arguments = h.program_number ∷ [];
    }
    ∷ record {
      format = codes "section_number           |      %d\n";
      arguments = h.section_number ∷ [];
    }
    ∷ record {
      format = codes "last_section_number      |      %d\n";
      arguments = h.last_section_number ∷ [];
    }
    ∷ record {
      format = codes "program_info_legth       |      %d\n";
      arguments = h.program_info_length ∷ [];
    }
    ∷ []

abbrev pub element_lines : PmtElementaryInfo → List Line
element_lines e =
    rule
    ∷ record {
      format = codes "stream_type              |      %d\n";
      arguments = e.stream_type ∷ [];
    }
    ∷ record {
      format = codes "elementary_pid           |      %d\n";
      arguments = e.elementary_pid ∷ [];
    }
    ∷ []

unfoldable pub print_pmt_table : Option PmtTable → Outcome (ParseErrorCode × List Line)
unfolding print_rows
print_pmt_table none = done (tables_parse_error, no_table)
print_pmt_table (some t) = do
  rows ←
      print_rows (λ i e. done (element_lines e)) t.elementary_info_count 0
        t.pmt_elementary_info_array
  done (tables_parse_ok, pmt_title ++ pmt_header_lines t.pmt_header ++ rows ++ pmt_title)

-- The format of the date by the `switch` on the month; another month prints nothing.
unfoldable pub date_format : ℕ → List (List ℕ)
date_format month =
    if month == 1
    then codes "INFO: Time read from stream: January/%hu/%hu \n" ∷ []
    else if month == 2
    then codes "INFO: Time read from stream: February/%hu/%hu \n" ∷ []
    else if month == 3
    then codes "INFO: Time read from stream: March/%hu/%hu \n" ∷ []
    else if month == 4
    then codes "INFO: Time read from stream: April/%hu/%hu \n" ∷ []
    else if month == 5
    then codes "INFO: Time read from stream: May/%hu/%hu \n" ∷ []
    else if month == 6
    then codes "INFO: Time read from stream: June/%hu/%hu \n" ∷ []
    else if month == 7
    then codes "INFO: Time read from stream: July/%hu/%hu \n" ∷ []
    else if month == 8
    then codes "INFO: Time read from stream: August/%hu/%hu \n" ∷ []
    else if month == 9
    then codes "INFO: Time read from stream: September/%hu/%hu \n" ∷ []
    else if month == 10
    then codes "INFO: Time read from stream: October/%hu/%hu \n" ∷ []
    else if month == 11
    then codes "INFO: Time read from stream: November/%hu/%hu \n" ∷ []
    else if month == 12
    then codes "INFO: Time read from stream: December/%hu/%hu \n" ∷ []
    else []

abbrev pub date_lines : List (List ℕ) → TdtTable → List Line
date_lines [] t = []
date_lines (format ∷ _) t = record { format = format; arguments = t.day ∷ t.year ∷ [] } ∷ []

abbrev pub tdt_title : List Line
tdt_title =
    record {
      format = codes "\n********************TDT TABLE SECTION********************\n";
      arguments = [];
    }
    ∷ []

unfoldable pub print_tdt_table : Option TdtTable → ParseErrorCode × List Line
unfolding date_format
print_tdt_table none = (tables_parse_error, no_table)
print_tdt_table (some t) = (
  tables_parse_ok,
  tdt_title
      ++ (record {
        format = codes "table_id                 |      %d\n";
        arguments = t.table_id ∷ [];
      }
          ∷ record {
            format = codes "section_length           |      %d\n";
            arguments = t.section_length ∷ [];
          }
          ∷ record { format = codes "MJD code                 |      %d\n"; arguments = t.mjd ∷ [] }
          ∷ [])
      ++ date_lines (date_format t.tmp_month) t
      ++ tdt_title,
)
