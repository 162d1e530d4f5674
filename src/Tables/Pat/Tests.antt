-- ===== src/Tables/Pat/Tests.antt =====
-- Program association sections, as concrete data (tables_parser.c).
use ppu_tvi_os.Tables.Zeroed.{no_pat, no_pat_header}
use ppu_tvi_os.Common.{ℕ, List, [], ◌∷◌, some, arith, refl, ◌≡◌}
use ppu_tvi_os.Common.Outcome.{Pointer, start_of, Returns}
use ppu_tvi_os.Tables.Code.{tables_parse_ok}
use ppu_tvi_os.Tables.Pat.{PatHeader, PatServiceInfo, PatTable, parse_pat_table}
use ppu_tvi_os.Tables.Pat.Bounds.{Parsed, parse_pat_table-Returns}
use ppu_tvi_os.Tables.Pat.Layout.{Holds, encode_pat, parse_pat_table-encode_pat}

abbrev pub two_services : List PatServiceInfo
two_services =
    record { program_number = 0; pid = 16 } ∷ record { program_number = 258; pid = 4660 } ∷ []

abbrev pub pat_header : ℕ → PatHeader
pat_header section_length = record no_pat_header {
  section_syntax_indicator = 1;
  section_length = section_length;
  transport_stream_id = 1000;
  version_number = 7;
  current_next_indicator = 1;
}

abbrev pub crc : List ℕ
crc = 1 ∷ 2 ∷ 3 ∷ 4 ∷ []

parse_pat_table-encode_pat_example :
    Returns
      (parse_pat_table
        (some (start_of (encode_pat (pat_header 17) two_services crc)))
        (some no_pat))
      (λ r.
        (r.0 ≡ tables_parse_ok)
        × (t' : PatTable) × (r.1 ≡ some t')
        × Holds no_pat t' (pat_header 17) two_services)
parse_pat_table-encode_pat_example =
    parse_pat_table-encode_pat (pat_header 17) two_services crc no_pat
      (record {
        table_id = refl;
        section_syntax_indicator = omega arith;
        section_length = omega arith;
        transport_stream_id = omega arith;
        version_number = omega arith;
        current_next_indicator = omega arith;
        section_number = omega arith;
        last_section_number = omega arith;
      })
      (
        record { program_number = omega arith; pid = omega arith },
        (record { program_number = omega arith; pid = omega arith }, tt),
      )
      (omega arith) refl refl refl

-- A section whose length field says one byte more than two services take: three are read.
abbrev cut_section : Pointer
cut_section = start_of (encode_pat (pat_header 18) two_services (0 ∷ crc))

parse_pat_table-Returns_example :
    Returns (parse_pat_table (some cut_section) (some no_pat)) (Parsed cut_section)
parse_pat_table-Returns_example =
    parse_pat_table-Returns cut_section no_pat
      (record { size = refl; within = omega arith; short = omega arith }) (omega arith)
      (omega arith)
