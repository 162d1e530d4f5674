-- ===== src/Tables/Print/Tests.antt =====
-- Sections that are parsed and printed, as concrete data (tables_parser.c).
use ppu_tvi_os.Common.{◌≡◌, refl, some, arith}
use ppu_tvi_os.Common.Outcome.{Pointer, start_of, Returns, done}
use ppu_tvi_os.Tables.Zeroed.{no_pat, no_pmt}
use ppu_tvi_os.Tables.Code.{tables_parse_ok}
use ppu_tvi_os.Tables.Pat.{PatTable, parse_pat_table}
use ppu_tvi_os.Tables.Pat.Layout.{encode_pat}
use ppu_tvi_os.Tables.Pat.Tests.{two_services, pat_header, crc}
use ppu_tvi_os.Tables.Pmt.{PmtTable, parse_pmt_table}
use ppu_tvi_os.Tables.Pmt.Tests.{pmt_section, no_pmt-IsValid}
use ppu_tvi_os.Tables.Print.{print_pat_table, print_pmt_table}
use ppu_tvi_os.Tables.Print.Services.{pat_lines, print_pat_table-parsed}
use ppu_tvi_os.Tables.Print.Elements.{pmt_lines, print_pmt_table-parsed}

abbrev pat_section : Pointer
pat_section = start_of (encode_pat (pat_header 17) two_services crc)

print_pat_table-parsed_example : Returns (parse_pat_table (some pat_section) (some no_pat)) (λ r.
    (t' : PatTable) × (r.1 ≡ some t')
    × (print_pat_table r.1 ≡ done (tables_parse_ok, pat_lines t')))
print_pat_table-parsed_example =
    print_pat_table-parsed pat_section no_pat
      (record { size = refl; within = omega arith; short = omega arith }) (omega arith)
      (omega arith)

print_pmt_table-parsed_example :
    Returns (parse_pmt_table (some (start_of pmt_section)) (some no_pmt)) (λ r.
      (t' : PmtTable) × (r.1 ≡ some t')
      × (print_pmt_table r.1 ≡ done (tables_parse_ok, pmt_lines t')))
print_pmt_table-parsed_example =
    print_pmt_table-parsed (start_of pmt_section) no_pmt no_pmt-IsValid (omega arith) (omega arith)
