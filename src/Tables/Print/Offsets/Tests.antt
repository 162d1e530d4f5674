-- ===== src/Tables/Print/Offsets/Tests.antt =====
-- A time offset section that is parsed and printed, as concrete data (tables_parser.c).
use ppu_tvi_os.Common.{◌≡◌, some, []}
use ppu_tvi_os.Common.Outcome.{done, start_of}
use ppu_tvi_os.Tables.Zeroed.{no_tot}
use ppu_tvi_os.Tables.Zeroed.Typed.{no_tot-IsTyped}
use ppu_tvi_os.Tables.Code.{tables_parse_ok}
use ppu_tvi_os.Tables.Tot.Layout.{encode_tot}
use ppu_tvi_os.Tables.Tot.Tests.{regions, front, parsed_tot, tot_section-parsed}
use ppu_tvi_os.Tables.Print.Offsets.{print_tot_table}
use ppu_tvi_os.Tables.Print.Offsets.Bounds.{tot_lines, print_tot_table-parsed}

print_tot_table-parsed_example :
    print_tot_table (some parsed_tot) ≡ done (tables_parse_ok, tot_lines parsed_tot)
print_tot_table-parsed_example =
    print_tot_table-parsed (start_of (encode_tot front regions [])) no_tot parsed_tot
      tables_parse_ok no_tot-IsTyped tot_section-parsed
