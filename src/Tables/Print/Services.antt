-- ===== src/Tables/Print/Services.antt =====
-- printPatTable behind parsePatTable (tables_parser.c).
use ppu_tvi_os.Common.{◌+◌, ◌≡◌, refl, some, List, ◌++◌, arith, take}
use ppu_tvi_os.Common.Outcome.{done, Pointer, Readable, Returns}
use ppu_tvi_os.Tables.Code.{tables_parse_ok}
use ppu_tvi_os.Tables.Pat.{PatTable, parse_pat_table}
use ppu_tvi_os.Tables.Pat.Loop.{IsValid}
use ppu_tvi_os.Tables.Pat.Bounds.{section_length_at, parse_pat_table-Returns}
use ppu_tvi_os.Tables.Print.{Line, pat_title, pat_header_lines, service_lines, print_pat_table}
use ppu_tvi_os.Tables.Print.Rows.{all_lines, print_rows-all_lines}

-- The text of a PAT: its header, and each of its services in order.
abbrev pub pat_lines : PatTable → List Line
pat_lines t =
    pat_title
    ++ pat_header_lines t.pat_header
    ++ all_lines service_lines (take t.service_info_count t.pat_service_info_array)
    ++ pat_title

-- Whatever section parsePatTable has been given, accepted or not, printPatTable prints the table that
-- it leaves without an access behind the array: the header, and the services that are counted, in
-- order. The buffer holds a header and the whole section, and the table was valid before.
pub print_pat_table-parsed :
    (p : Pointer) (t : PatTable)
    → IsValid t
    → Readable p 8
    → Readable p (section_length_at p + 3)
    → Returns (parse_pat_table (some p) (some t)) (λ r.
      (t' : PatTable) × (r.1 ≡ some t')
      × (print_pat_table r.1 ≡ done (tables_parse_ok, pat_lines t')))
unfolding print_pat_table
print_pat_table-parsed p t v head section =
    let (r, ran, parsed) = parse_pat_table-Returns p t v head section in
    let (t', there, v', verdict) = parsed in
    let rows =
      print_rows-all_lines service_lines t'.service_info_count t'.pat_service_info_array
        (omega (arith, v'.size, v'.within)) in
    (r, ran, (t', there, rw there (rw rows refl)))
