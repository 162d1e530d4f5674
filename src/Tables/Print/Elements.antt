-- ===== src/Tables/Print/Elements.antt =====
-- printPmtTable behind parsePmtTable (tables_parser.c).
use ppu_tvi_os.Common.{◌+◌, ◌≡◌, refl, some, List, ◌++◌, arith, take}
use ppu_tvi_os.Common.Outcome.{done, Pointer, Readable, Returns}
use ppu_tvi_os.Tables.Code.{tables_parse_ok}
use ppu_tvi_os.Tables.Pmt.{PmtTable, parse_pmt_table}
use ppu_tvi_os.Tables.Pmt.Bounds.{IsValid, section_length_at, parse_pmt_table-Returns}
use ppu_tvi_os.Tables.Print.{Line, pmt_title, pmt_header_lines, element_lines, print_pmt_table}
use ppu_tvi_os.Tables.Print.Rows.{all_lines, print_rows-all_lines}

-- The text of a PMT: its header, and each of its elements in order.
abbrev pub pmt_lines : PmtTable → List Line
pmt_lines t =
    pmt_title
    ++ pmt_header_lines t.pmt_header
    ++ all_lines element_lines (take t.elementary_info_count t.pmt_elementary_info_array)
    ++ pmt_title

-- Whatever section parsePmtTable has been given, accepted or not, printPmtTable prints the table that
-- it leaves without an access behind the array: the header, and the elements that are counted, in
-- order. The buffer holds a header and the whole section, and the table was valid before.
pub print_pmt_table-parsed :
    (p : Pointer) (t : PmtTable)
    → IsValid t
    → Readable p 12
    → Readable p (section_length_at p + 3)
    → Returns (parse_pmt_table (some p) (some t)) (λ r.
      (t' : PmtTable) × (r.1 ≡ some t')
      × (print_pmt_table r.1 ≡ done (tables_parse_ok, pmt_lines t')))
unfolding print_pmt_table
print_pmt_table-parsed p t v head section =
    let (r, ran, parsed) = parse_pmt_table-Returns p t v head section in
    let (t', there, v', verdict) = parsed in
    let rows =
      print_rows-all_lines element_lines t'.elementary_info_count t'.pmt_elementary_info_array
        (omega (arith, v'.size, v'.within)) in
    (r, ran, (t', there, rw there (rw rows refl)))
