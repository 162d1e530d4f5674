-- ===== src/Tables/Print/Offsets/Bounds.antt =====
-- printTotTable behind parseTotTable (tables_parser.c).
use ppu_tvi_os.Common.{ℕ, ◌≡◌, refl, ap, some, List, ◌++◌, arith, take}
use ppu_tvi_os.Common.Outcome.{done, ◌>>=◌, Pointer}
use ppu_tvi_os.Common.Always.{Always-done}
use ppu_tvi_os.Tables.Code.{Out, ParseErrorCode, tables_parse_ok}
use ppu_tvi_os.Tables.Tot.{LocalTimeOffsetDescriptor, TotTable, parse_tot_table}
use ppu_tvi_os.Tables.Tot.Typed.{IsDescriptor, IsTyped, parse_tot_table-IsTyped}
use ppu_tvi_os.Tables.Print.{Line}
use ppu_tvi_os.Tables.Print.Rows.{All-any, numbered, print_rows-numbered}
use ppu_tvi_os.Tables.Print.Offsets.{
  region_lines, descriptor_lines, tot_title, tot_header_lines, print_descriptor, print_tot_table,
}

-- A descriptor with its number and those of its regions.
abbrev pub described : ℕ → LocalTimeOffsetDescriptor → List Line
described i d = descriptor_lines i d ++ numbered region_lines 0 (take d.number_of_infos d.lto_info)

print_descriptor-described :
    (i : ℕ) (d : LocalTimeOffsetDescriptor)
    → IsDescriptor d
    → print_descriptor i d ≡ done (described i d)
unfolding print_descriptor
print_descriptor-described i d v =
    ap (λ m. m >>= λ regions. done (descriptor_lines i d ++ regions))
      (print_rows-numbered (λ r. Unit) (λ j r. done (region_lines j r)) region_lines (λ j r u. refl)
        d.number_of_infos 0 d.lto_info (All-any d.lto_info) (omega (arith, v.size, v.within)))

-- The text of a TOT: its header, and each of its descriptors in order.
abbrev pub tot_lines : TotTable → List Line
tot_lines t =
    tot_title
    ++ tot_header_lines t
    ++ numbered described 0 (take t.descriptors_count t.descriptors)
    ++ tot_title

-- Whatever section parseTotTable has been given: if it returns on a typed table, one with its fields
-- in their ranges and its counts within its arrays, then printTotTable prints the table that it
-- leaves without an access behind an array: the header, the descriptors that are counted, each with
-- the regions that it counts, in order and numbered from 1.
pub print_tot_table-parsed :
    (p : Pointer) (t t' : TotTable) (code : ParseErrorCode)
    → IsTyped t
    → parse_tot_table (some p) (some t) ≡ done (code, some t')
    → print_tot_table (some t') ≡ done (tables_parse_ok, tot_lines t')
unfolding print_tot_table
print_tot_table-parsed p t t' code v ran =
    let v' =
      Always-done (Out IsTyped) (parse_tot_table (some p) (some t)) (code, some t')
        (parse_tot_table-IsTyped (some p) (some t) v) ran in
    ap
      (λ m.
        m >>= λ rows. done (tables_parse_ok, tot_title ++ tot_header_lines t' ++ rows ++ tot_title))
      (print_rows-numbered IsDescriptor print_descriptor described print_descriptor-described
        t'.descriptors_count 0 t'.descriptors v'.descriptors (omega (arith, v'.size, v'.within)))
