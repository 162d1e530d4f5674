-- ===== src/Tables/Print/Offsets.antt =====
-- printTotTable of tables_parser.c.
pub mod Bounds
mod Tests
use ppu_tvi_os.Common.{ℕ, ◌+◌, Option, none, some, List, [], ◌∷◌, ◌++◌, codes}
use ppu_tvi_os.Common.Outcome.{Outcome, done, ◌>>=◌}
use ppu_tvi_os.Tables.Code.{ParseErrorCode, tables_parse_error, tables_parse_ok}
use ppu_tvi_os.Tables.Tot.{LtoDescriptorInfo, LocalTimeOffsetDescriptor, TotTable}
use ppu_tvi_os.Tables.Print.{Line, print_rows, no_table}

abbrev pub tot_title : List Line
tot_title =
    record {
      format = codes "\n********************TOT TABLE SECTION********************\n";
      arguments = [];
    }
    ∷ []

abbrev pub hashes : Line
hashes = record { format = codes "###########################################\n"; arguments = [] }

abbrev pub region_lines : ℕ → LtoDescriptorInfo → List Line
region_lines j r =
    hashes
    ∷ record {
      format = codes "%d. LTO info                              \n";
      arguments = (j + 1) ∷ [];
    }
    ∷ record {
      format = codes "counrty code              |        %.1x%.1x%.1x\n";
      arguments = r.country_ch1 ∷ r.country_ch2 ∷ r.country_ch3 ∷ [];
    }
    ∷ record {
      format = codes "counrty region id         |        %d\n";
      arguments = r.country_region_id ∷ [];
    }
    ∷ record {
      format = codes "localTimeOffsetPolarity   |        %d\n";
      arguments = r.local_time_offset_polarity ∷ [];
    }
    ∷ record {
      format = codes "local time offset         |        %.2d:%.2d\n";
      arguments = r.local_time_offset_hours ∷ r.local_time_offset_minutes ∷ [];
    }
    ∷ hashes
    ∷ []

abbrev pub descriptor_lines : ℕ → LocalTimeOffsetDescriptor → List Line
descriptor_lines i d =
    record { format = codes "\n%d. descriptor:\n"; arguments = (i + 1) ∷ [] }
    ∷ record {
      format = codes "descriptor tag           |        %.2x\n";
      arguments = d.descriptor_tag ∷ [];
    }
    ∷ record {
      format = codes "descriptor length        |        %d\n";
      arguments = d.descriptor_length ∷ [];
    }
    ∷ []

unfoldable pub print_descriptor : ℕ → LocalTimeOffsetDescriptor → Outcome (List Line)
unfolding print_rows
print_descriptor i d = do
  regions ← print_rows (λ j r. done (region_lines j r)) d.number_of_infos 0 d.lto_info
  done (descriptor_lines i d ++ regions)

abbrev pub tot_header_lines : TotTable → List Line
tot_header_lines t =
    record { format = codes "table_id                 |      %.2x\n"; arguments = t.table_id ∷ [] }
    ∷ record {
      format = codes "section_length           |      %d\n";
      arguments = t.section_length ∷ [];
    }
    ∷ record { format = codes "MJD code                 |      %d\n"; arguments = t.mjd ∷ [] }
    ∷ []

unfoldable pub print_tot_table : Option TotTable → Outcome (ParseErrorCode × List Line)
unfolding print_descriptor
print_tot_table none = done (tables_parse_error, no_table)
print_tot_table (some t) = do
  rows ← print_rows print_descriptor t.descriptors_count 0 t.descriptors
  done (tables_parse_ok, tot_title ++ tot_header_lines t ++ rows ++ tot_title)
