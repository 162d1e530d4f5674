-- ===== src/Tables/Tot/Tests.antt =====
-- Time offset sections, as concrete data (tables_parser.c).
use ppu_tvi_os.Tables.Zeroed.{no_descriptor, no_info, no_tot}
use ppu_tvi_os.Common.{◌++◌, List, [], ◌∷◌, some, arith, refl, ◌≡◌, replicate}
use ppu_tvi_os.Common.Outcome.{read, done, Pointer, Returns, Halts, Faults, start_of}
use ppu_tvi_os.Tables.Code.{tables_parse_ok}
use ppu_tvi_os.Tables.Tot.{TotTable, parse_tot_table}
use ppu_tvi_os.Tables.Tot.Ends.{IsTyped, parse_tot_table-Halts}
use ppu_tvi_os.Tables.Tot.Overrun.{parse_tot_table-overrun}
use ppu_tvi_os.Tables.Tot.Layout.{Region, Front, encode_tot, Holds, infos}
use ppu_tvi_os.Tables.Tot.Roundtrip.{parse_tot_table-encode_tot}

no_tot-IsTyped : IsTyped no_tot
no_tot-IsTyped = record { size = refl; lengths = ground arith }

-- Serbia, an hour and a half ahead, and one more region.
abbrev pub regions : List Region
regions =
    record {
      info = record {
        country_ch1 = 83;
        country_ch2 = 82;
        country_ch3 = 66;
        country_region_id = 1;
        local_time_offset_polarity = 0;
        local_time_offset_hours = 1;
        local_time_offset_minutes = 30;
      };
      skipped = replicate 7 0;
    }
    ∷ record { info = no_info; skipped = replicate 7 255 }
    ∷ []

abbrev pub front : Front
front = record { section_length = 42; mjd = 57753; hours = 18; minutes = 48; seconds = 0 }

parse_tot_table-encode_tot_example :
    Returns (parse_tot_table (some (start_of (encode_tot front regions []))) (some no_tot)) (λ r.
      (r.0 ≡ tables_parse_ok)
      × (t' : TotTable) × (r.1 ≡ some t')
      × Holds no_tot t' front (infos regions))
parse_tot_table-encode_tot_example =
    parse_tot_table-encode_tot front regions [] no_tot no_descriptor
      (record { section_length = omega arith; mjd = omega arith })
      (
        record {
          country_ch1 = omega arith;
          country_ch2 = omega arith;
          country_ch3 = omega arith;
          country_region_id = omega arith;
          polarity = omega arith;
          hours = omega arith;
          minutes = omega arith;
          skipped = refl;
        },
        (
          record {
            country_ch1 = omega arith;
            country_ch2 = omega arith;
            country_ch3 = omega arith;
            country_region_id = omega arith;
            polarity = omega arith;
            hours = omega arith;
            minutes = omega arith;
            skipped = refl;
          },
          tt,
        ),
      )
      (omega arith) (omega arith) refl refl

-- A loop of six bytes with a descriptor that claims sixty.
abbrev overlong : Pointer
overlong = start_of (0x73 ∷ 112 ∷ 20 ∷ 225 ∷ 153 ∷ 0 ∷ 0 ∷ 0 ∷ 240 ∷ 6 ∷ 0x58 ∷ 60 ∷ replicate 80 7)

parse_tot_table-Halts_example : Halts (parse_tot_table (some overlong) (some no_tot))
parse_tot_table-Halts_example = parse_tot_table-Halts (some overlong) no_tot no_tot-IsTyped

parse_tot_table-overrun_example : Faults (parse_tot_table (some overlong) (some no_tot))
parse_tot_table-overrun_example =
    parse_tot_table-overrun overlong no_tot no_tot-IsTyped (omega arith) refl (omega arith)
      (omega arith)

-- What that section is parsed to.
abbrev pub parsed_tot : TotTable
parsed_tot = record {
  table_id = 0x73;
  section_syntax_indicator = 0;
  section_length = 42;
  mjd = 57753;
  descriptors_loop_length = 28;
  descriptors =
      record {
        descriptor_tag = 0x58;
        descriptor_length = 26;
        lto_info = infos regions ++ replicate 18 no_info;
        number_of_infos = 2;
      }
      ∷ replicate 19 no_descriptor;
  descriptors_count = 1;
}

pub tot_section-parsed :
    parse_tot_table (some (start_of (encode_tot front regions []))) (some no_tot)
    ≡ done (tables_parse_ok, some parsed_tot)
unfolding parse_tot_table read
tot_section-parsed = refl
