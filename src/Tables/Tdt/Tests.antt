-- ===== src/Tables/Tdt/Tests.antt =====
-- Time and date sections, as concrete data (tables_parser.c).
use ppu_tvi_os.Tables.Zeroed.{no_tdt}
use ppu_tvi_os.Common.{ℕ, List, [], ◌∷◌, some, arith, refl, ◌≡◌, ◌/◌, ◌%◌}
use ppu_tvi_os.Common.Outcome.{Returns, start_of}
use ppu_tvi_os.Tables.Code.{tables_parse_ok}
use ppu_tvi_os.Tables.Tdt.{TdtTable, parse_tdt_table}
use ppu_tvi_os.Tables.Tdt.Calendar.{Reads, parse_tdt_table-mjd_of}

-- The section of a day, at midnight.
abbrev pub tdt_section : ℕ → List ℕ
tdt_section mjd = 0x70 ∷ 112 ∷ 5 ∷ mjd / 256 ∷ mjd % 256 ∷ 0 ∷ 0 ∷ 0 ∷ []

-- The 31st of December 2016 is MJD 57753; the source makes the 30th of it.
parse_tdt_table-mjd_of_example :
    Returns
      (parse_tdt_table (some (start_of (tdt_section 57753))) (some no_tdt))
      (λ r. (r.0 ≡ tables_parse_ok) × (t' : TdtTable) × (r.1 ≡ some t') × Reads 116 12 31 t')
parse_tdt_table-mjd_of_example =
    parse_tdt_table-mjd_of (start_of (tdt_section 57753)) no_tdt 116 12 31 (omega arith)
      (record {
        month_low = omega arith;
        month_high = omega arith;
        day_low = omega arith;
        day_high = omega arith;
        since_march = omega arith;
      })
      refl
