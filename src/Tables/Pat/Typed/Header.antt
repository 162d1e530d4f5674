-- ===== src/Tables/Pat/Typed/Header.antt =====
-- The ranges of the fields that parsePatHeader stores (tables_parser.c).
use ppu_tvi_os.Common.{◌<◌, ◌==◌, arith}
use ppu_tvi_os.Common.Outcome.{Pointer, read}
use ppu_tvi_os.Common.Always.{Always, >>=-Always, >>=-Always_any, read-Always, if-Always}
use ppu_tvi_os.Tables.Code.{Out}
use ppu_tvi_os.Tables.Pat.{PatHeader, fill_pat_header}

-- The fields as wide as the standard has them.
pub record IsHeader (h : PatHeader) : Type 0 where
  pub table_id : h.table_id < 256
  pub section_syntax_indicator : h.section_syntax_indicator < 2
  pub section_length : h.section_length < 4096
  pub transport_stream_id : h.transport_stream_id < 65536
  pub version_number : h.version_number < 32
  pub current_next_indicator : h.current_next_indicator < 2
  pub section_number : h.section_number < 256
  pub last_section_number : h.last_section_number < 256

pub fill_pat_header-IsHeader :
    (p : Pointer) (h : PatHeader) → IsHeader h → Always (Out IsHeader) (fill_pat_header p h)
unfolding fill_pat_header
fill_pat_header-IsHeader p h v =
    >>=-Always (λ b. b < 256) (Out IsHeader) (read p 0) _ (read-Always p 0)
      λ b0 byte0.
        let named : IsHeader (record h { table_id = b0 }) = record {
          table_id = byte0;
          section_syntax_indicator = v.section_syntax_indicator;
          section_length = v.section_length;
          transport_stream_id = v.transport_stream_id;
          version_number = v.version_number;
          current_next_indicator = v.current_next_indicator;
          section_number = v.section_number;
          last_section_number = v.last_section_number;
        } in
        if-Always (Out IsHeader) (b0 == 0) _ _
          (>>=-Always_any (Out IsHeader) (read p 1) _ λ b1.
            >>=-Always_any (Out IsHeader) (read p 2) _ λ b2.
              >>=-Always_any (Out IsHeader) (read p 3) _ λ b3.
                >>=-Always_any (Out IsHeader) (read p 4) _ λ b4.
                  >>=-Always_any (Out IsHeader) (read p 5) _ λ b5.
                    >>=-Always_any (Out IsHeader) (read p 6) _ λ b6.
                      >>=-Always_any (Out IsHeader) (read p 7) _ λ b7. record {
                        table_id = byte0;
                        section_syntax_indicator = omega arith;
                        section_length = omega arith;
                        transport_stream_id = omega arith;
                        version_number = omega arith;
                        current_next_indicator = omega arith;
                        section_number = omega arith;
                        last_section_number = omega arith;
                      })
          named
