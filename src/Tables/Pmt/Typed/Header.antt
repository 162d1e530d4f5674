-- ===== src/Tables/Pmt/Typed/Header.antt =====
-- The ranges of the fields that parsePmtHeader stores (tables_parser.c).
use ppu_tvi_os.Common.{◌<◌, ◌==◌, arith}
use ppu_tvi_os.Common.Outcome.{Pointer, read}
use ppu_tvi_os.Common.Always.{Always, >>=-Always, >>=-Always_any, read-Always, if-Always}
use ppu_tvi_os.Tables.Code.{Out}
use ppu_tvi_os.Tables.Pmt.{PmtTableHeader, fill_pmt_header}

-- The fields as wide as the standard has them; the PCR pid keeps its three reserved bits.
pub record IsHeader (h : PmtTableHeader) : Type 0 where
  pub table_id : h.table_id < 256
  pub section_syntax_indicator : h.section_syntax_indicator < 2
  pub section_length : h.section_length < 4096
  pub program_number : h.program_number < 65536
  pub version_number : h.version_number < 32
  pub current_next_indicator : h.current_next_indicator < 2
  pub section_number : h.section_number < 256
  pub last_section_number : h.last_section_number < 256
  pub pcr_pid : h.pcr_pid < 65536
  pub program_info_length : h.program_info_length < 4096

pub fill_pmt_header-IsHeader :
    (p : Pointer) (h : PmtTableHeader) → IsHeader h → Always (Out IsHeader) (fill_pmt_header p h)
unfolding fill_pmt_header
fill_pmt_header-IsHeader p h v =
    >>=-Always (λ b. b < 256) (Out IsHeader) (read p 0) _ (read-Always p 0)
      λ b0 byte0.
        let named : IsHeader (record h { table_id = b0 }) = record {
          table_id = byte0;
          section_syntax_indicator = v.section_syntax_indicator;
          section_length = v.section_length;
          program_number = v.program_number;
          version_number = v.version_number;
          current_next_indicator = v.current_next_indicator;
          section_number = v.section_number;
          last_section_number = v.last_section_number;
          pcr_pid = v.pcr_pid;
          program_info_length = v.program_info_length;
        } in
        if-Always (Out IsHeader) (b0 == 2) _ _
          (>>=-Always_any (Out IsHeader) (read p 1) _ λ b1.
            >>=-Always_any (Out IsHeader) (read p 2) _ λ b2.
              >>=-Always_any (Out IsHeader) (read p 3) _ λ b3.
                >>=-Always_any (Out IsHeader) (read p 4) _ λ b4.
                  >>=-Always_any (Out IsHeader) (read p 5) _ λ b5.
                    >>=-Always_any (Out IsHeader) (read p 6) _ λ b6.
                      >>=-Always_any (Out IsHeader) (read p 7) _ λ b7.
                        >>=-Always_any (Out IsHeader) (read p 8) _ λ b8.
                          >>=-Always_any (Out IsHeader) (read p 9) _ λ b9.
                            >>=-Always_any (Out IsHeader) (read p 10) _ λ b10.
                              >>=-Always_any (Out IsHeader) (read p 11) _ λ b11. record {
                                table_id = byte0;
                                section_syntax_indicator = omega arith;
                                section_length = omega arith;
                                program_number = omega arith;
                                version_number = omega arith;
                                current_next_indicator = omega arith;
                                section_number = omega arith;
                                last_section_number = omega arith;
                                pcr_pid = omega arith;
                                program_info_length = omega arith;
                              })
          named
