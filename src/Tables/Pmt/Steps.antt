-- ===== src/Tables/Pmt/Steps.antt =====
-- What the parts of parsePmtTable do in a readable buffer (tables_parser.c).
use ppu_tvi_os.Common.{
  ℕ, suc, ◌+◌, ◌≤◌, ◌<◌, ◌≡◌, ◌≢◌, some, arith, length, get_or, set, get_elem?-set_self,
}
use ppu_tvi_os.Common.Words.{u32, u8, shr, low_bits, all_16_bits}
use ppu_tvi_os.Common.Outcome.{done, Pointer, advance, byte_at, Readable, read-done, element-done}
use ppu_tvi_os.Tables.Code.{tables_parse_error, tables_parse_ok}
use ppu_tvi_os.Tables.Pmt.{
  PmtTableHeader, PmtElementaryInfo, PmtTable, parse_pmt_header, parse_pmt_elementary_info,
  pmt_loop,
}

-- The header that lies at a pointer.
abbrev pub header_at : Pointer → PmtTableHeader
header_at p = record {
  table_id = byte_at p 0;
  section_syntax_indicator = low_bits (shr (byte_at p 1) 7) 1;
  section_length = low_bits (all_16_bits (byte_at p 1) (byte_at p 2)) 12;
  program_number = low_bits (all_16_bits (byte_at p 3) (byte_at p 4)) 16;
  version_number = low_bits (shr (byte_at p 5) 1) 5;
  current_next_indicator = low_bits (byte_at p 5) 1;
  section_number = low_bits (byte_at p 6) 8;
  last_section_number = low_bits (byte_at p 7) 8;
  pcr_pid = low_bits (all_16_bits (byte_at p 8) (byte_at p 9)) 16;
  program_info_length = low_bits (all_16_bits (byte_at p 10) (byte_at p 11)) 12;
}

-- The elementary stream that is described at a pointer.
abbrev pub element_at : Pointer → PmtElementaryInfo
element_at p = record {
  stream_type = byte_at p 0;
  elementary_pid = low_bits (all_16_bits (byte_at p 1) (byte_at p 2)) 13;
  es_info_length = low_bits (all_16_bits (byte_at p 3) (byte_at p 4)) 12;
}

pub parse_pmt_header-done :
    (p : Pointer) (h : PmtTableHeader)
    → Readable p 12
    → byte_at p 0 ≡ 2
    → parse_pmt_header (some p) (some h) ≡ done (tables_parse_ok, some (header_at p))
unfolding parse_pmt_header
parse_pmt_header-done p h r z =
    rw
      (
        read-done p 0 (omega arith),
        read-done p 1 (omega arith),
        read-done p 2 (omega arith),
        read-done p 3 (omega arith),
        read-done p 4 (omega arith),
        read-done p 5 (omega arith),
        read-done p 6 (omega arith),
        read-done p 7 (omega arith),
        read-done p 8 (omega arith),
        read-done p 9 (omega arith),
        read-done p 10 (omega arith),
        read-done p 11 (omega arith),
      )
      (ground arith)

pub parse_pmt_header-error :
    (p : Pointer) (h : PmtTableHeader)
    → Readable p 1
    → byte_at p 0 ≢ 2
    → parse_pmt_header (some p) (some h)
      ≡ done (tables_parse_error, some (record h { table_id = byte_at p 0 }))
unfolding parse_pmt_header
parse_pmt_header-error p h r z = rw (read-done p 0 (omega arith)) (ground arith)

pub parse_pmt_elementary_info-done :
    (p : Pointer) (slot : PmtElementaryInfo)
    → Readable p 5
    → parse_pmt_elementary_info (some p) (some slot) ≡ done (tables_parse_ok, some (element_at p))
unfolding parse_pmt_elementary_info
parse_pmt_elementary_info-done p slot r = rw (
  read-done p 0 (omega arith),
  read-done p 1 (omega arith),
  read-done p 2 (omega arith),
  read-done p 3 (omega arith),
  read-done p 4 (omega arith),
)

abbrev no_element : PmtElementaryInfo
no_element = record { stream_type = 0; elementary_pid = 0; es_info_length = 0 }

-- The table after one more element.
abbrev pub add_element : PmtTable → PmtElementaryInfo → PmtTable
add_element t info = record t {
  pmt_elementary_info_array = set t.pmt_elementary_info_array t.elementary_info_count info;
  elementary_info_count = u8 (t.elementary_info_count + 1);
}

-- How far the loop moves for the element at a pointer.
abbrev pub stride_at : Pointer → ℕ
stride_at p = 5 + (element_at p).es_info_length

module _ (fuel : ℕ) (p : Pointer) (parsed_length : ℕ) (t : PmtTable) where
  pub pmt_loop-stop :
      t.pmt_header.section_length ≤ parsed_length
      → pmt_loop (suc fuel) p parsed_length t ≡ done (tables_parse_ok, t)
  unfolding pmt_loop
  pmt_loop-stop h = ground arith

  pub pmt_loop-full :
      parsed_length < t.pmt_header.section_length
      → 20 ≤ t.elementary_info_count
      → pmt_loop (suc fuel) p parsed_length t ≡ done (tables_parse_error, t)
  unfolding pmt_loop
  pmt_loop-full h full = ground arith

  pub pmt_loop-round :
      parsed_length < t.pmt_header.section_length
      → t.elementary_info_count < 20
      → length t.pmt_elementary_info_array ≡ 20
      → Readable p 5
      → pmt_loop (suc fuel) p parsed_length t
        ≡ pmt_loop fuel
            (advance p (stride_at p))
            (u32 (parsed_length + stride_at p))
            (add_element t (element_at p))
  unfolding pmt_loop
  pmt_loop-round h room size r = ground (
    arith,
    element-done t.pmt_elementary_info_array t.elementary_info_count no_element,
    parse_pmt_elementary_info-done p
        (get_or t.pmt_elementary_info_array t.elementary_info_count no_element),
    get_elem?-set_self t.pmt_elementary_info_array t.elementary_info_count (element_at p),
  )
