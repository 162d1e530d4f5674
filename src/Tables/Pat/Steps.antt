-- ===== src/Tables/Pat/Steps.antt =====
-- What the parts of parsePatTable do in a readable buffer (tables_parser.c).
use ppu_tvi_os.Common.{ℕ, suc, ◌+◌, ◌≤◌, ◌<◌, ◌≡◌, ◌≢◌, some, arith, length, get_or, set}
use ppu_tvi_os.Common.Words.{u32, u8, shr, low_bits, all_16_bits}
use ppu_tvi_os.Common.Outcome.{done, Pointer, advance, byte_at, Readable, read-done, element-done}
use ppu_tvi_os.Tables.Code.{tables_parse_error, tables_parse_ok}
use ppu_tvi_os.Tables.Pat.{
  PatHeader, PatServiceInfo, PatTable, parse_pat_header, parse_pat_service_info, pat_loop,
}

-- The header that lies at a pointer.
abbrev pub header_at : Pointer → PatHeader
header_at p = record {
  table_id = byte_at p 0;
  section_syntax_indicator = low_bits (shr (byte_at p 1) 7) 1;
  section_length = low_bits (all_16_bits (byte_at p 1) (byte_at p 2)) 12;
  transport_stream_id = low_bits (all_16_bits (byte_at p 3) (byte_at p 4)) 16;
  version_number = low_bits (shr (byte_at p 5) 1) 5;
  current_next_indicator = low_bits (byte_at p 5) 1;
  section_number = low_bits (byte_at p 6) 8;
  last_section_number = low_bits (byte_at p 7) 8;
}

-- The service that lies at a pointer.
abbrev pub service_at : Pointer → PatServiceInfo
service_at p = record {
  program_number = low_bits (all_16_bits (byte_at p 0) (byte_at p 1)) 16;
  pid = low_bits (all_16_bits (byte_at p 2) (byte_at p 3)) 13;
}

pub parse_pat_header-done :
    (p : Pointer) (h : PatHeader)
    → Readable p 8
    → byte_at p 0 ≡ 0
    → parse_pat_header (some p) (some h) ≡ done (tables_parse_ok, some (header_at p))
unfolding parse_pat_header
parse_pat_header-done p h r z =
    rw
      (
        read-done p 0 (omega arith),
        read-done p 1 (omega arith),
        read-done p 2 (omega arith),
        read-done p 3 (omega arith),
        read-done p 4 (omega arith),
        read-done p 5 (omega arith),
        read-done p 6 (omega arith),
        read-done p 7 (omega arith),
      )
      (ground arith)

pub parse_pat_header-error :
    (p : Pointer) (h : PatHeader)
    → Readable p 1
    → byte_at p 0 ≢ 0
    → parse_pat_header (some p) (some h)
      ≡ done (tables_parse_error, some (record h { table_id = byte_at p 0 }))
unfolding parse_pat_header
parse_pat_header-error p h r z = rw (read-done p 0 (omega arith)) (ground arith)

pub parse_pat_service_info-done :
    (p : Pointer) (slot : PatServiceInfo)
    → Readable p 4
    → parse_pat_service_info (some p) (some slot) ≡ done (tables_parse_ok, some (service_at p))
unfolding parse_pat_service_info
parse_pat_service_info-done p slot r = rw (
  read-done p 0 (omega arith),
  read-done p 1 (omega arith),
  read-done p 2 (omega arith),
  read-done p 3 (omega arith),
)

abbrev no_service : PatServiceInfo
no_service = record { program_number = 0; pid = 0 }

-- The table after one more service.
abbrev pub add_service : PatTable → PatServiceInfo → PatTable
add_service t info = record t {
  pat_service_info_array = set t.pat_service_info_array t.service_info_count info;
  service_info_count = u8 (t.service_info_count + 1);
}

module _ (fuel : ℕ) (p : Pointer) (parsed_length : ℕ) (t : PatTable) where
  pub pat_loop-stop :
      t.pat_header.section_length ≤ parsed_length
      → pat_loop (suc fuel) p parsed_length t ≡ done (tables_parse_ok, t)
  unfolding pat_loop
  pat_loop-stop h = ground arith

  pub pat_loop-full :
      parsed_length < t.pat_header.section_length
      → 20 ≤ t.service_info_count
      → pat_loop (suc fuel) p parsed_length t ≡ done (tables_parse_error, t)
  unfolding pat_loop
  pat_loop-full h full = ground arith

  pub pat_loop-round :
      parsed_length < t.pat_header.section_length
      → t.service_info_count < 20
      → length t.pat_service_info_array ≡ 20
      → Readable p 4
      → pat_loop (suc fuel) p parsed_length t
        ≡ pat_loop fuel (advance p 4) (u32 (parsed_length + 4)) (add_service t (service_at p))
  unfolding pat_loop
  pat_loop-round h room size r = ground (
    arith,
    element-done t.pat_service_info_array t.service_info_count no_service,
    parse_pat_service_info-done p (get_or t.pat_service_info_array t.service_info_count no_service),
  )
