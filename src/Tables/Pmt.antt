-- ===== src/Tables/Pmt.antt =====
-- The program map table: `PmtTableHeader`, `PmtElementaryInfo`, `PmtTable` of tables.h, and
-- parsePmtHeader, parsePmtElementaryInfo and parsePmtTable of tables_parser.c.
pub mod Steps
pub mod Bounds
pub mod Typed
pub mod Layout
pub mod Roundtrip
pub mod Tests
use ppu_tvi_os.Common.{
  ℕ, zero, suc, ◌+◌, ◌-◌, true, false, Option, none, some, List, ltb, ◌==◌, if◌then◌else◌, set,
}
use ppu_tvi_os.Common.Words.{u8, u32, shr, low_bits, all_16_bits}
use ppu_tvi_os.Common.Outcome.{
  Outcome, done, out_of_fuel, ◌>>=◌, ◌>>◌, Pointer, advance, read, element,
}
use ppu_tvi_os.Tables.Code.{ParseErrorCode, tables_parse_error, tables_parse_ok, max_elementary_pid}

pub record PmtTableHeader : Type 0 where
  pub table_id : ℕ  -- uint8_t
  pub section_syntax_indicator : ℕ  -- uint8_t
  pub section_length : ℕ  -- uint16_t
  pub program_number : ℕ  -- uint16_t
  pub version_number : ℕ  -- uint8_t
  pub current_next_indicator : ℕ  -- uint8_t
  pub section_number : ℕ  -- uint8_t
  pub last_section_number : ℕ  -- uint8_t
  pub pcr_pid : ℕ  -- uint16_t
  pub program_info_length : ℕ  -- uint16_t

pub record PmtElementaryInfo : Type 0 where
  pub stream_type : ℕ  -- uint8_t
  pub elementary_pid : ℕ  -- uint16_t
  pub es_info_length : ℕ  -- uint16_t

pub record PmtTable : Type 0 where
  pub pmt_header : PmtTableHeader
  pub pmt_elementary_info_array : List PmtElementaryInfo  -- 20 elements
  pub elementary_info_count : ℕ  -- uint8_t

-- parsePmtHeader behind its test for NULL.
unfoldable pub fill_pmt_header :
    Pointer → PmtTableHeader → Outcome (ParseErrorCode × Option PmtTableHeader)
fill_pmt_header p h = do
  b0 ← read p 0
  let h0 = record h { table_id = b0 }
  if b0 == 2
      then (do
        b1 ← read p 1
        b2 ← read p 2
        b3 ← read p 3
        b4 ← read p 4
        b5 ← read p 5
        b6 ← read p 6
        b7 ← read p 7
        b8 ← read p 8
        b9 ← read p 9
        b10 ← read p 10
        b11 ← read p 11
        done (
          tables_parse_ok,
          some (record h0 {
            section_syntax_indicator = low_bits (shr b1 7) 1;
            section_length = low_bits (all_16_bits b1 b2) 12;
            program_number = low_bits (all_16_bits b3 b4) 16;
            version_number = low_bits (shr b5 1) 5;
            current_next_indicator = low_bits b5 1;
            section_number = low_bits b6 8;
            last_section_number = low_bits b7 8;
            pcr_pid = low_bits (all_16_bits b8 b9) 16;
            program_info_length = low_bits (all_16_bits b10 b11) 12;
          }),
        ))
      else done (tables_parse_error, some h0)

unfoldable pub parse_pmt_header :
    Option Pointer → Option PmtTableHeader → Outcome (ParseErrorCode × Option PmtTableHeader)
unfolding fill_pmt_header
parse_pmt_header (some p) (some h) = fill_pmt_header p h
parse_pmt_header _ h = done (tables_parse_error, h)

-- parsePmtElementaryInfo behind its test for NULL: every field is overwritten.
unfoldable pub fill_pmt_elementary_info :
    Pointer → Outcome (ParseErrorCode × Option PmtElementaryInfo)
fill_pmt_elementary_info p = do
  b0 ← read p 0
  b1 ← read p 1
  b2 ← read p 2
  b3 ← read p 3
  b4 ← read p 4
  done (
    tables_parse_ok,
    some (record {
      stream_type = b0;
      elementary_pid = low_bits (all_16_bits b1 b2) 13;
      es_info_length = low_bits (all_16_bits b3 b4) 12;
    }),
  )

unfoldable pub parse_pmt_elementary_info :
    Option Pointer → Option PmtElementaryInfo → Outcome (ParseErrorCode × Option PmtElementaryInfo)
unfolding fill_pmt_elementary_info
parse_pmt_elementary_info (some p) (some info) = fill_pmt_elementary_info p
parse_pmt_elementary_info _ info = done (tables_parse_error, info)

-- What the callee left behind
-- `&(pmtTable->pmtElementaryInfoArray[pmtTable->elementaryInfoCount])`.
abbrev pub store_element : PmtTable → Option PmtElementaryInfo → PmtTable
store_element t none = t
store_element t (some info) = record t {
  pmt_elementary_info_array = set t.pmt_elementary_info_array t.elementary_info_count info;
}

-- The `while` loop of parsePmtTable, over currentBufferPosition, parsedLength and the table. The
-- step is read back from the stored element.
unfoldable pub pmt_loop : ℕ → Pointer → ℕ → PmtTable → Outcome (ParseErrorCode × PmtTable)
pmt_loop zero p parsed_length t = out_of_fuel
pmt_loop (suc fuel) p parsed_length t = elim (ltb parsed_length t.pmt_header.section_length) [
  | true ↦ elim (ltb (max_elementary_pid - 1) t.elementary_info_count) [
    | true ↦ done (tables_parse_error, t)
    | false ↦ do
      slot ← element t.pmt_elementary_info_array t.elementary_info_count
      (code, slot') ← parse_pmt_elementary_info (some p) (some slot)
      let t' = store_element t slot'
      elim code [
        | tables_parse_ok ↦ do
          info ← element t'.pmt_elementary_info_array t'.elementary_info_count
          pmt_loop fuel (advance p (5 + info.es_info_length))
              (u32 (parsed_length + (5 + info.es_info_length)))
              (record t' { elementary_info_count = u8 (t'.elementary_info_count + 1) })
        | tables_parse_error ↦ pmt_loop fuel p parsed_length t'
      ]
  ]
  | false ↦ done (tables_parse_ok, t)
]

-- One more round than the table has room for: see Pmt.Bounds.
abbrev pub pmt_fuel : ℕ
pmt_fuel = 21

-- parsePmtTable behind its test for NULL and its call of parsePmtHeader.
unfoldable pub parse_pmt_elements :
    Pointer
    → PmtTable
    → ParseErrorCode
    → Option PmtTableHeader
    → Outcome (ParseErrorCode × Option PmtTable)
unfolding pmt_loop
parse_pmt_elements p t tables_parse_ok (some h) = do
  let t0 = record t { pmt_header = h; elementary_info_count = 0 }
  (code, t') ←
      pmt_loop pmt_fuel (advance p (12 + h.program_info_length))
        (u32 (12 + h.program_info_length + 4 - 3)) t0
  done (code, some t')
parse_pmt_elements p t code none = done (tables_parse_error, some t)
parse_pmt_elements p t tables_parse_error (some h) =
    done (tables_parse_error, some (record t { pmt_header = h }))

unfoldable pub parse_pmt_table :
    Option Pointer → Option PmtTable → Outcome (ParseErrorCode × Option PmtTable)
unfolding parse_pmt_header parse_pmt_elements
parse_pmt_table (some p) (some t) = do
  (code, h) ← parse_pmt_header (some p) (some t.pmt_header)
  parse_pmt_elements p t code h
parse_pmt_table _ t = done (tables_parse_error, t)
