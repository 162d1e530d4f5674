-- ===== src/Tables/Pat.antt =====
-- The program association table: `PatHeader`, `PatServiceInfo`, `PatTable` of tables.h, and
-- parsePatHeader, parsePatServiceInfo and parsePatTable of tables_parser.c.
-- An output pointer is an option (`none` is NULL) and comes back with what it points to.

pub mod Steps
pub mod Loop
pub mod Bounds
pub mod Typed
pub mod Layout
pub mod Tests
use ppu_tvi_os.Common.{
  ℕ, zero, suc, ◌+◌, ◌-◌, true, false, Option, none, some, List, ltb, ◌==◌, if◌then◌else◌, set,
}
use ppu_tvi_os.Common.Words.{u8, u32, shr, low_bits, all_16_bits}
use ppu_tvi_os.Common.Outcome.{
  Outcome, done, out_of_fuel, ◌>>=◌, ◌>>◌, Pointer, advance, read, element,
}
use ppu_tvi_os.Tables.Code.{ParseErrorCode, tables_parse_error, tables_parse_ok, max_pids_in_pat}

pub record PatHeader : Type 0 where
  pub table_id : ℕ  -- uint8_t
  pub section_syntax_indicator : ℕ  -- uint8_t
  pub section_length : ℕ  -- uint16_t
  pub transport_stream_id : ℕ  -- uint16_t
  pub version_number : ℕ  -- uint8_t
  pub current_next_indicator : ℕ  -- uint8_t
  pub section_number : ℕ  -- uint8_t
  pub last_section_number : ℕ  -- uint8_t

pub record PatServiceInfo : Type 0 where
  pub program_number : ℕ  -- uint16_t
  pub pid : ℕ  -- uint16_t

pub record PatTable : Type 0 where
  pub pat_header : PatHeader
  pub pat_service_info_array : List PatServiceInfo  -- 20 elements
  pub service_info_count : ℕ  -- uint8_t

-- parsePatHeader behind its test for NULL.
unfoldable pub fill_pat_header : Pointer → PatHeader → Outcome (ParseErrorCode × Option PatHeader)
fill_pat_header p h = do
  b0 ← read p 0
  let h0 = record h { table_id = b0 }
  if b0 == 0
      then (do
        b1 ← read p 1
        b2 ← read p 2
        b3 ← read p 3
        b4 ← read p 4
        b5 ← read p 5
        b6 ← read p 6
        b7 ← read p 7
        done (
          tables_parse_ok,
          some (record h0 {
            section_syntax_indicator = low_bits (shr b1 7) 1;
            section_length = low_bits (all_16_bits b1 b2) 12;
            transport_stream_id = low_bits (all_16_bits b3 b4) 16;
            version_number = low_bits (shr b5 1) 5;
            current_next_indicator = low_bits b5 1;
            section_number = low_bits b6 8;
            last_section_number = low_bits b7 8;
          }),
        ))
      else done (tables_parse_error, some h0)

unfoldable pub parse_pat_header :
    Option Pointer → Option PatHeader → Outcome (ParseErrorCode × Option PatHeader)
unfolding fill_pat_header
parse_pat_header (some p) (some h) = fill_pat_header p h
parse_pat_header _ h = done (tables_parse_error, h)

-- parsePatServiceInfo behind its test for NULL: both fields are overwritten.
unfoldable pub fill_pat_service_info : Pointer → Outcome (ParseErrorCode × Option PatServiceInfo)
fill_pat_service_info p = do
  b0 ← read p 0
  b1 ← read p 1
  b2 ← read p 2
  b3 ← read p 3
  done (
    tables_parse_ok,
    some (record {
      program_number = low_bits (all_16_bits b0 b1) 16;
      pid = low_bits (all_16_bits b2 b3) 13;
    }),
  )

unfoldable pub parse_pat_service_info :
    Option Pointer → Option PatServiceInfo → Outcome (ParseErrorCode × Option PatServiceInfo)
unfolding fill_pat_service_info
parse_pat_service_info (some p) (some info) = fill_pat_service_info p
parse_pat_service_info _ info = done (tables_parse_error, info)

-- What the callee left behind `&(patTable->patServiceInfoArray[patTable->serviceInfoCount])`.
abbrev pub store_service : PatTable → Option PatServiceInfo → PatTable
store_service t none = t
store_service t (some info) = record t {
  pat_service_info_array = set t.pat_service_info_array t.service_info_count info;
}

-- The `while` loop of parsePatTable, over currentBufferPosition, parsedLength and the table.
unfoldable pub pat_loop : ℕ → Pointer → ℕ → PatTable → Outcome (ParseErrorCode × PatTable)
pat_loop zero p parsed_length t = out_of_fuel
pat_loop (suc fuel) p parsed_length t = elim (ltb parsed_length t.pat_header.section_length) [
  | true ↦ elim (ltb (max_pids_in_pat - 1) t.service_info_count) [
    | true ↦ done (tables_parse_error, t)
    | false ↦ do
      slot ← element t.pat_service_info_array t.service_info_count
      (code, slot') ← parse_pat_service_info (some p) (some slot)
      let t' = store_service t slot'
      elim code [
        | tables_parse_ok ↦
            pat_loop fuel (advance p 4) (u32 (parsed_length + 4))
              (record t' { service_info_count = u8 (t'.service_info_count + 1) })
        | tables_parse_error ↦ pat_loop fuel p parsed_length t'
      ]
  ]
  | false ↦ done (tables_parse_ok, t)
]

-- One more round than the table has room for: see Pat.Bounds.
abbrev pub pat_fuel : ℕ
pat_fuel = 21

-- parsePatTable behind its test for NULL and its call of parsePatHeader.
unfoldable pub parse_pat_services :
    Pointer
    → PatTable
    → ParseErrorCode
    → Option PatHeader
    → Outcome (ParseErrorCode × Option PatTable)
unfolding pat_loop
parse_pat_services p t tables_parse_ok (some h) = do
  let t0 = record t { pat_header = h; service_info_count = 0 }
  (code, t') ← pat_loop pat_fuel (advance p 8) (12 - 3) t0
  done (code, some t')
parse_pat_services p t code none = done (tables_parse_error, some t)
parse_pat_services p t tables_parse_error (some h) =
    done (tables_parse_error, some (record t { pat_header = h }))

unfoldable pub parse_pat_table :
    Option Pointer → Option PatTable → Outcome (ParseErrorCode × Option PatTable)
unfolding parse_pat_header parse_pat_services
parse_pat_table (some p) (some t) = do
  (code, h) ← parse_pat_header (some p) (some t.pat_header)
  parse_pat_services p t code h
parse_pat_table _ t = done (tables_parse_error, t)
