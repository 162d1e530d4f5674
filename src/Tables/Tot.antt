-- ===== src/Tables/Tot.antt =====
-- The time offset table: `LTODescriptorInfo`, `LocalTimeOffsetDescriptor`, `TotTable` of tables.h
-- and parseTotTable of tables_parser.c.
pub mod Typed
pub mod Steps
pub mod Ends
pub mod Overrun
pub mod Layout
pub mod Roundtrip
pub mod Tests
use ppu_tvi_os.Common.{
  ℕ, zero, suc, ◌+◌, ◌-◌, ◌*◌, ◌/◌, true, false, Option, none, some, List, ltb, ◌==◌, if◌then◌else◌,
  set,
}
use ppu_tvi_os.Common.Words.{u8, u16, shr, low_bits, all_16_bits}
use ppu_tvi_os.Common.Outcome.{
  Outcome, done, fault, out_of_fuel, ◌>>=◌, ◌>>◌, Pointer, read, element,
}
use ppu_tvi_os.Tables.Code.{ParseErrorCode, tables_parse_error, tables_parse_ok}

pub record LtoDescriptorInfo : Type 0 where
  pub country_ch1 : ℕ  -- uint8_t
  pub country_ch2 : ℕ  -- uint8_t
  pub country_ch3 : ℕ  -- uint8_t
  pub country_region_id : ℕ  -- uint8_t
  pub local_time_offset_polarity : ℕ  -- uint8_t
  pub local_time_offset_hours : ℕ  -- uint8_t
  pub local_time_offset_minutes : ℕ  -- uint8_t

pub record LocalTimeOffsetDescriptor : Type 0 where
  pub descriptor_tag : ℕ  -- uint8_t
  pub descriptor_length : ℕ  -- uint8_t
  pub lto_info : List LtoDescriptorInfo  -- 20 elements
  pub number_of_infos : ℕ  -- uint8_t

pub record TotTable : Type 0 where
  pub table_id : ℕ  -- uint8_t
  pub section_syntax_indicator : ℕ  -- uint8_t
  pub section_length : ℕ  -- uint16_t
  pub mjd : ℕ  -- uint16_t
  pub descriptors_loop_length : ℕ  -- uint16_t
  pub descriptors : List LocalTimeOffsetDescriptor  -- 20 elements
  pub descriptors_count : ℕ  -- uint8_t

-- Two binary coded decimal digits: `(b & 0x0F) + 10*((b & 0xF0) >> 4)`
abbrev pub from_bcd : ℕ → ℕ
from_bcd b = u8 (low_bits b 4 + 10 * low_bits (shr b 4) 4)

-- The body of the `for` loop: what it stores in `ltoInfo[i]`.
unfoldable pub read_lto : Pointer → ℕ → Outcome LtoDescriptorInfo
read_lto p i = do
  ch1 ← read p (12 + i * 13)
  ch2 ← read p (13 + i * 13)
  ch3 ← read p (14 + i * 13)
  zone ← read p (15 + i * 13)
  hours ← read p (16 + i * 13)
  minutes ← read p (17 + i * 13)
  done (record {
    country_ch1 = ch1;
    country_ch2 = ch2;
    country_ch3 = ch3;
    country_region_id = shr zone 2;
    local_time_offset_polarity = low_bits zone 1;
    local_time_offset_hours = from_bcd hours;
    local_time_offset_minutes = from_bcd minutes;
  })

-- The `for` loop over `i`, with the rounds that are left.
unfoldable pub lto_loop :
    ℕ → ℕ → Pointer → List LtoDescriptorInfo → Outcome (List LtoDescriptorInfo)
unfolding read_lto
lto_loop zero i p infos = done infos
lto_loop (suc left) i p infos = do
  slot ← element infos i
  info ← read_lto p i
  lto_loop left (i + 1) p (set infos i info)

-- The `if` on the tag of `descriptors[currentDesc]`.
unfoldable pub read_descriptor : Pointer → TotTable → Outcome TotTable
unfolding lto_loop
read_descriptor p t = do
  current_tag ← read p (10 + 15 * t.descriptors_count)
  if current_tag == 0x58
      then (do
        slot ← element t.descriptors t.descriptors_count
        len ← read p (11 + 15 * t.descriptors_count)
        let count = u8 (len / 13)
        infos ← lto_loop count 0 p slot.lto_info
        done (record t {
          descriptors = set t.descriptors t.descriptors_count (record {
            descriptor_tag = current_tag;
            descriptor_length = len;
            lto_info = infos;
            number_of_infos = count;
          });
        }))
      else done t

-- `descriptorLoopLength -= ...` in uint16_t.
abbrev pub take_off : ℕ → ℕ → ℕ
take_off loop_length n = u16 (loop_length + 65536 - n)

-- The `while` loop over descriptorLoopLength. Unlike the other parsers' it has no test for room in
-- the table: behind the last slot the descriptor's length is read out of bounds.
unfoldable pub tot_loop : ℕ → Pointer → ℕ → TotTable → Outcome (ParseErrorCode × TotTable)
unfolding read_descriptor
tot_loop zero p loop_length t = out_of_fuel
tot_loop (suc fuel) p loop_length t = elim (ltb 4 loop_length) [
  | true ↦ do
    t' ← read_descriptor p t
    descriptor ← element t'.descriptors t.descriptors_count
    tot_loop fuel p (take_off loop_length (descriptor.descriptor_length + 2))
        (record t' { descriptors_count = u8 (t'.descriptors_count + 1) })
  | false ↦ done (tables_parse_ok, t)
]

-- One more round than there are slots: see Tot.Ends.
abbrev pub tot_fuel : ℕ
tot_fuel = 21

-- parseTotTable behind its test for NULL.
unfoldable pub fill_tot_table : Pointer → TotTable → Outcome (ParseErrorCode × Option TotTable)
unfolding tot_loop
fill_tot_table p t = do
  b0 ← read p 0
  b1 ← read p 1
  b2 ← read p 2
  b3 ← read p 3
  b4 ← read p 4
  b8 ← read p 8
  b9 ← read p 9
  let t0 = record t {
    table_id = b0;
    section_length = low_bits (all_16_bits b1 b2) 12;
    mjd = all_16_bits b3 b4;
    descriptors_loop_length = low_bits (all_16_bits b8 b9) 12;
  }
  (code, t') ← tot_loop tot_fuel p t0.descriptors_loop_length t0
  done (code, some t')

-- `descriptorsCount` is reset before the test for NULL.
unfoldable pub parse_tot_table :
    Option Pointer → Option TotTable → Outcome (ParseErrorCode × Option TotTable)
unfolding fill_tot_table
parse_tot_table p none = fault
parse_tot_table none (some t) = done (tables_parse_error, some (record t { descriptors_count = 0 }))
parse_tot_table (some p) (some t) = fill_tot_table p (record t { descriptors_count = 0 })
