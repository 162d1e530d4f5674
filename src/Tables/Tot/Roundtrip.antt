-- ===== src/Tables/Tot/Roundtrip.antt =====
-- parseTotTable inverts the layout of a section with one local time offset descriptor
-- (tables_parser.c).
use ppu_tvi_os.Common.{
  ℕ, suc, ◌+◌, ◌*◌, ◌/◌, ◌≤◌, ◌≡◌, refl, ◌∙◌, ap, some, List, [], ◌∷◌, ◌++◌, drop, arith, length,
  All, set,
}
use ppu_tvi_os.Common.Slots.{fill, fill_start}
use ppu_tvi_os.Common.Words.{low_bits, all_16_bits}
use ppu_tvi_os.Common.Outcome.{
  done, Pointer, start_of, byte_at, Readable, Returns, Shows-start_of, Shows-advance, read-done,
  element, element-set,
}
use ppu_tvi_os.Tables.Code.{tables_parse_ok}
use ppu_tvi_os.Tables.Tot.{
  LtoDescriptorInfo, LocalTimeOffsetDescriptor, TotTable, take_off, parse_tot_table, tot_loop,
}
use ppu_tvi_os.Tables.Tot.Steps.{
  ltos_at, descriptor_at, read_descriptor-done, tot_loop-stop, tot_loop-round,
}
use ppu_tvi_os.Tables.Tot.Layout.{
  Region, infos, encode_regions, IsRegion, ltos_at-encode, length-encode_regions, Front, IsFront,
  encode_tot_front, encode_tot, Holds,
}

length-infos : (rs : List Region) → length (infos rs) ≡ length rs
length-infos [] = refl
length-infos (r ∷ rs) = ap suc (length-infos rs)

-- The table at the first round, and after a loop that holds one local time offset descriptor.
abbrev reset : TotTable → TotTable
reset t = record t { descriptors_count = 0 }

abbrev with_descriptor : Pointer → TotTable → List LtoDescriptorInfo → TotTable
with_descriptor p t infos = record t {
  descriptors = set t.descriptors 0 (descriptor_at p (reset t) infos);
  descriptors_count = 1;
}

tot_loop_one :
    (fuel : ℕ) (p : Pointer) (loop_length : ℕ) (t : TotTable) (slot : LocalTimeOffsetDescriptor)
    → loop_length ≡ byte_at p 11 + 2
    → Readable p (12 + byte_at p 11)
    → byte_at p 10 ≡ 0x58
    → 3 ≤ byte_at p 11
    → element t.descriptors 0 ≡ done slot
    → length slot.lto_info ≡ 20
    → tot_loop (suc (suc fuel)) p loop_length (reset t)
      ≡ done (tables_parse_ok, with_descriptor p t slot.lto_info)
tot_loop_one fuel p loop_length t slot e r tag long found size =
    rw
      (
        tot_loop-round (suc fuel) p loop_length (reset t) (omega arith),
        read_descriptor-done p (reset t) slot (omega arith) r tag found size,
        element-set t.descriptors 0 (descriptor_at p (reset t) slot.lto_info) found,
      )
      (tot_loop-stop fuel p (take_off loop_length (byte_at p 11 + 2))
        (with_descriptor p t slot.lto_info) (omega arith))

module _ (f : Front) (rs : List Region) (crc : List ℕ) (t : TotTable)
    (slot : LocalTimeOffsetDescriptor) (front : IsFront f) (regions : All IsRegion rs) where
  -- Parsing the printed section of a date and one descriptor of one to nineteen regions stores the
  -- date and exactly those regions in order, with both parts of each offset decoded, in front of
  -- the older ones in the first slot, which must be there and have its twenty places.
  pub parse_tot_table-encode_tot :
      1 ≤ length rs
      → length rs ≤ 19
      → element t.descriptors 0 ≡ done slot
      → length slot.lto_info ≡ 20
      → Returns (parse_tot_table (some (start_of (encode_tot f rs crc))) (some t)) (λ r.
        (r.0 ≡ tables_parse_ok) × (t' : TotTable) × (r.1 ≡ some t') × Holds t t' f (infos rs))
  unfolding parse_tot_table
  parse_tot_table-encode_tot some_regions few found size = (
    (tables_parse_ok, some (with_descriptor p t0 slot.lto_info)),
    parsed,
    (
      refl,
      with_descriptor p t0 slot.lto_info,
      refl,
      record {
        table_id = refl;
        section_length = omega arith;
        mjd = omega arith;
        count = refl;
        descriptor = (
          slot,
          found,
          element-set t.descriptors 0 (descriptor_at p (reset t0) slot.lto_info) found
              ∙ ap done shown,
        );
      },
    ),
  )
    where
      p : Pointer
      p = start_of (encode_tot f rs crc)

      t0 : TotTable
      t0 = record t {
        descriptors_count = 0;
        table_id = byte_at p 0;
        section_length = low_bits (all_16_bits (byte_at p 1) (byte_at p 2)) 12;
        mjd = all_16_bits (byte_at p 3) (byte_at p 4);
        descriptors_loop_length = low_bits (all_16_bits (byte_at p 8) (byte_at p 9)) 12;
      }

      loop_length : low_bits (all_16_bits (byte_at p 8) (byte_at p 9)) 12 ≡ byte_at p 11 + 2
      loop_length = omega arith

      readable : Readable p (12 + byte_at p 11)
      readable = omega (arith, length-encode_regions rs crc regions)

      count : byte_at p 11 / 13 ≡ length rs
      count = omega arith

      listed : ltos_at p 0 (byte_at p 11 / 13) ≡ infos rs
      listed =
          ap (ltos_at p 0) count
          ∙ ltos_at-encode rs p 0 crc regions (
              Shows-advance p (encode_tot_front f (length rs)) (encode_regions rs crc)
                (Shows-start_of (encode_tot f rs crc)))

      filled : fill slot.lto_info 0 (infos rs) ≡ infos rs ++ drop (length (infos rs)) slot.lto_info
      filled = fill_start slot.lto_info (infos rs) (omega (arith, length-infos rs))

      bytes : byte_at p 11 ≡ 13 * length (infos rs)
      bytes = omega (arith, length-infos rs)

      number : byte_at p 11 / 13 ≡ length (infos rs)
      number = omega (arith, length-infos rs)

      info_slots :
          fill slot.lto_info 0 (ltos_at p 0 (byte_at p 11 / 13))
          ≡ infos rs ++ drop (length (infos rs)) slot.lto_info
      info_slots = ap (fill slot.lto_info 0) listed ∙ filled

      shown : descriptor_at p (reset t0) slot.lto_info ≡ record {
        descriptor_tag = 0x58;
        descriptor_length = 13 * length (infos rs);
        lto_info = infos rs ++ drop (length (infos rs)) slot.lto_info;
        number_of_infos = length (infos rs);
      }
      shown = λ i. record {
        descriptor_tag = 0x58;
        descriptor_length = bytes i;
        lto_info = info_slots i;
        number_of_infos = number i;
      }

      parsed :
          parse_tot_table (some p) (some t)
          ≡ done (tables_parse_ok, some (with_descriptor p t0 slot.lto_info))
      parsed = rw (
        read-done p 0 (omega arith),
        read-done p 1 (omega arith),
        read-done p 2 (omega arith),
        read-done p 3 (omega arith),
        read-done p 4 (omega arith),
        read-done p 8 (omega arith),
        read-done p 9 (omega arith),
        tot_loop_one 19 p (low_bits (all_16_bits (byte_at p 8) (byte_at p 9)) 12) t0 slot
            loop_length readable refl (omega arith) found size,
      )
