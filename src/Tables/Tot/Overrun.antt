-- ===== src/Tables/Tot/Overrun.antt =====
-- A descriptor that claims more bytes than the loop has left (tables_parser.c, parseTotTable).
use ppu_tvi_os.Common.{
  ℕ, suc, ◌+◌, ◌*◌, ◌/◌, List, ◌<◌, ◌≡◌, ◌∙◌, ap, some, arith, set, ◌==◌, ==_iff, true,
}
use ppu_tvi_os.Common.Words.{u8, low_bits, all_16_bits}
use ppu_tvi_os.Common.Outcome.{
  done, ◌>>=◌, Pointer, byte_at, Readable, read-done, element, element-set_self, element-Halts,
  Faults, >>=-Faults, >>=-eq-done,
}
use ppu_tvi_os.Tables.Tot.{
  LtoDescriptorInfo, LocalTimeOffsetDescriptor, TotTable, lto_loop, read_descriptor, take_off,
  tot_loop, parse_tot_table,
}
use ppu_tvi_os.Tables.Tot.Steps.{read_descriptor-Halts, tot_loop-round, after_round}
use ppu_tvi_os.Tables.Tot.Ends.{IsTyped, round, tot_loop-Faults}

-- The length byte of the descriptor that a round reads: at a stride of 15 bytes.
abbrev pub length_byte : Pointer → TotTable → ℕ
length_byte p t = byte_at p (11 + 15 * t.descriptors_count)

abbrev pub tag_byte : Pointer → TotTable → ℕ
tag_byte p t = byte_at p (10 + 15 * t.descriptors_count)

-- What a round stores of a local time offset descriptor.
abbrev stored : Pointer → TotTable → List LtoDescriptorInfo → LocalTimeOffsetDescriptor
stored p t infos = record {
  descriptor_tag = tag_byte p t;
  descriptor_length = length_byte p t;
  lto_info = infos;
  number_of_infos = u8 (length_byte p t / 13);
}

module _ (p : Pointer) (t t' : TotTable) (d : LocalTimeOffsetDescriptor)
    (r : Readable p (12 + 15 * t.descriptors_count)) (tag : tag_byte p t ≡ 0x58) where
  stored_by_round :
      read_descriptor p t ≡ done t'
      → (infos : List LtoDescriptorInfo) × (record t {
        descriptors = set t.descriptors t.descriptors_count (stored p t infos);
      }
          ≡ t')
  unfolding read_descriptor
  stored_by_round ran =
      let lto : (tag_byte p t == 0x58) ≡ true = (==_iff (tag_byte p t) 0x58).1 tag in
      let ran' : (do
        slot ← element t.descriptors t.descriptors_count
        infos ← lto_loop (u8 (length_byte p t / 13)) 0 p slot.lto_info
        done (record t { descriptors = set t.descriptors t.descriptors_count (stored p t infos) }))
          ≡ done t' =
        rw
          (
            read-done p (10 + 15 * t.descriptors_count) (omega arith),
            lto,
            read-done p (11 + 15 * t.descriptors_count) (omega arith),
          )
          at ran in
      let (slot, _, e1) = >>=-eq-done (element t.descriptors t.descriptors_count) _ ran' in
      let (infos, _, e2) =
        >>=-eq-done (lto_loop (u8 (length_byte p t / 13)) 0 p slot.lto_info) _ e1 in
      (infos, cc)

  -- A local time offset descriptor is stored with its length byte.
  descriptor_length_lem :
      read_descriptor p t ≡ done t'
      → element t'.descriptors t.descriptors_count ≡ done d
      → d.descriptor_length ≡ length_byte p t
  descriptor_length_lem ran found =
      let (infos, e) = stored_by_round ran in
      let found' : element (set t.descriptors t.descriptors_count (stored p t infos))
            t.descriptors_count
          ≡ done d =
        ap (λ (k : TotTable). element k.descriptors t.descriptors_count) e ∙ found in
      ap (λ (k : LocalTimeOffsetDescriptor). k.descriptor_length)
        (element-set_self t.descriptors t.descriptors_count (stored p t infos) found')

-- In any round, a local time offset descriptor that claims more bytes than the loop has left makes
-- the uint16_t length wrap; from there the parser can only run out of the table's slots or of the
-- buffer, whatever bytes follow.
pub tot_loop_overrun :
    (fuel : ℕ) (p : Pointer) (loop_length : ℕ) (t : TotTable)
    → t.descriptors_count + suc fuel ≡ 21
    → IsTyped t
    → Readable p (12 + 15 * t.descriptors_count)
    → tag_byte p t ≡ 0x58
    → 4 < loop_length
    → loop_length < length_byte p t + 2
    → Faults (tot_loop (suc fuel) p loop_length t)
tot_loop_overrun fuel p loop_length t f v r tag more over =
    rw (tot_loop-round fuel p loop_length t more) (
      >>=-Faults (read_descriptor p t) _ (read_descriptor-Halts p t) λ t' ran.
        >>=-Faults (element t'.descriptors t.descriptors_count)
          (after_round fuel p loop_length t t') (element-Halts t'.descriptors t.descriptors_count)
          λ d found.
            let q = round p t t' d v ran found in
            let claimed = descriptor_length_lem p t t' d r tag ran found in
            tot_loop-Faults fuel p (take_off loop_length (d.descriptor_length + 2))
              (record t' { descriptors_count = u8 (t'.descriptors_count + 1) })
              (omega (arith, q.count, q.room)) (omega (arith, q.count, q.room))
              (record { size = q.typed.size; lengths = q.typed.lengths }) (omega arith)
              (omega (arith, q.count, q.room, q.short, claimed)))

-- The length of the descriptors' loop in the section at a pointer.
abbrev pub loop_length_at : Pointer → ℕ
loop_length_at p = low_bits (all_16_bits (byte_at p 8) (byte_at p 9)) 12

-- A section of the time offset table, of twelve bytes or more, whose loop of more than four bytes
-- starts with a local time offset descriptor that is longer than the loop, drives parseTotTable out
-- of bounds, on any table of twenty descriptors with lengths of a byte.
pub parse_tot_table-overrun :
    (p : Pointer) (t : TotTable)
    → IsTyped t
    → Readable p 12
    → byte_at p 10 ≡ 0x58
    → 4 < loop_length_at p
    → loop_length_at p < byte_at p 11 + 2
    → Faults (parse_tot_table (some p) (some t))
unfolding parse_tot_table
parse_tot_table-overrun p t v r tag more over = rw (
  read-done p 0 (omega arith),
  read-done p 1 (omega arith),
  read-done p 2 (omega arith),
  read-done p 3 (omega arith),
  read-done p 4 (omega arith),
  read-done p 8 (omega arith),
  read-done p 9 (omega arith),
  tot_loop_overrun 20 p (loop_length_at p)
      (record t {
        descriptors_count = 0;
        table_id = byte_at p 0;
        section_length = low_bits (all_16_bits (byte_at p 1) (byte_at p 2)) 12;
        mjd = all_16_bits (byte_at p 3) (byte_at p 4);
        descriptors_loop_length = loop_length_at p;
      })
      (omega arith) (record { size = v.size; lengths = v.lengths }) (omega arith) tag more over,
)
