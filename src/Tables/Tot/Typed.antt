-- ===== src/Tables/Tot/Typed.antt =====
-- What parseTotTable stores lies in the ranges of its fields and counts, on any buffer
-- (tables_parser.c).
pub mod Descriptors
pub use Descriptors.*
use ppu_tvi_os.Common.{
  ℕ, zero, suc, ◌+◌, ◌*◌, ◌/◌, ◌≤◌, ◌<◌, ◌≡◌, refl, ◌∙◌, ◌==◌, Bool, true, false, ltb, Option, some,
  none, List, All, length, set, length-set, arith,
}
use ppu_tvi_os.Common.Words.{u8, low_bits, all_16_bits}
use ppu_tvi_os.Common.Outcome.{done, ◌>>=◌, Pointer, read, element, element-lt, set-All}
use ppu_tvi_os.Common.Always.{
  Always, >>=-Always, >>=-Always_any, >>=-Always_of, read-Always, element-Always, if-Always, Holds,
}
use ppu_tvi_os.Tables.Code.{Out, ParseErrorCode, tables_parse_ok}
use ppu_tvi_os.Tables.Tot.{
  LtoDescriptorInfo, LocalTimeOffsetDescriptor, TotTable, read_lto, lto_loop, read_descriptor,
  take_off, tot_loop, fill_tot_table, parse_tot_table,
}

pub record IsTyped (t : TotTable) : Type 0 where
  pub table_id : t.table_id < 256
  pub section_syntax_indicator : t.section_syntax_indicator < 256
  pub section_length : t.section_length < 4096
  pub mjd : t.mjd < 65536
  pub loop_length : t.descriptors_loop_length < 4096
  pub size : length t.descriptors ≡ 20
  pub descriptors : All IsDescriptor t.descriptors
  pub within : t.descriptors_count ≤ 20

-- A table that is still typed, with the same count.
abbrev Round : ℕ → TotTable → Type 0
Round n t = IsTyped t × (t.descriptors_count ≡ n)

read_descriptor-Round :
    (p : Pointer) (t : TotTable)
    → IsTyped t
    → Always (Round t.descriptors_count) (read_descriptor p t)
unfolding read_descriptor
read_descriptor-Round p t v =
    let n = t.descriptors_count in
    >>=-Always (λ b. b < 256) (Round n) (read p (10 + 15 * n)) _ (read-Always p _)
      λ tag byte0.
        if-Always (Round n) (tag == 0x58) _ _
          (>>=-Always IsDescriptor (Round n) (element t.descriptors n) _
            (element-Always IsDescriptor t.descriptors n v.descriptors)
            λ slot old.
              >>=-Always (λ b. b < 256) (Round n) (read p (11 + 15 * n)) _ (read-Always p _)
                λ len byte1.
                  >>=-Always Regions (Round n) (lto_loop (u8 (len / 13)) 0 p slot.lto_info) _
                    (lto_loop-Regions (u8 (len / 13)) 0 p slot.lto_info (old.size, old.regions))
                    λ infos regions.
                      let d : LocalTimeOffsetDescriptor = record {
                        descriptor_tag = tag;
                        descriptor_length = len;
                        lto_info = infos;
                        number_of_infos = u8 (len / 13);
                      } in
                      let new : IsDescriptor d = record {
                        tag = byte0;
                        len = byte1;
                        size = regions.0;
                        regions = regions.1;
                        within = omega arith;
                      } in
                      (
                        record {
                          table_id = v.table_id;
                          section_syntax_indicator = v.section_syntax_indicator;
                          section_length = v.section_length;
                          mjd = v.mjd;
                          loop_length = v.loop_length;
                          size = length-set t.descriptors n d ∙ v.size;
                          descriptors = set-All IsDescriptor t.descriptors n d v.descriptors new;
                          within = v.within;
                        },
                        refl,
                      ))
          (v, refl)

abbrev Loaded : ParseErrorCode × TotTable → Type 0
Loaded r = IsTyped r.1

-- A descriptor that can be read leaves room for its count.
counted-IsTyped :
    (n : ℕ) (t : TotTable) {d : LocalTimeOffsetDescriptor}
    → Round n t
    → element t.descriptors n ≡ done d
    → IsTyped (record t { descriptors_count = u8 (t.descriptors_count + 1) })
counted-IsTyped n t (v, count) found = record {
  table_id = v.table_id;
  section_syntax_indicator = v.section_syntax_indicator;
  section_length = v.section_length;
  mjd = v.mjd;
  loop_length = v.loop_length;
  size = v.size;
  descriptors = v.descriptors;
  within = let room = element-lt t.descriptors n found in omega (arith, v.size);
}

tot_round-IsTyped :
    (fuel : ℕ) (p : Pointer) (loop_length : ℕ) (t : TotTable) (more : Bool)
    → IsTyped t
    → ((n : ℕ) (t : TotTable) → IsTyped t → Always Loaded (tot_loop fuel p n t))
    → Always Loaded (elim more [
      | true ↦ do
        t' ← read_descriptor p t
        descriptor ← element t'.descriptors t.descriptors_count
        tot_loop fuel p
            (take_off loop_length (descriptor.descriptor_length + 2))
            (record t' { descriptors_count = u8 (t'.descriptors_count + 1) })
      | false ↦ done (tables_parse_ok, t)
    ])
tot_round-IsTyped fuel p loop_length t false v next = v
tot_round-IsTyped fuel p loop_length t true v next =
    >>=-Always (Round t.descriptors_count) Loaded (read_descriptor p t) _
      (read_descriptor-Round p t v)
      λ t' kept. >>=-Always_of Loaded (element t'.descriptors t.descriptors_count) _ λ d found.
        next (take_off loop_length (d.descriptor_length + 2))
          (record t' { descriptors_count = u8 (t'.descriptors_count + 1) })
          (counted-IsTyped t.descriptors_count t' kept found)

tot_loop-IsTyped :
    (fuel : ℕ) (p : Pointer) (loop_length : ℕ) (t : TotTable)
    → IsTyped t
    → Always Loaded (tot_loop fuel p loop_length t)
unfolding tot_loop
tot_loop-IsTyped zero p loop_length t v = tt
tot_loop-IsTyped (suc fuel) p loop_length t v =
    tot_round-IsTyped fuel p loop_length t (ltb 4 loop_length) v (tot_loop-IsTyped fuel p)

-- The table whose count is reset.
reset-IsTyped : (t : TotTable) → IsTyped t → IsTyped (record t { descriptors_count = 0 })
reset-IsTyped t v = record {
  table_id = v.table_id;
  section_syntax_indicator = v.section_syntax_indicator;
  section_length = v.section_length;
  mjd = v.mjd;
  loop_length = v.loop_length;
  size = v.size;
  descriptors = v.descriptors;
  within = omega arith;
}

fill_tot_table-IsTyped :
    (p : Pointer) (t : TotTable) → IsTyped t → Always (Out IsTyped) (fill_tot_table p t)
unfolding fill_tot_table
fill_tot_table-IsTyped p t v =
    >>=-Always (λ b. b < 256) (Out IsTyped) (read p 0) _ (read-Always p 0)
      λ b0 byte0. >>=-Always_any (Out IsTyped) (read p 1) _ λ b1.
        >>=-Always_any (Out IsTyped) (read p 2) _ λ b2.
          >>=-Always_any (Out IsTyped) (read p 3) _ λ b3.
            >>=-Always_any (Out IsTyped) (read p 4) _ λ b4.
              >>=-Always_any (Out IsTyped) (read p 8) _ λ b8.
                >>=-Always_any (Out IsTyped) (read p 9) _ λ b9.
                  let t0 : TotTable = record t {
                    table_id = b0;
                    section_length = low_bits (all_16_bits b1 b2) 12;
                    mjd = all_16_bits b3 b4;
                    descriptors_loop_length = low_bits (all_16_bits b8 b9) 12;
                  } in
                  let v0 : IsTyped t0 = record {
                    table_id = byte0;
                    section_syntax_indicator = v.section_syntax_indicator;
                    section_length = omega arith;
                    mjd = omega arith;
                    loop_length = omega arith;
                    size = v.size;
                    descriptors = v.descriptors;
                    within = v.within;
                  } in
                  >>=-Always Loaded (Out IsTyped) (tot_loop 21 p t0.descriptors_loop_length t0) _
                    (tot_loop-IsTyped 21 p t0.descriptors_loop_length t0 v0) λ r h. h

-- Whatever the buffer holds, if parseTotTable returns, the table has every field in its range and
-- every count within its array.
pub parse_tot_table-IsTyped :
    (p : Option Pointer) (o : Option TotTable)
    → Holds IsTyped o
    → Always (Out IsTyped) (parse_tot_table p o)
unfolding parse_tot_table
parse_tot_table-IsTyped none none v = tt
parse_tot_table-IsTyped (some p) none v = tt
parse_tot_table-IsTyped none (some t) v = reset-IsTyped t v
parse_tot_table-IsTyped (some p) (some t) v =
    fill_tot_table-IsTyped p (record t { descriptors_count = 0 }) (reset-IsTyped t v)
