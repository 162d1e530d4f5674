-- ===== src/Tables/Pmt/Typed.antt =====
-- What parsePmtTable stores lies in the ranges of its fields, on any buffer (tables_parser.c).
pub mod Header
pub use Header.*
use ppu_tvi_os.Common.{
  ℕ, zero, suc, ◌+◌, ◌-◌, ◌≤◌, ◌<◌, ◌≡◌, refl, ◌∙◌, ◌==◌, Bool, true, false, ltb, Option, some,
  none, All, length, length-set, arith,
}
use ppu_tvi_os.Common.Words.{u8, u32}
use ppu_tvi_os.Common.Outcome.{Outcome, done, ◌>>=◌, Pointer, advance, read, element, set-All}
use ppu_tvi_os.Common.Always.{Always, >>=-Always, >>=-Always_any, read-Always, if-Always, Holds}
use ppu_tvi_os.Tables.Code.{Out, ParseErrorCode, tables_parse_ok, tables_parse_error}
use ppu_tvi_os.Tables.Pmt.{
  PmtTableHeader, PmtElementaryInfo, PmtTable, fill_pmt_header, parse_pmt_header,
  fill_pmt_elementary_info, parse_pmt_elementary_info, store_element, pmt_loop, parse_pmt_elements,
  parse_pmt_table,
}

pub record IsElement (e : PmtElementaryInfo) : Type 0 where
  pub stream_type : e.stream_type < 256
  pub elementary_pid : e.elementary_pid < 8192
  pub es_info_length : e.es_info_length < 4096

pub record IsTyped (t : PmtTable) : Type 0 where
  pub header : IsHeader t.pmt_header
  pub size : length t.pmt_elementary_info_array ≡ 20
  pub elements : All IsElement t.pmt_elementary_info_array
  pub within : t.elementary_info_count ≤ 20

fill_pmt_elementary_info-IsElement :
    (p : Pointer) → Always (Out IsElement) (fill_pmt_elementary_info p)
unfolding fill_pmt_elementary_info
fill_pmt_elementary_info-IsElement p =
    >>=-Always (λ b. b < 256) (Out IsElement) (read p 0) _ (read-Always p 0)
      λ b0 byte0. >>=-Always_any (Out IsElement) (read p 1) _ λ b1.
        >>=-Always_any (Out IsElement) (read p 2) _ λ b2.
          >>=-Always_any (Out IsElement) (read p 3) _ λ b3.
            >>=-Always_any (Out IsElement) (read p 4) _ λ b4. record {
              stream_type = byte0;
              elementary_pid = omega arith;
              es_info_length = omega arith;
            }

store_element-IsTyped :
    (t : PmtTable) (slot : Option PmtElementaryInfo)
    → IsTyped t
    → Holds IsElement slot
    → IsTyped (store_element t slot)
store_element-IsTyped t none v h = v
store_element-IsTyped t (some info) v h = record {
  header = v.header;
  size = length-set t.pmt_elementary_info_array t.elementary_info_count info ∙ v.size;
  elements =
      set-All IsElement t.pmt_elementary_info_array t.elementary_info_count info v.elements h;
  within = v.within;
}

-- The result of a loop: its code and a typed table.
abbrev Loaded : ParseErrorCode × PmtTable → Type 0
Loaded r = IsTyped r.1

counted-IsTyped :
    (t : PmtTable)
    → IsTyped t
    → t.elementary_info_count < 20
    → IsTyped (record t { elementary_info_count = u8 (t.elementary_info_count + 1) })
counted-IsTyped t v room = record {
  header = v.header;
  size = v.size;
  elements = v.elements;
  within = omega arith;
}

module _ (fuel : ℕ) (p : Pointer) (parsed_length : ℕ) (t : PmtTable) (v : IsTyped t)
    (next : (p : Pointer) (n : ℕ) (t : PmtTable)
      → IsTyped t
      → Always Loaded (pmt_loop fuel p n t)) where
  -- The step over the stored element.
  abbrev step_over : PmtTable → Outcome (ParseErrorCode × PmtTable)
  step_over t' = do
    info ← element t'.pmt_elementary_info_array t'.elementary_info_count
    pmt_loop fuel (advance p (5 + info.es_info_length))
        (u32 (parsed_length + (5 + info.es_info_length)))
        (record t' { elementary_info_count = u8 (t'.elementary_info_count + 1) })

  step_over-IsTyped :
      (t' : PmtTable) → IsTyped t' → t'.elementary_info_count < 20 → Always Loaded (step_over t')
  step_over-IsTyped t' v' room =
      >>=-Always_any Loaded (element t'.pmt_elementary_info_array t'.elementary_info_count) _
        λ info.
          next (advance p (5 + info.es_info_length))
            (u32 (parsed_length + (5 + info.es_info_length)))
            (record t' { elementary_info_count = u8 (t'.elementary_info_count + 1) })
            (counted-IsTyped t' v' room)

  stored-IsTyped :
      (code : ParseErrorCode) (slot : Option PmtElementaryInfo)
      → Holds IsElement slot
      → t.elementary_info_count < 20
      → Always Loaded (elim code [
        | tables_parse_ok ↦ step_over (store_element t slot)
        | tables_parse_error ↦ pmt_loop fuel p parsed_length (store_element t slot)
      ])
  stored-IsTyped tables_parse_error slot h room =
      next p parsed_length (store_element t slot) (store_element-IsTyped t slot v h)
  stored-IsTyped tables_parse_ok slot h room =
      step_over-IsTyped (store_element t slot) (store_element-IsTyped t slot v h) (room_behind slot)
    where
      room_behind :
          (slot : Option PmtElementaryInfo) → (store_element t slot).elementary_info_count < 20
      room_behind none = room
      room_behind (some info) = room

  round-IsTyped :
      (more full : Bool)
      → ltb 19 t.elementary_info_count ≡ full
      → Always Loaded (elim more [
        | true ↦ elim full [
          | true ↦ done (tables_parse_error, t)
          | false ↦ do
            slot ← element t.pmt_elementary_info_array t.elementary_info_count
            (code, slot') ← parse_pmt_elementary_info (some p) (some slot)
            let t' = store_element t slot'
            elim code [
              | tables_parse_ok ↦ step_over t'
              | tables_parse_error ↦ pmt_loop fuel p parsed_length t'
            ]
        ]
        | false ↦ done (tables_parse_ok, t)
      ])
  unfolding parse_pmt_elementary_info
  round-IsTyped false full e = v
  round-IsTyped true true e = v
  round-IsTyped true false e =
      >>=-Always_any Loaded (element t.pmt_elementary_info_array t.elementary_info_count) _ λ slot.
        >>=-Always (Out IsElement) Loaded (fill_pmt_elementary_info p) _
          (fill_pmt_elementary_info-IsElement p) λ r h. stored-IsTyped r.0 r.1 h (ground arith)

pmt_loop-IsTyped :
    (fuel : ℕ) (p : Pointer) (n : ℕ) (t : PmtTable)
    → IsTyped t
    → Always Loaded (pmt_loop fuel p n t)
unfolding pmt_loop
pmt_loop-IsTyped zero p n t v = tt
pmt_loop-IsTyped (suc fuel) p n t v =
    round-IsTyped fuel p n t v (pmt_loop-IsTyped fuel) (ltb n t.pmt_header.section_length)
      (ltb 19 t.elementary_info_count) refl

elements-IsTyped :
    (p : Pointer) (t : PmtTable) (r : ParseErrorCode × Option PmtTableHeader)
    → IsTyped t
    → Out IsHeader r
    → Always (Out IsTyped) (parse_pmt_elements p t r.0 r.1)
unfolding parse_pmt_elements
elements-IsTyped p t (tables_parse_ok, some h) v header =
    let t0 = record t { pmt_header = h; elementary_info_count = 0 } in
    let v0 : IsTyped t0 = record {
      header = header;
      size = v.size;
      elements = v.elements;
      within = omega arith;
    } in
    >>=-Always Loaded (Out IsTyped)
      (pmt_loop 21 (advance p (12 + h.program_info_length))
        (u32 (12 + h.program_info_length + 4 - 3)) t0)
      _
      (pmt_loop-IsTyped 21 (advance p (12 + h.program_info_length))
        (u32 (12 + h.program_info_length + 4 - 3)) t0 v0)
      λ r h. h
elements-IsTyped p t (tables_parse_ok, none) v header = v
elements-IsTyped p t (tables_parse_error, none) v header = v
elements-IsTyped p t (tables_parse_error, some h) v header = record {
  header = header;
  size = v.size;
  elements = v.elements;
  within = v.within;
}

-- Whatever the buffer holds, if parsePmtTable returns, the table still has every field in its range.
pub parse_pmt_table-IsTyped :
    (p : Option Pointer) (o : Option PmtTable)
    → Holds IsTyped o
    → Always (Out IsTyped) (parse_pmt_table p o)
unfolding parse_pmt_table parse_pmt_header
parse_pmt_table-IsTyped none none v = tt
parse_pmt_table-IsTyped none (some t) v = v
parse_pmt_table-IsTyped (some p) none v = tt
parse_pmt_table-IsTyped (some p) (some t) v =
    >>=-Always (Out IsHeader) (Out IsTyped) (fill_pmt_header p t.pmt_header) _
      (fill_pmt_header-IsHeader p t.pmt_header v.header) λ r h. elements-IsTyped p t r v h
