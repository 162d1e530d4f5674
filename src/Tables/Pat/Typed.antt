-- ===== src/Tables/Pat/Typed.antt =====
-- What parsePatTable stores lies in the ranges of its fields, on any buffer (tables_parser.c).
pub mod Header
pub use Header.*
use ppu_tvi_os.Common.{
  ℕ, zero, suc, ◌+◌, ◌≤◌, ◌<◌, ◌≡◌, refl, ◌∙◌, ◌==◌, Bool, true, false, ltb, Option, some, none,
  All, length, length-set, arith,
}
use ppu_tvi_os.Common.Words.{u8, u32}
use ppu_tvi_os.Common.Outcome.{done, ◌>>=◌, Pointer, advance, read, element, set-All}
use ppu_tvi_os.Common.Always.{Always, >>=-Always, >>=-Always_any, read-Always, if-Always, Holds}
use ppu_tvi_os.Tables.Code.{Out, ParseErrorCode, tables_parse_ok, tables_parse_error}
use ppu_tvi_os.Tables.Pat.{
  PatHeader, PatServiceInfo, PatTable, fill_pat_header, parse_pat_header, fill_pat_service_info,
  parse_pat_service_info, store_service, pat_loop, parse_pat_services, parse_pat_table,
}

pub record IsService (s : PatServiceInfo) : Type 0 where
  pub program_number : s.program_number < 65536
  pub pid : s.pid < 8192

pub record IsTyped (t : PatTable) : Type 0 where
  pub header : IsHeader t.pat_header
  pub size : length t.pat_service_info_array ≡ 20
  pub services : All IsService t.pat_service_info_array
  pub within : t.service_info_count ≤ 20

fill_pat_service_info-IsService : (p : Pointer) → Always (Out IsService) (fill_pat_service_info p)
unfolding fill_pat_service_info
fill_pat_service_info-IsService p = >>=-Always_any (Out IsService) (read p 0) _ λ b0.
    >>=-Always_any (Out IsService) (read p 1) _ λ b1.
      >>=-Always_any (Out IsService) (read p 2) _ λ b2.
        >>=-Always_any (Out IsService) (read p 3) _
          λ b3. record { program_number = omega arith; pid = omega arith }

store_service-IsTyped :
    (t : PatTable) (slot : Option PatServiceInfo)
    → IsTyped t
    → Holds IsService slot
    → IsTyped (store_service t slot)
store_service-IsTyped t none v h = v
store_service-IsTyped t (some info) v h = record {
  header = v.header;
  size = length-set t.pat_service_info_array t.service_info_count info ∙ v.size;
  services = set-All IsService t.pat_service_info_array t.service_info_count info v.services h;
  within = v.within;
}

-- The result of a loop: its code and a typed table.
abbrev Loaded : ParseErrorCode × PatTable → Type 0
Loaded r = IsTyped r.1

counted-IsTyped :
    (t : PatTable)
    → IsTyped t
    → t.service_info_count < 20
    → IsTyped (record t { service_info_count = u8 (t.service_info_count + 1) })
counted-IsTyped t v room = record {
  header = v.header;
  size = v.size;
  services = v.services;
  within = omega arith;
}

module _ (fuel : ℕ) (p : Pointer) (parsed_length : ℕ) (t : PatTable) (v : IsTyped t)
    (next : (p : Pointer) (n : ℕ) (t : PatTable)
      → IsTyped t
      → Always Loaded (pat_loop fuel p n t)) where
  stored-IsTyped :
      (code : ParseErrorCode) (slot : Option PatServiceInfo)
      → Holds IsService slot
      → t.service_info_count < 20
      → Always Loaded (elim code [
        | tables_parse_ok ↦
            pat_loop fuel (advance p 4) (u32 (parsed_length + 4)) (record (store_service t slot) {
              service_info_count = u8 ((store_service t slot).service_info_count + 1);
            })
        | tables_parse_error ↦ pat_loop fuel p parsed_length (store_service t slot)
      ])
  stored-IsTyped tables_parse_error slot h room =
      next p parsed_length (store_service t slot) (store_service-IsTyped t slot v h)
  stored-IsTyped tables_parse_ok none h room =
      next (advance p 4) (u32 (parsed_length + 4))
        (record t { service_info_count = u8 (t.service_info_count + 1) }) (counted-IsTyped t v room)
  stored-IsTyped tables_parse_ok (some info) h room =
      next (advance p 4) (u32 (parsed_length + 4)) _ (
        counted-IsTyped (store_service t (some info)) (store_service-IsTyped t (some info) v h)
          room)

  round-IsTyped :
      (more full : Bool)
      → ltb 19 t.service_info_count ≡ full
      → Always Loaded (elim more [
        | true ↦ elim full [
          | true ↦ done (tables_parse_error, t)
          | false ↦ do
            slot ← element t.pat_service_info_array t.service_info_count
            (code, slot') ← parse_pat_service_info (some p) (some slot)
            let t' = store_service t slot'
            elim code [
              | tables_parse_ok ↦
                  pat_loop fuel
                    (advance p 4)
                    (u32 (parsed_length + 4))
                    (record t' { service_info_count = u8 (t'.service_info_count + 1) })
              | tables_parse_error ↦ pat_loop fuel p parsed_length t'
            ]
        ]
        | false ↦ done (tables_parse_ok, t)
      ])
  unfolding parse_pat_service_info
  round-IsTyped false full e = v
  round-IsTyped true true e = v
  round-IsTyped true false e =
      >>=-Always_any Loaded (element t.pat_service_info_array t.service_info_count) _ λ slot.
        >>=-Always (Out IsService) Loaded (fill_pat_service_info p) _
          (fill_pat_service_info-IsService p) λ r h. stored-IsTyped r.0 r.1 h (ground arith)

pat_loop-IsTyped :
    (fuel : ℕ) (p : Pointer) (n : ℕ) (t : PatTable)
    → IsTyped t
    → Always Loaded (pat_loop fuel p n t)
unfolding pat_loop
pat_loop-IsTyped zero p n t v = tt
pat_loop-IsTyped (suc fuel) p n t v =
    round-IsTyped fuel p n t v (pat_loop-IsTyped fuel) (ltb n t.pat_header.section_length)
      (ltb 19 t.service_info_count) refl

services-IsTyped :
    (p : Pointer) (t : PatTable) (r : ParseErrorCode × Option PatHeader)
    → IsTyped t
    → Out IsHeader r
    → Always (Out IsTyped) (parse_pat_services p t r.0 r.1)
unfolding parse_pat_services
services-IsTyped p t (tables_parse_ok, some h) v header =
    let t0 = record t { pat_header = h; service_info_count = 0 } in
    let v0 : IsTyped t0 = record {
      header = header;
      size = v.size;
      services = v.services;
      within = omega arith;
    } in
    >>=-Always Loaded (Out IsTyped) (pat_loop 21 (advance p 8) 9 t0) _
      (pat_loop-IsTyped 21 (advance p 8) 9 t0 v0) λ r h. h
services-IsTyped p t (tables_parse_ok, none) v header = v
services-IsTyped p t (tables_parse_error, none) v header = v
services-IsTyped p t (tables_parse_error, some h) v header = record {
  header = header;
  size = v.size;
  services = v.services;
  within = v.within;
}

-- Whatever the buffer holds, if parsePatTable returns, the table still has every field in its range.
pub parse_pat_table-IsTyped :
    (p : Option Pointer) (o : Option PatTable)
    → Holds IsTyped o
    → Always (Out IsTyped) (parse_pat_table p o)
unfolding parse_pat_table parse_pat_header
parse_pat_table-IsTyped none none v = tt
parse_pat_table-IsTyped none (some t) v = v
parse_pat_table-IsTyped (some p) none v = tt
parse_pat_table-IsTyped (some p) (some t) v =
    >>=-Always (Out IsHeader) (Out IsTyped) (fill_pat_header p t.pat_header) _
      (fill_pat_header-IsHeader p t.pat_header v.header) λ r h. services-IsTyped p t r v h
