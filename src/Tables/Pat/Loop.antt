-- ===== src/Tables/Pat/Loop.antt =====
-- The loop of parsePatTable over services that fit the table, and over too many
-- (tables_parser.c).
use ppu_tvi_os.Common.{
  ℕ, zero, suc, ◌+◌, ◌-◌, ◌*◌, ◌≤◌, ◌<◌, ◌≡◌, ◌∙◌, ap, ap₂, sym, List, [], ◌∷◌, arith, length, set,
  length-set,
}
use ppu_tvi_os.Common.Slots.{fill}
use ppu_tvi_os.Common.Words.{u32}
use ppu_tvi_os.Common.Outcome.{done, Pointer, advance, Readable}
use ppu_tvi_os.Tables.Code.{tables_parse_error, tables_parse_ok}
use ppu_tvi_os.Tables.Pat.{PatServiceInfo, PatTable, pat_loop}
use ppu_tvi_os.Tables.Pat.Steps.{
  service_at, add_service, pat_loop-stop, pat_loop-full, pat_loop-round,
}

-- The `n` services that lie one behind the other from a pointer on.
abbrev pub services_at : Pointer → ℕ → List PatServiceInfo
services_at p zero = []
services_at p (suc n) = service_at p ∷ services_at (advance p 4) n

-- The table with more services behind those that it has.
abbrev pub add_services : PatTable → List PatServiceInfo → PatTable
add_services t xs = record t {
  pat_service_info_array = fill t.pat_service_info_array t.service_info_count xs;
  service_info_count = t.service_info_count + length xs;
}

add_services-nil : (t : PatTable) → add_services t [] ≡ t
add_services-nil t = ground arith

add_services-cons :
    (t : PatTable) (x : PatServiceInfo) (xs : List PatServiceInfo)
    → t.service_info_count < 20
    → add_services (add_service t x) xs ≡ add_services t (x ∷ xs)
add_services-cons t x xs room =
    ap₂
      (λ m n. record t {
        pat_service_info_array = fill (set t.pat_service_info_array t.service_info_count x) m xs;
        service_info_count = n;
      })
      (omega arith) (omega arith)

-- What holds of every table that the parser has filled.
pub record IsValid (t : PatTable) : Type 0 where
  pub size : length t.pat_service_info_array ≡ 20
  pub within : t.service_info_count ≤ 20
  pub short : t.pat_header.section_length < 4096

pub add_service-IsValid :
    (t : PatTable) (x : PatServiceInfo)
    → IsValid t
    → t.service_info_count < 20
    → IsValid (add_service t x)
add_service-IsValid t x v room =
    omega (arith, length-set t.pat_service_info_array t.service_info_count x)

-- The loop over `n` services that fit.
pub pat_loop_fits :
    (n fuel : ℕ) (p : Pointer) (parsed_length : ℕ) (t : PatTable)
    → n < fuel
    → IsValid t
    → Readable p (4 * n)
    → t.pat_header.section_length ≤ parsed_length + 4 * n
    → 4 * n < t.pat_header.section_length - parsed_length + 4
    → t.service_info_count + n ≤ 20
    → pat_loop fuel p parsed_length t ≡ done (tables_parse_ok, add_services t (services_at p n))
pat_loop_fits n zero p parsed_length t f v r lo hi room = absurd (omega arith)
pat_loop_fits zero (suc fuel) p parsed_length t f v r lo hi room =
    pat_loop-stop fuel p parsed_length t (omega arith)
    ∙ ap (λ k. done (tables_parse_ok, k)) (sym (add_services-nil t))
pat_loop_fits (suc n) (suc fuel) p parsed_length t f v r lo hi room =
    pat_loop-round fuel p parsed_length t (omega arith) (omega arith) v.size (omega arith)
    ∙ pat_loop_fits n fuel (advance p 4) (u32 (parsed_length + 4)) (add_service t (service_at p))
        (omega arith) (add_service-IsValid t (service_at p) v (omega arith)) (omega arith)
        (omega arith) (omega arith) (omega arith)
    ∙ ap (λ k. done (tables_parse_ok, k))
        (add_services-cons t (service_at p) (services_at (advance p 4) n) (omega arith))

-- The loop over more services than there is room for: it stops when the table is full.
pub pat_loop_overflows :
    (n fuel : ℕ) (p : Pointer) (parsed_length : ℕ) (t : PatTable)
    → n < fuel
    → IsValid t
    → Readable p (4 * n)
    → parsed_length + 4 * n < t.pat_header.section_length
    → t.service_info_count + n ≡ 20
    → pat_loop fuel p parsed_length t ≡ done (tables_parse_error, add_services t (services_at p n))
pat_loop_overflows n zero p parsed_length t f v r lo room = absurd (omega arith)
pat_loop_overflows zero (suc fuel) p parsed_length t f v r lo room =
    pat_loop-full fuel p parsed_length t (omega arith) (omega arith)
    ∙ ap (λ k. done (tables_parse_error, k)) (sym (add_services-nil t))
pat_loop_overflows (suc n) (suc fuel) p parsed_length t f v r lo room =
    pat_loop-round fuel p parsed_length t (omega arith) (omega arith) v.size (omega arith)
    ∙ pat_loop_overflows n fuel (advance p 4) (u32 (parsed_length + 4))
        (add_service t (service_at p)) (omega arith)
        (add_service-IsValid t (service_at p) v (omega arith)) (omega arith) (omega arith)
        (omega arith)
    ∙ ap (λ k. done (tables_parse_error, k))
        (add_services-cons t (service_at p) (services_at (advance p 4) n) (omega arith))
