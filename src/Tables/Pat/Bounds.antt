-- ===== src/Tables/Pat/Bounds.antt =====
-- parsePatTable as a whole: how many services it reads, that it stays inside the section and the
-- table, and that its loop ends (tables_parser.c).
use ppu_tvi_os.Common.{
  ℕ, zero, suc, ◌+◌, ◌-◌, ◌/◌, ◌≤◌, ◌<◌, ◌≡◌, ◌≢◌, ◌⊎◌, refl, ap, some, Option, List, arith, length,
  inl, inr,
}
use native.Mathlib.Decide.{ℕ_discrete, dec_lt}
use ppu_tvi_os.Common.Slots.{length-fill}
use ppu_tvi_os.Common.Outcome.{done, Pointer, advance, byte_at, Readable, Returns}
use ppu_tvi_os.Tables.Code.{ParseErrorCode, tables_parse_error, tables_parse_ok}
use ppu_tvi_os.Tables.Pat.{PatHeader, PatServiceInfo, PatTable, parse_pat_services, parse_pat_table}
use ppu_tvi_os.Tables.Pat.Steps.{header_at, parse_pat_header-done, parse_pat_header-error}
use ppu_tvi_os.Tables.Pat.Loop.{
  services_at, add_services, IsValid, pat_loop_fits, pat_loop_overflows,
}

-- The services of a section of that length: a group of four bytes that is cut short counts.
abbrev pub service_count : ℕ → ℕ
service_count section_length = (section_length - 9 + 3) / 4

-- The table with a new header and no service.
abbrev pub restart : PatTable → PatHeader → PatTable
restart t h = record t { pat_header = h; service_info_count = 0 }

-- The section_length field of the section at a pointer.
abbrev pub section_length_at : Pointer → ℕ
section_length_at p = (header_at p).section_length

module _ (p : Pointer) (t : PatTable) (size : length t.pat_service_info_array ≡ 20) where
  start-IsValid : IsValid (restart t (header_at p))
  start-IsValid = record { size = size; within = omega arith; short = omega arith }

  module _ (section : Readable p (section_length_at p + 3)) (head : Readable p 8)
      (id : byte_at p 0 ≡ 0) where
    -- A PAT section with at most twenty services is accepted; the table then holds its header and
    -- the services that lie behind it, in order.
    pub parse_pat_table-fits :
        service_count (section_length_at p) ≤ 20
        → parse_pat_table (some p) (some t)
          ≡ done (
            tables_parse_ok,
            some (
                add_services
                  (restart t (header_at p))
                  (services_at (advance p 8) (service_count (section_length_at p)))),
          )
    unfolding parse_pat_table parse_pat_services
    parse_pat_table-fits few = rw (parse_pat_header-done p t.pat_header head id) (
        rw (
          pat_loop_fits (service_count (section_length_at p)) 21 (advance p 8) 9
            (restart t (header_at p)) (omega arith) start-IsValid (omega arith) (omega arith)
            (omega arith) (omega arith)))

    -- A section of table id 0 with more than twenty services, which lies in its buffer, is refused,
    -- and the first twenty services are stored in the table of twenty slots.
    pub parse_pat_table-overflows :
        20 < service_count (section_length_at p)
        → parse_pat_table (some p) (some t)
          ≡ done (
            tables_parse_error,
            some (add_services (restart t (header_at p)) (services_at (advance p 8) 20)),
          )
    unfolding parse_pat_table parse_pat_services
    parse_pat_table-overflows many = rw (parse_pat_header-done p t.pat_header head id) (
        rw (
          pat_loop_overflows 20 21 (advance p 8) 9 (restart t (header_at p)) (omega arith)
            start-IsValid (omega arith) (omega arith) (omega arith)))

pub add_services-IsValid :
    (t : PatTable) (xs : List PatServiceInfo)
    → IsValid t
    → t.service_info_count + length xs ≤ 20
    → IsValid (add_services t xs)
add_services-IsValid t xs v room =
    omega (arith, length-fill t.pat_service_info_array t.service_info_count xs)

length-services_at : (p : Pointer) (n : ℕ) → length (services_at p n) ≡ n
length-services_at p zero = refl
length-services_at p (suc n) = ap suc (length-services_at (advance p 4) n)

abbrev pub Accepted : Pointer → ParseErrorCode → PatTable → Type 0
Accepted p code t' =
    (code ≡ tables_parse_ok)
    × (byte_at p 0 ≡ 0)
    × (service_count (section_length_at p) ≤ 20)
    × (t'.service_info_count ≡ service_count (section_length_at p))

abbrev pub Refused : Pointer → ParseErrorCode → Type 0
Refused p code =
    (code ≡ tables_parse_error) × ((byte_at p 0 ≢ 0) ⊎ (20 < service_count (section_length_at p)))

abbrev rename : PatTable → ℕ → PatTable
rename t b = record t { pat_header = record t.pat_header { table_id = b } }

-- What a call of parsePatTable leaves behind: a valid table, and a verdict with its reason.
abbrev pub Parsed : Pointer → ParseErrorCode × Option PatTable → Type 0
Parsed p r = (t' : PatTable) × (r.1 ≡ some t') × IsValid t' × (Accepted p r.0 t' ⊎ Refused p r.0)

module _ (p : Pointer) (t : PatTable) (v : IsValid t) (head : Readable p 8) where
  parse_pat_table_wrong_id :
      byte_at p 0 ≢ 0 → Returns (parse_pat_table (some p) (some t)) (Parsed p)
  unfolding parse_pat_table parse_pat_services
  parse_pat_table_wrong_id ne = (
    (tables_parse_error, some (rename t (byte_at p 0))),
    rw (parse_pat_header-error p t.pat_header (omega arith) ne),
    (rename t (byte_at p 0), refl, omega arith, inr (refl, inl ne)),
  )

  module _ (section : Readable p (section_length_at p + 3)) (id : byte_at p 0 ≡ 0) where
    parse_pat_table_few :
        service_count (section_length_at p) ≤ 20
        → Returns (parse_pat_table (some p) (some t)) (Parsed p)
    parse_pat_table_few few =
        let xs = services_at (advance p 8) (service_count (section_length_at p)) in
        let t0 = restart t (header_at p) in
        let n = length-services_at (advance p 8) (service_count (section_length_at p)) in
        (
          (tables_parse_ok, some (add_services t0 xs)),
          parse_pat_table-fits p t v.size section head id few,
          (
            add_services t0 xs,
            refl,
            add_services-IsValid t0 xs (start-IsValid p t v.size) (omega (arith, n)),
            inl (refl, id, few, omega (arith, n)),
          ),
        )

    parse_pat_table_many :
        20 < service_count (section_length_at p)
        → Returns (parse_pat_table (some p) (some t)) (Parsed p)
    parse_pat_table_many many =
        let xs = services_at (advance p 8) 20 in
        let t0 = restart t (header_at p) in
        (
          (tables_parse_error, some (add_services t0 xs)),
          parse_pat_table-overflows p t v.size section head id many,
          (
            add_services t0 xs,
            refl,
            add_services-IsValid t0 xs (start-IsValid p t v.size) (omega arith),
            inr (refl, inr many),
          ),
        )

  -- On a valid table and a buffer that holds the eight bytes of a header and the whole section of
  -- its section_length field, parsePatTable returns:
  -- no access leaves the section or the table, and the loop ends. It accepts exactly the sections
  -- of table id 0 with at most twenty services, the count is then that of the section, and the
  -- table is valid in every case.
  pub parse_pat_table-Returns :
      Readable p (section_length_at p + 3) → Returns (parse_pat_table (some p) (some t)) (Parsed p)
  parse_pat_table-Returns section = elim (ℕ_discrete (byte_at p 0) 0) [
    | no ne ↦ parse_pat_table_wrong_id ne
    | yes id ↦ elim (dec_lt 20 (service_count (section_length_at p))) [
      | yes many ↦ parse_pat_table_many section id many
      | no few ↦ parse_pat_table_few section id (omega arith)
    ]
  ]
