-- ===== src/Tables/Pmt/Bounds.antt =====
-- parsePmtTable on any section that lies in its buffer: it stays inside the section and the table,
-- and its loop ends (tables_parser.c).
use ppu_tvi_os.Common.{
  ℕ, zero, suc, ◌+◌, ◌-◌, ◌≤◌, ◌<◌, ◌≡◌, ◌≢◌, ◌⊎◌, inl, inr, refl, some, Option, arith, length,
  length-set, ltb, ltb→lt, Bool-cases,
}
use native.Mathlib.Decide.{ℕ_discrete}
use ppu_tvi_os.Common.Words.{u32}
use ppu_tvi_os.Common.Outcome.{Pointer, advance, byte_at, Readable, Returns}
use ppu_tvi_os.Tables.Code.{ParseErrorCode, tables_parse_error, tables_parse_ok}
use ppu_tvi_os.Tables.Pmt.{
  PmtTableHeader, PmtElementaryInfo, PmtTable, pmt_loop, parse_pmt_elements, parse_pmt_table,
}
use ppu_tvi_os.Tables.Pmt.Steps.{
  header_at, element_at, stride_at, add_element, parse_pmt_header-done, parse_pmt_header-error,
  pmt_loop-stop, pmt_loop-full, pmt_loop-round,
}

-- What holds of every table that the parser has filled.
pub record IsValid (t : PmtTable) : Type 0 where
  pub size : length t.pmt_elementary_info_array ≡ 20
  pub within : t.elementary_info_count ≤ 20
  pub short : t.pmt_header.section_length < 4096
  pub info_short : t.pmt_header.program_info_length < 4096

pub add_element-IsValid :
    (t : PmtTable) (x : PmtElementaryInfo)
    → IsValid t
    → t.elementary_info_count < 20
    → IsValid (add_element t x)
add_element-IsValid t x v room =
    omega (arith, length-set t.pmt_elementary_info_array t.elementary_info_count x)

-- The table that a loop leaves: still valid, under the same header, and full if it was refused.
abbrev pub Ended : PmtTableHeader → ParseErrorCode × PmtTable → Type 0
Ended h r =
    IsValid r.1
    × (r.1.pmt_header ≡ h)
    × ((r.0 ≡ tables_parse_ok) ⊎ ((r.0 ≡ tables_parse_error) × (r.1.elementary_info_count ≡ 20)))

-- `base` is where the section begins. The position is one byte short of what `parsed_length`
-- counts, as the CRC's four bytes are counted and the first three bytes are not.
pmt_loop-Returns :
    (fuel base : ℕ) (p : Pointer) (parsed_length : ℕ) (t : PmtTable)
    → t.elementary_info_count + fuel ≡ 21
    → IsValid t
    → p.offset + 1 ≡ base + parsed_length
    → base + t.pmt_header.section_length + 3 ≤ length p.buffer
    → Returns (pmt_loop fuel p parsed_length t) (Ended t.pmt_header)
pmt_loop-Returns zero base p parsed_length t f v here section = absurd (omega arith)
pmt_loop-Returns (suc fuel) base p parsed_length t f v here section =
    elim (Bool-cases (ltb parsed_length t.pmt_header.section_length)) [
      | inr over ↦ (
        (tables_parse_ok, t),
        pmt_loop-stop fuel p parsed_length t (ground arith),
        (v, refl, inl refl),
      )
      | inl more ↦ elim (Bool-cases (ltb 19 t.elementary_info_count)) [
        | inl full ↦ (
          (tables_parse_error, t),
          pmt_loop-full fuel p parsed_length t (ltb→lt _ _ more) (ltb→lt _ _ full),
          (v, refl, inr (refl, omega (arith, ltb→lt 19 t.elementary_info_count full))),
        )
        | inr room ↦
            let m = ltb→lt parsed_length t.pmt_header.section_length more in
            let r : t.elementary_info_count < 20 = ground arith in
            rw (pmt_loop-round fuel p parsed_length t m r v.size (omega arith)) (
              pmt_loop-Returns fuel base (advance p (stride_at p))
                (u32 (parsed_length + stride_at p)) (add_element t (element_at p)) (omega arith)
                (add_element-IsValid t (element_at p) v r) (omega arith) (omega arith))
      ]
    ]

-- The section_length field of the section at a pointer.
abbrev pub section_length_at : Pointer → ℕ
section_length_at p = (header_at p).section_length

-- The table with a new header and no element.
abbrev pub restart : PmtTable → PmtTableHeader → PmtTable
restart t h = record t { pmt_header = h; elementary_info_count = 0 }

-- What a call of parsePmtTable leaves behind: a valid table, and a verdict with its reason.
abbrev pub Accepted : Pointer → ParseErrorCode → PmtTable → Type 0
Accepted p code t' = (code ≡ tables_parse_ok) × (byte_at p 0 ≡ 2) × (t'.pmt_header ≡ header_at p)

abbrev pub Refused : Pointer → ParseErrorCode → PmtTable → Type 0
Refused p code t' =
    (code ≡ tables_parse_error)
    × ((byte_at p 0 ≢ 2) ⊎ ((t'.elementary_info_count ≡ 20) × (t'.pmt_header ≡ header_at p)))

abbrev pub Parsed : Pointer → ParseErrorCode × Option PmtTable → Type 0
Parsed p r = (t' : PmtTable) × (r.1 ≡ some t') × IsValid t' × (Accepted p r.0 t' ⊎ Refused p r.0 t')

abbrev rename : PmtTable → ℕ → PmtTable
rename t b = record t { pmt_header = record t.pmt_header { table_id = b } }

verdict_of :
    (p : Pointer) (r : ParseErrorCode × PmtTable)
    → byte_at p 0 ≡ 2
    → Ended (header_at p) r
    → Accepted p r.0 r.1 ⊎ Refused p r.0 r.1
verdict_of p r id (v, kept, inl good) = inl (good, id, kept)
verdict_of p r id (v, kept, inr (bad, full)) = inr (bad, inr (full, kept))

module _ (p : Pointer) (t : PmtTable) (v : IsValid t) (head : Readable p 12) where
  parse_pmt_table_refuses : byte_at p 0 ≢ 2 → Returns (parse_pmt_table (some p) (some t)) (Parsed p)
  unfolding parse_pmt_table parse_pmt_elements
  parse_pmt_table_refuses ne = (
    (tables_parse_error, some (rename t (byte_at p 0))),
    rw (parse_pmt_header-error p t.pmt_header (omega arith) ne),
    (rename t (byte_at p 0), refl, omega arith, inr (refl, inl ne)),
  )

  parse_pmt_table_accepts :
      Readable p (section_length_at p + 3)
      → byte_at p 0 ≡ 2
      → Returns (parse_pmt_table (some p) (some t)) (Parsed p)
  unfolding parse_pmt_table parse_pmt_elements
  parse_pmt_table_accepts section id =
      let h = header_at p in
      let fresh : IsValid (restart t h) = record {
        size = v.size;
        within = omega arith;
        short = omega arith;
        info_short = omega arith;
      } in
      let (r, run, ended) =
        pmt_loop-Returns 21 p.offset (advance p (12 + h.program_info_length))
          (u32 (12 + h.program_info_length + 4 - 3)) (restart t h) (omega arith) fresh (omega arith)
          (omega arith) in
      (
        (r.0, some r.1),
        rw (parse_pmt_header-done p t.pmt_header head id) (rw run),
        (r.1, refl, ended.0, verdict_of p r id ended),
      )

  -- On a valid table and a buffer that holds the twelve bytes of a header and the whole section of
  -- its section_length field, parsePmtTable returns:
  -- no access leaves the section or the table, and the loop ends, whatever the lengths inside the
  -- section say. The table is valid in every case; an accepted section has table id 2 and its
  -- header is stored; a section that is refused has another id, or its elements filled all twenty
  -- slots under its own header.
  pub parse_pmt_table-Returns :
      Readable p (section_length_at p + 3) → Returns (parse_pmt_table (some p) (some t)) (Parsed p)
  parse_pmt_table-Returns section = elim (ℕ_discrete (byte_at p 0) 2) [
    | yes id ↦ parse_pmt_table_accepts section id
    | no ne ↦ parse_pmt_table_refuses ne
  ]
