-- ===== src/Tables/Pat/Layout.antt =====
-- The byte layout of a program association section (ISO/IEC 13818-1), as a printer, and
-- parsePatTable as its inverse (tables_parser.c).
use ppu_tvi_os.Common.{
  ℕ, ◌+◌, ◌*◌, ◌/◌, ◌%◌, ◌≤◌, ◌<◌, ◌≡◌, refl, ◌∙◌, ap, ap₂, some, List, [], ◌∷◌, ◌++◌, arith,
  length, All, drop,
}
use ppu_tvi_os.Common.Slots.{fill_start}
use ppu_tvi_os.Common.Outcome.{
  done, Pointer, advance, start_of, Returns, Shows, Shows-byte_at, Shows-start_of, Shows-advance,
}
use ppu_tvi_os.Tables.Code.{tables_parse_ok}
use ppu_tvi_os.Tables.Pat.{PatHeader, PatServiceInfo, PatTable, parse_pat_table}
use ppu_tvi_os.Tables.Pat.Steps.{header_at, service_at}
use ppu_tvi_os.Tables.Pat.Loop.{services_at, add_services}
use ppu_tvi_os.Tables.Pat.Bounds.{service_count, restart, parse_pat_table-fits, section_length_at}

-- The four bytes of a service: reserved bits are one.
abbrev pub encode_service : PatServiceInfo → List ℕ
encode_service x =
    x.program_number / 256 ∷ x.program_number % 256 ∷ (224 + x.pid / 256) ∷ x.pid % 256 ∷ []

abbrev pub encode_services : List PatServiceInfo → List ℕ → List ℕ
encode_services [] rest = rest
encode_services (x ∷ xs) rest = encode_service x ++ encode_services xs rest

abbrev pub encode_pat_header : PatHeader → List ℕ
encode_pat_header h =
    h.table_id
    ∷ (h.section_syntax_indicator * 128 + 48 + h.section_length / 256)
    ∷ h.section_length % 256
    ∷ h.transport_stream_id / 256
    ∷ h.transport_stream_id % 256
    ∷ (192 + h.version_number * 2 + h.current_next_indicator)
    ∷ h.section_number
    ∷ h.last_section_number
    ∷ []

-- A whole section: the header, the services and the four bytes of the CRC.
abbrev pub encode_pat : PatHeader → List PatServiceInfo → List ℕ → List ℕ
encode_pat h xs crc = encode_pat_header h ++ encode_services xs crc

-- The fields fit their bits.
pub record IsService (x : PatServiceInfo) : Type 0 where
  pub program_number : x.program_number < 65536
  pub pid : x.pid < 8192

pub record IsPatHeader (h : PatHeader) : Type 0 where
  pub table_id : h.table_id ≡ 0
  pub section_syntax_indicator : h.section_syntax_indicator < 2
  pub section_length : h.section_length < 4096
  pub transport_stream_id : h.transport_stream_id < 65536
  pub version_number : h.version_number < 32
  pub current_next_indicator : h.current_next_indicator < 2
  pub section_number : h.section_number < 256
  pub last_section_number : h.last_section_number < 256

length-encode_services :
    (xs : List PatServiceInfo) (rest : List ℕ)
    → length (encode_services xs rest) ≡ 4 * length xs + length rest
length-encode_services [] rest = omega arith
length-encode_services (x ∷ xs) rest = omega (arith, length-encode_services xs rest)

service_at-encode :
    (p : Pointer) (x : PatServiceInfo) (rest : List ℕ)
    → IsService x
    → Shows p (encode_service x ++ rest)
    → service_at p ≡ x
service_at-encode p x rest v h =
    let bytes = encode_service x ++ rest in
    rw
      (
        Shows-byte_at p bytes 0 h,
        Shows-byte_at p bytes 1 h,
        Shows-byte_at p bytes 2 h,
        Shows-byte_at p bytes 3 h,
      )
      (ground arith)

services_at-encode :
    (xs : List PatServiceInfo) (p : Pointer) (rest : List ℕ)
    → All IsService xs
    → Shows p (encode_services xs rest)
    → services_at p (length xs) ≡ xs
services_at-encode [] p rest v h = refl
services_at-encode (x ∷ xs) p rest v h =
    ap₂ ◌∷◌ (service_at-encode p x (encode_services xs rest) v.0 h) (
      services_at-encode xs (advance p 4) rest v.1
        (Shows-advance p (encode_service x) (encode_services xs rest) h))

header_at-encode :
    (h : PatHeader) (rest : List ℕ)
    → IsPatHeader h
    → header_at (start_of (encode_pat_header h ++ rest)) ≡ h
header_at-encode h rest v = ground arith

-- The table holds this header and, from slot 0 on, these services; the slots behind them are those
-- of the table before.
pub record Holds (before t : PatTable) (h : PatHeader) (xs : List PatServiceInfo) : Type 0 where
  pub header : t.pat_header ≡ h
  pub count : t.service_info_count ≡ length xs
  pub slots : t.pat_service_info_array ≡ xs ++ drop (length xs) before.pat_service_info_array

restart-Holds :
    (t : PatTable) (h : PatHeader) (xs : List PatServiceInfo)
    → length t.pat_service_info_array ≡ 20
    → length xs ≤ 20
    → Holds t (add_services (restart t h) xs) h xs
restart-Holds t h xs size few = record {
  header = refl;
  count = omega arith;
  slots = fill_start t.pat_service_info_array xs (omega arith);
}

module _ (h : PatHeader) (xs : List PatServiceInfo) (crc : List ℕ) (t : PatTable)
    (header : IsPatHeader h) (services : All IsService xs) (few : length xs ≤ 20)
    (size : length t.pat_service_info_array ≡ 20) where
  -- Parsing the printed section of a header and at most twenty services, with a section_length
  -- that counts them and a CRC of four bytes, succeeds and stores exactly that header and those
  -- services in order in front of the older slots.
  pub parse_pat_table-encode_pat :
      length crc ≡ 4
      → h.section_length ≡ 9 + 4 * length xs
      → Returns
          (parse_pat_table (some (start_of (encode_pat h xs crc))) (some t))
          (λ r. (r.0 ≡ tables_parse_ok) × (t' : PatTable) × (r.1 ≡ some t') × Holds t t' h xs)
  parse_pat_table-encode_pat four counts = (
    (tables_parse_ok, some (add_services (restart t h) xs)),
    parsed,
    (refl, add_services (restart t h) xs, refl, restart-Holds t h xs size few),
  )
    where
      p : Pointer
      p = start_of (encode_pat h xs crc)

      shown : header_at p ≡ h
      shown = header_at-encode h (encode_services xs crc) header

      shown_length : section_length_at p ≡ h.section_length
      shown_length = ap (λ (k : PatHeader). k.section_length) shown

      counted : service_count (section_length_at p) ≡ length xs
      counted = ap service_count shown_length ∙ omega arith

      stored : services_at (advance p 8) (service_count (section_length_at p)) ≡ xs
      stored = rw counted (
          services_at-encode xs (advance p 8) crc services (
            Shows-advance p (encode_pat_header h) (encode_services xs crc)
              (Shows-start_of (encode_pat h xs crc))))

      parsed :
          parse_pat_table (some p) (some t)
          ≡ done (tables_parse_ok, some (add_services (restart t h) xs))
      parsed =
          parse_pat_table-fits p t size (omega (arith, length-encode_services xs crc, shown_length))
            (omega (arith, length-encode_services xs crc)) (omega arith) (omega arith)
          ∙ ap₂ (λ k ys. done (tables_parse_ok, some (add_services (restart t k) ys))) shown stored
