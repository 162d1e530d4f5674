-- ===== src/Tables/Pmt/Layout.antt =====
-- The byte layout of a program map section (ISO/IEC 13818-1), as a printer, and parsePmtTable on
-- what it prints (tables_parser.c).
use ppu_tvi_os.Common.{
  ℕ, ◌+◌, ◌*◌, ◌/◌, ◌%◌, ◌<◌, ◌≡◌, ap₂, List, [], ◌∷◌, ◌++◌, arith, length, length-append, set,
}
use ppu_tvi_os.Common.Slots.{fill}
use ppu_tvi_os.Common.Outcome.{Pointer, start_of, Shows, Shows-byte_at}
use ppu_tvi_os.Tables.Pmt.{PmtTableHeader, PmtElementaryInfo, PmtTable}
use ppu_tvi_os.Tables.Pmt.Steps.{header_at, element_at, add_element}

-- An elementary stream with the bytes of its descriptors.
pub record Entry : Type 0 where
  pub info : PmtElementaryInfo
  pub descriptors : List ℕ

abbrev pub infos : List Entry → List PmtElementaryInfo
infos [] = []
infos (e ∷ es) = e.info ∷ infos es

-- Reserved bits are one.
abbrev pub encode_info : PmtElementaryInfo → List ℕ
encode_info x =
    x.stream_type
    ∷ (224 + x.elementary_pid / 256)
    ∷ x.elementary_pid % 256
    ∷ (240 + x.es_info_length / 256)
    ∷ x.es_info_length % 256
    ∷ []

abbrev pub encode_entry : Entry → List ℕ
encode_entry e = encode_info e.info ++ e.descriptors

abbrev pub encode_entries : List Entry → List ℕ → List ℕ
encode_entries [] rest = rest
encode_entries (e ∷ es) rest = encode_entry e ++ encode_entries es rest

abbrev pub entries_size : List Entry → ℕ
entries_size [] = 0
entries_size (e ∷ es) = 5 + length e.descriptors + entries_size es

abbrev pub encode_pmt_header : PmtTableHeader → List ℕ
encode_pmt_header h =
    h.table_id
    ∷ (h.section_syntax_indicator * 128 + 48 + h.section_length / 256)
    ∷ h.section_length % 256
    ∷ h.program_number / 256
    ∷ h.program_number % 256
    ∷ (192 + h.version_number * 2 + h.current_next_indicator)
    ∷ h.section_number
    ∷ h.last_section_number
    ∷ (224 + h.pcr_pid / 256)
    ∷ h.pcr_pid % 256
    ∷ (240 + h.program_info_length / 256)
    ∷ h.program_info_length % 256
    ∷ []

-- A whole section: header, program descriptors, elementary streams, and the CRC's bytes.
abbrev pub encode_pmt : PmtTableHeader → List ℕ → List Entry → List ℕ → List ℕ
encode_pmt h program_info es crc = (encode_pmt_header h ++ program_info) ++ encode_entries es crc

-- The fields fit their bits, and the length field counts the descriptors.
pub record IsEntry (e : Entry) : Type 0 where
  pub stream_type : e.info.stream_type < 256
  pub elementary_pid : e.info.elementary_pid < 8192
  pub es_info_length : e.info.es_info_length < 4096
  pub counted : e.info.es_info_length ≡ length e.descriptors

pub record IsPmtHeader (h : PmtTableHeader) : Type 0 where
  pub table_id : h.table_id ≡ 2
  pub section_syntax_indicator : h.section_syntax_indicator < 2
  pub section_length : h.section_length < 4096
  pub program_number : h.program_number < 65536
  pub version_number : h.version_number < 32
  pub current_next_indicator : h.current_next_indicator < 2
  pub section_number : h.section_number < 256
  pub last_section_number : h.last_section_number < 256
  pub pcr_pid : h.pcr_pid < 8192
  pub program_info_length : h.program_info_length < 4096

-- The header as parsePmtHeader reads it: the mask 0xFFFF keeps the three reserved bits of the
-- PCR pid.
abbrev pub unmasked : PmtTableHeader → PmtTableHeader
unmasked h = record h { pcr_pid = 57344 + h.pcr_pid }

pub header_at-encode :
    (h : PmtTableHeader) (rest : List ℕ)
    → IsPmtHeader h
    → header_at (start_of (encode_pmt_header h ++ rest)) ≡ unmasked h
header_at-encode h rest v = ground arith

pub length-encode_entries :
    (es : List Entry) (rest : List ℕ)
    → length (encode_entries es rest) ≡ entries_size es + length rest
length-encode_entries [] rest = omega arith
length-encode_entries (e ∷ es) rest =
    omega
      (arith, length-encode_entries es rest, length-append e.descriptors (encode_entries es rest))

pub element_at-encode :
    (p : Pointer) (e : Entry) (rest : List ℕ)
    → IsEntry e
    → Shows p (encode_entry e ++ rest)
    → element_at p ≡ e.info
element_at-encode p e rest v h =
    let bytes = encode_entry e ++ rest in
    rw
      (
        Shows-byte_at p bytes 0 h,
        Shows-byte_at p bytes 1 h,
        Shows-byte_at p bytes 2 h,
        Shows-byte_at p bytes 3 h,
        Shows-byte_at p bytes 4 h,
      )
      (ground arith)

-- The table with more elements behind those that it has.
abbrev pub add_elements : PmtTable → List PmtElementaryInfo → PmtTable
add_elements t xs = record t {
  pmt_elementary_info_array = fill t.pmt_elementary_info_array t.elementary_info_count xs;
  elementary_info_count = t.elementary_info_count + length xs;
}

pub add_elements-nil : (t : PmtTable) → add_elements t [] ≡ t
add_elements-nil t = ground arith

pub add_elements-cons :
    (t : PmtTable) (x : PmtElementaryInfo) (xs : List PmtElementaryInfo)
    → t.elementary_info_count < 20
    → add_elements (add_element t x) xs ≡ add_elements t (x ∷ xs)
add_elements-cons t x xs room =
    ap₂
      (λ m n. record t {
        pmt_elementary_info_array =
            fill (set t.pmt_elementary_info_array t.elementary_info_count x) m xs;
        elementary_info_count = n;
      })
      (omega arith) (omega arith)
