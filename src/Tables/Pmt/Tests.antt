-- ===== src/Tables/Pmt/Tests.antt =====
-- Program map sections, as concrete data (tables_parser.c).
use ppu_tvi_os.Tables.Zeroed.{no_pmt}
use ppu_tvi_os.Common.{All, ℕ, List, [], ◌∷◌, some, arith, refl, ◌≡◌}
use ppu_tvi_os.Common.Outcome.{start_of, Returns}
use ppu_tvi_os.Tables.Code.{tables_parse_ok}
use ppu_tvi_os.Tables.Pmt.{PmtTableHeader, PmtTable, parse_pmt_table}
use ppu_tvi_os.Tables.Pmt.Bounds.{Parsed, IsValid, parse_pmt_table-Returns}
use ppu_tvi_os.Tables.Pmt.Layout.{IsEntry, Entry, IsPmtHeader, infos, encode_pmt, unmasked}
use ppu_tvi_os.Tables.Pmt.Roundtrip.{Holds, parse_pmt_table-encode_pmt}

pub no_pmt-IsValid : IsValid no_pmt
no_pmt-IsValid = record {
  size = refl;
  within = omega arith;
  short = omega arith;
  info_short = omega arith;
}

-- Audio with a language descriptor of two bytes, and video.
abbrev pub video_and_audio : List Entry
video_and_audio =
    record {
      info = record { stream_type = 3; elementary_pid = 650; es_info_length = 2 };
      descriptors = 10 ∷ 0 ∷ [];
    }
    ∷ record {
      info = record { stream_type = 2; elementary_pid = 513; es_info_length = 0 };
      descriptors = [];
    }
    ∷ []

abbrev pub pmt_header : PmtTableHeader
pmt_header = record {
  table_id = 2;
  section_syntax_indicator = 1;
  section_length = 28;
  program_number = 490;
  version_number = 3;
  current_next_indicator = 1;
  section_number = 0;
  last_section_number = 0;
  pcr_pid = 513;
  program_info_length = 3;
}

abbrev pub program_info : List ℕ
program_info = 9 ∷ 1 ∷ 0 ∷ []

abbrev pub crc : List ℕ
crc = 1 ∷ 2 ∷ 3 ∷ 4 ∷ []

abbrev pub pmt_section : List ℕ
pmt_section = encode_pmt pmt_header program_info video_and_audio crc

pub pmt_header-IsPmtHeader : IsPmtHeader pmt_header
pmt_header-IsPmtHeader = record {
  table_id = refl;
  section_syntax_indicator = omega arith;
  section_length = omega arith;
  program_number = omega arith;
  version_number = omega arith;
  current_next_indicator = omega arith;
  section_number = omega arith;
  last_section_number = omega arith;
  pcr_pid = omega arith;
  program_info_length = omega arith;
}

pub video_and_audio-IsEntry : All IsEntry video_and_audio
video_and_audio-IsEntry = (
  record {
    stream_type = omega arith;
    elementary_pid = omega arith;
    es_info_length = omega arith;
    counted = refl;
  },
  (
    record {
      stream_type = omega arith;
      elementary_pid = omega arith;
      es_info_length = omega arith;
      counted = refl;
    },
    tt,
  ),
)

parse_pmt_table-encode_pmt_example :
    Returns (parse_pmt_table (some (start_of pmt_section)) (some no_pmt)) (λ r.
      (r.0 ≡ tables_parse_ok)
      × (t' : PmtTable) × (r.1 ≡ some t')
      × Holds no_pmt t' (unmasked pmt_header) (infos video_and_audio))
parse_pmt_table-encode_pmt_example =
    parse_pmt_table-encode_pmt pmt_header program_info video_and_audio crc no_pmt
      pmt_header-IsPmtHeader video_and_audio-IsEntry (omega arith) refl refl refl refl

parse_pmt_table-Returns_example :
    Returns
      (parse_pmt_table (some (start_of pmt_section)) (some no_pmt))
      (Parsed (start_of pmt_section))
parse_pmt_table-Returns_example =
    parse_pmt_table-Returns (start_of pmt_section) no_pmt no_pmt-IsValid (omega arith) (omega arith)
