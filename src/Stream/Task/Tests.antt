-- ===== src/Stream/Task/Tests.antt =====
-- The start of the stream controller on concrete sections (stream_controller.c).
use ppu_tvi_os.Common.{[], ◌∷◌, ◌++◌, some, none, true, false, arith, refl, ◌≡◌, replicate}
use ppu_tvi_os.Common.Outcome.{done, read, start_of, Returns}
use ppu_tvi_os.Tables.Code.{tables_parse_ok}
use ppu_tvi_os.Tables.Zeroed.{no_service, no_pat, no_tdt, no_info}
use ppu_tvi_os.Tables.Pat.{PatTable, parse_pat_service_info, parse_pat_table}
use ppu_tvi_os.Tables.Pat.Layout.{encode_pat}
use ppu_tvi_os.Tables.Pat.Tests.{two_services, pat_header, crc}
use ppu_tvi_os.Tables.Pmt.Tests.{pmt_section}
use ppu_tvi_os.Tables.Tdt.{TdtTable, parse_tdt_table}
use ppu_tvi_os.Tables.Tdt.Tests.{tdt_section}
use ppu_tvi_os.Tables.Tot.Layout.{encode_tot, infos}
use ppu_tvi_os.Tables.Tot.Tests.{parsed_tot, tot_section-parsed, front, regions}
use ppu_tvi_os.Stream.State.{Controller, sc_no_error}
use ppu_tvi_os.Stream.Tests.{running, willing, parsed_pmt, parsed_pmt-IsValid, pmt_section-parsed}
use ppu_tvi_os.Stream.Task.{start_task, prepare, locks_in_time}
use ppu_tvi_os.Stream.Task.Balance.{Balanced, prepare-Balanced}
use ppu_tvi_os.Stream.Task.Running.{Broadcast, IsBroadcast, IsRunning, start_task-IsRunning}

abbrev parsed_pat : PatTable
parsed_pat = record {
  pat_header = pat_header 17;
  pat_service_info_array = two_services ++ replicate 18 no_service;
  service_info_count = 2;
}

abbrev parsed_tdt : TdtTable
parsed_tdt = record {
  table_id = 0x70;
  section_syntax_indicator = 0;
  section_length = 5;
  mjd = 57753;
  tmp_year = 116;
  year = 2016;
  tmp_month = 12;
  day = 30;
  k = 0;
}

abbrev pub broadcast : Broadcast
broadcast = record {
  pat_section = encode_pat (pat_header 17) two_services crc;
  pmt_section = pmt_section;
  tdt_section = tdt_section 57753;
  tot_section = encode_tot front regions [];
  pat = parsed_pat;
  pmt = parsed_pmt;
  tdt = parsed_tdt;
  tot = parsed_tot;
  service = record { program_number = 258; pid = 4660 };
}

pat_section-parsed :
    parse_pat_table (some (start_of broadcast.pat_section)) (some no_pat)
    ≡ done (tables_parse_ok, some parsed_pat)
unfolding parse_pat_table parse_pat_service_info read
pat_section-parsed = refl

tdt_section-parsed :
    parse_tdt_table (some (start_of (tdt_section 57753))) (some no_tdt)
    ≡ done (tables_parse_ok, some parsed_tdt)
unfolding parse_tdt_table read
tdt_section-parsed = refl

pub broadcast-IsBroadcast : IsBroadcast 0 broadcast
broadcast-IsBroadcast = record {
  pat_starts = (omega arith, refl);
  pmt_starts = (omega arith, refl);
  tdt_starts = (omega arith, refl);
  tot_starts = (omega arith, refl);
  pat_parsed = pat_section-parsed;
  pmt_parsed = pmt_section-parsed;
  tdt_parsed = tdt_section-parsed;
  tot_parsed = tot_section-parsed;
  found = refl;
  valid = parsed_pmt-IsValid;
  region = record {
    descriptor = record {
      descriptor_tag = 0x58;
      descriptor_length = 26;
      lto_info = infos regions ++ replicate 18 no_info;
      number_of_infos = 2;
    };
    region = record {
      country_ch1 = 83;
      country_ch2 = 82;
      country_ch3 = 66;
      country_region_id = 1;
      local_time_offset_polarity = 0;
      local_time_offset_hours = 1;
      local_time_offset_minutes = 30;
    };
    found = refl;
    within = refl;
  };
}

-- Before streamControllerInit, with the sections that are going to come in.
abbrev unstarted : Controller
unstarted = record running {
  pat_table = none;
  pmt_table = none;
  tdt_table = none;
  tot_table = none;
  is_initialized = false;
  time_tables_received = false;
  incoming =
      broadcast.pat_section ∷ broadcast.pmt_section ∷ broadcast.tdt_section ∷ broadcast.tot_section
      ∷ [];
}

pub willing-locks : locks_in_time (willing.statuses []) ≡ true
unfolding locks_in_time
willing-locks = refl

start_task-IsRunning_example :
    Returns
      (start_task willing unstarted)
      (λ r. (r.0 ≡ sc_no_error) × IsRunning willing 0 broadcast [] r.1)
start_task-IsRunning_example =
    start_task-IsRunning willing (λ made k. refl) (λ made. willing-locks) unstarted 0 broadcast []
      broadcast-IsBroadcast refl refl refl refl

prepare-Balanced_example : Balanced willing 1 1 unstarted (prepare willing unstarted)
prepare-Balanced_example = prepare-Balanced willing unstarted
