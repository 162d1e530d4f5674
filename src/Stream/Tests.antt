-- ===== src/Stream/Tests.antt =====
-- A running stream controller, as concrete data (stream_controller.c).
use ppu_tvi_os.Tables.Zeroed.{no_element, no_pat, no_pmt, no_service, no_tdt, no_tot}
use ppu_tvi_os.Common.{◌+◌, ◌≤◌, ◌∷◌, [], some, true, false, arith, refl, ◌≡◌, replicate}
use ppu_tvi_os.Common.{ℕ}
use ppu_tvi_os.Common.Int.{pos, negsuc}
use ppu_tvi_os.Common.Outcome.{done, read, start_of, Returns, Faults}
use ppu_tvi_os.Tables.Code.{tables_parse_ok}
use ppu_tvi_os.Tables.Pat.{PatTable, PatServiceInfo}
use ppu_tvi_os.Tables.Pmt.{PmtTable, parse_pmt_elementary_info, parse_pmt_table}
use ppu_tvi_os.Tables.Pmt.Bounds.{IsValid}
use ppu_tvi_os.Tables.Pmt.Layout.{unmasked}
use ppu_tvi_os.Tables.Pmt.Tests.{pmt_section, pmt_header}
use ppu_tvi_os.Stream.Platform.{player_stream_create, status_locked, status_not_locked, Platform}
use ppu_tvi_os.Stream.State.{Controller}
use ppu_tvi_os.Stream.Channels.{channel_down}
use ppu_tvi_os.Stream.Channels.Zapping as Zapping
use ppu_tvi_os.Stream.Channels.Zapping.{next_down-next_up, zap_all, turn_all, zap_all-turn_all}
use ppu_tvi_os.Stream.Start.{change_channel_key, task_round}
use ppu_tvi_os.Stream.Start.Filter.{change_channel_key_last, channel_down_empty}
use ppu_tvi_os.Stream.State.{sc_no_error, sc_error}
use ppu_tvi_os.Stream.Deinit.{stream_controller_deinit}
use ppu_tvi_os.Stream.Deinit.Released.{IsReleased, stream_controller_deinit-IsReleased}

-- A platform on which every call succeeds.
abbrev pub willing : Platform
willing = record {
  fails = λ made k. false;
  new_handle = λ made k. 7;
  statuses = λ made. status_not_locked ∷ status_locked ∷ [];
  dvb_t = 0;
}

abbrev pub service : PatServiceInfo
service = record { program_number = 490; pid = 1001 }

-- The network information service and three programs.
abbrev pub four_services : PatTable
four_services = record no_pat {
  pat_service_info_array = record no_service { pid = 16 } ∷ replicate 19 service;
  service_info_count = 4;
}

abbrev pub running : Controller
running = record {
  pat_table = some four_services;
  pmt_table = some no_pmt;
  tdt_table = some no_tdt;
  tot_table = some no_tot;
  player_handle = 1;
  source_handle = 2;
  stream_handle_a = 3;
  stream_handle_v = 4;
  filter_handle = 5;
  thread_exit = false;
  change_channel = false;
  program_number = pos 0;
  current_channel = record { program_number = pos 1; audio_pid = pos 650; video_pid = pos 513 };
  is_initialized = true;
  time_tables_received = true;
  date_received_callback = true;
  volume_report_callback = true;
  config_file = record {
    tune_frequency = 754000000;
    tune_bandwidth = 8;
    program_number = 2;
    tune_module = 0;
  };
  status_mutex_held = false;
  current_date = record { year = 2016; tmp_month = 12; day = 31 };
  current_volume = 10;
  trace = [];
  incoming = pmt_section ∷ [];
}

zap_all-turn_all_example :
    Returns (zap_all (Zapping.down ∷ Zapping.up ∷ Zapping.up ∷ []) running) (λ c'.
      let m = turn_all 3 (Zapping.down ∷ Zapping.up ∷ Zapping.up ∷ []) 0 in
      (c'.program_number ≡ pos m) × (m + 2 ≤ 4) × (c'.pat_table ≡ some four_services))
zap_all-turn_all_example =
    zap_all-turn_all (Zapping.down ∷ Zapping.up ∷ Zapping.up ∷ []) running four_services 0 refl refl
      (omega arith)

-- What pmt_section parses to.
abbrev pub parsed_pmt : PmtTable
parsed_pmt = record {
  pmt_header = unmasked pmt_header;
  pmt_elementary_info_array =
      record { stream_type = 3; elementary_pid = 650; es_info_length = 2 }
      ∷ record { stream_type = 2; elementary_pid = 513; es_info_length = 0 }
      ∷ replicate 18 no_element;
  elementary_info_count = 2;
}

pub parsed_pmt-IsValid : IsValid parsed_pmt
parsed_pmt-IsValid = record {
  size = refl;
  within = omega arith;
  short = omega arith;
  info_short = omega arith;
}

pub pmt_section-parsed :
    parse_pmt_table (some (start_of pmt_section)) (some no_pmt)
    ≡ done (tables_parse_ok, some parsed_pmt)
unfolding parse_pmt_table parse_pmt_elementary_info read
pmt_section-parsed = refl

-- A PAT with twenty services, and one without any.
abbrev twenty_services : PatTable
twenty_services = record four_services { service_info_count = 20 }

-- Twenty services have come in, or none.
abbrev full : Controller
full = record running { pat_table = some twenty_services }

abbrev empty : Controller
empty = record running { pat_table = some no_pat }

change_channel_key_last_example :
    Faults (change_channel_key willing (pos 19) full)
    × ((n : ℕ) → change_channel_key willing (pos (20 + n)) full ≡ done full)
    × ((n : ℕ) → change_channel_key willing (negsuc n) full ≡ done full)
change_channel_key_last_example =
    change_channel_key_last willing full twenty_services refl
      (record { size = refl; within = omega arith; short = omega arith }) refl

channel_down_empty_example : Returns (channel_down empty) (λ r.
    (r.0 ≡ sc_no_error)
    × (r.1.program_number ≡ negsuc 1)
    × (r.1.change_channel ≡ true)
    × Faults (task_round willing r.1))
channel_down_empty_example = channel_down_empty willing empty no_pat refl refl refl

-- The PMT has come in.
abbrev tuned : Controller
tuned = record running { pmt_table = some parsed_pmt; incoming = [] }

stream_controller_deinit-IsReleased_example :
    (c' : Controller) × (stream_controller_deinit willing running ≡ (sc_no_error, c'))
    × IsReleased running c'
    × (stream_controller_deinit willing c' ≡ (sc_error, c'))
stream_controller_deinit-IsReleased_example =
    stream_controller_deinit-IsReleased willing running refl refl

-- A platform that refuses every stream, and nothing else.
abbrev deaf : Platform
deaf = record willing {
  fails = λ made k. elim k [ player_stream_create player source pid kind ↦ true | _ ↦ false ];
}
