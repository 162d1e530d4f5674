-- ===== src/Tables/Zeroed.antt =====
-- The tables as `memset` leaves them when they are allocated: every byte is zero (tables.h,
-- streamControllerTask of stream_controller.c).
pub mod Typed
use ppu_tvi_os.Common.{replicate}
use ppu_tvi_os.Tables.Pat.{PatHeader, PatServiceInfo, PatTable}
use ppu_tvi_os.Tables.Pmt.{PmtElementaryInfo, PmtTable}
use ppu_tvi_os.Tables.Tdt.{TdtTable}
use ppu_tvi_os.Tables.Tot.{LtoDescriptorInfo, LocalTimeOffsetDescriptor, TotTable}

abbrev pub no_service : PatServiceInfo
no_service = record { program_number = 0; pid = 0 }

abbrev pub no_pat_header : PatHeader
no_pat_header = record {
  table_id = 0;
  section_syntax_indicator = 0;
  section_length = 0;
  transport_stream_id = 0;
  version_number = 0;
  current_next_indicator = 0;
  section_number = 0;
  last_section_number = 0;
}

-- The table that streamControllerTask allocates.
abbrev pub no_pat : PatTable
no_pat = record {
  pat_header = no_pat_header;
  pat_service_info_array = replicate 20 no_service;
  service_info_count = 0;
}

abbrev pub no_element : PmtElementaryInfo
no_element = record { stream_type = 0; elementary_pid = 0; es_info_length = 0 }

abbrev pub no_pmt : PmtTable
no_pmt = record {
  pmt_header = record {
    table_id = 0;
    section_syntax_indicator = 0;
    section_length = 0;
    program_number = 0;
    version_number = 0;
    current_next_indicator = 0;
    section_number = 0;
    last_section_number = 0;
    pcr_pid = 0;
    program_info_length = 0;
  };
  pmt_elementary_info_array = replicate 20 no_element;
  elementary_info_count = 0;
}

abbrev pub no_tdt : TdtTable
no_tdt = record {
  table_id = 0;
  section_syntax_indicator = 0;
  section_length = 0;
  mjd = 0;
  tmp_year = 0;
  year = 0;
  tmp_month = 0;
  day = 0;
  k = 0;
}

abbrev pub no_info : LtoDescriptorInfo
no_info = record {
  country_ch1 = 0;
  country_ch2 = 0;
  country_ch3 = 0;
  country_region_id = 0;
  local_time_offset_polarity = 0;
  local_time_offset_hours = 0;
  local_time_offset_minutes = 0;
}

abbrev pub no_descriptor : LocalTimeOffsetDescriptor
no_descriptor = record {
  descriptor_tag = 0;
  descriptor_length = 0;
  lto_info = replicate 20 no_info;
  number_of_infos = 0;
}

abbrev pub no_tot : TotTable
no_tot = record {
  table_id = 0;
  section_syntax_indicator = 0;
  section_length = 0;
  mjd = 0;
  descriptors_loop_length = 0;
  descriptors = replicate 20 no_descriptor;
  descriptors_count = 0;
}
