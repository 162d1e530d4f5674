-- ===== src/Tables/Zeroed/Typed.antt =====
-- The zeroed tables have their fields in their ranges (tables.h, streamControllerTask of
-- stream_controller.c).
use ppu_tvi_os.Common.{arith, refl, All-replicate}
use ppu_tvi_os.Tables.Zeroed.{
  no_service, no_pat, no_element, no_pmt, no_tdt, no_info, no_descriptor, no_tot,
}
use ppu_tvi_os.Tables.Pat.Typed as Pat
use ppu_tvi_os.Tables.Pmt.Typed as Pmt
use ppu_tvi_os.Tables.Tdt.Typed as Tdt
use ppu_tvi_os.Tables.Tot.Typed as Tot

pub no_pat_header-IsHeader : Pat.IsHeader no_pat.pat_header
no_pat_header-IsHeader = record {
  table_id = omega arith;
  section_syntax_indicator = omega arith;
  section_length = omega arith;
  transport_stream_id = omega arith;
  version_number = omega arith;
  current_next_indicator = omega arith;
  section_number = omega arith;
  last_section_number = omega arith;
}

pub no_pat-IsTyped : Pat.IsTyped no_pat
no_pat-IsTyped = record {
  header = no_pat_header-IsHeader;
  size = refl;
  services =
      All-replicate Pat.IsService 20 no_service
        (record { program_number = omega arith; pid = omega arith });
  within = omega arith;
}

pub no_pmt-IsTyped : Pmt.IsTyped no_pmt
no_pmt-IsTyped = record {
  header = record {
    table_id = omega arith;
    section_syntax_indicator = omega arith;
    section_length = omega arith;
    program_number = omega arith;
    version_number = omega arith;
    current_next_indicator = omega arith;
    section_number = omega arith;
    last_section_number = omega arith;
    pcr_pid = omega arith;
    program_info_length = omega arith;
  };
  size = refl;
  elements = All-replicate Pmt.IsElement 20 no_element (record {
    stream_type = omega arith;
    elementary_pid = omega arith;
    es_info_length = omega arith;
  });
  within = omega arith;
}

pub no_tdt-IsTyped : Tdt.IsTyped no_tdt
no_tdt-IsTyped = record {
  table_id = omega arith;
  section_syntax_indicator = omega arith;
  section_length = omega arith;
  mjd = omega arith;
  tmp_year = omega arith;
  year = omega arith;
  tmp_month = omega arith;
  day = omega arith;
  k = omega arith;
}

no_descriptor-IsDescriptor : Tot.IsDescriptor no_descriptor
no_descriptor-IsDescriptor = record {
  tag = omega arith;
  len = omega arith;
  size = refl;
  regions = All-replicate Tot.IsRegion 20 no_info (record {
    country_ch1 = omega arith;
    country_ch2 = omega arith;
    country_ch3 = omega arith;
    country_region_id = omega arith;
    polarity = omega arith;
    hours = omega arith;
    minutes = omega arith;
  });
  within = omega arith;
}

pub no_tot-IsTyped : Tot.IsTyped no_tot
no_tot-IsTyped = record {
  table_id = omega arith;
  section_syntax_indicator = omega arith;
  section_length = omega arith;
  mjd = omega arith;
  loop_length = omega arith;
  size = refl;
  descriptors = All-replicate Tot.IsDescriptor 20 no_descriptor no_descriptor-IsDescriptor;
  within = omega arith;
}
