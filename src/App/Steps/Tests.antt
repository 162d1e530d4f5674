-- ===== src/App/Steps/Tests.antt =====
-- A section that comes in while the application runs, as concrete data (stream_controller.c).
use ppu_tvi_os.Common.{◌≡◌, refl, arith, Bool, true, All-replicate}
use ppu_tvi_os.Common.Outcome.{Outcome, done, read}
use ppu_tvi_os.Tables.Zeroed.Typed.{
  no_pat_header-IsHeader, no_pmt-IsTyped, no_tdt-IsTyped, no_tot-IsTyped,
}
use ppu_tvi_os.Tables.Pat.Typed.{IsService, IsTyped}
use ppu_tvi_os.Tables.Pmt.{
  parse_pmt_table, parse_pmt_header, fill_pmt_header, parse_pmt_elements, pmt_loop,
  parse_pmt_elementary_info, fill_pmt_elementary_info,
}
use ppu_tvi_os.Tables.Pmt.Tests.{pmt_section}
use ppu_tvi_os.Stream.State.{Controller}
use ppu_tvi_os.Stream.Sections.{section_received, pmt_arrived}
use ppu_tvi_os.Stream.Sections.Steady.{AreTyped}
use ppu_tvi_os.Stream.Tests.{willing, running, service, four_services}
use ppu_tvi_os.App.Tests.{watching}
use ppu_tvi_os.App.Remote.{System}
use ppu_tvi_os.App.Steps.{Reach, here, later, section_arrived, timer_expired}
use ppu_tvi_os.App.Steps.Typed.{Reach-AreTyped}
use ppu_tvi_os.Graphics.{volume_timer}
use ppu_tvi_os.Graphics.Timers.{step, expired}

abbrev left : Outcome (Bool × Controller) → Controller
left (done (signalled, c)) = c
left _ = running

abbrev supplied : Controller
supplied = left (section_received pmt_section running)

pmt_section-supplied : section_received pmt_section running ≡ done (true, supplied)
unfolding section_received pmt_arrived parse_pmt_table parse_pmt_header fill_pmt_header
    parse_pmt_elements pmt_loop parse_pmt_elementary_info fill_pmt_elementary_info read
pmt_section-supplied = refl

-- A PMT comes in, and the volume bar is hidden.
abbrev hushed : System
hushed = record watching {
  controller = supplied;
  graphics = step (expired volume_timer) watching.graphics;
}

hushed-Reach : Reach willing watching hushed
hushed-Reach =
    later (later here (section_arrived pmt_section true supplied pmt_section-supplied))
      (timer_expired volume_timer)

four_services-IsTyped : IsTyped four_services
four_services-IsTyped =
    let typed : IsService service = record { program_number = omega arith; pid = omega arith } in
    record {
      header = no_pat_header-IsHeader;
      size = refl;
      services = (
        record { program_number = omega arith; pid = omega arith },
        All-replicate IsService 19 service typed,
      );
      within = omega arith;
    }

Reach-AreTyped_example : AreTyped supplied
Reach-AreTyped_example =
    Reach-AreTyped willing watching hushed
      (four_services-IsTyped, no_pmt-IsTyped, no_tdt-IsTyped, no_tot-IsTyped) hushed-Reach
