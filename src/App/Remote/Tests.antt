-- ===== src/App/Remote/Tests.antt =====
-- A channel key behind a typed channel number, as concrete data (tv_app.c).
use ppu_tvi_os.Common.{◌≡◌, refl, arith, some}
use ppu_tvi_os.Common.Int.{pos}
use ppu_tvi_os.Common.Outcome.{Outcome, done, Returns, read}
use ppu_tvi_os.Stream.Tests.{willing, four_services}
use ppu_tvi_os.Stream.Channels.Zapping.{turn, up}
use ppu_tvi_os.App.Keypad.{empty_keypad, input_channel_number, typed_channel, clear_keys}
use ppu_tvi_os.Tables.Pmt.{
  parse_pmt_table, parse_pmt_header, fill_pmt_header, parse_pmt_elements, pmt_loop,
  parse_pmt_elementary_info, fill_pmt_elementary_info,
}
use ppu_tvi_os.Stream.Sections.{wait_demux, wait_among, section_received, pmt_arrived}
use ppu_tvi_os.Stream.Pids.{choose_pids, choose_loop, choose}
use ppu_tvi_os.Stream.Start.{
  change_channel_key, start_channel, tune_to, set_filter, play_channel, play_pids, play_video,
  play_audio,
}
use ppu_tvi_os.App.Tests.{watching, dialled}
use ppu_tvi_os.App.Remote.{System, change_channel}
use ppu_tvi_os.App.Remote.Neighbour.{zap_key, zap_key-change_channel}

-- The number 2 has been dialled while channel 0 is selected.
abbrev settled : Outcome System → System
settled (done s) = s
settled _ = watching

abbrev on_two : System
on_two = settled (change_channel willing dialled)

dialled-on_two : change_channel willing dialled ≡ done on_two
unfolding change_channel empty_keypad input_channel_number typed_channel clear_keys
    change_channel_key start_channel tune_to set_filter wait_demux wait_among section_received
    pmt_arrived parse_pmt_table parse_pmt_header fill_pmt_header parse_pmt_elements pmt_loop
    parse_pmt_elementary_info fill_pmt_elementary_info read play_channel choose_pids choose_loop
    choose play_pids play_video play_audio
dialled-on_two = refl

on_two-pat : on_two.controller.pat_table ≡ some four_services
unfolding change_channel empty_keypad input_channel_number typed_channel clear_keys
    change_channel_key start_channel tune_to set_filter wait_demux wait_among section_received
    pmt_arrived parse_pmt_table parse_pmt_header fill_pmt_header parse_pmt_elements pmt_loop
    parse_pmt_elementary_info fill_pmt_elementary_info read play_channel choose_pids choose_loop
    choose play_pids play_video play_audio
on_two-pat = refl

zap_key-change_channel_example :
    Returns (zap_key up on_two) (λ s''. s''.controller.program_number ≡ pos (turn 3 up 0))
zap_key-change_channel_example =
    zap_key-change_channel willing dialled on_two four_services 0 up dialled-on_two on_two-pat refl
      (omega arith)
