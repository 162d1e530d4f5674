-- ===== src/Stream/Start.antt =====
-- startChannel, parseTimeTables and changeChannelKey of stream_controller.c, and the round of
-- streamControllerTask that starts a channel.
pub mod Filter
pub mod Steady
pub mod Play
pub mod Refused
pub mod Broadcast
mod Tests
use ppu_tvi_os.Common.{ℕ, Bool, true, false, not, if◌then◌else◌, ◌==◌, ◌&&◌, Option, some}
use ppu_tvi_os.Common.Int.{ℤ, pos, negsuc, ◌+ℤ◌, leb_ℤ}
use ppu_tvi_os.Common.Words.{u8, u16}
use ppu_tvi_os.Common.Outcome.{Outcome, done, fault, ◌>>=◌, or_fault, element}
use ppu_tvi_os.Stream.Platform.{
  Platform, CurrentDate, video_type_mpeg2, audio_type_mpeg_audio, demux_set_filter,
  demux_free_filter, player_stream_create, player_stream_remove, clear_screen, date_received,
}
use ppu_tvi_os.Stream.State.{
  Controller, log, element_ℤ, StreamControllerError, sc_no_error, sc_error,
}
use ppu_tvi_os.Tables.Pat.{PatServiceInfo}
use ppu_tvi_os.Tables.Tdt.{TdtTable}
use ppu_tvi_os.Stream.Pids.{Pids, is_no_pid, choose_pids}
use ppu_tvi_os.Stream.Sections.{wait_demux}
use ppu_tvi_os.Stream.Deinit.{stream_controller_deinit}

-- `Demux_Free_Filter(playerHandle, filterHandle)`
abbrev pub free_filter : Controller → Controller
free_filter c = log (demux_free_filter c.player_handle c.filter_handle) c

-- The fields of a `CurrentDate`, of 16, 8 and 8 bits.
abbrev pub date_of : TdtTable → CurrentDate
date_of tdt = record { year = tdt.year; tmp_month = u8 tdt.tmp_month; day = u8 tdt.day }

module _ (platform : Platform) where
  -- `Demux_Set_Filter(playerHandle, pid, tableId, &filterHandle)`: whether it succeeds.
  unfoldable pub set_filter : ℕ → ℕ → Controller → Bool × Controller
  set_filter pid table_id c =
      let k = demux_set_filter c.player_handle pid table_id in
      if platform.fails c.trace k
      then (false, log k c)
      else (true, record (log k c) { filter_handle = platform.new_handle c.trace k })

  -- The part of startChannel on the video pid. A stream that cannot be created leads to a call of
  -- streamControllerDeinit, whose status is ignored.
  unfoldable pub play_video : ℤ → Controller → Controller
  play_video pid c =
      let remove = player_stream_remove c.player_handle c.source_handle c.stream_handle_v in
      let create = player_stream_create c.player_handle c.source_handle pid video_type_mpeg2 in
      if is_no_pid pid
      then log (clear_screen c.player_handle) (record (log remove c) { stream_handle_v = 0 })
      else (let c1 =
            if c.stream_handle_v == 0 then c else record (log remove c) { stream_handle_v = 0 } in
          if platform.fails c1.trace create
          then (stream_controller_deinit platform (log create c1)).1
          else record (log create c1) { stream_handle_v = platform.new_handle c1.trace create })

  -- The part on the audio pid: without one nothing happens.
  unfoldable pub play_audio : ℤ → Controller → Controller
  play_audio pid c =
      let remove = player_stream_remove c.player_handle c.source_handle c.stream_handle_a in
      let create = player_stream_create c.player_handle c.source_handle pid audio_type_mpeg_audio in
      if is_no_pid pid
      then c
      else (let c1 =
            if c.stream_handle_a == 0 then c else record (log remove c) { stream_handle_a = 0 } in
          if platform.fails c1.trace create
          then (stream_controller_deinit platform (log create c1)).1
          else record (log create c1) { stream_handle_a = platform.new_handle c1.trace create })

  -- The end of parseTimeTables: the offsets of the first region are read and not used.
  unfoldable pub publish_date : Controller → Outcome Controller
  publish_date c = do
    tot ← or_fault c.tot_table
    descriptor ← element tot.descriptors 0
    info ← element descriptor.lto_info 0
    tdt ← or_fault c.tdt_table
    let date = date_of tdt
    if c.date_received_callback
        then done (record (log (date_received date) c) {
          current_date = date;
          time_tables_received = true;
        })
        else fault

  -- parseTimeTables; it has no `return` at its end, and its status is not used.
  unfoldable pub parse_time_tables : Controller → Outcome Controller
  unfolding set_filter publish_date
  parse_time_tables c =
      let (tdt_set, c1) = set_filter 0x0014 0x70 (free_filter c) in
      if tdt_set
      then (wait_demux c1 >>= λ c2.
          let (tot_set, c3) = set_filter 0x0014 0x73 (free_filter c2) in
          if tot_set then (wait_demux c3 >>= publish_date) else done c3)
      else done c1

  -- The part of startChannel behind the choice of the pids.
  unfoldable pub play_pids : ℤ → Pids → Controller → Outcome Controller
  play_pids channel_number pids c =
      let c1 = play_audio pids.audio_pid (play_video pids.video_pid c) in
      let c2 = record c1 {
        current_channel = record {
          program_number = channel_number +ℤ pos 1;
          audio_pid = pids.audio_pid;
          video_pid = pids.video_pid;
        };
      } in
      if c2.time_tables_received then done c2 else parse_time_tables c2

  -- The part behind the wait for the program's PMT.
  unfoldable pub play_channel : ℤ → Controller → Outcome Controller
  play_channel channel_number c = do
    pmt ← or_fault c.pmt_table
    pids ← choose_pids pmt
    play_pids channel_number pids c

  -- The part of startChannel from the call of Demux_Set_Filter on.
  unfoldable pub tune_to : ℤ → PatServiceInfo → Controller → Outcome Controller
  tune_to channel_number service c =
      let (filter_set, c1) = set_filter service.pid 0x02 c in
      if filter_set then (wait_demux c1 >>= play_channel channel_number) else done c1

  -- startChannel.
  unfoldable pub start_channel : ℤ → Controller → Outcome Controller
  start_channel channel_number c = do
    let c0 = free_filter c
    pat ← or_fault c.pat_table
    service ← element_ℤ pat.pat_service_info_array (channel_number +ℤ pos 1)
    tune_to channel_number service c0

  -- changeChannelKey: a negative number is refused before the PAT is read.
  unfoldable pub change_channel_key : ℤ → Controller → Outcome Controller
  change_channel_key channel_number c =
      if leb_ℤ (pos 0) channel_number
      then (or_fault c.pat_table >>= λ pat.
          if leb_ℤ (pos pat.service_info_count) channel_number
          then done c
          else start_channel channel_number c)
      else done c

  -- The body of the `while` loop of streamControllerTask.
  unfoldable pub task_round : Controller → Outcome Controller
  task_round c =
      if c.change_channel
      then start_channel c.program_number (record c { change_channel = false })
      else done c
