-- ===== src/Stream/Deinit.antt =====
-- streamControllerDeinit of stream_controller.c.
pub mod Released
use ppu_tvi_os.Common.{true, false, if◌then◌else◌, none}
use ppu_tvi_os.Stream.Platform.{
  Platform, thread_join, demux_free_filter, player_stream_remove, player_source_close,
  player_deinit, tuner_deinit,
}
use ppu_tvi_os.Stream.State.{
  Controller, log, StreamControllerError, sc_no_error, sc_error, sc_thread_error,
}

-- What is released once the thread has been joined, in this order.
unfoldable pub release : Controller → Controller
release c =
    let c1 = log (demux_free_filter c.player_handle c.filter_handle) c in
    let c2 = log (player_stream_remove c.player_handle c.source_handle c.stream_handle_a) c1 in
    let c3 = log (player_stream_remove c.player_handle c.source_handle c.stream_handle_v) c2 in
    let c4 = log (player_source_close c.player_handle c.source_handle) c3 in
    let c5 = log (player_deinit c.player_handle) c4 in
    let c6 = log tuner_deinit c5 in
    record c6 {
      pat_table = none;
      pmt_table = none;
      tdt_table = none;
      tot_table = none;
      is_initialized = false;
    }

module _ (platform : Platform) where
  unfoldable pub stream_controller_deinit : Controller → StreamControllerError × Controller
  unfolding release
  stream_controller_deinit c =
      if c.is_initialized
      then (let c1 = record c { thread_exit = true } in
          let c2 = log thread_join c1 in
          if platform.fails c1.trace thread_join
          then (sc_thread_error, c2)
          else (sc_no_error, release c2))
      else (sc_error, c)
