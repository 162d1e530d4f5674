-- ===== src/Stream/Start/Steady.antt =====
-- What startChannel leaves alone: the volume, the volume callback and the selected channel;
-- and that the tables stay typed (stream_controller.c).
use ppu_tvi_os.Common.{ℕ, ◌==◌, Bool, true, false, if◌then◌else◌}
use ppu_tvi_os.Common.Int.{ℤ, pos, ◌+ℤ◌, leb_ℤ}
use ppu_tvi_os.Common.Outcome.{Outcome, done, fault, ◌>>=◌, or_fault, element}
use ppu_tvi_os.Common.Always.{if-Always, Always, >>=-Always, >>=-Always_any}
use ppu_tvi_os.Stream.Platform.{
  Platform, Call, thread_join, demux_set_filter, player_stream_create, player_stream_remove,
  date_received, video_type_mpeg2, audio_type_mpeg_audio,
}
use ppu_tvi_os.Stream.State.{
  Controller, log, element_ℤ, StreamControllerError, sc_no_error, sc_error, sc_thread_error,
}
use ppu_tvi_os.Stream.Sections.{wait_demux}
use ppu_tvi_os.Stream.Deinit.{release, stream_controller_deinit}
use ppu_tvi_os.Stream.Pids.{Pids, is_no_pid, choose_pids}
use ppu_tvi_os.Stream.Start.{
  free_filter, date_of, set_filter, play_video, play_audio, publish_date, parse_time_tables,
  play_pids, play_channel, tune_to, start_channel, change_channel_key, task_round,
}
use ppu_tvi_os.Stream.Sections.Steady.{IsSteady, if-Steady, wait_demux-Steady}

module _ (before : Controller) where
  abbrev Kept : Controller → Type 0
  Kept = IsSteady before

  module _ (platform : Platform) where
    set_filter-Steady :
        (pid table_id : ℕ) (c : Controller) → Kept c → Kept (set_filter platform pid table_id c).1
    unfolding set_filter
    set_filter-Steady pid table_id c h =
        by_result (platform.fails c.trace (demux_set_filter c.player_handle pid table_id))
      where
        k : Call
        k = demux_set_filter c.player_handle pid table_id

        by_result :
            (b : Bool)
            → let (ok, c') : Bool × Controller =
                if b
                then (false, log k c)
                else (true, record (log k c) { filter_handle = platform.new_handle c.trace k }) in
              Kept c'
        by_result true = h
        by_result false = h

    deinit-Steady : (c : Controller) → Kept c → Kept (stream_controller_deinit platform c).1
    unfolding stream_controller_deinit release
    deinit-Steady c h = by_results c.is_initialized (platform.fails c.trace thread_join)
      where
        c2 : Controller
        c2 = log thread_join (record c { thread_exit = true })

        by_results :
            (b b' : Bool)
            → let (status, c') : StreamControllerError × Controller =
                if b
                then (if b' then (sc_thread_error, c2) else (sc_no_error, release c2))
                else (sc_error, c) in
              Kept c'
        by_results true true = h
        by_results true false =
            let (quiet, selected, typed) = h in (quiet, selected, λ v. (tt, tt, tt, tt))
        by_results false b' = h

    play_video-Steady : (pid : ℤ) (c : Controller) → Kept c → Kept (play_video platform pid c)
    unfolding play_video
    play_video-Steady pid c h = if-Steady before (is_no_pid pid) _ _ h (
        let remove = player_stream_remove c.player_handle c.source_handle c.stream_handle_v in
        let create = player_stream_create c.player_handle c.source_handle pid video_type_mpeg2 in
        let c1 =
          if c.stream_handle_v == 0 then c else record (log remove c) { stream_handle_v = 0 } in
        let h1 : Kept c1 =
          if-Steady before (c.stream_handle_v == 0) c
            (record (log remove c) { stream_handle_v = 0 }) h h in
        if-Steady before (platform.fails c1.trace create)
          (stream_controller_deinit platform (log create c1)).1
          (record (log create c1) { stream_handle_v = platform.new_handle c1.trace create })
          (deinit-Steady (log create c1) h1) h1)

    play_audio-Steady : (pid : ℤ) (c : Controller) → Kept c → Kept (play_audio platform pid c)
    unfolding play_audio
    play_audio-Steady pid c h = if-Steady before (is_no_pid pid) _ _ h (
        let remove = player_stream_remove c.player_handle c.source_handle c.stream_handle_a in
        let create =
          player_stream_create c.player_handle c.source_handle pid audio_type_mpeg_audio in
        let c1 =
          if c.stream_handle_a == 0 then c else record (log remove c) { stream_handle_a = 0 } in
        let h1 : Kept c1 =
          if-Steady before (c.stream_handle_a == 0) c
            (record (log remove c) { stream_handle_a = 0 }) h h in
        if-Steady before (platform.fails c1.trace create)
          (stream_controller_deinit platform (log create c1)).1
          (record (log create c1) { stream_handle_a = platform.new_handle c1.trace create })
          (deinit-Steady (log create c1) h1) h1)

    publish_date-Steady : (c : Controller) → Kept c → Always Kept (publish_date platform c)
    unfolding publish_date
    publish_date-Steady c h = >>=-Always_any Kept (or_fault c.tot_table) _ λ tot.
        >>=-Always_any Kept (element tot.descriptors 0) _ λ d.
          >>=-Always_any Kept (element d.lto_info 0) _ λ info.
            >>=-Always_any Kept (or_fault c.tdt_table) _ λ tdt.
              told c.date_received_callback
                (record (log (date_received (date_of tdt)) c) {
                  current_date = date_of tdt;
                  time_tables_received = true;
                })
                h
      where
        told : (b : Bool) (c' : Controller) → Kept c' → Always Kept (if b then done c' else fault)
        told true c' h = h
        told false c' h = tt

    -- `if (Demux_Set_Filter(…)) … else …` in front of a wait.
    filtered-Steady :
        (r : Bool × Controller) (next : Controller → Outcome Controller)
        → Kept r.1
        → ((c : Controller) → Kept c → Always Kept (next c))
        → Always Kept (if r.0 then wait_demux r.1 >>= next else done r.1)
    filtered-Steady (true, c) next h k =
        >>=-Always Kept Kept (wait_demux c) next (wait_demux-Steady before c h) k
    filtered-Steady (false, c) next h k = h

    parse_time_tables-Steady :
        (c : Controller) → Kept c → Always Kept (parse_time_tables platform c)
    unfolding parse_time_tables
    parse_time_tables-Steady c h =
        filtered-Steady (set_filter platform 0x0014 0x70 (free_filter c))
          (λ c2.
            let (tot_set, c3) = set_filter platform 0x0014 0x73 (free_filter c2) in
            if tot_set then (wait_demux c3 >>= publish_date platform) else done c3)
          (set_filter-Steady 0x0014 0x70 (free_filter c) h)
          (λ c2 h2.
            filtered-Steady (set_filter platform 0x0014 0x73 (free_filter c2))
              (publish_date platform) (set_filter-Steady 0x0014 0x73 (free_filter c2) h2)
              publish_date-Steady)

    play_pids-Steady :
        (channel_number : ℤ) (pids : Pids) (c : Controller)
        → Kept c
        → Always Kept (play_pids platform channel_number pids c)
    unfolding play_pids
    play_pids-Steady channel_number pids c h =
        let c1 = play_audio platform pids.audio_pid (play_video platform pids.video_pid c) in
        let h1 =
          play_audio-Steady pids.audio_pid (play_video platform pids.video_pid c)
            (play_video-Steady pids.video_pid c h) in
        let c2 = record c1 {
          current_channel = record {
            program_number = channel_number +ℤ pos 1;
            audio_pid = pids.audio_pid;
            video_pid = pids.video_pid;
          };
        } in
        dated c2.time_tables_received c2 h1
      where
        dated :
            (b : Bool) (c' : Controller)
            → Kept c'
            → Always Kept (if b then done c' else parse_time_tables platform c')
        dated true c' h = h
        dated false c' h = parse_time_tables-Steady c' h

    play_channel-Steady :
        (channel_number : ℤ) (c : Controller)
        → Kept c
        → Always Kept (play_channel platform channel_number c)
    unfolding play_channel
    play_channel-Steady channel_number c h =
        >>=-Always_any Kept (or_fault c.pmt_table)
          (λ pmt. choose_pids pmt >>= λ pids. play_pids platform channel_number pids c)
          λ pmt.
            >>=-Always_any Kept (choose_pids pmt) (λ pids. play_pids platform channel_number pids c)
              λ pids. play_pids-Steady channel_number pids c h

    -- Whatever comes in and whatever fails, a startChannel that returns leaves the volume, the
    -- volume callback and the selected channel as they were, and typed tables typed.
    pub start_channel-Steady :
        (channel_number : ℤ) (c : Controller)
        → Kept c
        → Always Kept (start_channel platform channel_number c)
    unfolding start_channel tune_to
    start_channel-Steady channel_number c h = >>=-Always_any Kept (or_fault c.pat_table) _ λ pat.
        >>=-Always_any Kept (element_ℤ pat.pat_service_info_array (channel_number +ℤ pos 1))
          (λ service. tune_to platform channel_number service (free_filter c))
          λ service.
            filtered-Steady (set_filter platform service.pid 0x02 (free_filter c))
              (play_channel platform channel_number)
              (set_filter-Steady service.pid 0x02 (free_filter c) h)
              (play_channel-Steady channel_number)

    pub change_channel_key-Steady :
        (channel_number : ℤ) (c : Controller)
        → Kept c
        → Always Kept (change_channel_key platform channel_number c)
    unfolding change_channel_key
    change_channel_key-Steady channel_number c h =
        if-Always Kept (leb_ℤ (pos 0) channel_number) _ _
          (>>=-Always_any Kept (or_fault c.pat_table) _ λ pat.
            if-Always Kept (leb_ℤ (pos pat.service_info_count) channel_number) _ _ h
              (start_channel-Steady channel_number c h))
          h

    pub task_round-Steady : (c : Controller) → Kept c → Always Kept (task_round platform c)
    unfolding task_round
    task_round-Steady c h = asked c.change_channel
      where
        asked :
            (b : Bool)
            → Always Kept (
                if b
                then start_channel platform c.program_number (record c { change_channel = false })
                else done c)
        asked true = start_channel-Steady c.program_number (record c { change_channel = false }) h
        asked false = h
