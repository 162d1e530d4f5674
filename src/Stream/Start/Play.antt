-- ===== src/Stream/Start/Play.antt =====
-- What startChannel plays (stream_controller.c).
use ppu_tvi_os.Common.{
  ℕ, ◌+◌, ◌≤◌, ◌≡◌, refl, ◌∙◌, ap, true, false, List, ◌∷◌, some, arith, length, take, if◌then◌else◌,
}
use ppu_tvi_os.Common.Int.{ℤ, pos}
use ppu_tvi_os.Common.Outcome.{done, ◌>>=◌, or_fault, Returns, start_of, byte_at, element}
use ppu_tvi_os.Tables.Code.{tables_parse_ok}
use ppu_tvi_os.Tables.Pat.{PatTable, PatServiceInfo}
use ppu_tvi_os.Tables.Pmt.{PmtElementaryInfo, PmtTable, parse_pmt_table}
use ppu_tvi_os.Tables.Pmt.Bounds.{IsValid}
use ppu_tvi_os.Stream.Platform.{Platform, demux_set_filter}
use ppu_tvi_os.Stream.State.{Controller, ChannelInfo, log}
use ppu_tvi_os.Stream.Pids.{Pids, is_video, is_audio, choose_pids}
use ppu_tvi_os.Stream.Pids.Choice.{first_pid, choose_pids-first_pid}
use ppu_tvi_os.Stream.Sections.{wait_demux}
use ppu_tvi_os.Stream.Sections.Delivery.{wait_demux-pmt}
use ppu_tvi_os.Stream.Deinit.{stream_controller_deinit}
use ppu_tvi_os.Stream.Start.{
  tune_to, set_filter, play_pids, parse_time_tables, play_video, play_audio, play_channel,
  start_channel, free_filter,
}

-- The elements that a table holds.
abbrev pub elements : PmtTable → List PmtElementaryInfo
elements pmt = take pmt.elementary_info_count pmt.pmt_elementary_info_array

-- The channel info of channel `n` under a PMT.
abbrev pub info_of : ℕ → PmtTable → ChannelInfo
info_of n pmt = record {
  program_number = pos (n + 1);
  audio_pid = first_pid is_audio (elements pmt);
  video_pid = first_pid is_video (elements pmt);
}

module _ (platform : Platform) where
  -- Playing, also when it fails and everything is released, leaves these alone.
  record Keeps (c c' : Controller) : Type 0 where
    dated : c'.time_tables_received ≡ c.time_tables_received
    queue : c'.incoming ≡ c.incoming

  play_video-Keeps : (pid : ℤ) (c : Controller) → Keeps c (play_video platform pid c)
  unfolding play_video stream_controller_deinit
  play_video-Keeps pid c = record { dated = ground arith; queue = ground arith }

  play_audio-Keeps : (pid : ℤ) (c : Controller) → Keeps c (play_audio platform pid c)
  unfolding play_audio stream_controller_deinit
  play_audio-Keeps pid c = record { dated = ground arith; queue = ground arith }

  module _ (c : Controller) (pmt : PmtTable) (n : ℕ) (v : IsValid pmt)
      (loaded : c.pmt_table ≡ some pmt) (dated : c.time_tables_received ≡ true) where
    pids : Pids
    pids = record {
      audio_pid = first_pid is_audio (elements pmt);
      video_pid = first_pid is_video (elements pmt);
    }

    play_channel-play_pids : play_channel platform (pos n) c ≡ play_pids platform (pos n) pids c
    unfolding play_channel pids
    play_channel-play_pids =
        ap (λ o. or_fault o >>= λ t. choose_pids t >>= λ s. play_pids platform (pos n) s c) loaded
        ∙ ap (λ m. m >>= λ s. play_pids platform (pos n) s c) (choose_pids-first_pid pmt v)

    pub play_channel-played :
        play_channel platform (pos n) c
        ≡ done
            (record (play_audio platform
              (first_pid is_audio (elements pmt))
              (play_video platform (first_pid is_video (elements pmt)) c)) {
                current_channel = info_of n pmt;
              })
    unfolding play_pids pids
    play_channel-played =
        let video = play_video-Keeps (first_pid is_video (elements pmt)) c in
        let c1 = play_video platform (first_pid is_video (elements pmt)) c in
        let audio = play_audio-Keeps (first_pid is_audio (elements pmt)) c1 in
        let c2 = record (play_audio platform (first_pid is_audio (elements pmt)) c1) {
          current_channel = info_of n pmt;
        } in
        play_channel-play_pids
        ∙ ap (λ b. if b then done c2 else parse_time_tables platform c2)
            (audio.dated ∙ video.dated ∙ dated)

    -- Once the PMT of channel n is there and the date is known, the channel info names the channel
    -- and the first audio and video pid of its table, -1 where there is none; it does so whether or
    -- not the streams could be created.
    pub play_channel-info_of :
        Returns
          (play_channel platform (pos n) c)
          (λ c'. (c'.current_channel ≡ info_of n pmt) × (c'.incoming ≡ c.incoming))
    play_channel-info_of =
        let video = play_video-Keeps (first_pid is_video (elements pmt)) c in
        let c1 = play_video platform (first_pid is_video (elements pmt)) c in
        let audio = play_audio-Keeps (first_pid is_audio (elements pmt)) c1 in
        (_, play_channel-played, (refl, audio.queue ∙ video.queue))

-- The controller while it waits for the PMT on a pid, once the filter has been accepted.
abbrev pub waiting : Platform → ℕ → Controller → Controller
waiting platform pid c =
    let k = demux_set_filter c.player_handle pid 0x02 in
    record (log k (free_filter c)) { filter_handle = platform.new_handle (free_filter c).trace k }

module _ (platform : Platform) (c : Controller) (pat : PatTable) (service : PatServiceInfo) (n : ℕ)
    (loaded : c.pat_table ≡ some pat)
    (found : element pat.pat_service_info_array (n + 1) ≡ done service) where
  start_channel_tunes :
      start_channel platform (pos n) c ≡ tune_to platform (pos n) service (free_filter c)
  unfolding start_channel
  start_channel_tunes =
      ap
        (λ o. or_fault o >>= λ (t : PatTable). element t.pat_service_info_array (n + 1) >>= λ s.
          tune_to platform (pos n) s (free_filter c))
        loaded
      ∙ ap (λ m. m >>= λ s. tune_to platform (pos n) s (free_filter c)) found

  module _
      (accepted : platform.fails
          (free_filter c).trace
          (demux_set_filter c.player_handle service.pid 0x02)
        ≡ false) where
    pub start_channel_waits :
        start_channel platform (pos n) c
        ≡ (wait_demux (waiting platform service.pid c) >>= play_channel platform (pos n))
    unfolding tune_to set_filter
    start_channel_waits = start_channel_tunes ∙ rw accepted

    -- Starting channel n filters for the PMT on the pid of service n + 1 of the PAT. If the filter is
    -- accepted, the date is known and the next section to come in is a PMT section that parses to a
    -- valid table, the channel is started from that table and the later sections are still to come.
    pub start_channel-info_of :
        (section : List ℕ) (rest : List (List ℕ)) (pmt : PmtTable)
        → c.incoming ≡ section ∷ rest
        → 1 ≤ length section
        → byte_at (start_of section) 0 ≡ 2
        → parse_pmt_table (some (start_of section)) c.pmt_table ≡ done (tables_parse_ok, some pmt)
        → IsValid pmt
        → c.time_tables_received ≡ true
        → Returns
            (start_channel platform (pos n) c)
            (λ c'. (c'.current_channel ≡ info_of n pmt) × (c'.incoming ≡ rest))
    start_channel-info_of section rest pmt queue size id parsed v dated =
        let c1 = waiting platform service.pid c in
        let c2 = record c1 { incoming = rest; pmt_table = some pmt } in
        let (c', ran, result) = play_channel-info_of platform c2 pmt n v refl dated in
        (
          c',
          start_channel_waits
              ∙ ap (λ m. m >>= play_channel platform (pos n))
                  (wait_demux-pmt section rest c1 pmt queue size id parsed)
              ∙ ran,
          result,
        )

  -- If the filter is refused, the channel is not started: the old filter has been freed, one call has
  -- failed, and nothing else has changed.
  pub start_channel_refused :
      platform.fails (free_filter c).trace (demux_set_filter c.player_handle service.pid 0x02)
        ≡ true
      → start_channel platform (pos n) c
        ≡ done (log (demux_set_filter c.player_handle service.pid 0x02) (free_filter c))
  unfolding tune_to set_filter
  start_channel_refused refused = start_channel_tunes ∙ rw refused
