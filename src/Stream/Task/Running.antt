-- ===== src/Stream/Task/Running.antt =====
-- From the start of the stream controller to its first channel and the date (stream_controller.c).
use ppu_tvi_os.Common.{ℕ, ◌+◌, ◌≡◌, refl, ◌∙◌, ap, true, false, if◌then◌else◌, some, List, ◌∷◌}
use ppu_tvi_os.Common.Int.{pos}
use ppu_tvi_os.Common.Outcome.{Outcome, done, ◌>>=◌, or_fault, Returns, start_of, element}
use ppu_tvi_os.Tables.Code.{tables_parse_ok}
use ppu_tvi_os.Tables.Zeroed.{no_pat, no_pmt, no_tdt, no_tot}
use ppu_tvi_os.Tables.Pat.{PatTable, PatServiceInfo, parse_pat_table}
use ppu_tvi_os.Tables.Pmt.{PmtTable, parse_pmt_table}
use ppu_tvi_os.Tables.Pmt.Bounds.{IsValid}
use ppu_tvi_os.Tables.Tdt.{TdtTable, parse_tdt_table}
use ppu_tvi_os.Tables.Tot.{TotTable, parse_tot_table}
use ppu_tvi_os.Stream.Platform.{Platform, Call, demux_set_filter, demux_free_filter, date_received}
use ppu_tvi_os.Stream.State.{Controller, sc_no_error}
use ppu_tvi_os.Stream.Pids.{Pids, is_video, is_audio, choose_pids}
use ppu_tvi_os.Stream.Pids.Choice.{first_pid, choose_pids-first_pid}
use ppu_tvi_os.Stream.Sections.Delivery.{wait_demux-pat, wait_demux-pmt}
use ppu_tvi_os.Stream.Start.{
  date_of, play_video, play_audio, play_pids, play_channel, parse_time_tables, start_channel,
}
use ppu_tvi_os.Stream.Start.Play.{info_of, elements, waiting, start_channel_waits}
use ppu_tvi_os.Stream.Task.{locks_in_time, first_channel, finish_start, start_task}
use ppu_tvi_os.Stream.Task.Streams.{HasStreams, behind-HasStreams, played-HasStreams}
use ppu_tvi_os.Stream.Task.Startup.{IsFresh, prepare-IsFresh}
use ppu_tvi_os.Stream.Task.Dating.{
  Starts, HasRegion, play_video-IsPlaying, play_audio-IsPlaying, dated, parse_time_tables-dated,
}

-- What comes in: a section of each of the four tables, and what they parse to. Channel `n` is in the
-- PAT.
pub record Broadcast : Type 0 where
  pub pat_section : List ℕ
  pub pmt_section : List ℕ
  pub tdt_section : List ℕ
  pub tot_section : List ℕ
  pub pat : PatTable
  pub pmt : PmtTable
  pub tdt : TdtTable
  pub tot : TotTable
  pub service : PatServiceInfo

pub record IsBroadcast (n : ℕ) (b : Broadcast) : Type 0 where
  pub pat_starts : Starts b.pat_section 0x00
  pub pmt_starts : Starts b.pmt_section 0x02
  pub tdt_starts : Starts b.tdt_section 0x70
  pub tot_starts : Starts b.tot_section 0x73
  pub pat_parsed :
      parse_pat_table (some (start_of b.pat_section)) (some no_pat)
      ≡ done (tables_parse_ok, some b.pat)
  pub pmt_parsed :
      parse_pmt_table (some (start_of b.pmt_section)) (some no_pmt)
      ≡ done (tables_parse_ok, some b.pmt)
  pub tdt_parsed :
      parse_tdt_table (some (start_of b.tdt_section)) (some no_tdt)
      ≡ done (tables_parse_ok, some b.tdt)
  pub tot_parsed :
      parse_tot_table (some (start_of b.tot_section)) (some no_tot)
      ≡ done (tables_parse_ok, some b.tot)
  pub found : element b.pat.pat_service_info_array (n + 1) ≡ done b.service
  pub valid : IsValid b.pmt
  pub region : HasRegion b.tot

-- A stream controller that has created the streams of channel `n` and has told the date.
pub record IsRunning (platform : Platform) (n : ℕ) (b : Broadcast) (rest : List (List ℕ))
    (c : Controller) : Type 0 where
  pub initialized : c.is_initialized ≡ true
  pub channel : c.current_channel ≡ info_of n b.pmt
  pub streams :
      HasStreams platform
        (first_pid is_video (elements b.pmt))
        (first_pid is_audio (elements b.pmt))
        c
  pub pat : c.pat_table ≡ some b.pat
  pub date : c.current_date ≡ date_of b.tdt
  pub dated : c.time_tables_received ≡ true
  pub queue : c.incoming ≡ rest
  pub told : (before : List Call) × (c.trace ≡ date_received (date_of b.tdt) ∷ before)

module _ (platform : Platform)
    (willing : (made : List Call) (k : Call) → platform.fails made k ≡ false) (n : ℕ)
    (b : Broadcast) (v : IsBroadcast n b) (rest : List (List ℕ)) where
  pids : Pids
  pids = record {
    audio_pid = first_pid is_audio (elements b.pmt);
    video_pid = first_pid is_video (elements b.pmt);
  }

  played : Controller → Controller
  played c = record (play_audio platform pids.audio_pid (play_video platform pids.video_pid c)) {
    current_channel = info_of n b.pmt;
  }

  play_channel-played :
      (c : Controller)
      → c.pmt_table ≡ some b.pmt
      → c.time_tables_received ≡ false
      → play_channel platform (pos n) c ≡ parse_time_tables platform (played c)
  unfolding play_channel play_pids pids played
  play_channel-played c there undated =
      let video = play_video-IsPlaying platform willing pids.video_pid c in
      let c1 = play_video platform pids.video_pid c in
      let audio = play_audio-IsPlaying platform willing pids.audio_pid c1 in
      ap (λ o. or_fault o >>= λ t. choose_pids t >>= λ s. play_pids platform (pos n) s c) there
      ∙ ap (λ m. m >>= λ s. play_pids platform (pos n) s c) (choose_pids-first_pid b.pmt v.valid)
      ∙ ap (λ t. if t then done (played c) else parse_time_tables platform (played c))
          (audio.undated ∙ video.undated ∙ undated)

  abbrev set_initialized : Controller → Outcome Controller
  set_initialized c = done (record c { is_initialized = true })

  first_channel-IsRunning :
      (before c : Controller)
      → IsFresh before c
      → before.program_number ≡ pos n
      → before.time_tables_received ≡ false
      → before.date_received_callback ≡ true
      → before.incoming ≡ b.pat_section ∷ b.pmt_section ∷ b.tdt_section ∷ b.tot_section ∷ rest
      → Returns (first_channel platform c) (IsRunning platform n b rest)
  unfolding first_channel played pids
  first_channel-IsRunning before c h program undated callback queue =
      let later = b.tdt_section ∷ b.tot_section ∷ rest in
      let c1 = record c { incoming = b.pmt_section ∷ later; pat_table = some b.pat } in
      let w = waiting platform b.service.pid c1 in
      let c2 = record w { incoming = later; pmt_table = some b.pmt } in
      let video = play_video-IsPlaying platform willing pids.video_pid c2 in
      let audio =
        play_audio-IsPlaying platform willing pids.audio_pid
          (play_video platform pids.video_pid c2) in
      let c3 = played c2 in
      let told =
        parse_time_tables-dated platform willing c3 no_tdt b.tdt no_tot b.tot b.tdt_section
          b.tot_section rest (audio.tdt ∙ video.tdt ∙ h.tdt) (audio.tot ∙ video.tot ∙ h.tot)
          (audio.queue ∙ video.queue) v.tdt_starts v.tot_starts v.tdt_parsed v.tot_parsed v.region
          (audio.callback ∙ video.callback ∙ h.callback ∙ callback) in
      let running = dated platform willing b.tdt b.tot b.tot_section rest c3 in
      let streams = played-HasStreams platform willing pids.video_pid pids.audio_pid c2 in
      let first = behind-HasStreams platform (demux_free_filter _ _) _ _ _ streams in
      let second = behind-HasStreams platform (demux_set_filter _ _ _) _ _ _ first in
      let third = behind-HasStreams platform (demux_free_filter _ _) _ _ _ second in
      let fourth = behind-HasStreams platform (demux_set_filter _ _ _) _ _ _ third in
      let fifth = behind-HasStreams platform (date_received _) _ _ _ fourth in
      (
        record running { is_initialized = true },
        ap (λ m. m >>= λ k. start_channel platform k.program_number k >>= set_initialized)
              (wait_demux-pat b.pat_section (b.pmt_section ∷ later) c b.pat (h.queue ∙ queue)
                v.pat_starts.0 v.pat_starts.1
                (ap (parse_pat_table (some (start_of b.pat_section))) h.pat ∙ v.pat_parsed))
            ∙ ap (λ k. start_channel platform k c1 >>= set_initialized) (h.program ∙ program)
            ∙ ap (λ m. m >>= set_initialized)
                (start_channel_waits platform c1 b.pat b.service n refl v.found (willing _ _)
                  ∙ ap (λ m. m >>= play_channel platform (pos n))
                      (wait_demux-pmt b.pmt_section later w b.pmt refl v.pmt_starts.0 v.pmt_starts.1
                        (ap (parse_pmt_table (some (start_of b.pmt_section))) h.pmt ∙ v.pmt_parsed))
                  ∙ play_channel-played c2 refl (h.undated ∙ undated)
                  ∙ told),
        record {
          initialized = refl;
          channel = refl;
          streams = record { picture = fifth.picture; sound = fifth.sound };
          pat = audio.pat ∙ video.pat;
          date = refl;
          dated = refl;
          queue = refl;
          told = (_, refl);
        },
      )

-- When no call fails, the tuner locks in time and the first four sections are a PAT, the PMT of the
-- configured program, a TDT and a TOT with a region, each of which parses, the task gets to its
-- loop: the controller is initialised, the channel info is that of the channel, the player has been
-- asked to create a stream for the first video pid and for the first audio pid of the PMT, where
-- there is one, and has given out the handles that are kept, and the date of the TDT has been told.
-- The date callback must be registered.
pub start_task-IsRunning :
    (platform : Platform)
    → ((made : List Call) (k : Call) → platform.fails made k ≡ false)
    → ((made : List Call) → locks_in_time (platform.statuses made) ≡ true)
    → (c : Controller) (n : ℕ) (b : Broadcast) (rest : List (List ℕ)) → IsBroadcast n b
    → c.program_number ≡ pos n
    → c.time_tables_received ≡ false
    → c.date_received_callback ≡ true
    → c.incoming ≡ b.pat_section ∷ b.pmt_section ∷ b.tdt_section ∷ b.tot_section ∷ rest
    → Returns (start_task platform c) (λ r. (r.0 ≡ sc_no_error) × IsRunning platform n b rest r.1)
unfolding start_task finish_start
start_task-IsRunning platform willing locks c n b rest v program undated callback queue =
    let (c1, prepared, fresh) = prepare-IsFresh platform willing locks c in
    let (c2, ran, running) =
      first_channel-IsRunning platform willing n b v rest c c1 fresh program undated callback
        queue in
    (
      (sc_no_error, c2),
      ap (finish_start platform) prepared ∙ ap (λ m. m >>= λ c'. done (sc_no_error, c')) ran,
      (refl, running),
    )
