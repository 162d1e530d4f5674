-- ===== src/Stream/Task/Undated.antt =====
-- The stream controller without a date callback: startChannel gets to the call through NULL that
-- parseTimeTables makes (stream_controller.c).
use ppu_tvi_os.Common.{◌≡◌, ◌∙◌, Bool, true, false, if◌then◌else◌, List}
use ppu_tvi_os.Common.Int.{ℤ, pos, ◌+ℤ◌}
use ppu_tvi_os.Common.Outcome.{Outcome, done, or_fault, element}
use ppu_tvi_os.Common.Always.{Always, >>=-Always, >>=-Always_any}
use ppu_tvi_os.Tables.Pat.{PatServiceInfo}
use ppu_tvi_os.Stream.Platform.{Platform, Call}
use ppu_tvi_os.Stream.State.{Controller, element_ℤ}
use ppu_tvi_os.Stream.Sections.{wait_demux}
use ppu_tvi_os.Stream.Sections.Kept.{wait_demux-Kept}
use ppu_tvi_os.Stream.Pids.{Pids, choose_pids}
use ppu_tvi_os.Stream.Start.{
  free_filter, publish_date, parse_time_tables, play_video, play_audio, play_pids, play_channel,
  tune_to, start_channel,
}
use ppu_tvi_os.Stream.Task.{locks_in_time, first_channel, finish_start, start_task}
use ppu_tvi_os.Stream.Task.Startup.{prepare-IsFresh}
use ppu_tvi_os.Stream.Task.Dating.{
  filtered, set_filter-filtered, play_video-IsPlaying, play_audio-IsPlaying,
}

-- A run that ends in a fault, or does not end.
abbrev pub NeverReturns {ℓ} : {A : Type ℓ} → Outcome A → Type 0
NeverReturns run = Always (λ a. ⊥) run

else-NeverReturns {ℓ} :
    {A : Type ℓ} (b : Bool) (m k : Outcome A)
    → b ≡ false
    → NeverReturns k
    → NeverReturns (if b then m else k)
else-NeverReturns true m k e h = cc
else-NeverReturns false m k e h = h

abbrev pub IsUndated : Controller → Type 0
IsUndated c = (c.date_received_callback ≡ false) × (c.time_tables_received ≡ false)

wait_demux-IsUndated : (c : Controller) → IsUndated c → Always IsUndated (wait_demux c)
wait_demux-IsUndated = wait_demux-Kept IsUndated (λ c pat pmt tdt tot incoming v. v)

module _ (platform : Platform)
    (willing : (made : List Call) (k : Call) → platform.fails made k ≡ false) where
  publish_date-NeverReturns :
      (c : Controller) → IsUndated c → NeverReturns (publish_date platform c)
  unfolding publish_date
  publish_date-NeverReturns c v =
      >>=-Always_any (λ a. ⊥) (or_fault c.tot_table) _
        λ tot.
          >>=-Always_any (λ a. ⊥) (element tot.descriptors 0) _
            λ d.
              >>=-Always_any (λ a. ⊥) (element d.lto_info 0) _
                λ info. >>=-Always_any (λ a. ⊥) (or_fault c.tdt_table) _ λ tdt. rw (v.0) tt

  parse_time_tables-NeverReturns :
      (c : Controller) → IsUndated c → NeverReturns (parse_time_tables platform c)
  unfolding parse_time_tables
  parse_time_tables-NeverReturns c v = simp (set_filter-filtered platform willing) (
      >>=-Always IsUndated (λ a. ⊥)
        (wait_demux (filtered platform willing 0x0014 0x70 (free_filter c))) _
        (wait_demux-IsUndated _ v)
        λ c2 v2.
          >>=-Always IsUndated (λ a. ⊥)
            (wait_demux (filtered platform willing 0x0014 0x73 (free_filter c2))) _
            (wait_demux-IsUndated _ v2) publish_date-NeverReturns)

  play_pids-NeverReturns :
      (n : ℤ) (pids : Pids) (c : Controller)
      → IsUndated c
      → NeverReturns (play_pids platform n pids c)
  unfolding play_pids
  play_pids-NeverReturns n pids c v =
      let video = play_video-IsPlaying platform willing pids.video_pid c in
      let audio =
        play_audio-IsPlaying platform willing pids.audio_pid
          (play_video platform pids.video_pid c) in
      let c2 = record (play_audio platform pids.audio_pid (play_video platform pids.video_pid c)) {
        current_channel = record {
          program_number = n +ℤ pos 1;
          audio_pid = pids.audio_pid;
          video_pid = pids.video_pid;
        };
      } in
      else-NeverReturns c2.time_tables_received (done c2) _ (audio.undated ∙ video.undated ∙ v.1) (
        parse_time_tables-NeverReturns c2
          (audio.callback ∙ video.callback ∙ v.0, audio.undated ∙ video.undated ∙ v.1))

  play_channel-NeverReturns :
      (n : ℤ) (c : Controller) → IsUndated c → NeverReturns (play_channel platform n c)
  unfolding play_channel
  play_channel-NeverReturns n c v =
      >>=-Always_any (λ a. ⊥) (or_fault c.pmt_table) _
        λ pmt. >>=-Always_any (λ a. ⊥) (choose_pids pmt) _ λ pids. play_pids-NeverReturns n pids c v

  tune_to-NeverReturns :
      (n : ℤ) (service : PatServiceInfo) (c : Controller)
      → IsUndated c
      → NeverReturns (tune_to platform n service c)
  unfolding tune_to
  tune_to-NeverReturns n service c v = simp (set_filter-filtered platform willing) (
      >>=-Always IsUndated (λ a. ⊥) (wait_demux (filtered platform willing service.pid 0x02 c)) _
        (wait_demux-IsUndated _ v) (play_channel-NeverReturns n))

  pub start_channel-NeverReturns :
      (n : ℤ) (c : Controller) → IsUndated c → NeverReturns (start_channel platform n c)
  unfolding start_channel
  start_channel-NeverReturns n c v =
      >>=-Always_any (λ a. ⊥) (or_fault c.pat_table) _
        λ pat.
          >>=-Always_any (λ a. ⊥) (element_ℤ pat.pat_service_info_array (n +ℤ pos 1)) _
            λ service. tune_to-NeverReturns n service (free_filter c) v

  first_channel-NeverReturns :
      (c : Controller) → IsUndated c → NeverReturns (first_channel platform c)
  unfolding first_channel
  first_channel-NeverReturns c v =
      >>=-Always IsUndated (λ a. ⊥) (wait_demux c) _ (wait_demux-IsUndated c v)
        λ c1 v1.
          >>=-Always (λ a. ⊥) (λ a. ⊥) (start_channel platform c1.program_number c1) _
            (start_channel-NeverReturns c1.program_number c1 v1) λ c2 h. absurd h

  pub start_task-NeverReturns :
      ((made : List Call) → locks_in_time (platform.statuses made) ≡ true)
      → (c : Controller) → IsUndated c
      → NeverReturns (start_task platform c)
  unfolding start_task finish_start
  start_task-NeverReturns locks c v =
      let (c1, prepared, fresh) = prepare-IsFresh platform willing locks c in
      rw prepared (
        >>=-Always (λ a. ⊥) (λ a. ⊥) (first_channel platform c1) _
          (first_channel-NeverReturns c1 (fresh.callback ∙ v.0, fresh.undated ∙ v.1))
          λ c2 h. absurd h)
