-- ===== src/Stream/Deinit/Released.antt =====
-- The stream controller once it has been released (stream_controller.c).
use ppu_tvi_os.Common.{ℕ, arith, ◌≡◌, refl, ap, ◌∙◌, if◌then◌else◌, true, false, List, ◌∷◌, none}
use ppu_tvi_os.Common.Int.{ℤ, pos, leb_ℤ}
use ppu_tvi_os.Common.Outcome.{Faults}
use ppu_tvi_os.Stream.Platform.{
  Platform, Call, thread_join, demux_free_filter, player_stream_remove, player_source_close,
  player_deinit, tuner_deinit,
}
use ppu_tvi_os.Stream.State.{Controller, log, sc_no_error, sc_error, sc_thread_error}
use ppu_tvi_os.Stream.Deinit.{release, stream_controller_deinit}
use ppu_tvi_os.Stream.Channels.{channel_up, channel_down}
use ppu_tvi_os.Stream.Start.{start_channel, change_channel_key}

-- The calls of a release, the latest first: the thread ends before anything is freed, and the player
-- is closed before the tuner.
abbrev pub release_calls : Controller → List Call
release_calls c =
    tuner_deinit
    ∷ player_deinit c.player_handle
    ∷ player_source_close c.player_handle c.source_handle
    ∷ player_stream_remove c.player_handle c.source_handle c.stream_handle_v
    ∷ player_stream_remove c.player_handle c.source_handle c.stream_handle_a
    ∷ demux_free_filter c.player_handle c.filter_handle
    ∷ thread_join
    ∷ c.trace

-- What a release leaves behind.
pub record IsReleased (before c : Controller) : Type 0 where
  pub calls : c.trace ≡ release_calls before
  pub pat : c.pat_table ≡ none
  pub pmt : c.pmt_table ≡ none
  pub tdt : c.tdt_table ≡ none
  pub tot : c.tot_table ≡ none
  pub stopped : c.thread_exit ≡ true
  pub uninitialized : c.is_initialized ≡ false

module _ (platform : Platform) (c : Controller) where
  -- Releasing an initialised controller whose thread can be joined frees every table and every
  -- handle in order, once: a second release is refused and makes no call.
  pub stream_controller_deinit-IsReleased :
      c.is_initialized ≡ true
      → platform.fails c.trace thread_join ≡ false
      → (c' : Controller) × (stream_controller_deinit platform c ≡ (sc_no_error, c'))
        × IsReleased c c'
        × (stream_controller_deinit platform c' ≡ (sc_error, c'))
  unfolding stream_controller_deinit
  stream_controller_deinit-IsReleased ready joined = (
    c',
    ap
          (λ b.
            if b
            then (if platform.fails c.trace thread_join
                then (sc_thread_error, log thread_join (record c { thread_exit = true }))
                else (sc_no_error, c'))
            else (sc_error, c))
          ready
        ∙ ap
            (λ b.
              if b
              then (sc_thread_error, log thread_join (record c { thread_exit = true }))
              else (sc_no_error, c'))
            joined,
    record {
      calls = refl;
      pat = refl;
      pmt = refl;
      tdt = refl;
      tot = refl;
      stopped = refl;
      uninitialized = refl;
    },
    refl,
  )
    where
      c' : Controller
      c' = release (log thread_join (record c { thread_exit = true }))

-- Without a PAT, channelUp, channelDown, startChannel, and changeChannelKey with a number that is
-- not negative, read through the pointer.
pub freed-Faults :
    (platform : Platform) (c : Controller)
    → c.pat_table ≡ none
    → Faults (channel_up c)
      × Faults (channel_down c)
      × ((n : ℤ) → Faults (start_channel platform n c))
      × ((n : ℕ) → Faults (change_channel_key platform (pos n) c))
unfolding channel_up channel_down start_channel change_channel_key
freed-Faults platform c freed =
    (rw freed, rw freed, λ n. rw freed, λ n. rw (freed, at_least n) refl)
  where
    at_least : (n : ℕ) → leb_ℤ (pos 0) (pos n) ≡ true
    at_least n = ground arith
