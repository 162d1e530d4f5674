-- ===== src/Stream/Task/Streams.antt =====
-- The streams that startChannel creates when no call fails (stream_controller.c).
use ppu_tvi_os.Common.{
  ℕ, ◌≡◌, refl, ◌==◌, true, false, List, [], ◌∷◌, ◌++◌, ap, ◌⊎◌, inl, inr, Bool-cases,
}
use ppu_tvi_os.Common.Int.{ℤ}
use ppu_tvi_os.Stream.Platform.{
  Platform, Call, StreamType, player_stream_create, player_stream_remove, video_type_mpeg2,
  audio_type_mpeg_audio,
}
use ppu_tvi_os.Stream.State.{Controller}
use ppu_tvi_os.Stream.Pids.{is_no_pid}
use ppu_tvi_os.Stream.Start.{play_video, play_audio}

-- There is no pid, or Player_Stream_Create has been called with it and has given out the handle.
abbrev pub HasStream : Platform → StreamType → ℤ → ℕ → ℕ → List Call → ℕ → Type 0
HasStream platform kind pid player source trace handle =
    (is_no_pid pid ≡ true)
    ⊎ ((is_no_pid pid ≡ false)
        × (later : List Call) × (before : List Call) × (trace
            ≡ later ++ (player_stream_create player source pid kind ∷ before))
        × (handle ≡ platform.new_handle before (player_stream_create player source pid kind)))

-- Both streams of a controller.
pub record HasStreams (platform : Platform) (video audio : ℤ) (c : Controller) : Type 0 where
  pub picture :
      HasStream platform video_type_mpeg2 video c.player_handle c.source_handle c.trace
        c.stream_handle_v
  pub sound :
      HasStream platform audio_type_mpeg_audio audio c.player_handle c.source_handle c.trace
        c.stream_handle_a

module _ (platform : Platform) where
  -- A later call.
  behind :
      (k : Call) (kind : StreamType) (pid : ℤ) (player source : ℕ) (trace : List Call) (handle : ℕ)
      → HasStream platform kind pid player source trace handle
      → HasStream platform kind pid player source (k ∷ trace) handle
  behind k kind pid player source trace handle (inl absent) = inl absent
  behind k kind pid player source trace handle (inr (present, later, before, e, h)) =
      inr (present, k ∷ later, before, ap (◌∷◌ k) e, h)

  pub behind-HasStreams :
      (k : Call) (video audio : ℤ) (c : Controller)
      → HasStreams platform video audio c
      → HasStreams platform video audio (record c { trace = k ∷ c.trace })
  behind-HasStreams k video audio c h = record {
    picture =
        behind k video_type_mpeg2 video c.player_handle c.source_handle c.trace c.stream_handle_v
          h.picture;
    sound =
        behind k audio_type_mpeg_audio audio c.player_handle c.source_handle c.trace
          c.stream_handle_a h.sound;
  }

  module _ (willing : (made : List Call) (k : Call) → platform.fails made k ≡ false) where
    play_video-HasStream :
        (pid : ℤ) (c : Controller)
        → let c' = play_video platform pid c in
          HasStream platform video_type_mpeg2 pid c'.player_handle c'.source_handle c'.trace
            c'.stream_handle_v
    unfolding play_video
    play_video-HasStream pid c = elim (Bool-cases (is_no_pid pid)) [
      | inl absent ↦ inl absent
      | inr present ↦ elim (Bool-cases (c.stream_handle_v == 0)) [
        | inl fresh ↦ simp (present, fresh, willing) (inr (refl, [], _, refl, refl))
        | inr busy ↦ simp (present, busy, willing) (inr (refl, [], _, refl, refl))
      ]
    ]

    pub play_audio-HasStreams :
        (video pid : ℤ) (c : Controller)
        → HasStream platform video_type_mpeg2 video c.player_handle c.source_handle c.trace
            c.stream_handle_v
        → HasStreams platform video pid (play_audio platform pid c)
    unfolding play_audio
    play_audio-HasStreams video pid c h =
        let later = λ (k : Call) (trace : List Call).
          behind k video_type_mpeg2 video c.player_handle c.source_handle trace c.stream_handle_v in
        let create =
          player_stream_create c.player_handle c.source_handle pid audio_type_mpeg_audio in
        let remove = player_stream_remove c.player_handle c.source_handle c.stream_handle_a in
        elim (Bool-cases (is_no_pid pid)) [
          | inl absent ↦ simp absent (record { picture = h; sound = inl absent })
          | inr present ↦ elim (Bool-cases (c.stream_handle_a == 0)) [
            | inl fresh ↦
                simp (present, fresh, willing)
                  (record {
                    picture = later create c.trace h;
                    sound = inr (present, [], _, refl, refl);
                  })
            | inr busy ↦
                simp (present, busy, willing)
                  (record {
                    picture = later create (remove ∷ c.trace) (later remove c.trace h);
                    sound = inr (present, [], _, refl, refl);
                  })
          ]
        ]

    pub played-HasStreams :
        (video audio : ℤ) (c : Controller)
        → HasStreams platform video audio (play_audio platform audio (play_video platform video c))
    played-HasStreams video audio c =
        play_audio-HasStreams video audio (play_video platform video c)
          (play_video-HasStream video c)
