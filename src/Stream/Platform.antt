-- ===== src/Stream/Platform.antt =====
-- The calls that stream_controller.c makes of the television platform (tdp_api.h, which is not part
-- of the repository) and of its clients' callbacks, and what the platform answers.
use ppu_tvi_os.Common.{ℕ, Bool, List}
use ppu_tvi_os.Common.Int.{ℤ}

-- `VIDEO_TYPE_MPEG2` and `AUDIO_TYPE_MPEG_AUDIO`
pub data StreamType : Type 0 where
  video_type_mpeg2 audio_type_mpeg_audio : StreamType

-- `CurrentDate`
pub record CurrentDate : Type 0 where
  pub year : ℕ  -- uint16_t
  pub tmp_month : ℕ  -- uint8_t
  pub day : ℕ  -- uint8_t

-- `t_LockStatus`: STATUS_LOCKED, and the others.
pub data LockStatus : Type 0 where
  status_locked status_not_locked : LockStatus

-- The memory that streamControllerTask allocates.
pub data Table : Type 0 where
  pat_memory pmt_memory tdt_memory tot_memory : Table

-- `InitialInfo`; its module is a number of the platform's enumeration `t_Module`.
pub record InitialInfo : Type 0 where
  pub tune_frequency : ℕ  -- uint32_t
  pub tune_bandwidth : ℕ  -- uint32_t
  pub program_number : ℕ  -- uint32_t
  pub tune_module : ℕ

-- One call with its arguments.
pub data Call : Type 0 where
  thread_create : Call
  allocate : Table → Call
  tuner_init : Call
  tuner_register_status_callback : Call
  tuner_lock_to_frequency : ℕ → ℕ → ℕ → Call
  player_init : Call
  player_source_open : ℕ → Call
  demux_register_section_filter_callback : Call
  demux_set_filter : ℕ → ℕ → ℕ → Call
  demux_free_filter : ℕ → ℕ → Call
  player_stream_create : ℕ → ℕ → ℤ → StreamType → Call
  player_stream_remove : ℕ → ℕ → ℕ → Call
  player_source_close : ℕ → ℕ → Call
  player_deinit : ℕ → Call
  player_volume_set : ℕ → ℕ → Call
  tuner_deinit : Call
  clear_screen : ℕ → Call
  thread_join : Call
  volume_report : ℕ → Call
  date_received : CurrentDate → Call

-- What the platform answers, given the calls made before: whether a call fails (a status other
-- than 0, and NULL of `malloc`), the handle that it gives out, and the statuses that the tuner
-- reports within the ten seconds that streamControllerTask waits. `dvb_t` is the number of `DVB_T`.
pub record Platform : Type 0 where
  pub fails : List Call → Call → Bool
  pub new_handle : List Call → Call → ℕ
  pub statuses : List Call → List LockStatus
  pub dvb_t : ℕ
