-- ===== src/Stream/State.antt =====
-- The file-scope variables of stream_controller.c, and how its functions call the platform.
use ppu_tvi_os.Common.{ℕ, Bool, Option, List, ◌∷◌}
use ppu_tvi_os.Common.Int.{ℤ, pos, negsuc}
use ppu_tvi_os.Common.Outcome.{Outcome, fault, element}
use ppu_tvi_os.Tables.Pat.{PatTable}
use ppu_tvi_os.Tables.Pmt.{PmtTable}
use ppu_tvi_os.Tables.Tdt.{TdtTable}
use ppu_tvi_os.Tables.Tot.{TotTable}
use ppu_tvi_os.Stream.Platform.{Call, CurrentDate, InitialInfo}

-- `StreamControllerError`
pub data StreamControllerError : Type 0 where
  sc_no_error sc_error sc_thread_error : StreamControllerError

-- `ChannelInfo`
pub record ChannelInfo : Type 0 where
  pub program_number : ℤ  -- int16_t
  pub audio_pid : ℤ  -- int16_t
  pub video_pid : ℤ  -- int16_t

-- A table pointer is `none` while it is NULL and after it has been freed: an access is a fault.
-- A callback pointer is only stored and called: a Boolean says whether one is registered.
-- `status_mutex_held` says that a thread has ended that had locked statusMutex.
-- `trace` lists the calls made so far, the latest first; `incoming` the sections that the
-- demultiplexer will deliver, in order.
pub record Controller : Type 0 where
  pub pat_table : Option PatTable
  pub pmt_table : Option PmtTable
  pub tdt_table : Option TdtTable
  pub tot_table : Option TotTable
  pub player_handle : ℕ
  pub source_handle : ℕ
  pub stream_handle_a : ℕ
  pub stream_handle_v : ℕ
  pub filter_handle : ℕ
  pub thread_exit : Bool
  pub change_channel : Bool
  pub program_number : ℤ  -- int16_t
  pub current_channel : ChannelInfo
  pub is_initialized : Bool
  pub time_tables_received : Bool
  pub date_received_callback : Bool
  pub volume_report_callback : Bool
  pub config_file : InitialInfo
  pub status_mutex_held : Bool
  pub current_date : CurrentDate
  pub current_volume : ℕ  -- uint32_t
  pub trace : List Call
  pub incoming : List (List ℕ)

-- The controller after a call.
abbrev pub log : Call → Controller → Controller
log k c = record c { trace = k ∷ c.trace }

-- `array[i]` at a signed index.
abbrev pub element_ℤ {ℓ} : {A : Type ℓ} → List A → ℤ → Outcome A
element_ℤ xs (pos n) = element xs n
element_ℤ xs (negsuc n) = fault

-- `volumeConstant`
abbrev pub volume_constant : ℕ
volume_constant = 160400000
