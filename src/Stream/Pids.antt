-- ===== src/Stream/Pids.antt =====
-- The choice of the streams to play: the `for` loop of startChannel (stream_controller.c).
pub mod Choice
use ppu_tvi_os.Common.{ℕ, zero, suc, ◌+◌, ◌==◌, ◌||◌, ◌&&◌, Bool, true, false, if◌then◌else◌, List}
use ppu_tvi_os.Common.Int.{ℤ, pos, negsuc, leb_ℤ}
use ppu_tvi_os.Common.Outcome.{Outcome, done, fault, ◌>>=◌, element}
use ppu_tvi_os.Tables.Pmt.{PmtElementaryInfo, PmtTable}

-- The local variables audioPid and videoPid (int16_t); -1 means that none was found.
pub record Pids : Type 0 where
  pub audio_pid : ℤ
  pub video_pid : ℤ

abbrev pub no_pid : ℤ
no_pid = negsuc 0

abbrev pub is_no_pid : ℤ → Bool
is_no_pid (pos n) = false
is_no_pid (negsuc n) = n == 0

abbrev pub is_video : ℕ → Bool
is_video stream_type = stream_type == 0x1 || stream_type == 0x2 || stream_type == 0x1b

abbrev pub is_audio : ℕ → Bool
is_audio stream_type = stream_type == 0x3 || stream_type == 0x4

-- The body of the loop. A pid has 13 bits, so it is the same number in an int16_t.
unfoldable pub choose : PmtElementaryInfo → Pids → Pids
choose info s =
    if is_video info.stream_type && is_no_pid s.video_pid
    then record s { video_pid = pos info.elementary_pid }
    else if is_audio info.stream_type && is_no_pid s.audio_pid
    then record s { audio_pid = pos info.elementary_pid }
    else s

-- The loop, with the rounds that are left and `i`.
unfoldable pub choose_loop : ℕ → ℕ → List PmtElementaryInfo → Pids → Outcome Pids
unfolding choose
choose_loop zero i infos s = done s
choose_loop (suc left) i infos s = do
  info ← element infos i
  choose_loop left (i + 1) infos (choose info s)

unfoldable pub choose_pids : PmtTable → Outcome Pids
unfolding choose_loop
choose_pids pmt =
    choose_loop pmt.elementary_info_count 0 pmt.pmt_elementary_info_array
      (record { audio_pid = no_pid; video_pid = no_pid })
