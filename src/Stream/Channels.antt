-- ===== src/Stream/Channels.antt =====
-- channelUp, channelDown, getChannelInfo and the registration of callbacks, of stream_controller.c.
-- A program number that is stepped stays between -2 and 253, so int16_t changes nothing.
pub mod Zapping
use ppu_tvi_os.Common.{ℕ, if◌then◌else◌, Bool, true, false, Option, none, some}
use ppu_tvi_os.Common.Int.{ℤ, pos, ◌+ℤ◌, ◌-ℤ◌, leb_ℤ}
use ppu_tvi_os.Common.Outcome.{Outcome, done, ◌>>=◌, or_fault}
use ppu_tvi_os.Stream.State.{Controller, ChannelInfo, StreamControllerError, sc_no_error, sc_error}

-- `patTable->serviceInfoCount - 2`, in int.
abbrev pub last_channel : ℕ → ℤ
last_channel service_info_count = pos service_info_count -ℤ pos 2

unfoldable pub next_up : ℤ → ℕ → ℤ
next_up program_number count =
    if leb_ℤ (last_channel count) program_number then pos 0 else program_number +ℤ pos 1

unfoldable pub next_down : ℤ → ℕ → ℤ
next_down program_number count =
    if leb_ℤ program_number (pos 0) then last_channel count else program_number -ℤ pos 1

unfoldable pub channel_up : Controller → Outcome (StreamControllerError × Controller)
unfolding next_up
channel_up c = do
  pat ← or_fault c.pat_table
  done (
    sc_no_error,
    record c {
      program_number = next_up c.program_number pat.service_info_count;
      change_channel = true;
    },
  )

unfoldable pub channel_down : Controller → Outcome (StreamControllerError × Controller)
unfolding next_down
channel_down c = do
  pat ← or_fault c.pat_table
  done (
    sc_no_error,
    record c {
      program_number = next_down c.program_number pat.service_info_count;
      change_channel = true;
    },
  )

-- The output pointer is an option; what it points to is overwritten as a whole.
unfoldable pub get_channel_info :
    Option ChannelInfo → Controller → StreamControllerError × Option ChannelInfo
get_channel_info none c = (sc_error, none)
get_channel_info (some _) c = (sc_no_error, some c.current_channel)

unfoldable pub register_date_callback : Bool → Controller → StreamControllerError × Controller
register_date_callback false c = (sc_error, c)
register_date_callback true c = (sc_no_error, record c { date_received_callback = true })

unfoldable pub register_volume_callback : Bool → Controller → StreamControllerError × Controller
register_volume_callback false c = (sc_error, c)
register_volume_callback true c = (sc_no_error, record c { volume_report_callback = true })
