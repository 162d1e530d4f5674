-- ===== src/Stream/Start/Refused.antt =====
-- startChannel when the player refuses a stream (stream_controller.c): it releases the whole
-- controller and goes on.
use ppu_tvi_os.Common.{◌≡◌, false, none}
use ppu_tvi_os.Stream.Platform.{Platform}
use ppu_tvi_os.Stream.State.{Controller}

abbrev IsFreed : Controller → Type 0
IsFreed c = (c.pat_table ≡ none) × (c.is_initialized ≡ false)
