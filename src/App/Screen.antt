-- ===== src/App/Screen.antt =====
-- The keys of tv_app.c and the frames that renderThread of graphics_controller.c draws behind them.
use ppu_tvi_os.Common.{◌≡◌, false, List, refl}
use ppu_tvi_os.Common.Outcome.{done}
use ppu_tvi_os.Graphics.{draw_info_rect}
use ppu_tvi_os.Graphics.Device.{Display, Call}
use ppu_tvi_os.Graphics.Render.{render_frame}
use ppu_tvi_os.Graphics.Render.Frames.{IsSound, Stops, render_frame-IsSound, render_frame-Stops}
use ppu_tvi_os.App.Remote.{System, info_key}
use ppu_tvi_os.Stream.Platform.{Platform}
use ppu_tvi_os.App.Steps.{Reach, IsAudible}
use ppu_tvi_os.App.Steps.Audible.{Reach-IsAudible}

-- In every state that keys, timers, rounds of the task and sections lead to from one with a registered
-- volume callback and an agreed volume of at most 10, if the information box is not shown, the next
-- frame uses no memory that it must not: the volume image is one of the eleven that there are, and a
-- failing call of DirectFB only ends the program.
pub render_frame-Reach :
    (platform : Platform) (display : Display) (calls : List Call) (s s' : System)
    → IsAudible s
    → Reach platform s s'
    → s'.graphics.components.show_info ≡ false
    → IsSound (render_frame display s'.graphics calls)
render_frame-Reach platform display calls s s' h r hidden =
    let h' = Reach-IsAudible platform s s' h r in
    render_frame-IsSound display s'.graphics calls h'.bar hidden

-- Behind the info key no frame is drawn to its end, whatever the channel and the date: the text of
-- the video pid does not fit into the ten characters of tempString, unless DirectFB has failed
-- before it.
pub render_frame-info_key :
    (display : Display) (calls : List Call) (s : System)
    → (s' : System) × (info_key s ≡ done s') × Stops (render_frame display s'.graphics calls)
unfolding info_key draw_info_rect
render_frame-info_key display calls s = (_, refl, render_frame-Stops display _ calls refl)
