-- ===== src/Stream/Task/Quiet.antt =====
-- The start of the stream controller leaves the volume alone (stream_controller.c).
use ppu_tvi_os.Common.{◌≡◌, ◌∙◌, true, false, List}
use ppu_tvi_os.Common.Outcome.{done, ◌>>=◌}
use ppu_tvi_os.Common.Always.{Always, >>=-Always, Always-done}
use ppu_tvi_os.Stream.Platform.{Platform, Call}
use ppu_tvi_os.Stream.State.{Controller, StreamControllerError, sc_no_error}
use ppu_tvi_os.Stream.Sections.{wait_demux}
use ppu_tvi_os.Stream.Sections.Steady.{IsQuiet, IsSteady, IsSteady-self, wait_demux-Steady}
use ppu_tvi_os.Stream.Start.{start_channel}
use ppu_tvi_os.Stream.Start.Steady.{start_channel-Steady}
use ppu_tvi_os.Stream.Task.{locks_in_time, first_channel, finish_start, start_task}
use ppu_tvi_os.Stream.Task.Startup.{prepare-IsFresh}

first_channel-Steady :
    (platform : Platform) (c : Controller) → Always (IsSteady c) (first_channel platform c)
unfolding first_channel
first_channel-Steady platform c =
    >>=-Always (IsSteady c) (IsSteady c) (wait_demux c) _ (wait_demux-Steady c c (IsSteady-self c))
      λ c1 h1.
        >>=-Always (IsSteady c) (IsSteady c) (start_channel platform c1.program_number c1) _
          (start_channel-Steady c platform c1.program_number c1 h1) λ c2 h2. h2

-- What the task reports is quiet.
abbrev Reported : Controller → StreamControllerError × Controller → Type 0
Reported c r = IsQuiet c r.1

-- When no call fails and the tuner locks in time, the volume and its callback are those from before
-- the start of the task.
pub start_task-IsQuiet :
    (platform : Platform)
    → ((made : List Call) (k : Call) → platform.fails made k ≡ false)
    → ((made : List Call) → locks_in_time (platform.statuses made) ≡ true)
    → (c : Controller) (r : StreamControllerError × Controller) → start_task platform c ≡ done r
    → IsQuiet c r.1
unfolding start_task finish_start
start_task-IsQuiet platform willing locks c r ran =
    let (c1, prepared, fresh) = prepare-IsFresh platform willing locks c in
    let (volume, told) = fresh.quiet in
    let always : Always (Reported c) (first_channel platform c1 >>= λ c'. done (sc_no_error, c')) =
      >>=-Always (IsSteady c1) (Reported c) (first_channel platform c1) _
        (first_channel-Steady platform c1)
        λ c' ((level, callback), selected, typed). (level ∙ volume, callback ∙ told) in
    Always-done (Reported c) (start_task platform c) r (rw prepared always) ran
