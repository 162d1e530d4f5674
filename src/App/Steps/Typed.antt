-- ===== src/App/Steps/Typed.antt =====
-- The tables in every state that the application of tv_app.c reaches.
use ppu_tvi_os.Common.{Bool}
use ppu_tvi_os.Common.Always.{Always-done}
use ppu_tvi_os.Stream.Platform.{Platform}
use ppu_tvi_os.Stream.State.{Controller}
use ppu_tvi_os.Stream.Sections.{section_received}
use ppu_tvi_os.Stream.Start.{task_round}
use ppu_tvi_os.Stream.Sections.Steady.{AreTyped, IsSteady, IsSteady-self, section_received-Branch}
use ppu_tvi_os.Stream.Start.Steady.{task_round-Steady}
use ppu_tvi_os.App.Remote.{System, remote_controller_callback, change_channel}
use ppu_tvi_os.App.Remote.Kept.{remote_controller_callback-Kept}
use ppu_tvi_os.App.Remote.Neighbour.{change_channel-IsSteady}
use ppu_tvi_os.App.Steps.{
  Step, key_pressed, keys_dialled, task_returned, section_arrived, timer_expired, Reach, here,
  later,
}

module _ (platform : Platform) where
  Step-AreTyped :
      {s s' : System} → Step platform s s' → AreTyped s.controller → AreTyped s'.controller
  Step-AreTyped {s} {s'} (key_pressed code ran) v =
      Always-done (λ s'. AreTyped s'.controller) (remote_controller_callback code s) s'
        (remote_controller_callback-Kept AreTyped (λ c volume program change trace v. v) s v code)
        ran
  Step-AreTyped {s} {s'} (keys_dialled ran) v =
      let (quiet, selected, typed) =
        Always-done (λ s'. IsSteady s.controller s'.controller) (change_channel platform s) s'
          (change_channel-IsSteady platform s) ran in
      typed v
  Step-AreTyped {s} (task_returned c ran) v =
      let (quiet, selected, typed) =
        Always-done (IsSteady s.controller) (task_round platform s.controller) c
          (task_round-Steady s.controller platform s.controller (IsSteady-self s.controller)) ran in
      typed v
  Step-AreTyped {s} (section_arrived buffer signalled c ran) v =
      let (quiet, selected, typed) =
        Always-done (λ (r : Bool × Controller). IsSteady s.controller r.1)
          (section_received buffer s.controller) (signalled, c)
          (section_received-Branch s.controller buffer s.controller (IsSteady-self s.controller))
          ran in
      typed v
  Step-AreTyped (timer_expired timer) v = v

  -- Whatever sections arrive and whatever keys, timers and rounds of the task follow each other: from
  -- tables whose fields are in their ranges and whose counts lie within their arrays, every state
  -- that is reached has such tables.
  pub Reach-AreTyped :
      (s s' : System) → AreTyped s.controller → Reach platform s s' → AreTyped s'.controller
  Reach-AreTyped s s' v here = v
  Reach-AreTyped s s' v (later r st) = Step-AreTyped st (Reach-AreTyped s _ v r)
