-- ===== src/App/Steps/Audible.antt =====
-- What the volume is in every state that the application of tv_app.c reaches.
use ppu_tvi_os.Common.Int.{pos}
use ppu_tvi_os.Common.{ℕ, ◌≡◌, refl, ◌∙◌, sym, ◌==◌, Bool, true, Option, some, none, arith}
use ppu_tvi_os.Common.Outcome.{done, or_fault}
use ppu_tvi_os.Common.Always.{Always-done, if-Always, Always, >>=-Always, >>=-Always_any}
use ppu_tvi_os.Stream.Platform.{Platform}
use ppu_tvi_os.Stream.State.{Controller}
use ppu_tvi_os.Stream.Channels.{channel_up, channel_down}
use ppu_tvi_os.Stream.Volume.{volume_up, volume_down}
use ppu_tvi_os.Stream.Volume.Level.{up, down, mute, press_lem}
use ppu_tvi_os.Stream.Sections.{section_received}
use ppu_tvi_os.Stream.Start.{change_channel_key, task_round}
use ppu_tvi_os.Stream.Sections.Steady.{IsQuiet, IsSteady, IsSteady-self, section_received-Branch}
use ppu_tvi_os.Stream.Start.Steady.{change_channel_key-Steady, task_round-Steady}
use ppu_tvi_os.Graphics.{
  Timer, program_number_timer, volume_timer, info_timer, draw_volume_bar, draw_program_number,
  draw_info_rect, remove_program_number, remove_volume_bar, remove_info,
}
use ppu_tvi_os.Graphics.Timers.{step, expired}
use ppu_tvi_os.App.Keypad.{typed_channel}
use ppu_tvi_os.App.Remote.{
  System, volume_key, mute_key, info_key, program_up_key, program_down_key, digit_key, digit_of,
  remote_controller_callback, change_channel,
}
use ppu_tvi_os.App.Steps.{
  Step, key_pressed, keys_dialled, task_returned, section_arrived, timer_expired, Reach, here,
  later, after_round, IsAudible,
}

-- A step that leaves the volume alone.
kept-IsAudible :
    (s s' : System)
    → IsAudible s
    → IsQuiet s.controller s'.controller
    → s'.current_volume ≡ s.current_volume
    → s'.graphics.components.volume ≡ s.graphics.components.volume
    → IsAudible s'
kept-IsAudible s s' h steady shown bar = record {
  registered = steady.1 ∙ h.registered;
  level = omega (arith, steady.0, h.level);
  agreed = shown ∙ h.agreed ∙ sym steady.0;
  bar = omega (arith, bar, h.bar);
}

module _ (s : System) (h : IsAudible s) where
  volume_up-IsAudible : Always IsAudible (volume_key volume_up s)
  unfolding volume_key draw_volume_bar
  volume_up-IsAudible =
      let (ran, low) = press_lem up s.controller h.level h.registered in
      rw ran (record { registered = h.registered; level = low; agreed = refl; bar = low })

  volume_down-IsAudible : Always IsAudible (volume_key volume_down s)
  unfolding volume_key draw_volume_bar
  volume_down-IsAudible =
      let (ran, low) = press_lem down s.controller h.level h.registered in
      rw ran (record { registered = h.registered; level = low; agreed = refl; bar = low })

  mute_key-IsAudible : Always IsAudible (mute_key s)
  unfolding mute_key draw_volume_bar
  mute_key-IsAudible =
      let (ran, low) = press_lem mute s.controller h.level h.registered in
      rw ran (record { registered = h.registered; level = low; agreed = refl; bar = low })

  info_key-IsAudible : Always IsAudible (info_key s)
  unfolding info_key draw_info_rect
  info_key-IsAudible = kept-IsAudible s _ h (refl, refl) refl refl

  abbrev Quiet : Controller → Type 0
  Quiet = IsQuiet s.controller

  abbrev Steady : Controller → Type 0
  Steady = IsSteady s.controller

  channel_up-Quiet : Always (λ r. Quiet r.1) (channel_up s.controller)
  unfolding channel_up
  channel_up-Quiet =
      >>=-Always_any (λ r. Quiet r.1) (or_fault s.controller.pat_table) _ (λ pat. (refl, refl))

  channel_down-Quiet : Always (λ r. Quiet r.1) (channel_down s.controller)
  unfolding channel_down
  channel_down-Quiet =
      >>=-Always_any (λ r. Quiet r.1) (or_fault s.controller.pat_table) _ (λ pat. (refl, refl))

  program_up_key-IsAudible : Always IsAudible (program_up_key s)
  unfolding program_up_key draw_program_number
  program_up_key-IsAudible =
      >>=-Always (λ r. Quiet r.1) IsAudible (channel_up s.controller) _ channel_up-Quiet
        (λ r steady.
          kept-IsAudible s
            (record s { controller = r.1; graphics = draw_program_number s.graphics }) h steady refl
            refl)

  program_down_key-IsAudible : Always IsAudible (program_down_key s)
  unfolding program_down_key
  program_down_key-IsAudible =
      >>=-Always (λ r. Quiet r.1) IsAudible (channel_down s.controller) _ channel_down-Quiet
        (λ r steady. kept-IsAudible s (record s { controller = r.1 }) h steady refl refl)

  digit_key-IsAudible :
      (typed : Option ℕ)
      → Always IsAudible (elim typed [ some key ↦ digit_key key s | none ↦ done s ])
  unfolding digit_key
  digit_key-IsAudible none = h
  digit_key-IsAudible (some key) = kept-IsAudible s _ h (refl, refl) refl refl

  remote_controller_callback-IsAudible :
      (code : ℕ) → Always IsAudible (remote_controller_callback code s)
  unfolding remote_controller_callback
  remote_controller_callback-IsAudible code =
      if-Always IsAudible (code == 358) _ _ info_key-IsAudible (
        if-Always IsAudible (code == 62) _ _ program_up_key-IsAudible (
          if-Always IsAudible (code == 61) _ _ program_down_key-IsAudible (
            if-Always IsAudible (code == 63) _ _ volume_up-IsAudible (
              if-Always IsAudible (code == 64) _ _ volume_down-IsAudible (
                if-Always IsAudible (code == 60) _ _ mute_key-IsAudible (
                  if-Always IsAudible (code == 102) _ _
                    (kept-IsAudible s (record s { exit_signalled = true }) h (refl, refl) refl refl)
                    (digit_key-IsAudible (digit_of code))))))))

  change_channel-IsAudible : (platform : Platform) → Always IsAudible (change_channel platform s)
  unfolding change_channel
  change_channel-IsAudible platform =
      >>=-Always_any IsAudible (typed_channel s.keypad) _ (λ channel.
        >>=-Always Steady IsAudible (change_channel_key platform (pos channel) s.controller) _
          (change_channel_key-Steady s.controller platform (pos channel) s.controller
            (IsSteady-self s.controller))
          (λ c steady. kept-IsAudible s _ h steady.0 refl refl))

timer_expired-IsAudible :
    (s : System) (timer : Timer)
    → IsAudible s
    → IsAudible (record s { graphics = step (expired timer) s.graphics })
unfolding remove_program_number remove_volume_bar remove_info
timer_expired-IsAudible s program_number_timer h = kept-IsAudible s _ h (refl, refl) refl refl
timer_expired-IsAudible s volume_timer h = kept-IsAudible s _ h (refl, refl) refl refl
timer_expired-IsAudible s info_timer h = kept-IsAudible s _ h (refl, refl) refl refl

module _ (platform : Platform) where
  Step-IsAudible : {s s' : System} → Step platform s s' → IsAudible s → IsAudible s'
  Step-IsAudible {s} {s'} (key_pressed code ran) h =
      Always-done IsAudible (remote_controller_callback code s) s'
        (remote_controller_callback-IsAudible s h code) ran
  Step-IsAudible {s} {s'} (keys_dialled ran) h =
      Always-done IsAudible (change_channel platform s) s' (change_channel-IsAudible s h platform)
        ran
  Step-IsAudible {s} (task_returned c ran) h =
      kept-IsAudible s (after_round s c) h
        (Always-done (Steady s h) (task_round platform s.controller) c
          (task_round-Steady s.controller platform s.controller (IsSteady-self s.controller)) ran).0
        refl refl
  Step-IsAudible {s} (section_arrived buffer signalled c ran) h =
      kept-IsAudible s (record s { controller = c }) h
        (Always-done (λ (r : Bool × Controller). Steady s h r.1)
          (section_received buffer s.controller) (signalled, c)
          (section_received-Branch s.controller buffer s.controller (IsSteady-self s.controller))
          ran).0
        refl refl
  Step-IsAudible {s} (timer_expired timer) h = timer_expired-IsAudible s timer h

  -- From a state with a registered volume callback, a level and a volume bar of at most 10, and an
  -- application that agrees on the level, whatever keys, timers, rounds of the task and sections
  -- follow each other and whatever calls of the platform fail in them: the level and the bar stay
  -- within 10, the application's volume is the stream controller's, and the callback stays
  -- registered.
  pub Reach-IsAudible : (s s' : System) → IsAudible s → Reach platform s s' → IsAudible s'
  Reach-IsAudible s s' h here = h
  Reach-IsAudible s s' h (later r st) = Step-IsAudible st (Reach-IsAudible s _ h r)
