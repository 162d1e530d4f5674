-- ===== src/App/Remote/Kept.antt =====
-- What the remote controller's keys keep of the stream controller (tv_app.c): everything but the
-- volume, the selected channel, the request to start it, and the calls of the platform.
use ppu_tvi_os.Common.{ℕ, ◌==◌, Bool, true, Option, some, none, List, [], ◌∷◌}
use ppu_tvi_os.Common.Int.{ℤ}
use ppu_tvi_os.Common.Outcome.{done, or_fault}
use ppu_tvi_os.Common.Always.{Always, >>=-Always, >>=-Always_any, if-Always}
use ppu_tvi_os.Stream.Platform.{Call}
use ppu_tvi_os.Stream.State.{Controller}
use ppu_tvi_os.Stream.Channels.{channel_up, channel_down}
use ppu_tvi_os.Stream.Volume.{report_volume, volume_up, volume_down, volume_mute}
use ppu_tvi_os.App.Remote.{
  System, volume_key, mute_key, info_key, program_up_key, program_down_key, digit_key, digit_of,
  remote_controller_callback,
}
use ppu_tvi_os.App.Remote.Ready.{press_codes}

module _ (P : Controller → Type 0)
    (stable : (c : Controller) (volume : ℕ) (program : ℤ) (change : Bool) (trace : List Call)
      → P c
      → P (record c {
        current_volume = volume;
        program_number = program;
        change_channel = change;
        trace = trace;
      })) where
  -- Of the whole application.
  abbrev Kept : System → Type 0
  Kept s = P s.controller

  module _ (s : System) (v : Kept s) where
    reported :
        (volume : ℕ) (trace : List Call)
        → Always P (report_volume (record s.controller { current_volume = volume; trace = trace }))
    unfolding report_volume
    reported volume trace =
        if-Always P s.controller.volume_report_callback _ _
          (stable s.controller volume s.controller.program_number s.controller.change_channel _ v)
          tt

    volume_up-Kept : Always Kept (volume_key volume_up s)
    unfolding volume_key volume_up
    volume_up-Kept = >>=-Always P Kept (volume_up s.controller) _ (reported _ _) λ c w. w

    volume_down-Kept : Always Kept (volume_key volume_down s)
    unfolding volume_key volume_down
    volume_down-Kept = >>=-Always P Kept (volume_down s.controller) _ (reported _ _) λ c w. w

    mute_key-Kept : Always Kept (mute_key s)
    unfolding mute_key volume_mute
    mute_key-Kept =
        stable s.controller 0 s.controller.program_number s.controller.change_channel _ v

    info_key-Kept : Always Kept (info_key s)
    unfolding info_key
    info_key-Kept = v

    program_up_key-Kept : Always Kept (program_up_key s)
    unfolding program_up_key channel_up
    program_up_key-Kept =
        >>=-Always (λ r. P r.1) Kept (channel_up s.controller) _
          (>>=-Always_any (λ r. P r.1) (or_fault s.controller.pat_table) _
            λ pat. stable s.controller s.controller.current_volume _ true s.controller.trace v)
          λ r w. w

    program_down_key-Kept : Always Kept (program_down_key s)
    unfolding program_down_key channel_down
    program_down_key-Kept =
        >>=-Always (λ r. P r.1) Kept (channel_down s.controller) _
          (>>=-Always_any (λ r. P r.1) (or_fault s.controller.pat_table) _
            λ pat. stable s.controller s.controller.current_volume _ true s.controller.trace v)
          λ r w. w

    digit_key-Kept :
        (typed : Option ℕ) → Always Kept (elim typed [ some key ↦ digit_key key s | none ↦ done s ])
    unfolding digit_key
    digit_key-Kept none = v
    digit_key-Kept (some key) = v

    pub remote_controller_callback-Kept :
        (code : ℕ) → Always Kept (remote_controller_callback code s)
    unfolding remote_controller_callback
    remote_controller_callback-Kept code = if-Always Kept (code == 358) _ _ info_key-Kept (
        if-Always Kept (code == 62) _ _ program_up_key-Kept (
          if-Always Kept (code == 61) _ _ program_down_key-Kept (
            if-Always Kept (code == 63) _ _ volume_up-Kept (
              if-Always Kept (code == 64) _ _ volume_down-Kept (
                if-Always Kept (code == 60) _ _ mute_key-Kept
                  (if-Always Kept (code == 102) _ _ v (digit_key-Kept (digit_of code))))))))

  -- Any keys keep what the stream controller has.
  pub press_codes-Kept :
      (codes : List ℕ) (s : System) → P s.controller → Always Kept (press_codes codes s)
  press_codes-Kept [] s v = v
  press_codes-Kept (code ∷ codes) s v =
      >>=-Always Kept Kept (remote_controller_callback code s) _
        (remote_controller_callback-Kept s v code) (press_codes-Kept codes)
