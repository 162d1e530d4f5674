-- ===== src/App/Remote/Neighbour.antt =====
-- The channel keys behind a typed channel number (tv_app.c, stream_controller.c): changeChannelKey
-- starts a channel without selecting it in programNumber, from which the channel keys count.
use ppu_tvi_os.Common.{ℕ, ◌+◌, ◌-◌, ◌≤◌, ◌≡◌, refl, ◌∙◌, some}
use ppu_tvi_os.Common.Int.{pos}
use ppu_tvi_os.Common.Outcome.{Outcome, done, Returns}
use ppu_tvi_os.Common.Always.{Always, >>=-Always, >>=-Always_any, Always-done}
use ppu_tvi_os.Tables.Pat.{PatTable}
use ppu_tvi_os.Stream.Platform.{Platform}
use ppu_tvi_os.Stream.Channels.{channel_up, channel_down}
use ppu_tvi_os.Stream.Channels.Zapping.{
  ZapKey, up, down, turn, at_channel, next_up_round, next_down_round,
}
use ppu_tvi_os.Stream.Sections.Steady.{IsSteady, IsSteady-self}
use ppu_tvi_os.Stream.Start.{change_channel_key}
use ppu_tvi_os.Stream.Start.Steady.{change_channel_key-Steady}
use ppu_tvi_os.Graphics.{draw_program_number}
use ppu_tvi_os.App.Keypad.{typed_channel}
use ppu_tvi_os.App.Remote.{System, change_channel, program_up_key, program_down_key}

pub change_channel-IsSteady :
    (platform : Platform) (s : System)
    → Always (λ s'. IsSteady s.controller s'.controller) (change_channel platform s)
unfolding change_channel
change_channel-IsSteady platform s =
    >>=-Always_any (λ s'. IsSteady s.controller s'.controller) (typed_channel s.keypad) _
      (λ channel.
        >>=-Always (IsSteady s.controller) (λ s'. IsSteady s.controller s'.controller)
          (change_channel_key platform (pos channel) s.controller) _
          (change_channel_key-Steady s.controller platform (pos channel) s.controller
            (IsSteady-self s.controller))
          (λ c steady. steady))

-- The handler of a channel key.
abbrev pub zap_key : ZapKey → System → Outcome System
zap_key up s = program_up_key s
zap_key down s = program_down_key s

-- The application on channel `n` behind a channel key: only the key for the next channel draws.
abbrev pub zapped : ZapKey → System → ℕ → System
zapped up s n = record s {
  controller = at_channel s.controller n;
  graphics = draw_program_number s.graphics;
}
zapped down s n = record s { controller = at_channel s.controller n }

pub zap_key-turn :
    (key : ZapKey) (s : System) (pat : PatTable) (n : ℕ)
    → s.controller.pat_table ≡ some pat
    → s.controller.program_number ≡ pos n
    → n + 2 ≤ pat.service_info_count
    → zap_key key s ≡ done (zapped key s (turn (pat.service_info_count - 1) key n))
unfolding program_up_key program_down_key channel_up channel_down
zap_key-turn up s pat n loaded here room =
    rw (loaded, here, next_up_round n pat.service_info_count room)
zap_key-turn down s pat n loaded here room =
    rw (loaded, here, next_down_round n pat.service_info_count room)

-- Whatever number has been typed and whatever it has started: behind it a channel key goes to the
-- neighbour of the channel n that was selected before the number was typed. The PAT of that moment
-- has at least two services and channel n.
pub zap_key-change_channel :
    (platform : Platform) (s s' : System) (pat : PatTable) (n : ℕ) (key : ZapKey)
    → change_channel platform s ≡ done s'
    → s'.controller.pat_table ≡ some pat
    → s.controller.program_number ≡ pos n
    → n + 2 ≤ pat.service_info_count
    → Returns
        (zap_key key s')
        (λ s''. s''.controller.program_number ≡ pos (turn (pat.service_info_count - 1) key n))
zap_key-change_channel platform s s' pat n key ran loaded here room =
    let (quiet, selected, typed) =
      Always-done (λ s'. IsSteady s.controller s'.controller) (change_channel platform s) s'
        (change_channel-IsSteady platform s) ran in
    let m = turn (pat.service_info_count - 1) key n in
    (
      zapped key s' m,
      zap_key-turn key s' pat n loaded (selected ∙ here) room,
      zapped-program_number key s' m,
    )
  where
    zapped-program_number :
        (key : ZapKey) (s : System) (m : ℕ) → (zapped key s m).controller.program_number ≡ pos m
    zapped-program_number up s m = refl
    zapped-program_number down s m = refl
