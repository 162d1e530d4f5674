-- ===== src/App/Older.antt =====
-- vezba_5.c, the program before tv_app.c: the same modules without the volume and the date. It calls
-- drawInfoRect() without arguments, as the graphics module had it then; that function is not in the
-- repository, and is the parameter `draw_info`.
pub mod Keys
pub mod Main
pub mod Undated
mod Tests
use ppu_tvi_os.Common.{
  ℕ, ◌+◌, ◌*◌, ◌==◌, Bool, true, if◌then◌else◌, Option, none, some, set, get_or,
}
use ppu_tvi_os.Common.Int.{pos}
use ppu_tvi_os.Common.Outcome.{Outcome, done, fault, ◌>>=◌}
use ppu_tvi_os.Stream.Platform.{Platform}
use ppu_tvi_os.Stream.State.{ChannelInfo, Controller}
use ppu_tvi_os.Stream.Channels.{channel_up, channel_down, get_channel_info}
use ppu_tvi_os.Stream.Start.{change_channel_key}
use ppu_tvi_os.Graphics.{Graphics}
use ppu_tvi_os.App.Keypad.{Keypad}
use ppu_tvi_os.App.Remote.{digit_of}

-- The static variables of vezba_5.c, with the state of the modules below it.
pub record OlderSystem : Type 0 where
  pub controller : Controller
  pub graphics : Graphics
  pub keypad : Keypad
  pub channel_info : ChannelInfo
  pub exit_signalled : Bool

-- inputChannelNumber, with the same comparison in place of an assignment as in tv_app.c.
unfoldable pub input_channel_number : ℕ → Keypad → Keypad
input_channel_number key k0 =
    let k = record k0 { timer_set = true } in
    if k.keys_pressed == 0
    then record k { keys = set k.keys 0 key; keys_pressed = k.keys_pressed + 1 }
    else if k.keys_pressed == 1
    then record k { keys = set k.keys 1 key; keys_pressed = k.keys_pressed + 1 }
    else if k.keys_pressed == 2
    then record k { keys = set k.keys 2 key; keys_pressed = k.keys_pressed + 1 }
    else if k.keys_pressed == 3
    then record k { keys = set (set (set k.keys 0 key) 1 0) 2 0 }
    else k

-- The local variable `channel` of changeChannel.
unfoldable pub channel_of_keys : Keypad → Outcome ℕ
channel_of_keys k =
    let key = λ (i : ℕ). get_or k.keys i 0 in
    if k.keys_pressed == 1
    then done (key 0)
    else if k.keys_pressed == 2
    then done (10 * key 0 + key 1)
    else if k.keys_pressed == 3
    then done (100 * key 0 + 10 * key 1 + key 2)
    else fault

-- changeChannel, which keyTimer calls.
unfoldable pub change_channel : Platform → OlderSystem → Outcome OlderSystem
change_channel platform s = do
  channel ← channel_of_keys s.keypad
  c ← change_channel_key platform (pos channel) s.controller
  done (record s {
    controller = c;
    keypad = record s.keypad { keys_pressed = 0; keys = set (set (set s.keypad.keys 0 0) 1 0) 2 0 };
  })

module _ (draw_info : Graphics → Graphics) where
  -- The case of KEYCODE_INFO.
  unfoldable pub show_channel_info : OlderSystem → Outcome OlderSystem
  unfolding get_channel_info
  show_channel_info s =
      let (code, read) = get_channel_info (some s.channel_info) s.controller in
      let info : ChannelInfo = elim read [ none ↦ s.channel_info | some i ↦ i ] in
      done (record s { channel_info = info; graphics = draw_info s.graphics })

  -- The `switch` on the key's code, whose digits have the codes that they have in tv_app.c.
  unfoldable pub remote_controller_callback : ℕ → OlderSystem → Outcome OlderSystem
  unfolding digit_of
  remote_controller_callback code s =
      if code == 358
      then show_channel_info s
      else if code == 62
      then (do (status, c) ← channel_up s.controller; done (record s { controller = c }))
      else if code == 61
      then (do (status, c) ← channel_down s.controller; done (record s { controller = c }))
      else if code == 102
      then done (record s { exit_signalled = true })
      else elim (digit_of code) [
        | some key ↦ done (record s { keypad = input_channel_number key s.keypad })
        | none ↦ done s
      ]
