-- ===== src/App/Keypad.antt =====
-- The channel number that is typed on the remote controller: `keysPressed`, `keys` and `keyTimer` of
-- tv_app.c, inputChannelNumber, and the first part of changeChannel, which the timer calls.
pub mod Digits
use ppu_tvi_os.Common.{ℕ, ◌+◌, ◌*◌, ◌==◌, if◌then◌else◌, Bool, true, List, [], ◌∷◌, set, get_or}
use ppu_tvi_os.Common.Outcome.{Outcome, done, fault}

pub record Keypad : Type 0 where
  pub keys_pressed : ℕ  -- int32_t
  pub keys : List ℕ  -- int32_t, 3 elements
  pub timer_set : Bool

-- The static variables at the start.
unfoldable pub empty_keypad : Bool → Keypad
empty_keypad timer = record { keys_pressed = 0; keys = 0 ∷ 0 ∷ 0 ∷ []; timer_set = timer }

-- At three keys, the statement `keysPressed == 1;` compares and assigns nothing.
unfoldable pub input_channel_number : ℕ → Keypad → Keypad
input_channel_number key k0 =
    let k = record k0 { timer_set = true } in
    if k.keys_pressed == 0
    then record k { keys = set k.keys 0 key; keys_pressed = k.keys_pressed + 1 }
    else if k.keys_pressed == 1
    then record k { keys = set k.keys 1 key; keys_pressed = k.keys_pressed + 1 }
    else if k.keys_pressed == 2
    then record k { keys = set k.keys 2 key; keys_pressed = k.keys_pressed + 1 }
    else if k.keys_pressed == 3
    then record k { keys = set (set (set k.keys 0 key) 1 0) 2 0 }
    else k

-- The local variable `channel` of changeChannel: with no key pressed it is read uninitialised.
unfoldable pub typed_channel : Keypad → Outcome ℕ
typed_channel k =
    let key = λ (i : ℕ). get_or k.keys i 0 in
    if k.keys_pressed == 1
    then done (key 0)
    else if k.keys_pressed == 2
    then done (10 * key 0 + key 1)
    else if k.keys_pressed == 3
    then done (100 * key 0 + 10 * key 1 + key 2)
    else fault

-- The assignments behind the call of changeChannelKey.
unfoldable pub clear_keys : Keypad → Keypad
clear_keys k = record k { keys_pressed = 0; keys = set (set (set k.keys 0 0) 1 0) 2 0 }
