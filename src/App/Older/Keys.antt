-- ===== src/App/Older/Keys.antt =====
-- The keys and the dialling of vezba_5.c, and of tv_app.c without the volume.
use ppu_tvi_os.Common.{
  unequal, ℕ, ◌≡◌, ◌≢◌, refl, ap, ◌∙◌, ◌==◌, Bool, true, false, if◌then◌else◌, Option, some, none,
  List, [], ◌∷◌, All, Bool-cases, inl, inr,
}
use ppu_tvi_os.Common.Int.{pos}
use ppu_tvi_os.Common.Outcome.{Outcome, done, fault, out_of_fuel, ◌>>=◌}
use ppu_tvi_os.Stream.Platform.{Platform}
use ppu_tvi_os.Stream.State.{Controller, StreamControllerError}
use ppu_tvi_os.Stream.Channels.{channel_up, channel_down}
use ppu_tvi_os.Stream.Start.{change_channel_key}
use ppu_tvi_os.Graphics.{Graphics}
use ppu_tvi_os.App.Keypad as Keypad
use ppu_tvi_os.App.Keypad.{Keypad, typed_channel}
use ppu_tvi_os.App.Remote as Remote
use ppu_tvi_os.App.Remote.{System, info_key, program_up_key, program_down_key, digit_key, digit_of}
use ppu_tvi_os.App.Older.{
  OlderSystem, input_channel_number, channel_of_keys, change_channel, show_channel_info,
  remote_controller_callback,
}

-- What vezba_5.c has of an application, with a screen of its own.
abbrev pub part : Graphics → System → OlderSystem
part g s = record {
  controller = s.controller;
  graphics = g;
  keypad = s.keypad;
  channel_info = s.channel_info;
  exit_signalled = s.exit_signalled;
}

-- The same run, of which `part` is seen.
abbrev pub seen : Graphics → Outcome System → Outcome OlderSystem
seen g run = run >>= λ s. done (part g s)

-- A run in two parts, of which the second is seen.
seen->>= :
    {A : Type 0} (g : Graphics) (m : Outcome A) (f : A → Outcome System)
    (k : A → Outcome OlderSystem)
    → ((a : A) → k a ≡ seen g (f a))
    → (m >>= k) ≡ seen g (m >>= f)
seen->>= g (done a) f k h = h a
seen->>= g fault f k h = refl
seen->>= g out_of_fuel f k h = refl

seen-if :
    (g : Graphics) (b : Bool) (m k : Outcome System) (m' k' : Outcome OlderSystem)
    → m' ≡ seen g m
    → k' ≡ seen g k
    → (if b then m' else k') ≡ seen g (if b then m else k)
seen-if g true m k m' k' hm hk = hm
seen-if g false m k m' k' hm hk = hk

input_channel_number-older :
    (key : ℕ) (k : Keypad) → input_channel_number key k ≡ Keypad.input_channel_number key k
unfolding input_channel_number Keypad.input_channel_number
input_channel_number-older key k = refl

channel_of_keys-typed_channel : (k : Keypad) → channel_of_keys k ≡ typed_channel k
unfolding channel_of_keys typed_channel
channel_of_keys-typed_channel k = refl

-- The keys that both programs know.
pub record IsShared (code : ℕ) : Type 0 where
  pub no_more : code ≢ 63
  pub no_less : code ≢ 64
  pub no_mute : code ≢ 60

pub change_channel-part :
    (platform : Platform) (g : Graphics) (s : System)
    → change_channel platform (part g s) ≡ seen g (Remote.change_channel platform s)
unfolding change_channel Remote.change_channel Keypad.clear_keys
change_channel-part platform g s =
    ap
      (λ m. m >>= λ channel. change_channel_key platform (pos channel) s.controller >>= λ c.
        done (part g (record s { controller = c; keypad = Keypad.clear_keys s.keypad })))
      (channel_of_keys-typed_channel s.keypad)
    ∙ seen->>= g (typed_channel s.keypad) _ _
        λ channel. seen->>= g (change_channel_key platform (pos channel) s.controller) _ _ λ c. refl

module _ (draw_info : Graphics → Graphics) where
  -- Only the key for the information draws.
  abbrev pub drawn : ℕ → Graphics → Graphics
  drawn code g = if code == 358 then draw_info g else g

  module _ (g : Graphics) (s : System) where
    show_channel_info-part :
        show_channel_info draw_info (part g s) ≡ seen (draw_info g) (info_key s)
    unfolding show_channel_info info_key
    show_channel_info-part = refl

    program_up-part :
        (channel_up s.controller >>= λ (r : StreamControllerError × Controller).
        done (record (part g s) { controller = r.1 }))
        ≡ seen g (program_up_key s)
    unfolding program_up_key
    program_up-part = seen->>= g (channel_up s.controller) _ _ λ r. refl

    program_down-part :
        (channel_down s.controller >>= λ (r : StreamControllerError × Controller).
        done (record (part g s) { controller = r.1 }))
        ≡ seen g (program_down_key s)
    unfolding program_down_key
    program_down-part = seen->>= g (channel_down s.controller) _ _ λ r. refl

    digit-part :
        (typed : Option ℕ)
        → elim typed [
          | some key ↦ done (record (part g s) { keypad = input_channel_number key s.keypad })
          | none ↦ done (part g s)
        ]
          ≡ seen g (elim typed [ some key ↦ digit_key key s | none ↦ done s ])
    unfolding digit_key
    digit-part none = refl
    digit-part (some key) =
        ap (λ k. done (record (part g s) { keypad = k })) (input_channel_number-older key s.keypad)

    remote_controller_callback-part :
        (code : ℕ)
        → IsShared code
        → remote_controller_callback draw_info code (part g s)
          ≡ seen (drawn code g) (Remote.remote_controller_callback code s)
    unfolding remote_controller_callback Remote.remote_controller_callback
    remote_controller_callback-part code shared = elim (Bool-cases (code == 358)) [
      | inl info ↦ rw info show_channel_info-part
      | inr no_info ↦
          rw
            (
              no_info,
              unequal code 63 shared.no_more,
              unequal code 64 shared.no_less,
              unequal code 60 shared.no_mute,
            )
            (seen-if g (code == 62) _ _ _ _ program_up-part (
              seen-if g (code == 61) _ _ _ _ program_down-part
                (seen-if g (code == 102) _ _ _ _ refl (digit-part (digit_of code)))))
    ]

-- A key, or the expiry of the timer for the keys.
pub data Act : Type 0 where
  press : ℕ → Act
  dial : Act

abbrev pub IsOlder : Act → Type 0
IsOlder (press code) = IsShared code
IsOlder dial = Unit

module _ (platform : Platform) where
  abbrev pub act : Act → System → Outcome System
  act (press code) s = Remote.remote_controller_callback code s
  act dial s = Remote.change_channel platform s

  abbrev pub act_all : List Act → System → Outcome System
  act_all [] s = done s
  act_all (a ∷ acts) s = act a s >>= act_all acts

  module _ (draw_info : Graphics → Graphics) where
    abbrev pub older_act : Act → OlderSystem → Outcome OlderSystem
    older_act (press code) s = remote_controller_callback draw_info code s
    older_act dial s = change_channel platform s

    abbrev pub older_act_all : List Act → OlderSystem → Outcome OlderSystem
    older_act_all [] s = done s
    older_act_all (a ∷ acts) s = older_act a s >>= older_act_all acts

    abbrev pub drawn_all : List Act → Graphics → Graphics
    drawn_all [] g = g
    drawn_all (press code ∷ acts) g = drawn_all acts (drawn draw_info code g)
    drawn_all (dial ∷ acts) g = drawn_all acts g

    >>=-seen :
        (g : Graphics) (acts : List Act) (m : Outcome System)
        → ((s : System) → older_act_all acts (part g s) ≡ seen (drawn_all acts g) (act_all acts s))
        → (seen g m >>= older_act_all acts) ≡ seen (drawn_all acts g) (m >>= act_all acts)
    >>=-seen g acts (done s) h = h s
    >>=-seen g acts fault h = refl
    >>=-seen g acts out_of_fuel h = refl

    -- Over any keys other than those for the volume, and any expiries of the timer for the keys
    -- between them, vezba_5.c does to the stream controller, the keypad, the channel info and the
    -- wait of main what tv_app.c does, faults and waits without end included.
    pub older_act_all-act_all :
        (acts : List Act) (g : Graphics) (s : System)
        → All IsOlder acts
        → older_act_all acts (part g s) ≡ seen (drawn_all acts g) (act_all acts s)
    older_act_all-act_all [] g s h = refl
    older_act_all-act_all (press code ∷ acts) g s h =
        let g' = drawn draw_info code g in
        ap (λ m. m >>= older_act_all acts) (remote_controller_callback-part draw_info g s code h.0)
        ∙ >>=-seen g' acts (Remote.remote_controller_callback code s)
            (λ s'. older_act_all-act_all acts g' s' h.1)
    older_act_all-act_all (dial ∷ acts) g s h =
        ap (λ m. m >>= older_act_all acts) (change_channel-part platform g s)
        ∙ >>=-seen g acts (Remote.change_channel platform s)
            (λ s'. older_act_all-act_all acts g s' h.1)
