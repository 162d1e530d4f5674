-- ===== src/App/Television/Sounds.antt =====
-- The volume keys of the application on a television (tv_app.c, stream_controller.c).
use ppu_tvi_os.Common.{ℕ, ◌≤◌, ◌≡◌, refl, ap, ◌∙◌, some, arith}
use ppu_tvi_os.Common.Outcome.{done}
use ppu_tvi_os.Stream.State.{Controller}
use ppu_tvi_os.Stream.Volume.{volume_up, volume_down}
use ppu_tvi_os.Stream.Volume.Level.{VolumeKey, level, told, press, press_lem}
use ppu_tvi_os.Stream.Volume.Level
use ppu_tvi_os.Graphics.{draw_volume_bar}
use ppu_tvi_os.App.Remote.{System, volume_key, mute_key}
use ppu_tvi_os.App.Television.{Television, sound, push, Shows}
use ppu_tvi_os.App.Television.Channels.{Does}

module _ (m : ℕ) (s : System) (tv : Television) (h : Shows m s tv) where
  -- What is shown once a volume key has set the level.
  sounding :
      (key : VolumeKey) (n : ℕ) (c : Controller)
      → n ≡ level key tv.volume
      → c.pat_table ≡ s.controller.pat_table
      → c.program_number ≡ s.controller.program_number
      → c.change_channel ≡ s.controller.change_channel
      → c.volume_report_callback ≡ s.controller.volume_report_callback
      → c.current_volume ≡ n
      → Shows m
          (record s { controller = c; current_volume = n; graphics = draw_volume_bar n s.graphics })
          (push m (sound key) tv)
  unfolding draw_volume_bar
  sounding key n c known table program change callback volume =
      let t = h.tuned in
      record {
        tuned = record {
          pat = t.pat;
          loaded = table ∙ t.loaded;
          channels = t.channels;
          place = program ∙ t.place;
          within = t.within;
        };
        tuning = change ∙ h.tuning;
        heard = record {
          callback = callback ∙ h.heard.callback;
          played = volume ∙ known;
          agreed = known;
          low = level-le key tv.volume h.heard.low;
        };
        seen = record { bar = ap some known; number = h.seen.number; info = h.seen.info };
        timer = h.timer;
        typed = h.typed;
        leaving = h.leaving;
      }
    where
      level-le : (key : VolumeKey) (n : ℕ) → n ≤ 10 → level key n ≤ 10
      level-le Level.up n low = omega arith
      level-le Level.down n low = omega arith
      level-le Level.mute n low = omega arith

  -- The level that a key sets is that of the television.
  level-known : (key : VolumeKey) → level key s.controller.current_volume ≡ level key tv.volume
  level-known key = ap (level key) h.heard.played

  told-done :
      (key : VolumeKey)
      → (press key s.controller ≡ done (told key s.controller))
        × (level key s.controller.current_volume ≤ 10)
  told-done key =
      press_lem key s.controller (omega (arith, h.heard.played, h.heard.low)) h.heard.callback

  pub volume_up-Does : Does m (sound Level.up) tv (volume_key volume_up s)
  unfolding volume_key
  volume_up-Does = rw (told-done Level.up).0 (
    _,
    refl,
    sounding Level.up _ (told Level.up s.controller) (level-known Level.up) refl refl refl refl
        refl,
  )

  pub volume_down-Does : Does m (sound Level.down) tv (volume_key volume_down s)
  unfolding volume_key
  volume_down-Does = rw (told-done Level.down).0 (
    _,
    refl,
    sounding Level.down _ (told Level.down s.controller) (level-known Level.down) refl refl refl
        refl refl,
  )

  pub mute_key-Does : Does m (sound Level.mute) tv (mute_key s)
  unfolding mute_key
  mute_key-Does =
      rw (told-done Level.mute).0 (
        _,
        refl,
        sounding Level.mute 0 (told Level.mute s.controller) refl refl refl refl refl refl,
      )
