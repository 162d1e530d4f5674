-- ===== src/App/Remote/Ready.antt =====
-- The remote controller's keys over the whole application: none of them brings it down, and what it
-- shows of the volume is what the stream controller has set (tv_app.c, stream_controller.c,
-- graphics_controller.c).
use ppu_tvi_os.Common.{
  ℕ, ◌≤◌, ◌≡◌, refl, true, false, List, [], ◌∷◌, some, none, Option, arith, if◌then◌else◌, Bool, ap,
  ◌∙◌, sym,
}
use ppu_tvi_os.Common.Int.{ℤ}
use ppu_tvi_os.Common.Outcome.{Outcome, done, ◌>>=◌, Returns}
use ppu_tvi_os.Tables.Pat.{PatTable}
use ppu_tvi_os.Stream.State.{Controller, sc_no_error}
use ppu_tvi_os.Stream.Volume.{volume_up, volume_down}
use ppu_tvi_os.Stream.Volume.Level.{up, down, mute, told, press_lem}
use ppu_tvi_os.Stream.Channels.{next_up, next_down, channel_up, channel_down}
use ppu_tvi_os.Graphics.{draw_program_number, draw_volume_bar}
use ppu_tvi_os.RemoteController.Events.{press_each}
use ppu_tvi_os.App.Remote.{
  System, volume_key, mute_key, info_key, program_up_key, program_down_key, digit_key, digit_of,
  remote_controller_callback,
}

-- A PAT has been received, the volume callback is registered, and the stream controller has a level
-- of at most 10, on which the application agrees; a volume bar on the screen is no longer.
pub record IsReady (s : System) : Type 0 where
  pub pat : PatTable
  pub loaded : s.controller.pat_table ≡ some pat
  pub registered : s.controller.volume_report_callback ≡ true
  pub level : s.controller.current_volume ≤ 10
  pub agreed : s.current_volume ≡ s.controller.current_volume
  pub bar : s.graphics.components.volume ≤ 10

-- What the volume keys leave: a controller on level `n`, and `n` on the screen.
abbrev showing : ℕ → Controller → System → System
showing n c s = record s {
  controller = c;
  current_volume = n;
  graphics = draw_volume_bar n s.graphics;
}

showing-IsReady :
    (n : ℕ) (c : Controller) (s : System) (pat : PatTable)
    → c.pat_table ≡ some pat
    → c.volume_report_callback ≡ true
    → c.current_volume ≡ n
    → n ≤ 10
    → IsReady (showing n c s)
unfolding draw_volume_bar
showing-IsReady n c s pat loaded registered level low = record {
  pat = pat;
  loaded = loaded;
  registered = registered;
  level = omega arith;
  agreed = omega arith;
  bar = low;
}

-- The controller may step to another channel, and the rest of the application change, but for the
-- volume.
pub moved-IsReady :
    (s s' : System) (r : IsReady s)
    → s'.controller.pat_table ≡ s.controller.pat_table
    → s'.controller.volume_report_callback ≡ s.controller.volume_report_callback
    → s'.controller.current_volume ≡ s.controller.current_volume
    → s'.current_volume ≡ s.current_volume
    → s'.graphics.components.volume ≡ s.graphics.components.volume
    → IsReady s'
moved-IsReady s s' r table callback level shown bar = record {
  pat = r.pat;
  loaded = table ∙ r.loaded;
  registered = callback ∙ r.registered;
  level = omega (arith, r.level);
  agreed = shown ∙ r.agreed ∙ sym level;
  bar = omega (arith, r.bar);
}

-- The controller that is to start a channel.
abbrev tuning : ℤ → Controller → Controller
tuning channel c = record c { program_number = channel; change_channel = true }

channel_up_lem :
    (c : Controller) (pat : PatTable)
    → c.pat_table ≡ some pat
    → channel_up c ≡ done (sc_no_error, tuning (next_up c.program_number pat.service_info_count) c)
unfolding channel_up
channel_up_lem c pat loaded = rw loaded

channel_down_lem :
    (c : Controller) (pat : PatTable)
    → c.pat_table ≡ some pat
    → channel_down c
      ≡ done (sc_no_error, tuning (next_down c.program_number pat.service_info_count) c)
unfolding channel_down
channel_down_lem c pat loaded = rw loaded

module _ (s : System) (r : IsReady s) where
  volume_up-IsReady : Returns (volume_key volume_up s) IsReady
  unfolding volume_key
  volume_up-IsReady =
      let (ran, low) = press_lem up s.controller r.level r.registered in
      let c = told up s.controller in
      rw ran (
        showing c.current_volume c s,
        refl,
        showing-IsReady c.current_volume c s r.pat r.loaded r.registered refl low,
      )

  volume_down-IsReady : Returns (volume_key volume_down s) IsReady
  unfolding volume_key
  volume_down-IsReady =
      let (ran, low) = press_lem down s.controller r.level r.registered in
      let c = told down s.controller in
      rw ran (
        showing c.current_volume c s,
        refl,
        showing-IsReady c.current_volume c s r.pat r.loaded r.registered refl low,
      )

  mute_key-IsReady : Returns (mute_key s) IsReady
  unfolding mute_key
  mute_key-IsReady =
      let (ran, low) = press_lem mute s.controller r.level r.registered in
      rw ran (
        showing 0 (told mute s.controller) s,
        refl,
        showing-IsReady 0 (told mute s.controller) s r.pat r.loaded r.registered refl low,
      )

  info_key-IsReady : Returns (info_key s) IsReady
  unfolding info_key
  info_key-IsReady = (_, refl, moved-IsReady s _ r refl refl refl refl refl)

  program_up_key-IsReady : Returns (program_up_key s) IsReady
  unfolding program_up_key
  program_up_key-IsReady =
      let s' = record s {
        controller =
            tuning (next_up s.controller.program_number r.pat.service_info_count) s.controller;
        graphics = draw_program_number s.graphics;
      } in
      rw (channel_up_lem s.controller r.pat r.loaded)
        (s', refl, moved-IsReady s s' r refl refl refl refl refl)

  program_down_key-IsReady : Returns (program_down_key s) IsReady
  unfolding program_down_key
  program_down_key-IsReady =
      let s' = record s {
        controller =
            tuning (next_down s.controller.program_number r.pat.service_info_count) s.controller;
      } in
      rw (channel_down_lem s.controller r.pat r.loaded)
        (s', refl, moved-IsReady s s' r refl refl refl refl refl)

  exit_key-IsReady : Returns (done (record s { exit_signalled = true })) IsReady
  exit_key-IsReady = (_, refl, moved-IsReady s _ r refl refl refl refl refl)

  digit_key-IsReady :
      (typed : Option ℕ)
      → Returns (elim typed [ some key ↦ digit_key key s | none ↦ done s ]) IsReady
  unfolding digit_key
  digit_key-IsReady none = (s, refl, r)
  digit_key-IsReady (some key) = (_, refl, moved-IsReady s _ r refl refl refl refl refl)

-- A conditional of two codes that both return.
if-Returns :
    (b : Bool) (m k : Outcome System)
    → Returns m IsReady
    → Returns k IsReady
    → Returns (if b then m else k) IsReady
if-Returns true m k hm hk = hm
if-Returns false m k hm hk = hk

-- Whatever key is pressed on a ready application, its handler returns, and leaves it ready: a PAT is
-- loaded, the volume callback is registered, the level is at most 10, and the application's volume
-- is the stream controller's.
pub remote_controller_callback-IsReady :
    (code : ℕ) (s : System) → IsReady s → Returns (remote_controller_callback code s) IsReady
unfolding remote_controller_callback
remote_controller_callback-IsReady code s r = if-Returns _ _ _ (info_key-IsReady s r) (
    if-Returns _ _ _ (program_up_key-IsReady s r) (
      if-Returns _ _ _ (program_down_key-IsReady s r) (
        if-Returns _ _ _ (volume_up-IsReady s r) (
          if-Returns _ _ _ (volume_down-IsReady s r) (
            if-Returns _ _ _ (mute_key-IsReady s r)
              (if-Returns _ _ _ (exit_key-IsReady s r) (digit_key-IsReady s r (digit_of code))))))))

-- One key after the other.
abbrev pub press_codes : List ℕ → System → Outcome System
press_codes = press_each remote_controller_callback

-- On a ready application, with a loaded PAT, a registered volume callback and an agreed level and a
-- volume bar of at most 10, any sequence of keys runs to its end without a fault and leaves it ready:
-- the volume bar, the application's volume and the stream controller's level stay within 10, and the
-- last two equal.
pub press_codes-IsReady :
    (codes : List ℕ) (s : System) → IsReady s → Returns (press_codes codes s) IsReady
press_codes-IsReady [] s r = (s, refl, r)
press_codes-IsReady (code ∷ codes) s r =
    let (s1, ran, r1) = remote_controller_callback-IsReady code s r in
    let (s2, ran', r2) = press_codes-IsReady codes s1 r1 in
    (s2, ap (λ m. m >>= press_codes codes) ran ∙ ran', r2)
