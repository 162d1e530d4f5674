-- ===== src/App/Television/Channels.antt =====
-- The channel keys of the application on a television (tv_app.c, stream_controller.c).
use ppu_tvi_os.Common.{ℕ, ◌+◌, ◌-◌, ◌≤◌, ◌<◌, ◌≡◌, refl, ap, ◌∙◌, arith}
use ppu_tvi_os.Common.Int.{pos}
use ppu_tvi_os.Common.Outcome.{Outcome, done, Returns}
use ppu_tvi_os.Stream.Channels.Zapping.{ZapKey, turn}
use ppu_tvi_os.Stream.Channels.Zapping
use ppu_tvi_os.Graphics.{draw_program_number}
use ppu_tvi_os.App.Remote.{System}
use ppu_tvi_os.App.Remote.Neighbour.{zap_key, zapped, zap_key-turn}
use ppu_tvi_os.App.Television.{Television, Button, zap, push, IsTuned, Shows}

-- The handler's result shows the television behind a button.
abbrev pub Does : ℕ → Button → Television → Outcome System → Type 0
Does m b tv run = Returns run (λ s'. Shows m s' (push m b tv))

turn-lt : (key : ZapKey) (n m : ℕ) → n < m → turn m key n < m
turn-lt Zapping.up n m h = omega arith
turn-lt Zapping.down n m h = omega arith

module _ (m : ℕ) (s : System) (tv : Television) (h : Shows m s tv) where
  -- A channel of the ring has a service behind it.
  room : tv.selected + 2 ≤ h.tuned.pat.service_info_count
  room = let t = h.tuned in omega (arith, t.channels, t.within)

  ring : h.tuned.pat.service_info_count - 1 ≡ m
  ring = let t = h.tuned in omega (arith, t.channels)

  turned :
      (key : ZapKey)
      → IsTuned m s.controller.pat_table (pos (turn m key tv.selected)) (turn m key tv.selected)
  turned key =
      let t = h.tuned in
      record {
        pat = t.pat;
        loaded = t.loaded;
        channels = t.channels;
        place = refl;
        within = turn-lt key tv.selected m t.within;
      }

  zap_key-zapped : (key : ZapKey) → zap_key key s ≡ done (zapped key s (turn m key tv.selected))
  zap_key-zapped key =
      zap_key-turn key s h.tuned.pat tv.selected h.tuned.loaded h.tuned.place room
      ∙ ap (λ k. done (zapped key s (turn k key tv.selected))) ring

  pub zap-Does : (key : ZapKey) → Does m (zap key) tv (zap_key key s)
  unfolding draw_program_number
  zap-Does Zapping.up = (
    zapped Zapping.up s (turn m Zapping.up tv.selected),
    zap_key-zapped Zapping.up,
    record {
      tuned = turned Zapping.up;
      tuning = refl;
      heard = h.heard;
      seen = record { bar = h.seen.bar; number = refl; info = h.seen.info };
      timer = h.timer;
      typed = h.typed;
      leaving = h.leaving;
    },
  )
  zap-Does Zapping.down = (
    zapped Zapping.down s (turn m Zapping.down tv.selected),
    zap_key-zapped Zapping.down,
    record {
      tuned = turned Zapping.down;
      tuning = refl;
      heard = h.heard;
      seen = record { bar = h.seen.bar; number = h.seen.number; info = h.seen.info };
      timer = h.timer;
      typed = h.typed;
      leaving = h.leaving;
    },
  )
