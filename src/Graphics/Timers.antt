-- ===== src/Graphics/Timers.antt =====
-- How long a component stays on the screen (graphics_controller.c).
use ppu_tvi_os.Common.{ℕ, ◌≡◌, refl, ◌∙◌, ap, Bool, true, false, List, [], ◌∷◌}
use ppu_tvi_os.Common.Int.{ℤ}
use ppu_tvi_os.Graphics.{
  Timer, program_number_timer, volume_timer, info_timer, Graphics, draw_program_number,
  draw_volume_bar, draw_info_rect, remove_program_number, remove_volume_bar, remove_info,
}

-- Something that happens to the screen: a component is drawn, or a timer expires.
pub data Event : Type 0 where
  number_drawn : Event
  volume_drawn : ℕ → Event
  info_drawn : ℕ → ℕ → ℕ → ℤ → ℤ → Event
  expired : Timer → Event

abbrev pub step : Event → Graphics → Graphics
step number_drawn g = draw_program_number g
step (volume_drawn n) g = draw_volume_bar n g
step (info_drawn month day year audio video) g = draw_info_rect month day year audio video g
step (expired program_number_timer) g = remove_program_number g
step (expired volume_timer) g = remove_volume_bar g
step (expired info_timer) g = remove_info g

-- The events in order.
abbrev pub run : List Event → Graphics → Graphics
run [] g = g
run (e ∷ es) g = run es (step e g)

-- Whether the component of a timer is shown.
abbrev pub shown : Timer → Graphics → Bool
shown program_number_timer g = g.components.show_program_number
shown volume_timer g = g.components.show_volume
shown info_timer g = g.components.show_info

-- What an event says of the component of a timer, if it is about that component.
abbrev pub after : Timer → Event → Bool → Bool
after program_number_timer number_drawn b = true
after program_number_timer (expired program_number_timer) b = false
after volume_timer (volume_drawn n) b = true
after volume_timer (expired volume_timer) b = false
after info_timer (info_drawn month day year audio video) b = true
after info_timer (expired info_timer) b = false
after t e b = b

-- The last event about the component decides.
abbrev pub last_word : Timer → List Event → Bool → Bool
last_word t [] b = b
last_word t (e ∷ es) b = last_word t es (after t e b)

step-after : (t : Timer) (e : Event) (g : Graphics) → shown t (step e g) ≡ after t e (shown t g)
unfolding draw_program_number draw_volume_bar draw_info_rect remove_program_number remove_volume_bar
    remove_info
step-after program_number_timer number_drawn g = refl
step-after program_number_timer (volume_drawn n) g = refl
step-after program_number_timer (info_drawn m d y a v) g = refl
step-after program_number_timer (expired program_number_timer) g = refl
step-after program_number_timer (expired volume_timer) g = refl
step-after program_number_timer (expired info_timer) g = refl
step-after volume_timer number_drawn g = refl
step-after volume_timer (volume_drawn n) g = refl
step-after volume_timer (info_drawn m d y a v) g = refl
step-after volume_timer (expired program_number_timer) g = refl
step-after volume_timer (expired volume_timer) g = refl
step-after volume_timer (expired info_timer) g = refl
step-after info_timer number_drawn g = refl
step-after info_timer (volume_drawn n) g = refl
step-after info_timer (info_drawn m d y a v) g = refl
step-after info_timer (expired program_number_timer) g = refl
step-after info_timer (expired volume_timer) g = refl
step-after info_timer (expired info_timer) g = refl

-- After any sequence of drawings and expiries, a component is shown exactly if the last event about
-- it was its drawing, or there was none and it was shown before: the components never affect one
-- another.
pub run-last_word :
    (t : Timer) (es : List Event) (g : Graphics) → shown t (run es g) ≡ last_word t es (shown t g)
run-last_word t [] g = refl
run-last_word t (e ∷ es) g = run-last_word t es (step e g) ∙ ap (last_word t es) (step-after t e g)
