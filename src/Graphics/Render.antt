-- ===== src/Graphics/Render.antt =====
-- renderThread of graphics_controller.c: the calls that draw a frame, and the texts that it formats
-- into `char tempString[10]`.
pub mod Frames
use ppu_tvi_os.Common.{
  ℕ, zero, suc, ◌+◌, ◌-◌, ◌*◌, ◌/◌, ◌%◌, Bool, true, false, ltb, leb, ◌==◌, if◌then◌else◌, List, [],
  ◌∷◌, ◌++◌, length, codes,
}
use ppu_tvi_os.Common.Int.{ℤ, pos, negsuc, ◌-ℤ◌}
use ppu_tvi_os.Graphics.{Graphics}
use ppu_tvi_os.Graphics.Device.{
  Display, Call, Progress, going, smashed, ◌>->◌, call, dfb_check, wipe_screen,
  create_image_provider, get_surface_description, create_surface, render_to, release_provider,
  get_size, blit, set_color, fill_rectangle, draw_string, flip, signal_end,
}

-- `%d` of a number of at most `fuel` digits.
unfoldable pub digits_text : ℕ → ℕ → List ℕ
digits_text zero n = (48 + n % 10) ∷ []
digits_text (suc fuel) n =
    let high = digits_text fuel (n / 10) in
    if ltb n 10 then (48 + n) ∷ [] else high ++ ((48 + n % 10) ∷ [])

-- `%d` of an int16_t.
unfoldable pub int_text : ℤ → List ℕ
int_text (pos n) = digits_text 4 n
int_text (negsuc n) = 45 ∷ digits_text 4 (n + 1)

-- `%.2d` and `%.4d`: the last digits, with zeros in front of them.
unfoldable pub zeros : ℕ → List ℕ
zeros zero = []
zeros (suc n) = 48 ∷ zeros n

unfoldable pub padded : ℕ → ℕ → List ℕ
unfolding zeros
padded width n = let text = digits_text 4 n in zeros (width - length text) ++ text

-- The `switch` on the month; on another value tempString keeps its text.
unfoldable pub month_text : ℕ → List (List ℕ)
month_text month =
    if month == 1
    then codes "January" ∷ []
    else if month == 2
    then codes "February" ∷ []
    else if month == 3
    then codes "March" ∷ []
    else if month == 4
    then codes "April" ∷ []
    else if month == 5
    then codes "May" ∷ []
    else if month == 6
    then codes "June" ∷ []
    else if month == 7
    then codes "July" ∷ []
    else if month == 8
    then codes "August" ∷ []
    else if month == 9
    then codes "September" ∷ []
    else if month == 10
    then codes "October" ∷ []
    else if month == 11
    then codes "November" ∷ []
    else if month == 12
    then codes "December" ∷ []
    else []

-- The text of the date, or the text that tempString has had.
unfoldable pub date_text : List ℕ → Graphics → List ℕ
date_text before g =
    if g.year_to_draw == 0
    then codes "Date not available"
    else elim (month_text g.tmp_month_to_draw) [
      | [] ↦ before
      | name ∷ _ ↦
          name ++ codes "/" ++ padded 2 g.day_to_draw ++ codes "/" ++ padded 4 g.year_to_draw
    ]

-- `sprintf(tempString, …)`: a text and its closing 0 must fit into ten characters.
unfoldable pub print_temp : List ℕ → List Call → Progress
print_temp text t = if ltb (length text) 10 then going t else smashed t

-- `if (shown) { … }`
abbrev pub when : Bool → (List Call → Progress) → List Call → Progress
when true f t = f t
when false f t = going t

module _ (display : Display) where
  -- The `switch` on the volume; on another value the provider of before, which has been released,
  -- or NULL is used.
  unfoldable pub volume_image : ℕ → List Call → Progress
  volume_image volume t =
      if leb volume 10 then dfb_check display (create_image_provider volume) t else smashed t

  unfoldable pub blit_logo : List Call → Progress
  blit_logo t =
      let left = pos display.screen_width -ℤ pos (display.logo_width t) -ℤ pos 100 in
      dfb_check display (blit left (pos 350)) t

  unfoldable pub render_volume : ℕ → List Call → Progress
  render_volume volume t =
      volume_image volume t
      >-> dfb_check display get_surface_description
      >-> dfb_check display create_surface
      >-> dfb_check display render_to
      >-> call release_provider
      >-> dfb_check display get_size
      >-> blit_logo

  -- A text in the information box, at a height on the screen.
  unfoldable pub render_text : List ℕ → ℤ → List Call → Progress
  render_text text top t =
      dfb_check display (draw_string text (pos (3 * display.screen_width / 9) -ℤ pos 50) top) t

  -- The rectangle of the information box.
  unfoldable pub info_rectangle : List Call → Progress
  info_rectangle t =
      let w = display.screen_width in
      let h = display.screen_height in
      call (set_color 0xe0 0x91 0xd7 0xEF) t
      >-> call (fill_rectangle (3 * w / 10) (3 * h / 4) (4 * w / 10) (h / 5))
      >-> dfb_check display (set_color 0x00 0x00 0x00 0xFF)

  unfoldable pub render_video_pid : Graphics → List Call → Progress
  render_video_pid g t =
      print_temp (codes "Video PID : " ++ int_text g.video_pid_to_draw) t
      >-> render_text (codes "Video PID : " ++ int_text g.video_pid_to_draw)
          (pos (3 * display.screen_height / 4 + 40))

  unfoldable pub render_audio_pid : Graphics → List Call → Progress
  render_audio_pid g t =
      print_temp (codes "Audio PID : " ++ int_text g.audio_pid_to_draw) t
      >-> render_text (codes "Audio PID : " ++ int_text g.audio_pid_to_draw)
          (pos (3 * display.screen_height / 4 + 80))

  unfoldable pub render_date : Graphics → List Call → Progress
  render_date g t =
      let date = date_text (codes "Audio PID : " ++ int_text g.audio_pid_to_draw) g in
      print_temp date t >-> render_text date (pos display.screen_height -ℤ pos 60)

  unfoldable pub render_info : Graphics → List Call → Progress
  render_info g t = info_rectangle t >-> render_video_pid g >-> render_audio_pid g >-> render_date g

  unfoldable pub render_frame : Graphics → List Call → Progress
  render_frame g t =
      wipe_screen display t
      >-> when g.components.show_volume (render_volume g.components.volume)
      >-> when g.components.show_info (render_info g)
      >-> dfb_check display flip

  -- renderThread, over the states that it finds at its tests of stopDrawing: once that is set it
  -- signals graphicsCond. Behind the last of the states it draws on.
  unfoldable pub render_thread : List Graphics → List Call → Progress
  render_thread [] t = going t
  render_thread (g ∷ states) t =
      let drawn = render_frame g t >-> render_thread states in
      if g.stop_drawing then call signal_end t else drawn
