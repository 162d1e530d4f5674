-- ===== src/Graphics/Render/Frames.antt =====
-- Which frames renderThread of graphics_controller.c can draw.
use ppu_tvi_os.Common.{
  ℕ, ◌≤◌, ◌≡◌, refl, Bool, true, false, if◌then◌else◌, List, ◌∷◌, ◌++◌, length, length-append,
  codes, arith, leb, ltb,
}
use ppu_tvi_os.Graphics.{Graphics}
use ppu_tvi_os.Graphics.Device.{
  Display, Call, Progress, going, returned, ended, smashed, ◌>->◌, dfb_check, wipe_screen, flip,
}
use ppu_tvi_os.Graphics.Render.{
  print_temp, render_info, volume_image, blit_logo, render_volume, render_frame, int_text, when,
  render_video_pid,
}

abbrev pub is_smashed : Progress → Bool
is_smashed (smashed t) = true
is_smashed _ = false

abbrev pub is_going : Progress → Bool
is_going (going t) = true
is_going _ = false

-- A run that uses no memory that it must not.
pub record IsSound (p : Progress) : Type 0 where
  pub sound : is_smashed p ≡ false

-- A run that does not get to its end.
pub record Stops (p : Progress) : Type 0 where
  pub stopped : is_going p ≡ false

>->-IsSound :
    (p : Progress) (f : List Call → Progress)
    → IsSound p
    → ((t : List Call) → IsSound (f t))
    → IsSound (p >-> f)
>->-IsSound (going t) f h k = k t
>->-IsSound (returned e t) f h k = record { sound = refl }
>->-IsSound (ended t) f h k = record { sound = refl }
>->-IsSound (smashed t) f h k = h

>->-Stops : (p : Progress) (f : List Call → Progress) → Stops p → Stops (p >-> f)
>->-Stops (going t) f h = let e = h.stopped in cc
>->-Stops (returned e t) f h = record { stopped = refl }
>->-Stops (ended t) f h = record { stopped = refl }
>->-Stops (smashed t) f h = record { stopped = refl }

>->-Stops_then :
    (p : Progress) (f : List Call → Progress) → ((t : List Call) → Stops (f t)) → Stops (p >-> f)
>->-Stops_then (going t) f k = k t
>->-Stops_then (returned e t) f k = record { stopped = refl }
>->-Stops_then (ended t) f k = record { stopped = refl }
>->-Stops_then (smashed t) f k = record { stopped = refl }

-- A text of ten characters or more does not fit.
print_temp-Stops :
    (front rest : List ℕ) (t : List Call) → 10 ≤ length front → Stops (print_temp (front ++ rest) t)
unfolding print_temp
print_temp-Stops front rest t h =
    let split = length-append front rest in
    let long : ltb (length (front ++ rest)) 10 ≡ false = ground arith in
    record { stopped = rw long refl }

module _ (display : Display) where
  dfb_check-IsSound : (k : Call) (t : List Call) → IsSound (dfb_check display k t)
  unfolding dfb_check
  dfb_check-IsSound k t = by_result (display.fails t k)
    where
      by_result : (b : Bool) → IsSound (if b then ended (k ∷ t) else going (k ∷ t))
      by_result true = record { sound = refl }
      by_result false = record { sound = refl }

  wipe_screen-IsSound : (t : List Call) → IsSound (wipe_screen display t)
  unfolding wipe_screen
  wipe_screen-IsSound t = >->-IsSound _ _ (dfb_check-IsSound _ t) (λ t. dfb_check-IsSound _ t)

  volume_image-IsSound :
      (volume : ℕ) (t : List Call) → volume ≤ 10 → IsSound (volume_image display volume t)
  unfolding volume_image
  volume_image-IsSound volume t h =
      let small : leb volume 10 ≡ true = ground arith in rw small (dfb_check-IsSound _ t)

  render_volume-IsSound :
      (volume : ℕ) (t : List Call) → volume ≤ 10 → IsSound (render_volume display volume t)
  unfolding render_volume blit_logo
  render_volume-IsSound volume t h =
      >->-IsSound _ _
        (>->-IsSound _ _
          (>->-IsSound _ _
            (>->-IsSound _ _
              (>->-IsSound _ _
                (>->-IsSound _ _ (volume_image-IsSound volume t h) (λ t. dfb_check-IsSound _ t))
                (λ t. dfb_check-IsSound _ t))
              (λ t. dfb_check-IsSound _ t))
            (λ t. record { sound = refl }))
          (λ t. dfb_check-IsSound _ t))
        (λ t. dfb_check-IsSound _ t)

  when-IsSound :
      (shown : Bool) (f : List Call → Progress) (t : List Call)
      → IsSound (f t)
      → IsSound (when shown f t)
  when-IsSound true f t h = h
  when-IsSound false f t h = record { sound = refl }

  -- A frame without the information box and with a volume of at most 10 is sound.
  pub render_frame-IsSound :
      (g : Graphics) (t : List Call)
      → g.components.volume ≤ 10
      → g.components.show_info ≡ false
      → IsSound (render_frame display g t)
  unfolding render_frame
  render_frame-IsSound g t low hidden =
      >->-IsSound
        (wipe_screen display t
          >-> when g.components.show_volume (render_volume display g.components.volume)
          >-> when g.components.show_info (render_info display g))
        (dfb_check display flip)
        (>->-IsSound _ _
          (>->-IsSound _ _ (wipe_screen-IsSound t) (λ t.
            when-IsSound g.components.show_volume (render_volume display g.components.volume) t
              (render_volume-IsSound g.components.volume t low)))
          (λ t. rw hidden (record { sound = refl })))
        (λ t. dfb_check-IsSound _ t)

  -- The text of the video pid alone has twelve characters and its digits.
  render_info-Stops : (g : Graphics) (t : List Call) → Stops (render_info display g t)
  unfolding render_info render_video_pid
  render_info-Stops g t = >->-Stops _ _ (
      >->-Stops _ _ (
        >->-Stops_then _ _ (λ t. >->-Stops _ _ (
          print_temp-Stops (codes "Video PID : ") (int_text g.video_pid_to_draw) t (omega arith)))))

  when-Stops :
      (shown : Bool) (f : List Call → Progress) (t : List Call)
      → shown ≡ true
      → Stops (f t)
      → Stops (when shown f t)
  when-Stops true f t e h = h
  when-Stops false f t e h = cc

  -- A frame with the information box is never completed.
  pub render_frame-Stops :
      (g : Graphics) (t : List Call)
      → g.components.show_info ≡ true
      → Stops (render_frame display g t)
  unfolding render_frame
  render_frame-Stops g t shown = >->-Stops _ _ (
      >->-Stops_then _ (when g.components.show_info (render_info display g)) (λ t.
        when-Stops g.components.show_info (render_info display g) t shown (render_info-Stops g t)))
