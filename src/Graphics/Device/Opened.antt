-- ===== src/Graphics/Device/Opened.antt =====
-- A graphicsControllerInit of graphics_controller.c that goes on to its end.
use ppu_tvi_os.Common.{Bool, true, false, ◌≡◌, refl, if◌then◌else◌, List, ◌∷◌}
use ppu_tvi_os.Graphics.{Graphics, hidden}
use ppu_tvi_os.Graphics.Device.{
  Display, Call, Progress, going, returned, ended, smashed, ◌>->◌, GraphicsControllerError,
  gc_error, gc_thread_error, direct_fb_init, create_thread, or_return, open_screen,
  set_timer_params, graphics_controller_init,
}

-- What graphicsControllerInit has called last, if it goes on.
or_return-going :
    (display : Display) (e : GraphicsControllerError) (k : Call) (before t : List Call)
    → or_return display e k before ≡ going t
    → t ≡ k ∷ before
unfolding or_return
or_return-going display e k before t = by_result (display.fails before k)
  where
    by_result :
        (b : Bool)
        → (if b then returned e (k ∷ before) else going (k ∷ before)) ≡ going t
        → t ≡ k ∷ before
    by_result true h = cc
    by_result false h = cc

>->-going :
    (p : Progress) (f : List Call → Progress) (t : List Call)
    → (p >-> f) ≡ going t
    → (before : List Call) × (f before ≡ going t)
>->-going (going before) f t h = (before, h)
>->-going (returned e before) f t h = cc
>->-going (ended before) f t h = cc
>->-going (smashed before) f t h = cc

pub graphics_controller_init-going :
    (display : Display) (g : Graphics) (calls t : List Call)
    → (graphics_controller_init display g calls).0 ≡ going t
    → ((graphics_controller_init display g calls).1.components ≡ hidden)
      × ((before : List Call) × (t ≡ create_thread ∷ before))
unfolding graphics_controller_init open_screen
graphics_controller_init-going display g calls t = by_result (display.fails calls direct_fb_init)
  where
    screen : Progress
    screen = set_timer_params display (direct_fb_init ∷ calls) >-> open_screen display

    by_result :
        (b : Bool)
        → (let (p, g') : Progress × Graphics =
              if b
              then (returned gc_error (direct_fb_init ∷ calls), g)
              else (screen, record g { components = hidden }) in
            p)
          ≡ going t
        → ((let (p, g') : Progress × Graphics =
                if b
                then (returned gc_error (direct_fb_init ∷ calls), g)
                else (screen, record g { components = hidden }) in
              g').components
            ≡ hidden)
          × ((before : List Call) × (t ≡ create_thread ∷ before))
    by_result true h = cc
    by_result false h =
        let (begun, opened) = >->-going _ (open_screen display) t h in
        let (before, made) =
          >->-going _ (or_return display gc_thread_error create_thread) t opened in
        (refl, (before, or_return-going display gc_thread_error create_thread before t made))
