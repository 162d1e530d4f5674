-- ===== src/Graphics/Device.antt =====
-- graphicsControllerInit, setTimerParams, graphicsControllerDeinit and wipeScreen of
-- graphics_controller.c, over the calls of DirectFB, of the timers and of the threads.
pub mod Opened
use ppu_tvi_os.Common.{ℕ, Bool, true, false, if◌then◌else◌, List, ◌∷◌}
use ppu_tvi_os.Common.Int.{ℤ, pos}
use ppu_tvi_os.Common.Outcome.{Outcome, done, out_of_fuel}
use ppu_tvi_os.Graphics.{Graphics, Timer, program_number_timer, volume_timer, info_timer, hidden}

-- `GraphicsControllerError`
pub data GraphicsControllerError : Type 0 where
  gc_no_error gc_error gc_thread_error : GraphicsControllerError

-- The calls, with the arguments that the source computes.
pub data Call : Type 0 where
  direct_fb_init direct_fb_create set_cooperative_level create_primary get_screen_size : Call
  create_font set_font create_thread join_thread release_primary release_interface : Call
  create_timer : Timer → ℕ → Call  -- with its seconds
  delete_timer : Timer → Call
  create_image_provider : ℕ → Call  -- of volume_<n>.png
  get_surface_description create_surface render_to release_provider get_size : Call
  blit : ℤ → ℤ → Call
  set_color : ℕ → ℕ → ℕ → ℕ → Call
  fill_rectangle : ℕ → ℕ → ℕ → ℕ → Call
  draw_string : List ℕ → ℤ → ℤ → Call
  flip signal_end : Call

-- The display: which calls fail, the size of the screen, and that of the image that was loaded last,
-- each depending on the calls made so far, the latest first.
pub record Display : Type 0 where
  pub fails : List Call → Call → Bool
  pub screen_width : ℕ
  pub screen_height : ℕ
  pub logo_width : List Call → ℕ

-- A run over the calls: it goes on, it has returned an error, DFBCHECK has ended the program, or it
-- has used memory that it must not (a write behind a buffer, a released object).
pub data Progress : Type 0 where
  going : List Call → Progress
  returned : GraphicsControllerError → List Call → Progress
  ended : List Call → Progress
  smashed : List Call → Progress

infixl 5 ◌>->◌
abbrev pub ◌>->◌ : Progress → (List Call → Progress) → Progress
going t >-> f = f t
returned e t >-> f = returned e t
ended t >-> f = ended t
smashed t >-> f = smashed t

-- A call whose result is not looked at.
abbrev pub call : Call → List Call → Progress
call k t = going (k ∷ t)

module _ (display : Display) where
  -- DFBCHECK
  unfoldable pub dfb_check : Call → List Call → Progress
  dfb_check k t = if display.fails t k then ended (k ∷ t) else going (k ∷ t)

  -- `if (call) return error;`
  unfoldable pub or_return : GraphicsControllerError → Call → List Call → Progress
  or_return e k t = if display.fails t k then returned e (k ∷ t) else going (k ∷ t)

  -- setTimerParams: the three timers, and how long each one runs when it is set.
  unfoldable pub set_timer_params : List Call → Progress
  set_timer_params t =
      call (create_timer program_number_timer 4) t
      >-> call (create_timer volume_timer 3)
      >-> call (create_timer info_timer 3)

  -- The calls of graphicsControllerInit behind setTimerParams.
  unfoldable pub open_screen : List Call → Progress
  open_screen t =
      or_return gc_error direct_fb_create t
      >-> or_return gc_error set_cooperative_level
      >-> or_return gc_error create_primary
      >-> or_return gc_error get_screen_size
      >-> dfb_check create_font
      >-> dfb_check set_font
      >-> or_return gc_thread_error create_thread

  -- graphicsControllerInit: its calls, and the components that it hides once DirectFB has started.
  unfoldable pub graphics_controller_init : Graphics → List Call → Progress × Graphics
  graphics_controller_init g t =
      if display.fails t direct_fb_init
      then (returned gc_error (direct_fb_init ∷ t), g)
      else (set_timer_params (direct_fb_init ∷ t) >-> open_screen, record g { components = hidden })

  -- graphicsControllerDeinit: it asks renderThread to stop, and waits for graphicsCond. The first
  -- argument says whether renderThread signals it during the wait; without the signal the wait has no
  -- end.
  unfoldable pub graphics_controller_deinit :
      Bool → Graphics → List Call → Outcome (Progress × Graphics)
  graphics_controller_deinit false g t = out_of_fuel
  graphics_controller_deinit true g t = done (
    or_return gc_thread_error join_thread t
        >-> call (delete_timer program_number_timer)
        >-> call (delete_timer volume_timer)
        >-> call (delete_timer info_timer)
        >-> call release_primary
        >-> call release_interface,
    record g { stop_drawing = true },
  )

  unfoldable pub wipe_screen : List Call → Progress
  wipe_screen t =
      dfb_check (set_color 0 0 0 0) t
      >-> dfb_check (fill_rectangle 0 0 display.screen_width display.screen_height)
